-- ===== src/Scopes/Table.antt =====
-- `Scope` of compiler/symbol_table.go and its methods. Scopes point at one another, so they stand in
-- a store: a pointer is a place in it. No code here changes a symbol, so symbols are values.
use serv_lang.Prelude.{
  ℕ, zero, suc, Bool, true, false, List, [], ◌∷◌, ◌++◌, Option, none, some, Bytes, codes, equal,
  length, if◌then◌else◌,
}
use serv_lang.Lexer.Token.{Token}

-- The token is `none` for the zero value of its type.
pub record Symbol : Type 0 where
  pub name : Bytes
  pub kind : Bytes
  pub data_type : Bytes
  pub token : Option Token
  pub used : Bool

pub record Scope : Type 0 where
  pub parent : Option ℕ
  pub symbols : List (Bytes × Symbol)
  pub children : List ℕ

abbrev pub Store : Type 0
Store = List Scope

abbrev pub empty_scope : Option ℕ → Scope
empty_scope parent = record { parent = parent; symbols = []; children = [] }

-- The scope that a pointer points at.
unfoldable pub scope_at : Store → ℕ → Option Scope
scope_at [] i = none
scope_at (s ∷ ss) zero = some s
scope_at (s ∷ ss) (suc i) = scope_at ss i

unfoldable pub change_at : (Scope → Scope) → Store → ℕ → Store
change_at f [] i = []
change_at f (s ∷ ss) zero = f s ∷ ss
change_at f (s ∷ ss) (suc i) = s ∷ change_at f ss i

-- `s.Symbols[name]`
unfoldable pub find_symbol : Bytes → List (Bytes × Symbol) → Option Symbol
unfolding equal
find_symbol name [] = none
find_symbol name ((key, sym) ∷ rest) = if equal key name then some sym else find_symbol name rest

unfoldable pub add_child : ℕ → Scope → Scope
add_child child s = record s { children = s.children ++ (child ∷ []) }

unfoldable pub adopt : Option ℕ → ℕ → Store → Store
unfolding change_at add_child
adopt none child store = store
adopt (some p) child store = change_at (add_child child) store p

-- `NewScope`
unfoldable pub new_scope : Option ℕ → Store → ℕ × Store
unfolding adopt
new_scope parent store =
    let fresh = length store in (fresh, adopt parent fresh store ++ (empty_scope parent ∷ []))

unfoldable pub symbols_of : Option Scope → List (Bytes × Symbol)
symbols_of none = []
symbols_of (some s) = s.symbols

unfoldable pub parent_of : Option Scope → Option ℕ
parent_of none = none
parent_of (some s) = s.parent

-- `LookupLocal`
unfoldable pub lookup_local : Store → ℕ → Bytes → Option Symbol
unfolding find_symbol symbols_of scope_at
lookup_local store i name = find_symbol name (symbols_of (scope_at store i))

unfoldable pub put_symbol : Symbol → Scope → Scope
put_symbol sym s = record s { symbols = (sym.name, sym) ∷ s.symbols }

unfoldable pub insert_unless : Option Symbol → Symbol → ℕ → Store → Bool × Store
unfolding put_symbol change_at
insert_unless (some old) sym i store = (false, store)
insert_unless none sym i store = (true, change_at (put_symbol sym) store i)

-- `Insert`
unfoldable pub insert : Store → ℕ → Symbol → Bool × Store
unfolding insert_unless lookup_local
insert store i sym = insert_unless (lookup_local store i sym.name) sym i store

unfoldable pub found_or : Option Symbol → Option Symbol → Option Symbol
found_or (some sym) rest = some sym
found_or none rest = rest

-- The loop of `Lookup`, with fuel for as many scopes as it may pass.
unfoldable pub lookup_loop : ℕ → Store → Option ℕ → Bytes → Option Symbol
unfolding lookup_local found_or parent_of scope_at
lookup_loop fuel store none name = none
lookup_loop zero store (some i) name = none
lookup_loop (suc fuel) store (some i) name =
    found_or (lookup_local store i name)
      (lookup_loop fuel store (parent_of (scope_at store i)) name)

-- `Lookup`
unfoldable pub lookup : Store → ℕ → Bytes → Option Symbol
unfolding lookup_loop
lookup store i name = lookup_loop (length store) store (some i) name

unfoldable pub is_some : Option Symbol → Bool
is_some none = false
is_some (some sym) = true

-- The methods of `Codegen` on its current scope `current`.
abbrev pub variable : Bytes → Bytes → Symbol
variable name data_type = record {
  name = name;
  kind = codes "variable";
  data_type = data_type;
  token = none;
  used = false;
}

unfoldable pub declare_typed_var : Store → ℕ → Bytes → Bytes → Store
unfolding insert
declare_typed_var store current name data_type = (insert store current (variable name data_type)).1

unfoldable pub declare_var : Store → ℕ → Bytes → Store
unfolding declare_typed_var
declare_var store current name = declare_typed_var store current name []

unfoldable pub is_declared : Store → ℕ → Bytes → Bool
unfolding lookup is_some
is_declared store current name = is_some (lookup store current name)
