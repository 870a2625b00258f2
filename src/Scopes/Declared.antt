-- ===== src/Scopes/Declared.antt =====
-- The invariant through `Insert`, and the declarations of `Codegen`.
use serv_lang.Prelude.{
  ℕ, ◌<◌, ◌≡◌, ◌∙◌, refl, sym, ap, true, Option, none, some, Bytes, length, arith,
}
use serv_lang.Scopes.Table.{
  Store, Symbol, put_symbol, lookup_local, insert, insert_unless, lookup, is_some, variable,
  declare_typed_var, is_declared,
}
use serv_lang.Scopes.Heap.{IsTree, parent_of-change_at}
use serv_lang.Scopes.Lookup.{lookup_loop_first, lookup-put_symbol}

insert_unless-IsTree :
    (o : Option Symbol) (store : Store) (i : ℕ) (new : Symbol)
    → IsTree store
    → IsTree (insert_unless o new i store).1
unfolding insert_unless put_symbol
insert_unless-IsTree (some old) store i new tree j p e = tree j p e
insert_unless-IsTree none store i new tree j p e =
    tree j p (sym (parent_of-change_at (put_symbol new) store i j (λ s. refl)) ∙ e)

-- `Insert` keeps every scope younger than its parent.
pub insert-IsTree :
    (store : Store) (i : ℕ) (new : Symbol) → IsTree store → IsTree (insert store i new).1
unfolding insert
insert-IsTree store i new tree =
    insert_unless-IsTree (lookup_local store i new.name) store i new tree

declared-insert_unless :
    (o : Option Symbol) (store : Store) (i : ℕ) (new : Symbol)
    → i < length store
    → lookup_local store i new.name ≡ o
    → is_some (lookup (insert_unless o new i store).1 i new.name) ≡ true
unfolding insert_unless is_some lookup
declared-insert_unless none store i new h e = ap is_some (lookup-put_symbol store i new h)
declared-insert_unless (some old) store i new h e =
    ap is_some (lookup_loop_first (length store) store i new.name old (omega arith) e)

-- A variable is declared in the scope in which it has just been declared, whether it is new there or
-- was there before.
pub is_declared-declare_typed_var :
    (store : Store) (current : ℕ) (name data_type : Bytes)
    → current < length store
    → is_declared (declare_typed_var store current name data_type) current name ≡ true
unfolding is_declared declare_typed_var insert
is_declared-declare_typed_var store current name data_type h =
    declared-insert_unless (lookup_local store current name) store current (variable name data_type)
      h refl
