-- ===== src/Scopes/Tests.antt =====
-- Scopes of compiler/symbol_table.go in a small store.
use serv_lang.Prelude.{zero, suc, ◌≡◌, refl, [], ◌∷◌, none, some, codes, arith}
use serv_lang.Scopes.Table.{
  Store, empty_scope, scope_at, parent_of, symbols_of, Symbol, find_symbol, lookup_local, insert,
  insert_unless, new_scope, lookup, variable,
}
use serv_lang.Scopes.Heap.{IsTree}
use serv_lang.Scopes.Lookup.{Shows, lookup_from, lookup-Shows, lookup-insert, lookup-insert_outer}
use serv_lang.Scopes.Fresh.{lookup-new_scope}

abbrev x_int : Symbol
x_int = variable (codes "x") (codes "int")

abbrev x_text : Symbol
x_text = variable (codes "x") (codes "string")

-- A scope with `x`, and an empty one in it.
abbrev two_scopes : Store
two_scopes =
    record { parent = none; symbols = (codes "x", x_int) ∷ []; children = 1 ∷ [] }
    ∷ empty_scope (some 0)
    ∷ []

two_scopes-IsTree : IsTree two_scopes
unfolding scope_at parent_of
two_scopes-IsTree zero p e = ground arith
two_scopes-IsTree (suc zero) p e = ground arith
two_scopes-IsTree (suc (suc i)) p e = ground arith

lookup-Shows_example : Shows two_scopes (codes "x") 1 (lookup two_scopes 1 (codes "x"))
lookup-Shows_example = lookup-Shows two_scopes 1 (codes "x") two_scopes-IsTree (omega arith)

lookup-insert_example : lookup (insert two_scopes 1 x_text).1 1 (codes "x") ≡ some x_text
unfolding insert insert_unless lookup_local find_symbol symbols_of scope_at
lookup-insert_example = lookup-insert two_scopes 1 x_text (omega arith) refl

lookup-insert_outer_example :
    lookup (insert two_scopes 1 x_text).1 0 (codes "x") ≡ lookup two_scopes 0 (codes "x")
lookup-insert_outer_example =
    lookup-insert_outer two_scopes 1 0 x_text (codes "x") two_scopes-IsTree (omega arith)

lookup-new_scope_example :
    lookup (new_scope (some 1) two_scopes).1 (new_scope (some 1) two_scopes).0 (codes "x")
    ≡ lookup_from two_scopes (some 1) (codes "x")
lookup-new_scope_example =
    lookup-new_scope two_scopes (some 1) (codes "x") two_scopes-IsTree (λ i e. ground arith)
