-- ===== src/Scopes/Fresh.antt =====
-- `NewScope`: the invariant on parents, and what is seen from a new scope and from the old ones.
use serv_lang.Prelude.{
  ℕ, zero, suc, ◌<◌, ◌≡◌, ◌∙◌, ◌⊎◌, refl, sym, ap, subst, [], ◌∷◌, ◌++◌, Option, none, some, Bytes,
  length, arith, inl, inr,
}
use serv_lang.Scopes.Table.{
  Scope, Store, empty_scope, scope_at, add_child, adopt, new_scope, parent_of, symbols_of,
  find_symbol, lookup_local, found_or, lookup_loop, lookup,
}
use serv_lang.Scopes.Heap.{IsTree, length-change_at, parent_of-change_at}
use serv_lang.Scopes.Lookup.{
  Below, lookup_from, lookup_loop_enough, find_symbol-change_at, lookup_unfold,
}

scope_at-append :
    (xs : Store) (s : Scope) (j : ℕ) → j < length xs → scope_at (xs ++ (s ∷ [])) j ≡ scope_at xs j
unfolding scope_at
scope_at-append [] s j h = ground arith
scope_at-append (x ∷ xs) s zero h = refl
scope_at-append (x ∷ xs) s (suc j) h = scope_at-append xs s j (omega arith)

scope_at_last : (xs : Store) (s : Scope) → scope_at (xs ++ (s ∷ [])) (length xs) ≡ some s
unfolding scope_at
scope_at_last [] s = refl
scope_at_last (x ∷ xs) s = scope_at_last xs s

scope_at_past :
    (xs : Store) (s : Scope) (j : ℕ) → length xs < j → scope_at (xs ++ (s ∷ [])) j ≡ none
unfolding scope_at
scope_at_past [] s zero h = ground arith
scope_at_past [] s (suc j) h = refl
scope_at_past (x ∷ xs) s zero h = ground arith
scope_at_past (x ∷ xs) s (suc j) h = scope_at_past xs s j (omega arith)

length_append : (xs : Store) (s : Scope) → length (xs ++ (s ∷ [])) ≡ suc (length xs)
length_append [] s = refl
length_append (x ∷ xs) s = ap suc (length_append xs s)

length-adopt :
    (o : Option ℕ) (child : ℕ) (store : Store) → length (adopt o child store) ≡ length store
unfolding adopt
length-adopt none child store = refl
length-adopt (some p) child store = length-change_at (add_child child) store p

parent_of-adopt :
    (o : Option ℕ) (child : ℕ) (store : Store) (j : ℕ)
    → parent_of (scope_at (adopt o child store) j) ≡ parent_of (scope_at store j)
unfolding adopt add_child
parent_of-adopt none child store j = refl
parent_of-adopt (some p) child store j = parent_of-change_at (add_child child) store p j (λ s. refl)

find_symbol-adopt :
    (o : Option ℕ) (child : ℕ) (store : Store) (j : ℕ) (name : Bytes)
    → find_symbol name (symbols_of (scope_at (adopt o child store) j))
      ≡ find_symbol name (symbols_of (scope_at store j))
unfolding adopt add_child
find_symbol-adopt none child store j name = refl
find_symbol-adopt (some p) child store j name =
    find_symbol-change_at (add_child child) store p j name (λ s. refl)

-- Two stores that agree on the scopes before `n` show the same from there.
lookup_loop_agree :
    (s t : Store) (n : ℕ) (name : Bytes) (fuel : ℕ) (o : Option ℕ)
    → IsTree s
    → ((j : ℕ) → j < n → lookup_local s j name ≡ lookup_local t j name)
    → ((j : ℕ) → j < n → parent_of (scope_at s j) ≡ parent_of (scope_at t j))
    → Below n o
    → lookup_loop fuel s o name ≡ lookup_loop fuel t o name
unfolding lookup_loop
lookup_loop_agree s t n name fuel none tree hl hp h = refl
lookup_loop_agree s t n name zero (some j) tree hl hp h = refl
lookup_loop_agree s t n name (suc fuel) (some j) tree hl hp h =
    let below : j < n = h j refl in
    let rest =
      lookup_loop_agree s t n name fuel (parent_of (scope_at s j)) tree hl hp
        (λ p e. let lower = tree j p e in omega arith) in
    λ i. found_or (hl j below i) ((rest ∙ ap (λ p. lookup_loop fuel t p name) (hp j below)) i)

module _ (store : Store) (o : Option ℕ) where
  abbrev bigger : Store
  bigger = (new_scope o store).1

  fresh_length : length bigger ≡ suc (length store)
  unfolding new_scope
  fresh_length =
      length_append (adopt o (length store) store) (empty_scope o)
      ∙ ap suc (length-adopt o (length store) store)

  scope_at_old :
      (j : ℕ) → j < length store → scope_at bigger j ≡ scope_at (adopt o (length store) store) j
  unfolding new_scope
  scope_at_old j h =
      scope_at-append (adopt o (length store) store) (empty_scope o) j
        (subst (λ n. j < n) (sym (length-adopt o (length store) store)) h)

  scope_at_new : scope_at bigger (length store) ≡ some (empty_scope o)
  unfolding new_scope
  scope_at_new =
      subst (λ n. scope_at bigger n ≡ some (empty_scope o)) (length-adopt o (length store) store)
        (scope_at_last (adopt o (length store) store) (empty_scope o))

  scope_at_beyond : (j : ℕ) → length store < j → scope_at bigger j ≡ none
  unfolding new_scope
  scope_at_beyond j h =
      scope_at_past (adopt o (length store) store) (empty_scope o) j
        (subst (λ n. n < j) (sym (length-adopt o (length store) store)) h)

  parent_old :
      (j : ℕ) → j < length store → parent_of (scope_at bigger j) ≡ parent_of (scope_at store j)
  parent_old j h = ap parent_of (scope_at_old j h) ∙ parent_of-adopt o (length store) store j

  local_old :
      (j : ℕ) (name : Bytes)
      → j < length store
      → lookup_local bigger j name ≡ lookup_local store j name
  unfolding lookup_local
  local_old j name h =
      ap (λ s. find_symbol name (symbols_of s)) (scope_at_old j h)
      ∙ find_symbol-adopt o (length store) store j name

  -- From a scope that was there `Lookup` finds what it found before `NewScope`.
  agree_old :
      (fuel : ℕ) (from : Option ℕ) (name : Bytes)
      → IsTree store
      → Below (length store) from
      → lookup_loop fuel bigger from name ≡ lookup_loop fuel store from name
  agree_old fuel from name tree h = sym (
      lookup_loop_agree store bigger (length store) name fuel from tree
        (λ j below. sym (local_old j name below)) (λ j below. sym (parent_old j below)) h)

  parent_placed :
      (i p : ℕ)
      → IsTree store
      → Below (length store) o
      → (i < length store) ⊎ ((i ≡ length store) ⊎ (length store < i))
      → parent_of (scope_at bigger i) ≡ some p
      → p < i
  unfolding parent_of
  parent_placed i p tree h (inl old) e = tree i p (sym (parent_old i old) ∙ e)
  parent_placed i p tree h (inr (inl new)) e =
      let here = subst (λ j. parent_of (scope_at bigger j) ≡ some p) new e in
      let parent = sym (ap parent_of scope_at_new) ∙ here in let lower = h p parent in omega arith
  parent_placed i p tree h (inr (inr beyond)) e =
      let absurd = sym (ap parent_of (scope_at_beyond i beyond)) ∙ e in ground arith

  -- `NewScope` under no parent, or one that is in the store, keeps every scope younger than its
  -- parent.
  pub new_scope-IsTree : IsTree store → Below (length store) o → IsTree (new_scope o store).1
  new_scope-IsTree tree h i p e = parent_placed i p tree h (ground arith) e

  -- From a scope that was there `Lookup` finds what it found before `NewScope`.
  pub lookup-new_scope_old :
      (j : ℕ) (name : Bytes)
      → IsTree store
      → j < length store
      → lookup (new_scope o store).1 j name ≡ lookup store j name
  unfolding lookup
  lookup-new_scope_old j name tree below =
      agree_old (length bigger) (some j) name tree (λ k e. ground arith)
      ∙ lookup_loop_enough store name (length bigger) (length store) (some j) tree
          (λ k e. let longer = fresh_length in ground arith) (λ k e. ground arith)

  fresh_parent :
      (name : Bytes)
      → IsTree store
      → Below (length store) o
      → lookup_from bigger (parent_of (scope_at bigger (length store))) name
        ≡ lookup_from store o name
  unfolding parent_of
  fresh_parent name tree h =
      ap (λ s. lookup_from bigger (parent_of s) name) scope_at_new
      ∙ agree_old (length bigger) o name tree h
      ∙ lookup_loop_enough store name (length bigger) (length store) o tree
          (λ k e. let longer = fresh_length in let below = h k e in omega arith) h

  -- In a store of scopes younger than their parents, a new scope under a parent of the store shows
  -- just what the parent shows, and one under no parent shows nothing.
  pub lookup-new_scope :
      (name : Bytes)
      → IsTree store
      → Below (length store) o
      → lookup (new_scope o store).1 (new_scope o store).0 name ≡ lookup_from store o name
  unfolding new_scope lookup_local symbols_of find_symbol found_or
  lookup-new_scope name tree h =
      let longer = fresh_length in
      lookup_unfold bigger (length store) name (new_scope-IsTree tree h) (omega arith)
      ∙ ap
          (λ s.
            found_or (find_symbol name (symbols_of s))
              (lookup_from bigger (parent_of (scope_at bigger (length store))) name))
          scope_at_new
      ∙ fresh_parent name tree h
