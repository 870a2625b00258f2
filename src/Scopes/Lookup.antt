-- ===== src/Scopes/Lookup.antt =====
-- What `Lookup` finds, behind `Insert` and `NewScope`.
use serv_lang.Prelude.{
  ℕ, zero, suc, ◌<◌, ◌≡◌, ◌≢◌, ◌∙◌, refl, sym, ap, subst, true, [], ◌∷◌, Option, none, some, Bytes,
  equal, equal_iff, length, arith, if-elim, Option-cases, inl, inr,
}
use serv_lang.Scopes.Table.{
  Scope, Store, scope_at, change_at, parent_of, Symbol, symbols_of, put_symbol, find_symbol,
  lookup_local, insert, insert_unless, found_or, lookup_loop, lookup,
}
use serv_lang.Scopes.Heap.{
  IsTree, scope_within, scope_at-change_at, scope_at-change_at_other, length-change_at,
  parent_of-change_at,
}

-- The loop of `Lookup` from a pointer that may be nil.
abbrev pub lookup_from : Store → Option ℕ → Bytes → Option Symbol
lookup_from store o name = lookup_loop (length store) store o name

-- The scope of a pointer stands below `n`.
abbrev pub Below : ℕ → Option ℕ → Type 0
Below n o = (i : ℕ) → o ≡ some i → i < n

parent-Below :
    (n i : ℕ) (store : Store) → IsTree store → i < suc n → Below n (parent_of (scope_at store i))
parent-Below n i store tree h p e = let lower = tree i p e in omega arith

-- Once fuel covers every scope of the chain, more of it changes nothing.
pub lookup_loop_enough :
    (store : Store) (name : Bytes) (f g : ℕ) (o : Option ℕ)
    → IsTree store
    → Below f o
    → Below g o
    → lookup_loop f store o name ≡ lookup_loop g store o name
unfolding lookup_loop
lookup_loop_enough store name f g none tree hf hg = refl
lookup_loop_enough store name zero g (some i) tree hf hg = elim (hf i refl) [ ]
lookup_loop_enough store name (suc f) zero (some i) tree hf hg = elim (hg i refl) [ ]
lookup_loop_enough store name (suc f) (suc g) (some i) tree hf hg =
    ap (found_or (lookup_local store i name)) (
      lookup_loop_enough store name f g (parent_of (scope_at store i)) tree
        (parent-Below f i store tree (hf i refl)) (parent-Below g i store tree (hg i refl)))

-- Once fuel covers the chain, one round of the loop is a scope and then its parent.
pub lookup_unfold :
    (store : Store) (i : ℕ) (name : Bytes)
    → IsTree store
    → i < length store
    → lookup store i name
      ≡ found_or (lookup_local store i name) (lookup_from store (parent_of (scope_at store i)) name)
unfolding lookup lookup_loop
lookup_unfold store i name tree h =
    let more : lookup store i name ≡ lookup_loop (suc (length store)) store (some i) name =
      lookup_loop_enough store name (length store) (suc (length store)) (some i) tree
        (λ j e. ground arith) (λ j e. ground arith) in
    more

pub lookup_loop_first :
    (fuel : ℕ) (store : Store) (i : ℕ) (name : Bytes) (found : Symbol)
    → 0 < fuel
    → lookup_local store i name ≡ some found
    → lookup_loop fuel store (some i) name ≡ some found
unfolding lookup_loop found_or
lookup_loop_first zero store i name found h e = ground arith
lookup_loop_first (suc fuel) store i name found h e = rw e refl

-- What a scope shows under a name: its own symbol, whatever is further out; where it has none, what its
-- parent shows; and nothing where there is no parent.
pub data Shows (store : Store) (name : Bytes) : ℕ → Option Symbol → Type 0 where
  own :
      (i : ℕ) (sym : Symbol) → lookup_local store i name ≡ some sym → Shows store name i (some sym)
  outer :
      (i p : ℕ) (found : Option Symbol)
      → lookup_local store i name ≡ none
      → parent_of (scope_at store i) ≡ some p
      → Shows store name p found
      → Shows store name i found
  nowhere :
      (i : ℕ)
      → lookup_local store i name ≡ none
      → parent_of (scope_at store i) ≡ none
      → Shows store name i none

lookup_loop-Shows :
    (store : Store) (name : Bytes) (fuel i : ℕ)
    → IsTree store
    → i < fuel
    → Shows store name i (lookup_loop fuel store (some i) name)
unfolding lookup_loop found_or
lookup_loop-Shows store name zero i tree h = absurd (omega arith)
lookup_loop-Shows store name (suc fuel) i tree h = elim (Option-cases (lookup_local store i name)) [
  | inr (sym, here) ↦ rw here (own i sym here)
  | inl absent ↦ elim (Option-cases (parent_of (scope_at store i))) [
    | inl top ↦ rw (absent, top) (nowhere i absent top)
    | inr (p, up) ↦
        let lower = tree i p up in
        rw (absent, up)
          (outer i p _ absent up (lookup_loop-Shows store name fuel p tree (omega arith)))
  ]
]

-- In a store in which every scope was made after its parent, `Lookup` finds what its scope shows: the
-- symbol of the nearest scope that has one, and nothing where none has.
pub lookup-Shows :
    (store : Store) (i : ℕ) (name : Bytes)
    → IsTree store
    → i < length store
    → Shows store name i (lookup store i name)
unfolding lookup
lookup-Shows store i name tree h = lookup_loop-Shows store name (length store) i tree h

find_symbol-put_symbol :
    (new : Symbol) (s : Scope) → find_symbol new.name (put_symbol new s).symbols ≡ some new
unfolding find_symbol put_symbol
find_symbol-put_symbol new s = let same = (equal_iff new.name new.name).1 refl in rw same refl

pub lookup-put_symbol :
    (store : Store) (i : ℕ) (new : Symbol)
    → i < length store
    → lookup (change_at (put_symbol new) store i) i new.name ≡ some new
unfolding lookup lookup_local symbols_of
lookup-put_symbol store i new h =
    let (s, at) = scope_within store i h in
    let same = scope_at-change_at (put_symbol new) store i s at in
    lookup_loop_first (length (change_at (put_symbol new) store i))
      (change_at (put_symbol new) store i) i new.name new
      (subst (λ n. 0 < n) (sym (length-change_at (put_symbol new) store i)) (omega arith))
      (rw same (find_symbol-put_symbol new s))

lookup-insert_unless :
    (o : Option Symbol) (store : Store) (i : ℕ) (new : Symbol)
    → i < length store
    → (insert_unless o new i store).0 ≡ true
    → lookup (insert_unless o new i store).1 i new.name ≡ some new
unfolding insert_unless
lookup-insert_unless none store i new h accepted = lookup-put_symbol store i new h
lookup-insert_unless (some old) store i new h accepted = ground arith

-- A symbol that `Insert` accepts is found from its scope.
pub lookup-insert :
    (store : Store) (i : ℕ) (new : Symbol)
    → i < length store
    → (insert store i new).0 ≡ true
    → lookup (insert store i new).1 i new.name ≡ some new
unfolding insert
lookup-insert store i new = lookup-insert_unless (lookup_local store i new.name) store i new

-- The names that a change of scope `i` leaves alone.
lookup_loop-change_at :
    (f : Scope → Scope) (store : Store) (i : ℕ) (name : Bytes) (fuel : ℕ) (o : Option ℕ)
    → ((s : Scope) → (f s).parent ≡ s.parent)
    → ((j : ℕ) → lookup_local (change_at f store i) j name ≡ lookup_local store j name)
    → lookup_loop fuel (change_at f store i) o name ≡ lookup_loop fuel store o name
unfolding lookup_loop
lookup_loop-change_at f store i name fuel none hp hl = refl
lookup_loop-change_at f store i name zero (some j) hp hl = refl
lookup_loop-change_at f store i name (suc fuel) (some j) hp hl =
    rw (hl j, parent_of-change_at f store i j hp)
      (ap (found_or (lookup_local store j name))
        (lookup_loop-change_at f store i name fuel (parent_of (scope_at store j)) hp hl))

pub find_symbol-change_at :
    (f : Scope → Scope) (store : Store) (i j : ℕ) (name : Bytes)
    → ((s : Scope) → find_symbol name (f s).symbols ≡ find_symbol name s.symbols)
    → find_symbol name (symbols_of (scope_at (change_at f store i) j))
      ≡ find_symbol name (symbols_of (scope_at store j))
unfolding scope_at change_at symbols_of
find_symbol-change_at f [] i j name h = refl
find_symbol-change_at f (s ∷ ss) zero zero name h = h s
find_symbol-change_at f (s ∷ ss) zero (suc j) name h = refl
find_symbol-change_at f (s ∷ ss) (suc i) zero name h = refl
find_symbol-change_at f (s ∷ ss) (suc i) (suc j) name h = find_symbol-change_at f ss i j name h

find_symbol_other :
    (new : Symbol) (name : Bytes) (s : Scope)
    → name ≢ new.name
    → find_symbol name (put_symbol new s).symbols ≡ find_symbol name s.symbols
unfolding find_symbol put_symbol
find_symbol_other new name s ne =
    if-elim (λ o. o ≡ find_symbol name s.symbols) (equal new.name name)
      (λ same. elim (ne (sym ((equal_iff new.name name).0 same))) [ ]) (λ _. refl)

lookup_other-insert_unless :
    (o : Option Symbol) (store : Store) (i j : ℕ) (new : Symbol) (name : Bytes)
    → name ≢ new.name
    → lookup (insert_unless o new i store).1 j name ≡ lookup store j name
unfolding insert_unless lookup lookup_local put_symbol
lookup_other-insert_unless (some old) store i j new name ne = refl
lookup_other-insert_unless none store i j new name ne =
    let changed = change_at (put_symbol new) store i in
    let local = λ (k : ℕ).
      find_symbol-change_at (put_symbol new) store i k name
        (λ s. find_symbol_other new name s ne) in
    ap (λ n. lookup_loop n changed (some j) name) (length-change_at (put_symbol new) store i)
    ∙ lookup_loop-change_at (put_symbol new) store i name (length store) (some j) (λ s. refl) local

-- `Insert` changes what no other name means, from any scope.
pub lookup-insert_other :
    (store : Store) (i j : ℕ) (new : Symbol) (name : Bytes)
    → name ≢ new.name
    → lookup (insert store i new).1 j name ≡ lookup store j name
unfolding insert
lookup-insert_other store i j new name =
    lookup_other-insert_unless (lookup_local store i new.name) store i j new name

-- From a scope made before `i`, a loop passes none but such.
lookup_loop-Below :
    (f : Scope → Scope) (store : Store) (i : ℕ) (name : Bytes) (fuel : ℕ) (o : Option ℕ)
    → IsTree store
    → Below i o
    → lookup_loop fuel (change_at f store i) o name ≡ lookup_loop fuel store o name
unfolding lookup_loop lookup_local
lookup_loop-Below f store i name fuel none tree h = refl
lookup_loop-Below f store i name zero (some j) tree h = refl
lookup_loop-Below f store i name (suc fuel) (some j) tree h =
    let below : j < i = h j refl in
    let same = scope_at-change_at_other f store i j (omega arith) in
    let rest =
      lookup_loop-Below f store i name fuel (parent_of (scope_at store j)) tree
        (λ p e. let lower = tree j p e in omega arith) in
    rw same (ap (found_or (find_symbol name (symbols_of (scope_at store j)))) rest)

outer-insert_unless :
    (o : Option Symbol) (store : Store) (i j : ℕ) (new : Symbol) (name : Bytes)
    → IsTree store
    → j < i
    → lookup (insert_unless o new i store).1 j name ≡ lookup store j name
unfolding insert_unless lookup
outer-insert_unless (some old) store i j new name tree h = refl
outer-insert_unless none store i j new name tree h =
    ap (λ n. lookup_loop n (change_at (put_symbol new) store i) (some j) name)
      (length-change_at (put_symbol new) store i)
    ∙ lookup_loop-Below (put_symbol new) store i name (length store) (some j) tree
        (λ k e. ground arith)

-- `Insert` into a scope changes nothing that is seen from the scopes made before it, those around it
-- among them: a declaration that shadows does not leak outward. Every scope must have been made
-- after its parent.
pub lookup-insert_outer :
    (store : Store) (i j : ℕ) (new : Symbol) (name : Bytes)
    → IsTree store
    → j < i
    → lookup (insert store i new).1 j name ≡ lookup store j name
unfolding insert
lookup-insert_outer store i j new name =
    outer-insert_unless (lookup_local store i new.name) store i j new name
