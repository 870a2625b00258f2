-- ===== src/Scopes/Heap.antt =====
-- Places in the store of scopes, and the invariant on their parents.
use serv_lang.Prelude.{ℕ, zero, suc, ◌<◌, ◌≡◌, ◌≢◌, refl, ap, [], ◌∷◌, some, length, arith}
use serv_lang.Scopes.Table.{Scope, Store, scope_at, change_at, parent_of}

pub scope_at-change_at_other :
    (f : Scope → Scope) (store : Store) (i j : ℕ)
    → i ≢ j
    → scope_at (change_at f store i) j ≡ scope_at store j
unfolding scope_at change_at
scope_at-change_at_other f [] i j ne = refl
scope_at-change_at_other f (s ∷ ss) zero zero ne = ground arith
scope_at-change_at_other f (s ∷ ss) zero (suc j) ne = refl
scope_at-change_at_other f (s ∷ ss) (suc i) zero ne = refl
scope_at-change_at_other f (s ∷ ss) (suc i) (suc j) ne =
    scope_at-change_at_other f ss i j (omega arith)

pub scope_within :
    (store : Store) (i : ℕ) → i < length store → (s : Scope) × (scope_at store i ≡ some s)
unfolding scope_at
scope_within [] i h = ground arith
scope_within (s ∷ ss) zero h = (s, refl)
scope_within (s ∷ ss) (suc i) h = scope_within ss i (omega arith)

pub scope_at-change_at :
    (f : Scope → Scope) (store : Store) (i : ℕ) (s : Scope)
    → scope_at store i ≡ some s
    → scope_at (change_at f store i) i ≡ some (f s)
unfolding scope_at change_at
scope_at-change_at f [] i s h = ground arith
scope_at-change_at f (t ∷ ss) zero s h = ground arith
scope_at-change_at f (t ∷ ss) (suc i) s h = scope_at-change_at f ss i s h

pub length-change_at :
    (f : Scope → Scope) (store : Store) (i : ℕ) → length (change_at f store i) ≡ length store
unfolding change_at
length-change_at f [] i = refl
length-change_at f (s ∷ ss) zero = refl
length-change_at f (s ∷ ss) (suc i) = ap suc (length-change_at f ss i)

-- A change that keeps the parents of scopes keeps them everywhere.
pub parent_of-change_at :
    (f : Scope → Scope) (store : Store) (i j : ℕ)
    → ((s : Scope) → (f s).parent ≡ s.parent)
    → parent_of (scope_at (change_at f store i) j) ≡ parent_of (scope_at store j)
unfolding scope_at change_at parent_of
parent_of-change_at f [] i j h = refl
parent_of-change_at f (s ∷ ss) zero zero h = h s
parent_of-change_at f (s ∷ ss) zero (suc j) h = refl
parent_of-change_at f (s ∷ ss) (suc i) zero h = refl
parent_of-change_at f (s ∷ ss) (suc i) (suc j) h = parent_of-change_at f ss i j h

-- Each scope was made after its parent.
abbrev pub IsTree : Store → Type 0
IsTree store = (i p : ℕ) → parent_of (scope_at store i) ≡ some p → p < i
