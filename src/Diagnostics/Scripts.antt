-- ===== src/Diagnostics/Scripts.antt =====
-- What `levenshtein` computes: the least number of edits that turn one text into the other.
use serv_lang.Prelude.{
  ℕ, suc, ◌+◌, ◌≤◌, ◌≡◌, ◌↔◌, ◌⊎◌, get_or, refl, sym, ap, ◌∙◌, subst, [], ◌∷◌, Bytes, length, arith,
  ◌==◌, ==_iff, if◌then◌else◌, Bool-cases, inl, inr,
}
use serv_lang.Grid.{recurrence, last_row}
use serv_lang.Grid.Rows.{onto, length-onto, onto_twice, values, last_row-values, get_or-values}
use serv_lang.Diagnostics.Distance.{min3, edit_cell, count_up, own_number, levenshtein}

-- `Edits s t n`: `n` edits, each of which changes, drops or inserts one byte, turn `s` into `t`.
pub data Edits : Bytes → Bytes → ℕ → Type 0 where
  nothing : Edits [] [] 0
  keeps : (c : ℕ) {s t : Bytes} {n : ℕ} → Edits s t n → Edits (c ∷ s) (c ∷ t) n
  changes : (c d : ℕ) {s t : Bytes} {n : ℕ} → Edits s t n → Edits (c ∷ s) (d ∷ t) (suc n)
  drops : (c : ℕ) {s t : Bytes} {n : ℕ} → Edits s t n → Edits (c ∷ s) t (suc n)
  inserts : (d : ℕ) {s t : Bytes} {n : ℕ} → Edits s t n → Edits s (d ∷ t) (suc n)

abbrev distance : Bytes → Bytes → ℕ
distance s t = recurrence edit_cell own_number s t

distance-drops : (c : ℕ) (s t : Bytes) → distance (c ∷ s) t ≤ suc (distance s t)
unfolding recurrence edit_cell min3
distance-drops c [] [] = omega arith
distance-drops c (x ∷ s) [] = omega arith
distance-drops c s (d ∷ t) = ground arith

distance-inserts : (d : ℕ) (s t : Bytes) → distance s (d ∷ t) ≤ suc (distance s t)
unfolding recurrence edit_cell min3
distance-inserts d [] t = omega arith
distance-inserts d (c ∷ s) t = ground arith

distance-changes : (c d : ℕ) (s t : Bytes) → distance (c ∷ s) (d ∷ t) ≤ suc (distance s t)
unfolding recurrence edit_cell min3
distance-changes c d s t = ground arith

distance-keeps : (c : ℕ) (s t : Bytes) → distance (c ∷ s) (c ∷ t) ≤ distance s t
unfolding recurrence edit_cell min3
distance-keeps c s t = ground arith

distance_least : {s t : Bytes} {n : ℕ} → Edits s t n → distance s t ≤ n
unfolding recurrence
distance_least nothing = omega arith
distance_least (keeps c {s = s} {t = t} e) = omega (distance-keeps c s t, distance_least e, arith)
distance_least (changes c d {s = s} {t = t} e) =
    omega (distance-changes c d s t, distance_least e, arith)
distance_least (drops c {s = s} {t = t} e) = omega (distance-drops c s t, distance_least e, arith)
distance_least (inserts d {s = s} {t = t} e) =
    omega (distance-inserts d s t, distance_least e, arith)

min3-cases : (a b c : ℕ) → (min3 a b c ≡ a) ⊎ ((min3 a b c ≡ b) ⊎ (min3 a b c ≡ c))
unfolding min3
min3-cases a b c = ground arith

recount : {s t : Bytes} {m n : ℕ} → m ≡ n → Edits s t m → Edits s t n
recount {s = s} {t = t} e edits = subst (λ n. Edits s t n) e edits

empty-Edits : (t : Bytes) → Edits [] t (length t)
empty-Edits [] = nothing
empty-Edits (d ∷ t) = inserts d (empty-Edits t)

-- A change of a byte, which is none between equal ones.
changes-Edits :
    (c d : ℕ) {s t : Bytes} {n : ℕ}
    → Edits s t n
    → Edits (c ∷ s) (d ∷ t) (n + (if c == d then 0 else 1))
changes-Edits c d {s = s} {t = t} {n = n} e = elim (Bool-cases (c == d)) [
  | inl same ↦
      subst (λ x. Edits (c ∷ s) (x ∷ t) (n + (if c == d then 0 else 1))) ((==_iff c d).0 same)
        (recount (ground (arith, same)) (keeps c e))
  | inr other ↦ recount (ground (arith, other)) (changes c d e)
]

dropped-Edits : (s : Bytes) → Edits s [] (length s)
dropped-Edits [] = nothing
dropped-Edits (c ∷ s) = drops c (dropped-Edits s)

distance-Edits : (s t : Bytes) → Edits s t (distance s t)
unfolding recurrence edit_cell
distance-Edits [] t = empty-Edits t
distance-Edits (c ∷ s) [] = dropped-Edits (c ∷ s)
distance-Edits (c ∷ s) (d ∷ t) =
    let above = distance-Edits s (d ∷ t) in
    let left = distance-Edits (c ∷ s) t in
    let between = distance-Edits s t in
    elim (min3-cases (distance s (d ∷ t) + 1) (distance (c ∷ s) t + 1)
      (distance s t + (if c == d then 0 else 1))) [
        | inl e ↦ recount (omega (e, arith)) (drops c above)
        | inr (inl e) ↦ recount (omega (e, arith)) (inserts d left)
        | inr (inr e) ↦ recount (sym e) (changes-Edits c d between)
      ]

onto-Edits :
    {s t u v : Bytes} {m n : ℕ} → Edits s t m → Edits u v n → Edits (onto s u) (onto t v) (m + n)
onto-Edits nothing f = recount (omega arith) f
onto-Edits (keeps c e) f = onto-Edits e (keeps c f)
onto-Edits (changes c d e) f = recount (omega arith) (onto-Edits e (changes c d f))
onto-Edits (drops c e) f = recount (omega arith) (onto-Edits e (drops c f))
onto-Edits (inserts d e) f = recount (omega arith) (onto-Edits e (inserts d f))

-- The edits of texts, written from their ends.
reverse-Edits : {s t : Bytes} {n : ℕ} → Edits s t n → Edits (onto s []) (onto t []) n
reverse-Edits e = recount (omega arith) (onto-Edits e nothing)

unreverse-Edits : (s t : Bytes) {n : ℕ} → Edits (onto s []) (onto t []) n → Edits s t n
unreverse-Edits s t {n = n} e =
    subst (λ x. Edits x t n) (onto_twice s)
      (subst (λ y. Edits (onto (onto s []) []) y n) (onto_twice t) (reverse-Edits e))

count_up-values :
    (rb ys : Bytes) → count_up (length rb) ys ≡ length rb ∷ values edit_cell own_number [] rb ys
unfolding count_up recurrence
count_up-values rb [] = refl
count_up-values rb (y ∷ ys) = ap (λ row. length rb ∷ row) (count_up-values (y ∷ rb) ys)

distance-nil : (s : Bytes) → distance s [] ≡ length s
unfolding recurrence
distance-nil [] = refl
distance-nil (c ∷ s) = refl

levenshtein-distance : (a b : Bytes) → levenshtein a b ≡ distance (onto a []) (onto b [])
unfolding levenshtein recurrence
levenshtein-distance [] b = omega (length-onto b [], arith)
levenshtein-distance (x ∷ xs) [] =
    omega (distance-nil (onto (x ∷ xs) []), length-onto xs (x ∷ []), arith)
levenshtein-distance (x ∷ xs) (y ∷ ys) =
    ap (λ row. get_or (last_row edit_cell own_number 0 row (x ∷ xs) (y ∷ ys)) (length (y ∷ ys)) 0)
      (count_up-values [] (y ∷ ys))
    ∙ (ap (λ row. get_or row (length (y ∷ ys)) 0)
          (last_row-values edit_cell own_number [] (x ∷ xs) (y ∷ ys))
        ∙ get_or-values edit_cell own_number (onto (x ∷ xs) []) [] (y ∷ ys))

-- `levenshtein` is the least number of edits: so many turn one text into the other, and no fewer do.
pub levenshtein-Edits :
    (a b : Bytes) → Edits a b (levenshtein a b) × ((n : ℕ) → Edits a b n → levenshtein a b ≤ n)
levenshtein-Edits a b =
    let same = levenshtein-distance a b in
    (
      recount (sym same) (unreverse-Edits a b (distance-Edits (onto a []) (onto b []))),
      λ n e. omega (same, distance_least (reverse-Edits e), arith),
    )

flip-Edits : {s t : Bytes} {n : ℕ} → Edits s t n → Edits t s n
flip-Edits nothing = nothing
flip-Edits (keeps c e) = keeps c (flip-Edits e)
flip-Edits (changes c d e) = changes d c (flip-Edits e)
flip-Edits (drops c e) = inserts c (flip-Edits e)
flip-Edits (inserts d e) = drops d (flip-Edits e)

none-Edits : {s t : Bytes} {n : ℕ} → Edits s t n → n ≡ 0 → s ≡ t
none-Edits nothing z = refl
none-Edits (keeps c e) z = ap (λ xs. c ∷ xs) (none-Edits e z)
none-Edits (changes c d e) z = absurd (omega (z, arith))
none-Edits (drops c e) z = absurd (omega (z, arith))
none-Edits (inserts d e) z = absurd (omega (z, arith))

same-Edits : (s : Bytes) → Edits s s 0
same-Edits [] = nothing
same-Edits (c ∷ s) = keeps c (same-Edits s)

-- Distances are symmetric, and 0 just between equal texts.
pub levenshtein_metric :
    (a b : Bytes) → (levenshtein a b ≡ levenshtein b a) × ((levenshtein a b ≡ 0) ↔ (a ≡ b))
levenshtein_metric a b =
    let (edits, least) = levenshtein-Edits a b in
    let (back, least_back) = levenshtein-Edits b a in
    (
      omega (least _ (flip-Edits back), least_back _ (flip-Edits edits), arith),
      (
        λ z. none-Edits edits z,
        λ e. omega (least 0 (subst (λ y. Edits a y 0) e (same-Edits a)), arith),
      ),
    )

length-Edits : {s t : Bytes} {n : ℕ} → Edits s t n → length t ≤ length s + n
length-Edits nothing = omega arith
length-Edits (keeps c e) = omega (length-Edits e, arith)
length-Edits (changes c d e) = omega (length-Edits e, arith)
length-Edits (drops c e) = omega (length-Edits e, arith)
length-Edits (inserts d e) = omega (length-Edits e, arith)

pub levenshtein-length : (a b : Bytes) → length b ≤ length a + levenshtein a b
levenshtein-length a b = length-Edits (levenshtein-Edits a b).0
