-- ===== src/Grid/Rows.antt =====
-- The rows of a table hold the values of its recurrence.
use Prim.Native.Nat.{ℕ, zero, suc, ◌+◌, ◌≤◌, ◌<◌}
use serv_lang.Prelude.{◌≡◌, refl, ap, ◌∙◌, List, [], ◌∷◌, ◌++◌, length, get_or, take, arith}
use serv_lang.Grid.{fill_row, fill_rows, last_row, recurrence}

-- The elements of a list in front of another, the last one first.
abbrev pub onto {ℓ} : {A : Type ℓ} → List A → List A → List A
onto [] acc = acc
onto (x ∷ xs) acc = onto xs (x ∷ acc)

module _ {ℓ} {A : Type ℓ} where
  pub length-onto : (xs acc : List A) → length (onto xs acc) ≡ length xs + length acc
  length-onto [] acc = omega arith
  length-onto (x ∷ xs) acc = omega (arith, length-onto xs (x ∷ acc))

  pub onto-onto : (xs acc ys : List A) → onto (onto xs acc) ys ≡ onto acc (xs ++ ys)
  onto-onto [] acc ys = refl
  onto-onto (x ∷ xs) acc ys = onto-onto xs (x ∷ acc) ys

  append_nil : (xs : List A) → xs ++ [] ≡ xs
  append_nil [] = refl
  append_nil (x ∷ xs) = ap (λ ys. x ∷ ys) (append_nil xs)

  -- Twice the other way round.
  pub onto_twice : (xs : List A) → onto (onto xs []) [] ≡ xs
  onto_twice xs = onto-onto xs [] [] ∙ append_nil xs

module _ {ℓ} {A : Type ℓ} (cell : A → A → ℕ → ℕ → ℕ → ℕ) (edge : ℕ → ℕ) where
  -- The values of a row behind its first cell, where `rb` is passed already and `ys` to come.
  abbrev pub values : List A → List A → List A → List ℕ
  values ra rb [] = []
  values ra rb (y ∷ ys) = recurrence cell edge ra (y ∷ rb) ∷ values ra (y ∷ rb) ys

  abbrev pub row_values : List A → List A → List ℕ
  row_values ra ys = recurrence cell edge ra [] ∷ values ra [] ys

  fill_row-values :
      (x : A) (ra rb ys : List A)
      → fill_row cell x
          (recurrence cell edge (x ∷ ra) rb)
          (recurrence cell edge ra rb ∷ values ra rb ys)
          ys
        ≡ recurrence cell edge (x ∷ ra) rb ∷ values (x ∷ ra) rb ys
  unfolding fill_row recurrence
  fill_row-values x ra rb [] = refl
  fill_row-values x ra rb (y ∷ ys) =
      ap (λ row. recurrence cell edge (x ∷ ra) rb ∷ row) (fill_row-values x ra (y ∷ rb) ys)

  pub last_row-values :
      (ra xs ys : List A)
      → last_row cell edge (length ra) (row_values ra ys) xs ys ≡ row_values (onto xs ra) ys
  unfolding last_row recurrence
  last_row-values ra [] ys = refl
  last_row-values ra (x ∷ xs) ys =
      ap (λ row. last_row cell edge (suc (length ra)) row xs ys) (fill_row-values x ra [] ys)
      ∙ last_row-values (x ∷ ra) xs ys

  -- The last value of a row is that of the whole of `ys`.
  pub get_or-values :
      (ra rb ys : List A)
      → get_or (recurrence cell edge ra rb ∷ values ra rb ys) (length ys) 0
        ≡ recurrence cell edge ra (onto ys rb)
  get_or-values ra rb [] = refl
  get_or-values ra rb (y ∷ ys) = get_or-values ra (y ∷ rb) ys

  get_or-values_at :
      (ra rb ys : List A) (j : ℕ)
      → j ≤ length ys
      → get_or (recurrence cell edge ra rb ∷ values ra rb ys) j 0
        ≡ recurrence cell edge ra (onto (take j ys) rb)
  get_or-values_at ra rb ys zero h = refl
  get_or-values_at ra rb [] (suc j) h = absurd (omega arith)
  get_or-values_at ra rb (y ∷ ys) (suc j) h = get_or-values_at ra (y ∷ rb) ys j (omega arith)

  -- Each row of a table has the values of its prefix.
  fill_rows-values :
      (ra xs ys : List A) (i : ℕ)
      → i ≤ length xs
      → get_or (fill_rows cell edge (length ra) (row_values ra ys) xs ys) i []
        ≡ row_values (onto (take i xs) ra) ys
  unfolding fill_rows recurrence
  fill_rows-values ra [] ys zero h = refl
  fill_rows-values ra (x ∷ xs) ys zero h = refl
  fill_rows-values ra [] ys (suc i) h = absurd (omega arith)
  fill_rows-values ra (x ∷ xs) ys (suc i) h =
      ap (λ row. get_or (fill_rows cell edge (suc (length ra)) row xs ys) i [])
        (fill_row-values x ra [] ys)
      ∙ fill_rows-values (x ∷ ra) xs ys i (omega arith)

  -- Each cell has the value of its prefixes.
  pub fill_rows-cell :
      (xs ys : List A) (i j : ℕ)
      → i ≤ length xs
      → j ≤ length ys
      → get_or (get_or (fill_rows cell edge 0 (row_values [] ys) xs ys) i []) j 0
        ≡ recurrence cell edge (onto (take i xs) []) (onto (take j ys) [])
  fill_rows-cell xs ys i j hi hj =
      ap (λ row. get_or row j 0) (fill_rows-values [] xs ys i hi)
      ∙ get_or-values_at (onto (take i xs) []) [] ys j hj

module _ {ℓ} {A : Type ℓ} where
  -- A prefix that is longer by one, the last element first.
  pub onto-take :
      (xs acc : List A) (i : ℕ) (d : A)
      → i < length xs
      → onto (take (suc i) xs) acc ≡ get_or xs i d ∷ onto (take i xs) acc
  onto-take [] acc i d h = absurd (omega arith)
  onto-take (x ∷ xs) acc zero d h = refl
  onto-take (x ∷ xs) acc (suc i) d h = onto-take xs (x ∷ acc) i d (omega arith)
