-- ===== src/Lexer/Loops.antt =====
-- The loops of the lexer end by their test, within the fuel, and keep what each round keeps.
use serv_lang.Prelude.{
  ℕ, zero, suc, ◌-◌, ◌≤◌, ◌<◌, ◌≡◌, ◌≢◌, refl, Bool, true, false, length, arith, get_or-beyond, ap,
  sym, subst, ◌∙◌, Bool-cases, inl, inr,
}
use serv_lang.Lexer.Cursor.{Lexer, read_char, bump_line, skip_char, rounds, loop, for_char}
use serv_lang.Lexer.Position.{
  NoSpreadBreak, IsPlaced, IsCounted, read_char-IsPlaced, read_char-IsCounted, skip_char-IsCounted,
}

-- From `l` the lexer has come to `m`: over the same input, not back, well placed, and with the
-- counters right if they were, unless it may have read `..` and a line end as `...`.
pub record Moves (l m : Lexer) : Type 0 where
  pub placed : IsPlaced m
  pub same_input : m.input ≡ l.input
  pub onward : l.position ≤ m.position
  pub counted : NoSpreadBreak l.input → IsCounted l → IsCounted m

pub Moves-refl : (l : Lexer) → IsPlaced l → Moves l l
Moves-refl l p = record { placed = p; same_input = refl; onward = omega arith; counted = λ _ c. c }

pub Moves-trans : {l m k : Lexer} → Moves l m → Moves m k → Moves l k
Moves-trans a b = record {
  placed = b.placed;
  same_input = b.same_input ∙ a.same_input;
  onward = omega arith;
  counted = λ s c. b.counted (subst NoSpreadBreak (sym a.same_input) s) (a.counted s c);
}

pub read_char-position : (l : Lexer) → IsPlaced l → (read_char l).position ≡ suc l.position
unfolding read_char
read_char-position l p = p.next

pub read_char-input : (l : Lexer) → (read_char l).input ≡ l.input
unfolding read_char
read_char-input l = refl

pub read_char-Moves : (l : Lexer) → IsPlaced l → l.ch ≢ b'\n' → Moves l (read_char l)
read_char-Moves l p ne = record {
  placed = read_char-IsPlaced l;
  same_input = read_char-input l;
  onward = omega (arith, read_char-position l p);
  counted = λ _ c. read_char-IsCounted l p c ne;
}

pub skip_char-position : (l : Lexer) → IsPlaced l → (skip_char l).position ≡ suc l.position
unfolding skip_char
skip_char-position l p = ground arith

pub skip_char-IsPlaced : (l : Lexer) → IsPlaced (skip_char l)
unfolding skip_char
skip_char-IsPlaced l = read_char-IsPlaced (bump_line l)

pub skip_char-input : (l : Lexer) → (skip_char l).input ≡ l.input
unfolding skip_char
skip_char-input l = ground arith

pub skip_char-Moves : (l : Lexer) → IsPlaced l → Moves l (skip_char l)
skip_char-Moves l p = record {
  placed = skip_char-IsPlaced l;
  same_input = skip_char-input l;
  onward = omega (arith, skip_char-position l p);
  counted = λ _ c. skip_char-IsCounted l p c;
}

-- A byte that is not 0 stands inside the input.
pub inside : (l : Lexer) → IsPlaced l → l.ch ≢ 0 → l.position < length l.input
inside l p h = ground (arith, get_or-beyond l.input l.position 0)

-- A loop whose test fails on 0 ends by its test, and keeps an invariant of its rounds.
module _ (P : Lexer → Type 0) (test : ℕ → Bool) (body : Lexer → Lexer) (stops : test 0 ≡ false)
    (placed : (l : Lexer) → P l → IsPlaced l)
    (keep : (l : Lexer) → P l → test l.ch ≡ true → P (body l))
    (moves : (l : Lexer)
      → IsPlaced l
      → ((body l).position ≡ suc l.position) × ((body l).input ≡ l.input)) where
  test-ne-zero : (l : Lexer) → test l.ch ≡ true → l.ch ≢ 0
  test-ne-zero l h e = cc (stops)

  fewer_left :
      (n : ℕ) (l : Lexer)
      → IsPlaced l
      → test l.ch ≡ true
      → length l.input - l.position < suc n
      → length (body l).input - (body l).position < n
  fewer_left n l p go h =
      omega (arith, (moves l p).0, ap (length {0}) (moves l p).1, inside l p (test-ne-zero l go))

  loop_inv :
      (n : ℕ) (l : Lexer)
      → length l.input - l.position < n
      → P l
      → P (loop n test body l) × (test (loop n test body l).ch ≡ false)
  unfolding loop
  loop_inv zero l h p = absurd (omega arith)
  loop_inv (suc n) l h p = elim (Bool-cases (test l.ch)) [
    | inl go ↦ rw go (loop_inv n (body l) (fewer_left n l (placed l p) go h) (keep l p go))
    | inr stop ↦ rw stop (p, stop)
  ]

  pub for_char_inv :
      (l : Lexer) → P l → P (for_char test body l) × (test (for_char test body l).ch ≡ false)
  unfolding for_char rounds
  for_char_inv l p = loop_inv (rounds l) l (omega arith) p

module _ (test : ℕ → Bool) (stops : test 0 ≡ false) where
  -- The loop that reads on while the test holds, over bytes that are no newlines.
  pub for_read_char :
      (l : Lexer)
      → test b'\n' ≡ false
      → IsPlaced l
      → Moves l (for_char test read_char l) × (test (for_char test read_char l).ch ≡ false)
  for_read_char l line p =
      for_char_inv (Moves l) test read_char stops (λ m h. h.placed)
        (λ m h go. Moves-trans h (read_char-Moves m h.placed (λ e. cc (line))))
        (λ m h. (read_char-position m h, read_char-input m)) l (Moves-refl l p)

  -- The loop that also counts the newlines.
  pub for_skip_char :
      (l : Lexer)
      → IsPlaced l
      → Moves l (for_char test skip_char l) × (test (for_char test skip_char l).ch ≡ false)
  for_skip_char l p =
      for_char_inv (Moves l) test skip_char stops (λ m h. h.placed)
        (λ m h go. Moves-trans h (skip_char-Moves m h.placed))
        (λ m h. (skip_char-position m h, skip_char-input m)) l (Moves-refl l p)
