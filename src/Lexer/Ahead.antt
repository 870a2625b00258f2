-- ===== src/Lexer/Ahead.antt =====
-- The text that a lexer has ahead of it, and how `readChar` walks through it.
use serv_lang.Prelude.{
  ℕ, zero, suc, ◌+◌, ◌-◌, ◌<◌, ◌≡◌, refl, ap, ◌∙◌, Bool, false, List, [], ◌∷◌, Bytes, arith,
  if◌then◌else◌, length, drop, take, get_or, take_while, Bool-cases, inl, inr,
}
use serv_lang.Lexer.Cursor.{Lexer, read_char, skip_char, peek_char, slice, rounds, loop, for_char}
use serv_lang.Lexer.Position.{IsPlaced, read_char-IsPlaced, peek_char_lem}
use serv_lang.Lexer.Loops.{
  read_char-position, read_char-input, skip_char-position, skip_char-input, skip_char-IsPlaced,
}

-- The lexer stands at the first byte of `text`, which is all that is left of its input.
pub record Ahead (l : Lexer) (text : Bytes) : Type 0 where
  pub is_placed : IsPlaced l
  pub left : drop l.position l.input ≡ text

module _ {ℓ} {A : Type ℓ} where
  drop-suc : (n : ℕ) (xs : List A) (y : A) (ys : List A) → drop n xs ≡ y ∷ ys → drop (suc n) xs ≡ ys
  drop-suc zero [] y ys e = cc
  drop-suc zero (x ∷ xs) y ys e = cc
  drop-suc (suc n) [] y ys e = cc
  drop-suc (suc n) (x ∷ xs) y ys e = drop-suc n xs y ys e

  get_or-drop :
      (n : ℕ) (xs : List A) (d y : A) (ys : List A) → drop n xs ≡ y ∷ ys → get_or xs n d ≡ y
  get_or-drop zero [] d y ys e = cc
  get_or-drop zero (x ∷ xs) d y ys e = cc
  get_or-drop (suc n) [] d y ys e = cc
  get_or-drop (suc n) (x ∷ xs) d y ys e = get_or-drop n xs d y ys e

  get_or-drop_nil : (n : ℕ) (xs : List A) (d : A) → drop n xs ≡ [] → get_or xs n d ≡ d
  get_or-drop_nil zero [] d e = refl
  get_or-drop_nil zero (x ∷ xs) d e = cc
  get_or-drop_nil (suc n) [] d e = refl
  get_or-drop_nil (suc n) (x ∷ xs) d e = get_or-drop_nil n xs d e

  length-drop : (n : ℕ) (xs : List A) → length (drop n xs) ≡ length xs - n
  length-drop zero xs = omega arith
  length-drop (suc n) [] = omega arith
  length-drop (suc n) (x ∷ xs) = omega (arith, length-drop n xs)

module _ {l : Lexer} {c : ℕ} {text : Bytes} (h : Ahead l (c ∷ text)) where
  pub Ahead-ch : l.ch ≡ c
  Ahead-ch = h.is_placed.current ∙ get_or-drop l.position l.input 0 c text h.left

  next_left : drop (suc l.position) l.input ≡ text
  next_left = drop-suc l.position l.input c text h.left

  pub Ahead-read_char : Ahead (read_char l) text
  Ahead-read_char = record {
    is_placed = read_char-IsPlaced l;
    left = rw (read_char-position l h.is_placed, read_char-input l) next_left;
  }

  pub Ahead-skip_char : Ahead (skip_char l) text
  Ahead-skip_char = record {
    is_placed = skip_char-IsPlaced l;
    left = rw (skip_char-position l h.is_placed, skip_char-input l) next_left;
  }

module _ {l : Lexer} {c d : ℕ} {text : Bytes} (h : Ahead l (c ∷ d ∷ text)) where
  pub Ahead-peek_char : peek_char l ≡ d
  Ahead-peek_char =
      peek_char_lem l h.is_placed
      ∙ get_or-drop (suc l.position) l.input 0 d text
          (drop-suc l.position l.input c (d ∷ text) h.left)

pub Ahead-ch_end : {l : Lexer} → Ahead l [] → l.ch ≡ 0
Ahead-ch_end {l} h = h.is_placed.current ∙ get_or-drop_nil l.position l.input 0 h.left

-- The fuel of a loop covers the text.
pub rounds-left : {l : Lexer} {text : Bytes} → Ahead l text → rounds l ≡ suc (length text)
unfolding rounds
rounds-left {l} h = omega (arith, length-drop l.position l.input, ap (length {0}) h.left)

-- A reading loop stops behind the longest prefix that passes its test.
pub drop_while : (ℕ → Bool) → Bytes → Bytes
drop_while p [] = []
drop_while p (x ∷ xs) = let rest = drop_while p xs in if p x then rest else x ∷ xs

module _ (test : ℕ → Bool) (stops : test 0 ≡ false) where
  loop-Ahead :
      (text : Bytes) (n : ℕ) (l : Lexer)
      → Ahead l text
      → length text < n
      → Ahead (loop n test read_char l) (drop_while test text)
        × ((loop n test read_char l).position ≡ l.position + length (take_while test text))
  unfolding loop drop_while
  loop-Ahead text zero l h fuel = absurd (omega arith)
  loop-Ahead [] (suc n) l h fuel = rw (ap test (Ahead-ch_end h) ∙ stops) (h, omega arith)
  loop-Ahead (c ∷ cs) (suc n) l h fuel = elim (Bool-cases (test c)) [
    | inl go ↦
        let (a, p) = loop-Ahead cs n (read_char l) (Ahead-read_char h) (omega arith) in
        rw (ap test (Ahead-ch h) ∙ go, go) (a, omega (arith, p, read_char-position l h.is_placed))
    | inr stop ↦ rw (ap test (Ahead-ch h) ∙ stop, stop) (h, omega arith)
  ]

  pub for_read_char-Ahead :
      {text : Bytes} {l : Lexer}
      → Ahead l text
      → Ahead (for_char test read_char l) (drop_while test text)
        × ((for_char test read_char l).position ≡ l.position + length (take_while test text))
  unfolding for_char
  for_read_char-Ahead {text} {l} h = loop-Ahead text (rounds l) l h (omega (arith, rounds-left h))

-- The bytes from the place of a lexer to a place further on are a prefix of what is ahead.
pub slice-Ahead :
    {l : Lexer} {text : Bytes} (to n : ℕ)
    → Ahead l text
    → to ≡ l.position + n
    → slice l.input l.position to ≡ take n text
unfolding slice
slice-Ahead {l} {text} to n h e =
    ap (λ k. take k (drop l.position l.input)) (omega (arith, e)) ∙ ap (take n) h.left

pub take-take_while :
    (p : ℕ → Bool) (xs : Bytes) → take (length (take_while p xs)) xs ≡ take_while p xs
take-take_while p [] = refl
take-take_while p (x ∷ xs) = elim (Bool-cases (p x)) [
  | inl pass ↦ rw pass (ap (◌∷◌ x) (take-take_while p xs))
  | inr fail ↦ rw fail
]
