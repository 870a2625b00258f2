-- ===== src/Lexer/Gaps.antt =====
-- The blanks and comments that `NextToken` skips, as a relation on the places of the input.
use serv_lang.Prelude.{
  ℕ, suc, ◌≤◌, ◌<◌, ◌≡◌, ◌≢◌, refl, sym, ap, subst, ◌∙◌, Bool, true, false, ◌||◌, ◌==◌, ◌⊎◌, Bytes,
  arith, ltb, Bool-cases, inl, inr,
}
use serv_lang.Lexer.Cursor.{Lexer, read_char, skip_char, peek_char, for_char, is_blank}
use serv_lang.Lexer.Position.{byte_at, IsPlaced, peek_char_lem, read_char-IsPlaced}
use serv_lang.Lexer.Loops.{
  Moves, Moves-refl, Moves-trans, read_char-Moves, read_char-position, read_char-input,
  skip_char-Moves, skip_char-position, skip_char-input, for_char_inv,
}
use serv_lang.Lexer.Readers.{read_two-Moves}
use serv_lang.Lexer.Scan.{skip_whitespace, in_line, skip_comment}
use serv_lang.Lexer.Next.{at_comment}

-- A blank, a tab, a line feed or a carriage return.
unfoldable pub white : ℕ → Bool
white c = c == 32 || c == 9 || c == 10 || c == 13

-- Two slashes stand at the place.
abbrev pub Slashes : Bytes → ℕ → Type 0
Slashes xs i = (byte_at xs i ≡ 47) × (byte_at xs (suc i) ≡ 47)

-- No line feed and no end of the input stands at a place from `i` on and before `j`.
abbrev pub InLine : Bytes → ℕ → ℕ → Type 0
InLine xs i j = (q : ℕ) → i ≤ q → q < j → (byte_at xs q ≢ 10) × (byte_at xs q ≢ 0)

-- From one place to another there are only white bytes and comments, each of which ends its line or the
-- input.
pub data Gap (xs : Bytes) : ℕ → ℕ → Type 0 where
  nothing : (i : ℕ) → Gap xs i i
  blank : (i j : ℕ) → white (byte_at xs i) ≡ true → Gap xs (suc i) j → Gap xs i j
  comment :
      (i k j : ℕ)
      → Slashes xs i
      → InLine xs (suc (suc i)) k
      → suc (suc i) ≤ k
      → (byte_at xs k ≡ 10) ⊎ (byte_at xs k ≡ 0)
      → Gap xs k j
      → Gap xs i j

-- A token begins behind the gap.
pub record Begins (xs : Bytes) (i j : ℕ) : Type 0 where
  pub gap : Gap xs i j
  pub not_white : white (byte_at xs j) ≡ false
  pub no_comment : ¬ Slashes xs j

pub Gap-trans : {xs : Bytes} (i j k : ℕ) → Gap xs i j → Gap xs j k → Gap xs i k
Gap-trans i _ k (nothing _) h = h
Gap-trans i j k (blank _ _ w g) h = blank i k w (Gap-trans (suc i) j k g h)
Gap-trans i j k (comment _ m _ s l a e g) h = comment i m k s l a e (Gap-trans m j k g h)

pub white_lem : (c : ℕ) → is_blank c ≡ white c
unfolding is_blank white
white_lem c = refl

-- The byte at a lexer's place, in an input that it shares.
pub byte_at-ch : (xs : Bytes) (l : Lexer) → IsPlaced l → l.input ≡ xs → byte_at xs l.position ≡ l.ch
byte_at-ch xs l p same = ap (λ ys. byte_at ys l.position) (sym same) ∙ sym p.current

-- One white byte more.
skip_char-Gap :
    (xs : Bytes) (i : ℕ) (l : Lexer)
    → IsPlaced l
    → l.input ≡ xs
    → is_blank l.ch ≡ true
    → Gap xs i l.position
    → Gap xs i (skip_char l).position
skip_char-Gap xs i l p same is_white g =
    let w = ap white (byte_at-ch xs l p same) ∙ (sym (white_lem l.ch) ∙ is_white) in
    subst (Gap xs i) (sym (skip_char-position l p)) (
      Gap-trans i l.position (suc l.position) g
        (blank l.position (suc l.position) w (nothing (suc l.position))))

-- The whitespace loop crosses a gap.
pub skip_whitespace-Gap :
    (l : Lexer) → IsPlaced l → Gap l.input l.position (skip_whitespace l).position
unfolding skip_whitespace
skip_whitespace-Gap l p =
    (for_char_inv (λ m. Moves l m × Gap l.input l.position m.position) is_blank skip_char
      (unfold is_blank in refl) (λ m h. h.0.placed)
      (λ m h go. (
        Moves-trans h.0 (skip_char-Moves m h.0.placed),
        skip_char-Gap l.input l.position m h.0.placed h.0.same_input go h.1,
      ))
      (λ m h. (skip_char-position m h, skip_char-input m)) l
      (Moves-refl l p, nothing l.position)).0.1

-- One byte more of a line.
read_char-InLine :
    (xs : Bytes) (i : ℕ) (l : Lexer)
    → IsPlaced l
    → l.input ≡ xs
    → in_line l.ch ≡ true
    → InLine xs i l.position
    → InLine xs i (read_char l).position
unfolding in_line
read_char-InLine xs i l p same go before q from to = elim (Bool-cases (ltb q l.position)) [
  | inl earlier ↦ before q from (ground arith)
  | inr now ↦
      let here : q ≡ l.position = ground (arith, read_char-position l p) in
      let byte : byte_at xs q ≡ l.ch = ap (byte_at xs) here ∙ byte_at-ch xs l p same in
      ((λ e. ground arith), (λ e. ground arith))
]

pub at_comment-Slashes : (l : Lexer) → IsPlaced l → at_comment l ≡ true → Slashes l.input l.position
unfolding at_comment
at_comment-Slashes l p at = (sym p.current ∙ ground arith, sym (peek_char_lem l p) ∙ ground arith)

pub at_comment-none : (l : Lexer) → IsPlaced l → at_comment l ≡ false → ¬ Slashes l.input l.position
unfolding at_comment
at_comment-none l p at (a, b) =
    let c : l.ch ≡ 47 = p.current ∙ a in
    let d : peek_char l ≡ 47 = peek_char_lem l p ∙ b in ground arith

at_slash : (l : Lexer) → at_comment l ≡ true → (l.ch ≢ 10) × (peek_char l ≢ 10)
unfolding at_comment
at_slash l at = ((λ e. ground arith), (λ e. ground arith))

feed_blank : (c : ℕ) → (c == 10) ≡ true → is_blank c ≡ true
unfolding is_blank
feed_blank c h = ground arith

-- The lexer behind the line of a comment.
abbrev behind_line : Lexer → Lexer
behind_line l = for_char in_line read_char (read_char (read_char l))

two_on : (l : Lexer) → IsPlaced l → (read_char (read_char l)).position ≡ suc (suc l.position)
two_on l p =
    read_char-position (read_char l) (read_char-IsPlaced l) ∙ ap suc (read_char-position l p)

-- The loop over the line of a comment.
behind_line-InLine :
    (l : Lexer)
    → IsPlaced l
    → at_comment l ≡ true
    → (Moves (read_char (read_char l)) (behind_line l)
        × InLine l.input (suc (suc l.position)) (behind_line l).position)
      × (in_line (behind_line l).ch ≡ false)
unfolding at_comment in_line
behind_line-InLine l p at =
    let two = read_two-Moves l p (λ e. ground arith) (λ e. ground arith) in
    let start : InLine l.input (suc (suc l.position)) (read_char (read_char l)).position =
      λ q from to. absurd (omega (arith, from, to, two_on l p)) in
    for_char_inv
      (λ m. Moves (read_char (read_char l)) m × InLine l.input (suc (suc l.position)) m.position)
      in_line read_char refl (λ m h. h.0.placed)
      (λ m h go. (
        Moves-trans h.0 (read_char-Moves m h.0.placed (λ e. ground arith)),
        read_char-InLine l.input (suc (suc l.position)) m h.0.placed
            (h.0.same_input ∙ two.same_input) go h.1,
      ))
      (λ m h. (read_char-position m h, read_char-input m)) (read_char (read_char l))
      (Moves-refl (read_char (read_char l)) two.placed, start)

line_end : (c : ℕ) → in_line c ≡ false → (c ≡ 10) ⊎ (c ≡ 0)
unfolding in_line
line_end c h = elim (Bool-cases (c == 10)) [
  | inl feed ↦ inl (ground arith)
  | inr other ↦ inr (ground arith)
]

-- A comment is skipped as one, with the line feed behind it.
pub skip_comment-Gap :
    (l : Lexer)
    → IsPlaced l
    → at_comment l ≡ true
    → Gap l.input l.position (skip_comment l).position
unfolding skip_comment
skip_comment-Gap l p at =
    let two = read_two-Moves l p (at_slash l at).0 (at_slash l at).1 in
    let ((m, line), stop) = behind_line-InLine l p at in
    let same : (behind_line l).input ≡ l.input = m.same_input ∙ two.same_input in
    let byte = byte_at-ch l.input (behind_line l) m.placed same in
    let end : (byte_at l.input (behind_line l).position ≡ 10)
        ⊎ (byte_at l.input (behind_line l).position ≡ 0) =
      subst (λ c. (c ≡ 10) ⊎ (c ≡ 0)) (sym byte) (line_end (behind_line l).ch stop) in
    let over : Gap l.input l.position (behind_line l).position =
      comment l.position (behind_line l).position (behind_line l).position
        (at_comment-Slashes l p at) line (omega (arith, two_on l p, m.onward)) end
        (nothing (behind_line l).position) in
    elim (Bool-cases ((behind_line l).ch == 10)) [
      | inl feed ↦ rw feed (
          skip_char-Gap l.input l.position (behind_line l) m.placed same
            (feed_blank (behind_line l).ch feed) over)
      | inr other ↦ rw other over
    ]

pub Begins-later :
    (xs ys : Bytes) (i j k : ℕ) → xs ≡ ys → Gap ys i j → Begins xs j k → Begins ys i k
Begins-later xs ys i j k same g b =
    let later = subst (λ zs. Begins zs j k) same b in
    record {
      gap = Gap-trans i j k g later.gap;
      not_white = later.not_white;
      no_comment = later.no_comment;
    }

-- Where the lexer has crossed a gap and stands at no blank and no comment, a token begins.
pub Begins-at :
    (l m : Lexer)
    → Moves l m
    → Gap l.input l.position m.position
    → is_blank m.ch ≡ false
    → at_comment m ≡ false
    → Begins l.input l.position m.position
Begins-at l m h g not_blank other = record {
  gap = g;
  not_white =
      ap white (byte_at-ch l.input m h.placed h.same_input) ∙ (sym (white_lem m.ch) ∙ not_blank);
  no_comment =
      subst (λ xs. ¬ Slashes xs m.position) h.same_input (at_comment-none m h.placed other);
}
