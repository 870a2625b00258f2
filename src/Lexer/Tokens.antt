-- ===== src/Lexer/Tokens.antt =====
-- `NextToken` as a whole: blanks and comments, then one token; and the calls of it, one by one.
use serv_lang.Prelude.{
  ℕ, zero, suc, ◌-◌, ◌<◌, ◌≡◌, ◌≢◌, subst, ap, ◌∙◌, true, false, arith, Bool-cases, if◌then◌else◌,
  inl, inr, length,
}
use serv_lang.Lexer.Token.{Token}
use serv_lang.Lexer.Cursor.{Lexer, peek_char, rounds, is_blank}
use serv_lang.Lexer.Position.{line_from, col_from, IsPlaced, IsCounted, NoSpreadBreak}
use serv_lang.Lexer.Loops.{Moves, Moves-trans, inside}
use serv_lang.Lexer.Readers.{skip_whitespace-Moves, skip_comment-Moves, skip_comment-lt, left-lt}
use serv_lang.Lexer.Gaps.{
  Gap, Begins, Gap-trans, Begins-later, Begins-at, skip_whitespace-Gap, skip_comment-Gap,
}
use serv_lang.Lexer.Scan.{skip_whitespace, skip_comment}
use serv_lang.Lexer.Next.{scan_token, at_comment, next_round, next_token}
use serv_lang.Lexer.Progress.{Reads, scan_token-Reads}

-- A token was read from the place `start` behind the blanks and comments that stand at `l`.
pub record Scans (l : Lexer) (r : Token × Lexer) : Type 0 where
  pub start : Lexer
  pub skips : Moves l start
  pub begins : Begins l.input l.position start.position
  pub reads : Reads start r

not_blank-ne : (c : ℕ) → is_blank c ≡ false → c ≢ b'\n'
unfolding is_blank
not_blank-ne c h e = ground arith

comment-ch : (l : Lexer) → at_comment l ≡ true → (l.ch ≡ b'/') × (peek_char l ≡ b'/')
unfolding at_comment
comment-ch l h = (ground arith, ground arith)

scan-Scans :
    (l : Lexer)
    → IsPlaced l
    → at_comment (skip_whitespace l) ≡ false
    → Scans l (scan_token (skip_whitespace l))
scan-Scans l p other =
    let (m, blank) = skip_whitespace-Moves l p in
    record {
      start = skip_whitespace l;
      skips = m;
      begins = Begins-at l (skip_whitespace l) m (skip_whitespace-Gap l p) blank other;
      reads = scan_token-Reads (skip_whitespace l) m.placed (not_blank-ne _ blank);
    }

-- Behind a comment the lexer stands further on, over the same input.
behind_comment : Lexer → Lexer
behind_comment l = skip_comment (skip_whitespace l)

behind_comment-Moves :
    (l : Lexer) → IsPlaced l → at_comment (skip_whitespace l) ≡ true → Moves l (behind_comment l)
unfolding behind_comment
behind_comment-Moves l p h =
    let m = (skip_whitespace-Moves l p).0 in
    let (a, b) = comment-ch (skip_whitespace l) h in
    Moves-trans m (skip_comment-Moves (skip_whitespace l) m.placed a b)

behind_comment-left :
    (l : Lexer) (n : ℕ)
    → IsPlaced l
    → at_comment (skip_whitespace l) ≡ true
    → length l.input - l.position < suc n
    → length (behind_comment l).input - (behind_comment l).position < n
unfolding behind_comment
behind_comment-left l n p h fuel =
    let k = skip_whitespace l in
    let m = (skip_whitespace-Moves l p).0 in
    let (a, b) = comment-ch k h in
    left-lt k (skip_comment k) n (skip_comment-Moves k m.placed a b)
      (skip_comment-lt k m.placed a b) (inside k m.placed (λ e. ground arith))
      (omega (arith, m.onward, ap (length {0}) m.same_input))

behind_comment-Gap :
    (l : Lexer)
    → IsPlaced l
    → at_comment (skip_whitespace l) ≡ true
    → Gap l.input l.position (behind_comment l).position
unfolding behind_comment
behind_comment-Gap l p h =
    let k = skip_whitespace l in
    let m = (skip_whitespace-Moves l p).0 in
    Gap-trans l.position k.position (skip_comment k).position (skip_whitespace-Gap l p) (
      subst (λ xs. Gap xs k.position (skip_comment k).position) m.same_input
        (skip_comment-Gap k m.placed h))

Scans-later :
    {l m : Lexer} {r : Token × Lexer}
    → Moves l m
    → Gap l.input l.position m.position
    → Scans m r
    → Scans l r
Scans-later {l} {m} h g s = record {
  start = s.start;
  skips = Moves-trans h s.skips;
  begins =
      Begins-later m.input l.input l.position m.position s.start.position h.same_input g s.begins;
  reads = s.reads;
}

next_round-Scans :
    (n : ℕ) (l : Lexer) → IsPlaced l → length l.input - l.position < n → Scans l (next_round n l)
unfolding next_round behind_comment
next_round-Scans zero l p fuel = absurd (omega arith)
next_round-Scans (suc n) l p fuel = elim (Bool-cases (at_comment (skip_whitespace l))) [
  | inl comment ↦
      let m = behind_comment-Moves l p comment in
      rw comment (
        Scans-later m (behind_comment-Gap l p comment)
          (next_round-Scans n (behind_comment l) m.placed (behind_comment-left l n p comment fuel)))
  | inr other ↦ rw other (scan-Scans l p other)
]

-- Any two numbers of rounds that reach the end of the input give the same token.
next_round-enough :
    (n m : ℕ) (l : Lexer)
    → IsPlaced l
    → length l.input - l.position < n
    → length l.input - l.position < m
    → next_round n l ≡ next_round m l
unfolding next_round behind_comment
next_round-enough zero m l p hn hm = absurd (omega arith)
next_round-enough (suc n) zero l p hn hm = absurd (omega arith)
next_round-enough (suc n) (suc m) l p hn hm = elim (Bool-cases (at_comment (skip_whitespace l))) [
  | inl comment ↦ rw comment (
      next_round-enough n m (behind_comment l) (behind_comment-Moves l p comment).placed
        (behind_comment-left l n p comment hn) (behind_comment-left l m p comment hm))
  | inr other ↦ rw other
]

pub next_token-Scans : (l : Lexer) → IsPlaced l → Scans l (next_token l)
unfolding next_token rounds
next_token-Scans l p = next_round-Scans (rounds l) l p (omega arith)

-- The fuel is enough: from any placed lexer, `NextToken` skips blanks; at a comment it skips the
-- comment and is called again from there, and otherwise it reads one token.
pub next_token-unfold :
    (l : Lexer)
    → IsPlaced l
    → next_token l ≡ (
        if at_comment (skip_whitespace l)
        then next_token (skip_comment (skip_whitespace l))
        else scan_token (skip_whitespace l))
unfolding next_token rounds next_round behind_comment
next_token-unfold l p = elim (Bool-cases (at_comment (skip_whitespace l))) [
  | inl comment ↦ rw comment (
      next_round-enough _ (rounds (behind_comment l)) (behind_comment l)
        (behind_comment-Moves l p comment).placed (behind_comment-left l _ p comment (omega arith))
        (unfold rounds in omega arith))
  | inr other ↦ rw other
]

-- From a placed lexer, one call of `NextToken` ends strictly further on, in a placed lexer over the
-- same input.
pub next_token-forward :
    (l : Lexer)
    → IsPlaced l
    → (l.position < (next_token l).1.position)
      × IsPlaced (next_token l).1
      × ((next_token l).1.input ≡ l.input)
next_token-forward l p =
    let s = next_token-Scans l p in
    let m = Moves-trans s.skips s.reads.moves in
    (omega (arith, s.skips.onward, s.reads.forward), m.placed, m.same_input)

-- The token's line and column are those of the place where it begins, which is the first one behind the
-- blanks and comments at the lexer's place, and the lexer moves on behind it; and the lexer's own counters
-- stay right. The input may hold no two dots in front of a line end.
pub next_token-counts :
    (l : Lexer)
    → IsPlaced l
    → IsCounted l
    → NoSpreadBreak l.input
    → ((start : ℕ) × Begins l.input l.position start
        × (start < (next_token l).1.position)
        × ((next_token l).0.line ≡ line_from 1 l.input start)
        × ((next_token l).0.col ≡ col_from 1 l.input start))
      × IsCounted (next_token l).1
next_token-counts l p c free =
    let s = next_token-Scans l p in
    let k = s.start in
    let same = s.skips.same_input in
    let kc = s.skips.counted free c in
    (
      (
        k.position,
        s.begins,
        s.reads.forward,
        s.reads.at_line ∙ kc.line_is ∙ ap (λ xs. line_from 1 xs k.position) same,
        s.reads.at_col ∙ kc.col_is ∙ ap (λ xs. col_from 1 xs k.position) same,
      ),
      (Moves-trans s.skips s.reads.moves).counted free c,
    )
