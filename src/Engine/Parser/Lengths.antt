-- ===== src/Engine/Parser/Lengths.antt =====
-- How far the scans of the parser go.
use esma.Base.{
  ℕ, zero, suc, ◌+◌, ◌-◌, ◌≤◌, ◌<◌, ◌≡◌, refl, Bool, true, false, ◌||◌, List, [], ◌∷◌, length, ◌==◌,
  arith, if◌then◌else◌,
}
use esma.Engine.Parser.Text.{
  Text, peek, starts, skip, span, is_end, skip_line, Skip, last, broken, from, comment_line,
  comment_open, comment_close, line_comment, comment_closed, block_rest, block_comment,
}

pub length-skip : (n : ℕ) (p : Text) → length (skip n p) ≡ length p - n
unfolding skip
length-skip zero p = omega arith
length-skip (suc n) [] = omega arith
length-skip (suc n) (c ∷ cs) = omega (arith, length-skip n cs)

pub length-span :
    (test : ℕ → Bool) (p : Text) → length (span test p).0 + length (span test p).1 ≡ length p
unfolding span
length-span test [] = refl
length-span test (c ∷ cs) = ground (arith, length-span test cs)

pub span-pos :
    (test : ℕ → Bool) (p : Text)
    → test 0 ≡ false
    → test (peek p) ≡ true
    → 0 < length (span test p).0
unfolding span
span-pos test [] h k = cc
span-pos test (c ∷ cs) h k = ground arith

-- A test that the NUL fails holds only before it.
pub peek-pos : (test : ℕ → Bool) (p : Text) → test 0 ≡ false → test (peek p) ≡ true → 0 < length p
peek-pos test [] h k = cc
peek-pos test (c ∷ cs) h k = omega arith

pub peek-eq_pos : (c : ℕ) (p : Text) → 0 < c → (peek p == c) ≡ true → 0 < length p
peek-eq_pos c [] h k = ground arith
peek-eq_pos c (d ∷ cs) h k = omega arith

pub starts-le : (w : List ℕ) (p : Text) → starts w p ≡ true → length w ≤ length p
unfolding starts
starts-le [] p h = omega arith
starts-le (w ∷ ws) [] h = cc
starts-le (w ∷ ws) (c ∷ cs) h = ground (arith, starts-le ws cs)

skip_line-le : (p : Text) → length (skip_line p) ≤ length p
unfolding skip_line
skip_line-le [] = omega arith
skip_line-le (c ∷ []) = omega arith
skip_line-le (c ∷ d ∷ cs) = ground (arith, skip_line-le (d ∷ cs))

-- The parser goes on at most at the length `n` before the end.
abbrev pub Within : ℕ → Skip → Type 0
Within n last = Unit
Within n broken = Unit
Within n (from p) = length p ≤ n

Within-if :
    (n : ℕ) (b : Bool) (r s : Skip) → Within n r → Within n s → Within n (if b then r else s)
Within-if n true r s h k = h
Within-if n false r s h k = k

Within-le : (n m : ℕ) (r : Skip) → n ≤ m → Within n r → Within m r
Within-le n m last h k = tt
Within-le n m broken h k = tt
Within-le n m (from p) h k = omega arith

pub line_comment-Within : (p : Text) → Within (length p) (line_comment p)
unfolding line_comment
line_comment-Within p =
    Within-if (length p) (starts comment_line p) _ (from p)
      (Within-if (length p) (is_end (skip_line p)) last (from (skip_line p)) tt (skip_line-le p))
      (omega arith)

comment_closed-Within : (p : Text) → Within (length p) (comment_closed p)
unfolding comment_closed
comment_closed-Within p =
    Within-if (length p) (length p == 3) last (from (skip 2 p)) tt (omega (arith, length-skip 2 p))

block_rest-Within : (p : Text) → Within (length p) (block_rest p)
unfolding block_rest
block_rest-Within [] = tt
block_rest-Within (c ∷ cs) =
    Within-if (suc (length cs)) (starts comment_close (c ∷ cs)) (comment_closed (c ∷ cs)) _
      (comment_closed-Within (c ∷ cs))
      (Within-if (suc (length cs)) (is_end (c ∷ cs) || starts comment_open (c ∷ cs)) broken
        (block_rest cs) tt
        (Within-le (length cs) (suc (length cs)) (block_rest cs) (omega arith)
          (block_rest-Within cs)))

pub block_comment-Within : (p : Text) → Within (length p) (block_comment p)
unfolding block_comment
block_comment-Within p =
    Within-if (length p) (starts comment_open p) (block_rest (skip 1 p)) (from p)
      (Within-le (length (skip 1 p)) (length p) (block_rest (skip 1 p))
        (omega (arith, length-skip 1 p)) (block_rest-Within (skip 1 p)))
      (omega arith)
