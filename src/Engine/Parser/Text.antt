-- ===== src/Engine/Parser/Text.antt =====
-- common/parser_helper.h and the macros of engine/esma_template.c. A pointer into the text is what
-- the text holds from there on, without the final NUL: at `[]` it points to the NUL.
use esma.Base.{
  ℕ, zero, suc, Bool, true, false, ◌&&◌, ◌||◌, List, [], ◌∷◌, length, leb, ◌==◌, if◌then◌else◌,
}

abbrev pub Text : Type 0
Text = List ℕ

-- `*p`
abbrev pub peek : Text → ℕ
peek [] = 0
peek (c ∷ cs) = c

abbrev within : ℕ → ℕ → ℕ → Bool
within lo hi c = leb lo c && leb c hi

abbrev pub is_digit : ℕ → Bool
is_digit c = within b'0' b'9' c

abbrev pub is_letter : ℕ → Bool
is_letter c = within b'a' b'z' c || within b'A' b'Z' c

-- `IS_VALID_STATE_CHAR` and `IS_VALID_FUNC_CHAR`
abbrev pub is_word : ℕ → Bool
is_word c = is_letter c || is_digit c || (c == b'_')

abbrev pub is_lf : ℕ → Bool
is_lf c = c == 10

-- `IS_DELIM`: blank, tab, line feed
abbrev pub is_delim : ℕ → Bool
is_delim c = (c == 32) || (c == 9) || is_lf c

-- `IS_END`: the last character, not the NUL behind it
abbrev pub is_end : Text → Bool
is_end [] = false
is_end (c ∷ []) = true
is_end (c ∷ d ∷ cs) = false

-- `str_2_cmp` … `str_8_cmp`, `IS_ROW` and the tests for the start and the end of a comment. They
-- stop at the first difference, so none reads behind the NUL.
unfoldable pub starts : List ℕ → Text → Bool
starts [] p = true
starts (w ∷ ws) [] = false
starts (w ∷ ws) (c ∷ cs) = (c == w) && starts ws cs

-- `p += n`, where the characters were seen to be there
unfoldable pub skip : ℕ → Text → Text
skip zero p = p
skip (suc n) [] = []
skip (suc n) (c ∷ cs) = skip n cs

-- `while (test(s)) s++`: what is passed over, and where `s` ends. The NUL passes no test.
unfoldable pub span : (ℕ → Bool) → Text → Text × Text
span test [] = ([], [])
span test (c ∷ cs) = let (a, b) = span test cs in if test c then (c ∷ a, b) else ([], c ∷ cs)

-- `while (IS_NOT_LF(p) && IS_NOT_END(p)) p++`
unfoldable pub skip_line : Text → Text
skip_line [] = []
skip_line (c ∷ []) = c ∷ []
skip_line (c ∷ d ∷ cs) = let rest = skip_line (d ∷ cs) in if is_lf c then c ∷ d ∷ cs else rest

-- What is skipped before the `switch`: the loop ends, the parser fails, or it goes on.
pub data Skip : Type 0 where
  last : Skip
  broken : Skip
  from : Text → Skip

abbrev pub comment_line : List ℕ
comment_line = b'/' ∷ b'/' ∷ []

abbrev pub comment_open : List ℕ
comment_open = b'/' ∷ b'*' ∷ []

abbrev pub comment_close : List ℕ
comment_close = b'*' ∷ b'/' ∷ []

-- The single-line comment at the head of the loop.
unfoldable pub line_comment : Text → Skip
unfolding starts skip_line
line_comment p =
    let q = skip_line p in
    if starts comment_line p then (if is_end q then last else from q) else from p

-- After the end of a comment was found at `p`.
unfoldable pub comment_closed : Text → Skip
unfolding skip
comment_closed p = if length p == 3 then last else from (skip 2 p)

-- `while (IS_NOT_MULTILINE_COMMENT_END(p)) …`. Its test of the end stops it before the NUL.
unfoldable pub block_rest : Text → Skip
unfolding starts comment_closed
block_rest [] = broken
block_rest (c ∷ cs) =
    let rest = block_rest cs in
    if starts comment_close (c ∷ cs)
    then comment_closed (c ∷ cs)
    else if is_end (c ∷ cs) || starts comment_open (c ∷ cs)
    then broken
    else rest

-- The multi-line comment at the head of the loop.
unfoldable pub block_comment : Text → Skip
unfolding starts skip block_rest
block_comment p = if starts comment_open p then block_rest (skip 1 p) else from p
