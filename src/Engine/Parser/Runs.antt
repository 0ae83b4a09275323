-- ===== src/Engine/Parser/Runs.antt =====
-- Runs of the loop of `_decode_buffer`, round by round, without fuel.
use esma.Base.{
  ℕ, zero, suc, ◌<◌, arith, ◌≡◌, refl, ap, sym, ◌∙◌, false, Option, some, [], ◌∷◌, length, ◌==◌,
}
use esma.Engine.Types.{Template}
use esma.Engine.Parser.Text.{Text, from, peek, is_delim, starts, line_comment, block_comment}
use esma.Engine.Parser.Terms.{Surroundings, Internal}
use esma.Engine.Parser.Modes.{Parser, Mode}
use esma.Engine.Parser.Options.{switch}
use esma.Engine.Parser.Decode.{
  Round, round_of, again, decode_at, after_block, after_line, decode_round, continue, decode_loop,
  initial, enough, decode,
}
use esma.Engine.Parser.Built.{IsTemplate}
use esma.Engine.Parser.Correct.{decode-Settled}

-- From a parser on, the rounds come to this one, after which there is no other.
pub data Ends (env : Surroundings) : Parser → Round → Type 0 where
  stop :
      {x : Parser} {r : Round}
      → decode_round env x ≡ r
      → ((next : Parser → Option Round) → continue next r ≡ some r)
      → Ends env x r
  step : {x y : Parser} {r : Round} → decode_round env x ≡ again y → Ends env y r → Ends env x r

loop-Ends :
    (env : Surroundings) {x : Parser} {r : Round} (fuel : ℕ) (q : Round)
    → Ends env x r
    → decode_loop env fuel x ≡ some q
    → some q ≡ some r
unfolding decode_loop continue
loop-Ends env zero q (stop e f) h = cc
loop-Ends env (suc fuel) q (stop e f) h =
    sym h ∙ ap (continue (decode_loop env fuel)) e ∙ f (decode_loop env fuel)
loop-Ends env zero q (step e t) h = cc
loop-Ends env (suc fuel) q (step {x} {y} e t) h = loop-Ends env fuel q t (sym (next e) ∙ h)
  where
    next :
        decode_round env x ≡ again y
        → continue (decode_loop env fuel) (decode_round env x) ≡ decode_loop env fuel y
    next k = ap (continue (decode_loop env fuel)) k

-- The fuel of `decode` is enough for every run.
pub decode-Ends :
    (env : Surroundings) (text : Text) (et : Template) (r : Round)
    → IsTemplate et
    → Ends env (initial text et) r
    → decode env text et ≡ some r
unfolding decode
decode-Ends env text et r v t =
    let (q, e, s) = decode-Settled env text et v in e ∙ loop-Ends env (enough text) q t e

abbrev pub parser_at : Mode → Text → Text → Internal → Template → Parser
parser_at m p s eti et = record { p = p; s = s; mode = m; eti = eti; et = et }

no_line_comment :
    (c d : ℕ) (cs : Text) → (c == b'/') ≡ false → line_comment (c ∷ d ∷ cs) ≡ from (c ∷ d ∷ cs)
unfolding line_comment starts
no_line_comment c d cs n = rw (line_comment, starts, n) refl

no_block_comment :
    (c d : ℕ) (cs : Text) → (c == b'/') ≡ false → block_comment (c ∷ d ∷ cs) ≡ from (c ∷ d ∷ cs)
unfolding block_comment starts
no_block_comment c d cs n = rw (block_comment, starts, n) refl

not_blank :
    (env : Surroundings) (x : Parser) (p : Text)
    → is_delim (peek p) ≡ false
    → decode_at env x p ≡ round_of (switch env x.mode (record x { p = p }))
unfolding decode_at
not_blank env x p h = rw (decode_at, h) refl

round-before :
    (env : Surroundings) (m : Mode) (c d : ℕ) (cs s : Text) (eti : Internal) (et : Template)
    → is_delim c ≡ false
    → (c == b'/') ≡ false
    → decode_round env (parser_at m (c ∷ d ∷ cs) s eti et)
      ≡ round_of (switch env m (parser_at m (c ∷ d ∷ cs) s eti et))
unfolding decode_round after_line after_block
round-before env m c d cs s eti et h n =
    let x = parser_at m (c ∷ d ∷ cs) s eti et in
    ap (after_line env x) (no_line_comment c d cs n)
    ∙ ap (after_block env x) (no_block_comment c d cs n)
    ∙ not_blank env x (c ∷ d ∷ cs) h

-- At a character of no blank and no comment, before the last one.
pub round-switch :
    (env : Surroundings) (m : Mode) (c : ℕ) (cs s : Text) (eti : Internal) (et : Template)
    → is_delim c ≡ false
    → (c == b'/') ≡ false
    → 0 < length cs
    → decode_round env (parser_at m (c ∷ cs) s eti et)
      ≡ round_of (switch env m (parser_at m (c ∷ cs) s eti et))
round-switch env m c [] s eti et h n l = absurd (omega arith)
round-switch env m c (d ∷ cs) s eti et h n l = round-before env m c d cs s eti et h n
