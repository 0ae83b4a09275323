-- ===== src/Engine/Parser/Decode.antt =====
-- engine/esma_template.c: the loop of `_decode_buffer`.
use esma.Base.{ℕ, zero, suc, ◌+◌, ◌*◌, Option, none, some, length, if◌then◌else◌}
use esma.Engine.Types.{Template}
use esma.Engine.Parser.Text.{
  Text, Skip, last, broken, from, peek, is_delim, is_end, skip, line_comment, block_comment,
}
use esma.Engine.Parser.Terms.{Surroundings, clean, Result, ok, refused, fault}
use esma.Engine.Parser.Modes.{Parser, start}
use esma.Engine.Parser.Options.{switch}

-- What a round of the loop does: it ends with the template, an error or a read outside the text, or
-- the next round follows.
pub data Round : Type 0 where
  ended : Template → Round
  failed : Round
  overrun : Round
  again : Parser → Round

unfoldable pub round_of : Result Parser → Round
round_of (ok x) = again x
round_of refused = failed
round_of fault = overrun

-- What follows a round.
unfoldable pub continue : (Parser → Option Round) → Round → Option Round
continue next (again x) = next x
continue next (ended et) = some (ended et)
continue next failed = some failed
continue next overrun = some overrun

module _ (env : Surroundings) where
  -- From `if (IS_DELIM(p))` on.
  unfoldable pub decode_at : Parser → Text → Round
  unfolding round_of
  decode_at x p =
      if is_delim (peek p)
      then again (record x { p = skip 1 p })
      else round_of (switch env x.mode (record x { p = p }))

  unfoldable pub after_block : Parser → Skip → Round
  unfolding decode_at
  after_block x last = ended x.et
  after_block x broken = failed
  after_block x (from p) = decode_at x p

  unfoldable pub after_line : Parser → Skip → Round
  unfolding after_block
  after_line x last = ended x.et
  after_line x broken = failed
  after_line x (from p) = after_block x (block_comment p)

  -- One round.
  unfoldable pub decode_round : Parser → Round
  unfolding after_line
  decode_round x = if is_end x.p then ended x.et else after_line x (line_comment x.p)

  -- The loop, with fuel; none if it runs out.
  unfoldable pub decode_loop : ℕ → Parser → Option Round
  unfolding decode_round continue
  decode_loop zero x = none
  decode_loop (suc fuel) x = continue (decode_loop fuel) (decode_round x)

abbrev pub initial : Text → Template → Parser
initial text et = record { p = text; s = text; mode = start; eti = clean; et = et }

-- `_decode_buffer`: the rounds are at most quadratic in the text.
abbrev pub enough : Text → ℕ
enough text = (length text + 6) * (length text + 6)

unfoldable pub decode : Surroundings → Text → Template → Option Round
unfolding decode_loop
decode env text et = decode_loop env (enough text) (initial text et)
