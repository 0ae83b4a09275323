-- ===== src/Engine/Parser/Correct.antt =====
-- `_decode_buffer` as a whole: it ends on every text, and what it leaves is a template again.
use esma.Base.{ℕ, zero, suc, ◌<◌, ◌≡◌, refl, sym, subst, ◌∙◌, ◌⊎◌, inl, inr, some, length, arith}
use esma.Engine.Types.{Template}
use esma.Engine.Parser.Text.{Text}
use esma.Engine.Parser.Terms.{Surroundings}
use esma.Engine.Parser.Modes.{Parser}
use esma.Engine.Parser.Decode.{
  Round, ended, failed, overrun, again, decode_round, continue, decode_loop, initial, enough,
  decode,
}
use esma.Engine.Parser.Built.{IsTemplate}
use esma.Engine.Parser.Moves.{is_channel, rank, anchor, extra, weight, Good}
use esma.Engine.Parser.Rounds.{Progress, decode_round-Progress}

-- What the loop may come to: it is over, and a template that it leaves is one.
abbrev pub Settled : Round → Type 0
Settled (ended et) = IsTemplate et
Settled failed = Unit
Settled overrun = Unit
Settled (again x) = ⊥

module _ (n : ℕ) (env : Surroundings) where
  decode_loop-Settled :
      (fuel : ℕ) (x : Parser)
      → Good n x
      → weight n x.mode x.p x.s < fuel
      → (r : Round) × (decode_loop env fuel x ≡ some r) × Settled r
  unfolding decode_loop
  decode_loop-Settled zero x g h = absurd (omega arith)
  decode_loop-Settled (suc fuel) x g h =
      continued (decode_round env x) (decode_round-Progress n env x g)
        (λ y k l. decode_loop-Settled fuel y k (omega (arith, l)))
    where
      continued :
          (r : Round)
          → Progress n x r
          → ((y : Parser)
              → Good n y
              → weight n y.mode y.p y.s < weight n x.mode x.p x.s
              → (q : Round) × (decode_loop env fuel y ≡ some q) × Settled q)
          → (q : Round) × (continue (decode_loop env fuel) r ≡ some q) × Settled q
      continued (ended et) v ih = (ended et, refl, v)
      continued failed v ih = (failed, refl, tt)
      continued overrun v ih = (overrun, refl, tt)
      continued (again y) v ih = ih y v.good v.less

initial-Good : (text : Text) (et : Template) → IsTemplate et → Good (length text) (initial text et)
unfolding is_channel
initial-Good text et v = record {
  template = v;
  target = tt;
  p_in = omega arith;
  s_in = omega arith;
  colon = λ e. cc;
}

settled_eq : (r q : Round) → some r ≡ some q → r ≡ q
settled_eq r q e = cc

pub decode-Settled :
    (env : Surroundings) (text : Text) (et : Template)
    → IsTemplate et
    → (r : Round) × (decode env text et ≡ some r) × Settled r
unfolding decode weight anchor extra is_channel rank
decode-Settled env text et v =
    let n = length text in
    decode_loop-Settled n env (enough text) (initial text et) (initial-Good text et v) (grind arith)

-- A parser that starts from a template leaves one whenever it succeeds: the index of each target is
-- that of a state or self, and the maxima of each state cover the codes of its transitions. In the
-- source the target is a pointer into the array of states, which moves when the array grows.
pub decode-IsTemplate :
    (env : Surroundings) (text : Text) (et et' : Template)
    → IsTemplate et
    → decode env text et ≡ some (ended et')
    → IsTemplate et'
decode-IsTemplate env text et et' v e =
    let (r, e', s) = decode-Settled env text et v in
    subst Settled (settled_eq r (ended et') (sym e' ∙ e)) s

-- From a template, the loop of `_decode_buffer` ends on every text, within a number of rounds that
-- is quadratic in the length of the text: with the template, with an error, or with a read or
-- write where there must be none.
pub decode-ends :
    (env : Surroundings) (text : Text) (et : Template)
    → IsTemplate et
    → ((et' : Template) × (decode env text et ≡ some (ended et')))
      ⊎ (decode env text et ≡ some failed)
      ⊎ (decode env text et ≡ some overrun)
decode-ends env text et v = outcome (decode-Settled env text et v)
  where
    outcome :
        (r : Round) × (decode env text et ≡ some r) × Settled r
        → ((et' : Template) × (decode env text et ≡ some (ended et')))
          ⊎ (decode env text et ≡ some failed)
          ⊎ (decode env text et ≡ some overrun)
    outcome (ended et', e, s) = inl (et', e)
    outcome (failed, e, s) = inr (inl e)
    outcome (overrun, e, s) = inr (inr e)
    outcome (again x, e, s) = absurd s
