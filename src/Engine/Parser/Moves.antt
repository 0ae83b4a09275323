-- ===== src/Engine/Parser/Moves.antt =====
-- Each case of the `switch` keeps the template one and brings the parser nearer to its end.
use esma.Base.{ℕ, ◌+◌, ◌*◌, ◌≤◌, ◌<◌, ◌≡◌, Bool, true, false, length, arith, if◌then◌else◌}
use esma.Engine.Parser.Text.{Text}
use esma.Engine.Parser.Modes.{Mode, Parser}
use esma.Engine.Parser.Built.{IsTemplate, Below}

-- Only there a round looks back: it continues behind the colon that `s` points to.
unfoldable pub is_channel : Mode → Bool
is_channel Mode.trans_code_channel = true
is_channel m = false

-- How many rounds may follow at the same place.
unfoldable pub rank : Mode → ℕ
rank Mode.state_section_enter = 2
rank Mode.trans_section_enter = 2
rank Mode.channel_tick_interval = 2
rank Mode.channel_tick_interval_period = 1
rank Mode.channel_sign_number = 1
rank Mode.channel_data_event = 1
rank Mode.state_name_enter = 1
rank Mode.trans_state_src = 1
rank Mode.trans_code = 1
rank m = 0

-- The place that a round does not go back from, the rest of the measure, and the measure, for a
-- text of at most `n` characters.
unfoldable pub anchor : Mode → Text → Text → ℕ
unfolding is_channel
anchor m p s = if is_channel m then length s else length p

unfoldable pub extra : ℕ → Mode → Text → ℕ
unfolding is_channel rank
extra n m p = if is_channel m then length p else n + 1 + rank m

unfoldable pub weight : ℕ → Mode → Text → Text → ℕ
unfolding anchor extra
weight n m p s = (n + 5) * anchor m p s + extra n m p

pub record Good (n : ℕ) (x : Parser) : Type 0 where
  pub template : IsTemplate x.et
  pub target : Below (length x.et.states) x.eti.est_dst
  pub p_in : length x.p ≤ n
  pub s_in : length x.s ≤ n
  pub colon : is_channel x.mode ≡ true → 0 < length x.s

-- What a round in mode `m` comes to.
pub record Nearer (n : ℕ) (m : Mode) (p s : Text) (y : Parser) : Type 0 where
  pub good : Good n y
  pub less : weight n y.mode y.p y.s < weight n m p s

scale : (c a b : ℕ) → a < b → c * a + c ≤ c * b
scale c a b h = grind arith

pub scale-le : (c a b : ℕ) → a ≤ b → c * a ≤ c * b
scale-le c a b h = grind arith

pub weight-down :
    (n : ℕ) (m m' : Mode) (p p' s s' : Text)
    → anchor m' p' s' < anchor m p s
    → extra n m' p' < n + 5
    → weight n m' p' s' < weight n m p s
unfolding weight
weight-down n m m' p p' s s' h e = omega (arith, scale (n + 5) (anchor m' p' s') (anchor m p s) h)

pub weight-same :
    (n : ℕ) (m m' : Mode) (p p' s s' : Text)
    → anchor m' p' s' ≤ anchor m p s
    → extra n m' p' < extra n m p
    → weight n m' p' s' < weight n m p s
unfolding weight
weight-same n m m' p p' s s' h e =
    omega (arith, scale-le (n + 5) (anchor m' p' s') (anchor m p s) h)

module _ (n : ℕ) (x : Parser) (g : Good n x) where
  -- From `m` to a place further on.
  pub advance :
      (m : Mode) (y : Parser)
      → is_channel m ≡ false
      → is_channel y.mode ≡ false
      → rank y.mode ≤ 2
      → IsTemplate y.et
      → Below (length y.et.states) y.eti.est_dst
      → length y.p < length x.p
      → length y.s ≤ n
      → Nearer n m x.p x.s y
  unfolding anchor extra
  advance m y a b r v t h k = record {
    good = record {
      template = v;
      target = t;
      p_in = omega (arith, g.p_in);
      s_in = k;
      colon = λ e. cc;
    };
    less = weight-down n m y.mode x.p y.p x.s y.s (rw (a, b) h) (rw b (omega arith));
  }

  -- From `m` to a mode of lower rank at the same place or further on.
  pub turn :
      (m : Mode) (y : Parser)
      → is_channel m ≡ false
      → is_channel y.mode ≡ false
      → rank y.mode < rank m
      → IsTemplate y.et
      → Below (length y.et.states) y.eti.est_dst
      → length y.p ≤ length x.p
      → length y.s ≤ n
      → Nearer n m x.p x.s y
  unfolding anchor extra
  turn m y a b r v t h k = record {
    good = record {
      template = v;
      target = t;
      p_in = omega (arith, g.p_in);
      s_in = k;
      colon = λ e. cc;
    };
    less = weight-same n m y.mode x.p y.p x.s y.s (rw (a, b) h) (rw (a, b) (omega arith));
  }
