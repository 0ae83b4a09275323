-- ===== src/Tests/Parser.antt =====
-- engine/esma_template.c: the parser at small texts.
use esma.Base.{
  ap, length, ℕ, zero, suc, ◌+◌, ◌*◌, ◌-◌, ◌/◌, ◌%◌, ◌^◌, ◌<◌, ◌≡◌, ◌≢◌, refl, sym, subst, ◌∙◌, ◌⊎◌,
  inl, inr, Bool, true, false, Bool-cases, Option, none, some, List, [], ◌∷◌, ◌++◌, append_assoc,
  ltb, arith, if◌then◌else◌,
}
use esma.Engine.Types.{StateTemplate, Name, Template, ch_none, ch_tick, tm_oneshot}
use esma.Engine.Load.{codes, decimal, decimal_fuel, same_name, find_name}
use esma.Engine.Load.Succeeds.{same_name_refl}
use esma.Engine.Parser.Text.{
  Text, is_digit, starts, skip, span, skip_line, line_comment, block_comment, block_rest,
  comment_closed,
}
use esma.Engine.Parser.Terms.{
  Surroundings, zero_state, init, new_state, place_state, named, new_trans, push_from, push_trans,
  with_trans, counted,
}
use esma.Engine.Parser.Modes.{
  names, on_idle, on_state_section, on_state_section_enter, on_state_name_enter, added_state,
  on_trans_section_enter, on_trans_state_src, known, on_trans_state_row, on_trans_state_dst,
}
use esma.Engine.Parser.Words.{period}
use esma.Engine.Parser.Options.{
  switch, on_trans_code, no_number, to_colon, on_trans_code_channel, on_tick_interval, interval,
  after_interval, on_tick_interval_period, on_trans_semicolon, added_trans,
}
use esma.Engine.Parser.Decode.{
  ended, failed, overrun, decode, decode_round, decode_loop, decode_at, after_block, after_line,
  continue, round_of,
}
use esma.Engine.Parser.Built.{IsTemplate}
use esma.Engine.Parser.Correct.{decode-ends}
use esma.Engine.Parser.Printed.{IsName, with_states, print_states}
use esma.Engine.Parser.Arrows.{Arrow, AllArrows, with_arrows}
use esma.Engine.Parser.Roundtrip.{Spare, Serves, print_trans, decode-print}
use esma.Engine.Parser.Special.{special, decode-special}
use esma.Engine.Parser.Source.{set_by_path, set_by_path-overrun}

-- `%d` of a number without sign.
pub digits : Text → Option ℕ → Option ℕ
digits [] n = n
digits (c ∷ cs) none = if is_digit c then digits cs (some (c - 48)) else none
digits (c ∷ cs) (some n) = if is_digit c then digits cs (some (n * 10 + (c - 48))) else some n

pub scan : List ℕ → List ℕ → Option ℕ
unfolding digits starts skip
scan [] p = digits p none
scan (c ∷ fmt) [] = none
scan (c ∷ fmt) (d ∷ p) = scan fmt p

abbrev pub env : Surroundings
env = record {
  sscanf = λ fmt p. if starts fmt p then scan fmt p else none;
  signal = λ name. 1;
  fresh = λ i. some zero_state;
  calloc = λ i. true;
  room = λ i j. true;
}

abbrev pub empty : Template
empty = record {
  name = codes "m";
  states =
      record zero_state { name = codes "init" } ∷ record zero_state { name = codes "fini" } ∷ [];
}

init_runs : init env true (codes "m") ≡ some empty
unfolding init
init_runs = refl

abbrev pub source : Text
source = codes "states{a;}; trans { init->a: 3; a->self: tick_4: 2s: ESMA_TM_ONESHOT; }; //"

abbrev pub own_states : List Name
own_states = codes "idle" ∷ codes "work" ∷ []

abbrev pub arrows : List Arrow
arrows =
    record { src = codes "init"; dst = some (codes "idle"); code = 0 }
    ∷ record { src = codes "idle"; dst = some (codes "work"); code = 12 }
    ∷ record { src = codes "work"; dst = none; code = 3 }
    ∷ []

-- `%d` reads back what it printed.
digits-decimal_fuel :
    (f n : ℕ) (cs : Text) → n < f → digits (decimal_fuel f n ++ cs) none ≡ digits cs (some n)
unfolding digits decimal_fuel
digits-decimal_fuel zero n cs h = absurd (omega arith)
digits-decimal_fuel (suc f) n cs h = elim (Bool-cases (ltb n 10)) [
  | inl e ↦
      let digit : is_digit (48 + n % 10) ≡ true = ground arith in
      let value : 48 + n % 10 - 48 ≡ n = ground arith in
      rw (decimal_fuel, e) (rw (digits, digit, value) refl)
  | inr e ↦
      let digit : is_digit (48 + n % 10) ≡ true = ground arith in
      let value : n / 10 * 10 + (48 + n % 10 - 48) ≡ n = omega arith in
      rw (decimal_fuel, e)
        (rw (append_assoc (decimal_fuel f (n / 10)) ((48 + n % 10) ∷ []) cs) (
          digits-decimal_fuel f (n / 10) ((48 + n % 10) ∷ cs) (ground arith)
          ∙ rw (digits, digit, value) refl))
]

scan-decimal :
    (n : ℕ) (rest : Text) → n < 2 ^ 31 → env.sscanf [] (decimal n ++ b';' ∷ rest) ≡ some n
unfolding scan starts digits decimal
scan-decimal n rest h = digits-decimal_fuel (n + 1) n (b';' ∷ rest) (omega arith)

pub env-Serves : Serves env
env-Serves = record {
  fresh = λ i few. refl;
  memory = λ i. refl;
  room = λ i j. refl;
  scan = scan-decimal;
}

pub empty-IsTemplate : IsTemplate empty
empty-IsTemplate = (tt, (tt, tt))

decode-ends_example :
    ((et : Template) × (decode env source empty ≡ some (ended et)))
    ⊎ (decode env source empty ≡ some failed)
    ⊎ (decode env source empty ≡ some overrun)
decode-ends_example = decode-ends env source empty empty-IsTemplate

-- The template that `source` stands for.
abbrev pub read_result : Template
read_result = record empty {
  states =
      record zero_state {
        name = codes "init";
        trans =
            record {
              action_code = 3;
              ch_type = ch_none;
              ch_data = 0;
              ch_periodic = 0;
              next_state = some 2;
            }
            ∷ [];
        ntrans = 1;
        max_code = 3;
      }
      ∷ record zero_state { name = codes "fini" }
      ∷ record zero_state {
        name = codes "a";
        trans =
            record {
              action_code = 4;
              ch_type = ch_tick;
              ch_data = 2000;
              ch_periodic = tm_oneshot;
              next_state = none;
            }
            ∷ [];
        max_tick_code = 4;
      }
      ∷ [];
}

pub source_runs : decode env source empty ≡ some (ended read_result)
unfolding scan digits decode decode_round decode_loop decode_at after_block after_line continue
    round_of starts skip span skip_line line_comment block_comment block_rest comment_closed switch
    on_idle on_state_section on_state_section_enter on_state_name_enter added_state new_state
    place_state named on_trans_section_enter on_trans_state_src known on_trans_state_row
    on_trans_state_dst on_trans_code no_number to_colon on_trans_code_channel on_tick_interval
    interval after_interval on_tick_interval_period period on_trans_semicolon added_trans new_trans
    push_from push_trans with_trans counted find_name same_name
source_runs = refl

differs : (a b : Name) → same_name a b ≡ false → a ≢ b
differs a b h e = absurd (
    clash (same_name a a) (same_name_refl a)
      (subst (λ (c : Name). same_name a c ≡ false) (sym e) h))
  where
    clash : (c : Bool) → c ≡ true → c ≡ false → ⊥
    clash c p q = cc

pub idle-IsName : IsName (codes "idle")
unfolding same_name
idle-IsName = record {
  words = (refl, (refl, (refl, (refl, tt))));
  some_char = omega arith;
  short = omega arith;
  not_init = differs (codes "idle") (codes "init") refl;
  not_fini = differs (codes "idle") (codes "fini") refl;
}

pub work-IsName : IsName (codes "work")
unfolding same_name
work-IsName = record {
  words = (refl, (refl, (refl, (refl, tt))));
  some_char = omega arith;
  short = omega arith;
  not_init = differs (codes "work") (codes "init") refl;
  not_fini = differs (codes "work") (codes "fini") refl;
}

pub arrows-AllArrows : AllArrows (names (with_states empty own_states)) arrows
unfolding find_name same_name
arrows-AllArrows = (
  record {
    words = (refl, (refl, (refl, (refl, tt))));
    some_char = omega arith;
    source = (0, refl);
    target = (
      (refl, (refl, (refl, (refl, tt)))),
      omega arith,
      differs (codes "idle") (codes "self") refl,
      (2, refl),
    );
    small = omega arith;
  },
  (
    record {
      words = (refl, (refl, (refl, (refl, tt))));
      some_char = omega arith;
      source = (2, refl);
      target = (
        (refl, (refl, (refl, (refl, tt)))),
        omega arith,
        differs (codes "work") (codes "self") refl,
        (3, refl),
      );
      small = omega arith;
    },
    (
      record {
        words = (refl, (refl, (refl, (refl, tt))));
        some_char = omega arith;
        source = (3, refl);
        target = tt;
        small = omega arith;
      },
      tt,
    ),
  ),
)

some_state : {x y : StateTemplate} → some x ≡ some y → x ≡ y
some_state h = cc

empty-Spare : Spare empty (length arrows)
empty-Spare zero st e = omega (arith, ap (λ (x : StateTemplate). length x.trans) (some_state e))
empty-Spare (suc zero) st e =
    omega (arith, ap (λ (x : StateTemplate). length x.trans) (some_state e))
empty-Spare (suc (suc k)) st e = cc

decode-print_example :
    decode env (print_states own_states (print_trans arrows [])) empty
    ≡ some (ended (with_arrows (with_states empty own_states) arrows))
decode-print_example =
    decode-print env env-Serves own_states arrows empty empty-IsTemplate (omega arith) empty-Spare
      (idle-IsName, (work-IsName, tt)) arrows-AllArrows

decode-special_example : decode env (special true (codes "a;};")) empty ≡ some failed
decode-special_example = decode-special env true (codes "a;};") empty empty-IsTemplate

abbrev block : List ℕ
block = 0 ∷ 0 ∷ 0 ∷ 0 ∷ []

set_by_path-overrun_example :
    set_by_path env (λ n. some block) (some (b'a' ∷ codes "b;")) empty ≡ some overrun
set_by_path-overrun_example =
    set_by_path-overrun env (λ n. some block) b'a' (codes "b;") block empty refl refl
