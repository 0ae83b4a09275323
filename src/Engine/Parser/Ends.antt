-- ===== src/Engine/Parser/Ends.antt =====
-- The cases of the `switch` of `_decode_buffer` that end a transition.
use esma.Base.{ℕ, ◌-◌, ◌≤◌, ◌<◌, ◌≡◌, refl, false, ◌||◌, length, ◌==◌, arith, if◌then◌else◌}
use esma.Engine.Types.{Template}
use esma.Engine.Load.{codes}
use esma.Engine.Parser.Text.{Text, peek, is_digit, is_letter, starts, skip, span}
use esma.Engine.Parser.Terms.{Surroundings, clean, Result, ok, refused, fault, new_trans}
use esma.Engine.Parser.Modes.{Mode, Parser}
use esma.Engine.Parser.Words.{period, signal_name, event_of}
use esma.Engine.Parser.Options.{
  on_tick_interval_period, with_data, number_of, on_sign_number, on_data_event, added_trans,
  on_trans_semicolon,
}
use esma.Engine.Parser.Lengths.{length-skip, length-span, peek-eq_pos}
use esma.Engine.Parser.Built.{Extends, Ok, Ok-if, new_trans-Extends}
use esma.Engine.Parser.Moves.{is_channel, rank, Good, Nearer, advance, turn}

module _ (n : ℕ) (x : Parser) (g : Good n x) where
  -- What follows the colon of a channel is read, and the semicolon is next.
  read_on :
      (m : Mode) (rest : Text) (d f : ℕ)
      → is_channel m ≡ false
      → 0 < rank m
      → length rest ≤ length x.p
      → Nearer n m x.p x.s (record x {
        mode = Mode.trans_semicolon;
        p = rest;
        s = rest;
        eti = record (x.eti) { ch_data = d; flags = f };
      })
  unfolding is_channel rank
  read_on m rest d f a r h =
      turn n x g m
        (record x {
          mode = Mode.trans_semicolon;
          p = rest;
          s = rest;
          eti = record (x.eti) { ch_data = d; flags = f };
        })
        a refl r g.template g.target h (omega (arith, g.p_in))

  pub on_tick_interval_period-Nearer :
      Ok (Nearer n Mode.channel_tick_interval_period x.p x.s) (on_tick_interval_period x)
  unfolding on_tick_interval_period is_channel rank
  on_tick_interval_period-Nearer =
      let test = λ (c : ℕ). is_letter c || (c == b'_') in
      let word = span test x.p in
      let flags : ℕ =
        if starts (codes "ESMA_TM_") x.p
        then period (length word.0 - 8) (skip 8 x.p) x.eti.flags
        else x.eti.flags in
      Ok-if (Nearer n Mode.channel_tick_interval_period x.p x.s) (flags == 0) refused _ (λ _. tt)
        (λ _.
          read_on Mode.channel_tick_interval_period word.1 x.eti.ch_data flags refl (omega arith)
            (omega (arith, length-span test x.p)))

  with_data-Nearer :
      (m : Mode) (rest : Text) (d : ℕ)
      → is_channel m ≡ false
      → 0 < rank m
      → length rest ≤ length x.p
      → Ok (Nearer n m x.p x.s) (with_data x rest d)
  unfolding with_data
  with_data-Nearer m rest d a r h =
      Ok-if (Nearer n m x.p x.s) (d == 0) refused _ (λ _. tt)
        (λ _. read_on m rest d x.eti.flags a r h)

  pub on_sign_number-Nearer :
      (env : Surroundings) → Ok (Nearer n Mode.channel_sign_number x.p x.s) (on_sign_number env x)
  unfolding on_sign_number is_channel rank
  on_sign_number-Nearer env =
      let test = λ (c : ℕ). is_letter c || is_digit c in
      let word = span test x.p in
      Ok-if (Nearer n Mode.channel_sign_number x.p x.s) (starts (codes "SIG") x.p) _ refused
        (λ _.
          with_data-Nearer Mode.channel_sign_number word.1
            (number_of env (signal_name (length word.0 - 3) (skip 3 x.p))) refl (omega arith)
            (omega (arith, length-span test x.p)))
        (λ _. tt)

  pub on_data_event-Nearer : Ok (Nearer n Mode.channel_data_event x.p x.s) (on_data_event x)
  unfolding on_data_event is_channel rank
  on_data_event-Nearer =
      let test = λ (c : ℕ). is_letter c || (c == b'_') in
      let word = span test x.p in
      let event = event_of (length word.0 - 5) (skip 5 x.p) in
      Ok-if (Nearer n Mode.channel_data_event x.p x.s) (starts (codes "ESMA_") x.p) _ refused
        (λ _.
          with_data-Nearer Mode.channel_data_event word.1
            (if event == 0 then x.eti.ch_data else event) refl (omega arith)
            (omega (arith, length-span test x.p)))
        (λ _. tt)

  added_trans-Nearer :
      (r : Result Template)
      → 0 < length x.p
      → Ok (Extends x.et) r
      → Ok (Nearer n Mode.trans_semicolon x.p x.s) (added_trans x r)
  unfolding added_trans is_channel rank
  added_trans-Nearer (ok et) h v =
      advance n x g Mode.trans_semicolon
        (record x { mode = Mode.trans_section_enter; p = skip 1 x.p; eti = clean; et = et }) refl
        refl (omega arith) v.valid tt (omega (arith, length-skip 1 x.p)) g.s_in
  added_trans-Nearer refused h v = tt
  added_trans-Nearer fault h v = tt

  pub on_trans_semicolon-Nearer :
      (env : Surroundings) → Ok (Nearer n Mode.trans_semicolon x.p x.s) (on_trans_semicolon env x)
  unfolding on_trans_semicolon
  on_trans_semicolon-Nearer env =
      Ok-if (Nearer n Mode.trans_semicolon x.p x.s) (peek x.p == b';') _ refused
        (λ h.
          added_trans-Nearer (new_trans env x.eti x.et) (peek-eq_pos b';' x.p (omega arith) h)
            (new_trans-Extends env x.eti x.et g.template g.target))
        (λ _. tt)
