-- ===== src/Engine/Parser/Channels.antt =====
-- The cases of the `switch` of `_decode_buffer` behind the colon of a transition.
use esma.Base.{
  ℕ, suc, ◌≤◌, ◌<◌, ◌≡◌, refl, inl, inr, true, false, Option, none, some, [], ◌∷◌, length, ◌==◌,
  arith, Bool-cases, Option-cases,
}
use esma.Engine.Types.{ch_tick, ch_data, ch_sign}
use esma.Engine.Load.{codes}
use esma.Engine.Parser.Text.{Text, peek, is_digit, is_word, is_delim, starts, skip, span}
use esma.Engine.Parser.Terms.{Surroundings, refused}
use esma.Engine.Parser.Modes.{Mode, Parser}
use esma.Engine.Parser.Options.{
  to_colon, no_number, on_trans_code, of_channel, on_trans_code_channel, interval, after_interval,
  on_tick_interval,
}
use esma.Engine.Parser.Lengths.{length-skip, length-span}
use esma.Engine.Parser.Built.{Ok, Ok-if}
use esma.Engine.Parser.Moves.{
  is_channel, rank, anchor, extra, weight-down, weight-same, Good, Nearer, turn,
}
use esma.Engine.Parser.Cases.{scanned}

-- A colon that is found is there, and not behind the start of the search.
abbrev Colon : ℕ → Option Text → Type 0
Colon n none = Unit
Colon n (some s) = (0 < length s) × (length s ≤ n)

to_colon-Colon : (p : Text) → Colon (length p) (to_colon p)
unfolding to_colon
to_colon-Colon [] = tt
to_colon-Colon (c ∷ cs) = elim (Bool-cases (c == b':')) [
  | inl e ↦ rw (to_colon, e) (omega arith, omega arith)
  | inr e ↦ rw (to_colon, e) (later (to_colon cs) (to_colon-Colon cs))
]
  where
    later : (o : Option Text) → Colon (length cs) o → Colon (suc (length cs)) o
    later none h = tt
    later (some s) (h, k) = (h, omega arith)

module _ (n : ℕ) (x : Parser) (g : Good n x) where
  no_number-Nearer :
      (o : Option Text)
      → Colon (length x.p) o
      → Ok (Nearer n Mode.trans_code x.p x.s) (no_number x o)
  unfolding no_number is_channel rank anchor extra
  no_number-Nearer none h = tt
  no_number-Nearer (some s) (pos, le) = record {
    good = record {
      template = g.template;
      target = g.target;
      p_in = g.p_in;
      s_in = omega (arith, g.p_in);
      colon = λ e. pos;
    };
    less =
        weight-same n Mode.trans_code Mode.trans_code_channel x.p x.p x.s s le
          (omega (arith, g.p_in));
  }

  code_read :
      (c : ℕ) (rest : Text)
      → length rest ≤ length x.p
      → Nearer n Mode.trans_code x.p x.s (record x {
        mode = Mode.trans_semicolon;
        p = rest;
        s = rest;
        eti = record (x.eti) { code = c };
      })
  unfolding is_channel rank
  code_read c rest h =
      turn n x g Mode.trans_code
        (record x {
          mode = Mode.trans_semicolon;
          p = rest;
          s = rest;
          eti = record (x.eti) { code = c };
        })
        refl refl (omega arith) g.template g.target h (omega (arith, g.p_in))

  Colon-le : (a b : ℕ) (o : Option Text) → a ≤ b → Colon a o → Colon b o
  Colon-le a b none h c = tt
  Colon-le a b (some s) h (c, k) = (c, omega arith)

  pub on_trans_code-Nearer :
      (env : Surroundings) → Ok (Nearer n Mode.trans_code x.p x.s) (on_trans_code env x)
  unfolding on_trans_code
  on_trans_code-Nearer env =
      let rest = (span is_word x.p).1 in
      let le : length rest ≤ length x.p = omega (arith, length-span is_word x.p) in
      elim (Option-cases (env.sscanf [] x.p)) [
        | inl e ↦
            rw (on_trans_code, e)
              (no_number-Nearer (to_colon rest)
                (Colon-le (length rest) (length x.p) (to_colon rest) le (to_colon-Colon rest)))
        | inr (c, e) ↦ rw (on_trans_code, e) (code_read c rest le)
      ]

  -- Behind the colon.
  of_channel-Nearer :
      (type : ℕ) (m : Mode) (c : ℕ)
      → is_channel x.mode ≡ true
      → is_channel m ≡ false
      → rank m ≤ 2
      → Ok (Nearer n Mode.trans_code_channel x.p x.s) (of_channel x type m c)
  unfolding is_channel rank anchor extra
  of_channel-Nearer type m c here a r =
      let pos = g.colon here in
      let len = length-skip 1 x.s in
      record {
        good = record {
          template = g.template;
          target = g.target;
          p_in = omega (arith, g.s_in);
          s_in = g.s_in;
          colon = λ e. cc;
        };
        less =
            weight-down n Mode.trans_code_channel m x.p (skip 1 x.s) x.s x.s (rw a (omega arith))
              (rw a (omega arith));
      }

  pub on_trans_code_channel-Nearer :
      (env : Surroundings)
      → is_channel x.mode ≡ true
      → Ok (Nearer n Mode.trans_code_channel x.p x.s) (on_trans_code_channel env x)
  unfolding on_trans_code_channel is_channel rank
  on_trans_code_channel-Nearer env here = elim (Option-cases (env.sscanf (codes "tick_") x.p)) [
    | inr (c, e) ↦
        rw (on_trans_code_channel, e)
          (of_channel-Nearer ch_tick Mode.channel_tick_interval c here refl (omega arith))
    | inl e ↦ elim (Option-cases (env.sscanf (codes "data_") x.p)) [
      | inr (c, e') ↦
          rw (on_trans_code_channel, e, e')
            (of_channel-Nearer ch_data Mode.channel_data_event c here refl (omega arith))
      | inl e' ↦ elim (Option-cases (env.sscanf (codes "sign_") x.p)) [
        | inr (c, e'') ↦
            rw (on_trans_code_channel, e, e', e'')
              (of_channel-Nearer ch_sign Mode.channel_sign_number c here refl (omega arith))
        | inl e'' ↦ rw (on_trans_code_channel, e, e', e'') tt
      ]
    ]
  ]

  after_interval-Nearer :
      (s : Text) (c : ℕ) (q : Text)
      → length s ≤ n
      → length q ≤ length x.p
      → Ok (Nearer n Mode.channel_tick_interval x.p x.s) (after_interval (record x { s = s }) c q)
  unfolding after_interval is_channel rank
  after_interval-Nearer s c q k h =
      let m = Mode.channel_tick_interval in
      let y = record x { s = s; eti = record (x.eti) { ch_data = c } } in
      Ok-if (Nearer n m x.p x.s) (c == 0) refused _ (λ _. tt)
        (λ _.
          Ok-if (Nearer n m x.p x.s) (peek q == b':') _ _
            (λ e.
              turn n x g m (record y { mode = Mode.channel_tick_interval_period; p = skip 1 q })
                refl refl (omega arith) g.template g.target (omega (arith, length-skip 1 q)) k)
            (λ _.
              Ok-if (Nearer n m x.p x.s) (peek q == b';') _ refused
                (λ e.
                  turn n x g m (record y { mode = Mode.trans_semicolon; p = q }) refl refl
                    (omega arith) g.template g.target h k)
                (λ _. tt)))

  -- The interval is read from `p` on, or nothing is.
  interval-le :
      (env : Surroundings) (rest : Text)
      → length rest ≤ length x.p
      → length (interval env x rest).1 ≤ length x.p
  unfolding interval
  interval-le env rest h = elim (Bool-cases (starts (codes "ms") rest)) [
    | inl e ↦ rw (interval, e) (omega (arith, length-skip 2 rest))
    | inr e ↦ elim (Bool-cases (peek rest == b's')) [
      | inl e' ↦ rw (interval, e, e') (omega (arith, length-skip 1 rest))
      | inr e' ↦ rw (interval, e, e') (omega arith)
    ]
  ]

  pub on_tick_interval-Nearer :
      (env : Surroundings)
      → Ok (Nearer n Mode.channel_tick_interval x.p x.s) (on_tick_interval env x)
  unfolding on_tick_interval
  on_tick_interval-Nearer env =
      let number = span is_digit x.p in
      let read = interval env x number.1 in
      let here = interval-le env number.1 (omega (arith, length-span is_digit x.p)) in
      Ok-if (Nearer n Mode.channel_tick_interval x.p x.s) (length number.0 == 0) refused _ (λ _. tt)
        (λ _.
          after_interval-Nearer number.1 read.0 (span is_delim read.1).1 (scanned n x g is_digit)
            (omega (arith, here, length-span is_delim read.1)))
