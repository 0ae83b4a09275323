-- ===== src/Engine/Parser/Options.antt =====
-- engine/esma_template.c: the cases of the `switch` of `_decode_buffer` from the code of a transition on,
-- and the `switch`.
use esma.Base.{ℕ, ◌-◌, ◌*◌, ◌||◌, Option, none, some, [], ◌∷◌, length, ◌==◌, if◌then◌else◌}
use esma.Base.Bytes.{u32}
use esma.Engine.Types.{Name, Template, ch_tick, ch_data, ch_sign}
use esma.Engine.Load.{codes}
use esma.Engine.Parser.Text.{Text, peek, is_digit, is_letter, is_word, is_delim, starts, skip, span}
use esma.Engine.Parser.Terms.{Surroundings, clean, Result, ok, refused, fault, new_trans}
use esma.Engine.Parser.Modes.{
  Mode, Parser, start, idle, state_section, state_section_enter, state_name_enter, state_name_leave,
  state_section_leave, trans_section, trans_section_enter, trans_state_src, trans_state_row,
  trans_state_dst, trans_state_dst_colon, trans_code, trans_code_channel, channel_tick_interval,
  channel_tick_interval_period, channel_sign_number, channel_data_event, trans_semicolon,
  trans_section_leave, at_mode, expect, on_idle, on_state_section, on_state_section_enter,
  on_state_name_enter, on_trans_section_enter, on_trans_state_src, on_trans_state_row,
  on_trans_state_dst,
}
use esma.Engine.Parser.Words.{period, signal_name, event_of}

-- `while (IS_NOT_COLON(s)) s++`, which reads behind the NUL if there is no colon
unfoldable pub to_colon : Text → Option Text
to_colon [] = none
to_colon (c ∷ cs) = let rest = to_colon cs in if c == b':' then some (c ∷ cs) else rest

unfoldable pub no_number : Parser → Option Text → Result Parser
no_number x none = fault
no_number x (some s) = ok (record x { mode = trans_code_channel; s = s })

-- A channel of type `type` and code `n` was read; `p = s + 1`, where `s` is the colon.
abbrev pub of_channel : Parser → ℕ → Mode → ℕ → Result Parser
of_channel x type m n =
    ok (record x { mode = m; p = skip 1 x.s; eti = record (x.eti) { code = n; ch_type = type } })

abbrev pub or_zero : Option ℕ → ℕ
or_zero none = 0
or_zero (some n) = n

module _ (env : Surroundings) where
  unfoldable pub on_trans_code : Parser → Result Parser
  unfolding no_number to_colon
  on_trans_code x =
      let (word, rest) = span is_word x.p in
      elim (env.sscanf [] x.p) [
        | none ↦ no_number x (to_colon rest)
        | some n ↦ ok (record x {
          mode = trans_semicolon;
          p = rest;
          s = rest;
          eti = record (x.eti) { code = n };
        })
      ]

  unfoldable pub on_trans_code_channel : Parser → Result Parser
  on_trans_code_channel x = elim (env.sscanf (codes "tick_") x.p) [
    | some n ↦ of_channel x ch_tick channel_tick_interval n
    | none ↦ elim (env.sscanf (codes "data_") x.p) [
      | some n ↦ of_channel x ch_data channel_data_event n
      | none ↦ elim (env.sscanf (codes "sign_") x.p) [
        | some n ↦ of_channel x ch_sign channel_sign_number n
        | none ↦ refused
      ]
    ]
  ]

  -- The interval, and where it ends; `rest` is behind the digits.
  unfoldable pub interval : Parser → Text → ℕ × Text
  interval x rest =
      if starts (codes "ms") rest
      then (or_zero (env.sscanf [] x.p), skip 2 rest)
      else if peek rest == b's'
      then (u32 (or_zero (env.sscanf [] x.p) * 1000), skip 1 rest)
      else (x.eti.ch_data, x.p)

-- After the interval, from the end of the blanks at `q` on.
unfoldable pub after_interval : Parser → ℕ → Text → Result Parser
after_interval x n q =
    let y = record x { eti = record (x.eti) { ch_data = n } } in
    if n == 0
    then refused
    else if peek q == b':'
    then at_mode y channel_tick_interval_period (skip 1 q)
    else if peek q == b';'
    then at_mode y trans_semicolon q
    else refused

module _ (env : Surroundings) where
  unfoldable pub on_tick_interval : Parser → Result Parser
  unfolding interval after_interval
  on_tick_interval x =
      let (digits, rest) = span is_digit x.p in
      let (n, q) = interval env x rest in
      let (blank, q') = span is_delim q in
      if length digits == 0 then refused else after_interval (record x { s = rest }) n q'

unfoldable pub on_tick_interval_period : Parser → Result Parser
unfolding period
on_tick_interval_period x =
    let (name, rest) = span (λ c. is_letter c || (c == b'_')) x.p in
    let flags =
      if starts (codes "ESMA_TM_") x.p
      then period (length name - 8) (skip 8 x.p) x.eti.flags
      else x.eti.flags in
    if flags == 0
    then refused
    else ok (record x {
      mode = trans_semicolon;
      p = rest;
      s = rest;
      eti = record (x.eti) { flags = flags };
    })

-- `eti.ch_data` is set to `n`, which must not be 0.
unfoldable pub with_data : Parser → Text → ℕ → Result Parser
with_data x rest n =
    if n == 0
    then refused
    else ok (record x {
      mode = trans_semicolon;
      p = rest;
      s = rest;
      eti = record (x.eti) { ch_data = n };
    })

module _ (env : Surroundings) where
  abbrev pub number_of : Option Name → ℕ
  number_of none = 0
  number_of (some n) = env.signal n

  unfoldable pub on_sign_number : Parser → Result Parser
  unfolding signal_name with_data
  on_sign_number x =
      let (name, rest) = span (λ c. is_letter c || is_digit c) x.p in
      if starts (codes "SIG") x.p
      then with_data x rest (number_of (signal_name (length name - 3) (skip 3 x.p)))
      else refused

unfoldable pub on_data_event : Parser → Result Parser
unfolding with_data event_of
on_data_event x =
    let (name, rest) = span (λ c. is_letter c || (c == b'_')) x.p in
    let event = event_of (length name - 5) (skip 5 x.p) in
    if starts (codes "ESMA_") x.p
    then with_data x rest (if event == 0 then x.eti.ch_data else event)
    else refused

-- After `_new_esma_trans_template`.
unfoldable pub added_trans : Parser → Result Template → Result Parser
added_trans x (ok et) =
    ok (record x { mode = trans_section_enter; p = skip 1 x.p; eti = clean; et = et })
added_trans x refused = refused
added_trans x fault = fault

module _ (env : Surroundings) where
  unfoldable pub on_trans_semicolon : Parser → Result Parser
  unfolding added_trans
  on_trans_semicolon x =
      if peek x.p == b';' then added_trans x (new_trans env x.eti x.et) else refused

  -- `switch (state)`
  unfoldable pub switch : Mode → Parser → Result Parser
  switch start x = on_idle x
  switch idle x = on_idle x
  switch state_section x = on_state_section x
  switch state_section_enter x = on_state_section_enter x
  switch state_name_enter x = on_state_name_enter env x
  switch state_name_leave x = expect x b';' state_section_enter
  switch state_section_leave x = expect x b';' idle
  switch trans_section x = expect x b'{' trans_section_enter
  switch trans_section_enter x = on_trans_section_enter x
  switch trans_state_src x = on_trans_state_src x
  switch trans_state_row x = on_trans_state_row x
  switch trans_state_dst x = on_trans_state_dst x
  switch trans_state_dst_colon x = expect x b':' trans_code
  switch trans_code x = on_trans_code env x
  switch trans_code_channel x = on_trans_code_channel env x
  switch channel_tick_interval x = on_tick_interval env x
  switch channel_tick_interval_period x = on_tick_interval_period x
  switch channel_sign_number x = on_sign_number env x
  switch channel_data_event x = on_data_event x
  switch trans_semicolon x = on_trans_semicolon x
  switch trans_section_leave x = expect x b';' idle
