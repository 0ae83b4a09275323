-- ===== src/Engine/Parser/Rounds.antt =====
-- The rounds of `_decode_buffer`: the `switch` as a whole, what is skipped before it, and the loop.
use esma.Base.{ℕ, ◌+◌, ◌≤◌, ◌<◌, ◌≡◌, refl, ap, length, arith, Bool-cases, inl, inr}
use esma.Engine.Parser.Text.{
  Text, Skip, last, broken, from, peek, is_delim, is_end, skip, line_comment, block_comment,
}
use esma.Engine.Parser.Terms.{Surroundings, Result, ok, refused, fault}
use esma.Engine.Parser.Modes.{Mode, Parser}
use esma.Engine.Parser.Options.{switch}
use esma.Engine.Parser.Decode.{
  Round, ended, failed, overrun, again, round_of, decode_at, after_block, after_line, decode_round,
}
use esma.Engine.Parser.Lengths.{
  length-skip, peek-pos, Within, line_comment-Within, block_comment-Within,
}
use esma.Engine.Parser.Built.{IsTemplate, Ok}
use esma.Engine.Parser.Moves.{
  is_channel, rank, anchor, extra, weight, weight-down, weight-same, Good, Nearer, scale-le,
}
use esma.Engine.Parser.Cases
use esma.Engine.Parser.Channels
use esma.Engine.Parser.Ends

module _ (n : ℕ) (env : Surroundings) where
  switch-Nearer :
      (m : Mode) (x : Parser) → Good n x → x.mode ≡ m → Ok (Nearer n m x.p x.s) (switch env m x)
  unfolding switch is_channel rank
  switch-Nearer Mode.start x g e = Cases.on_idle-Nearer n x g Mode.start refl
  switch-Nearer Mode.idle x g e = Cases.on_idle-Nearer n x g Mode.idle refl
  switch-Nearer Mode.state_section x g e = Cases.on_state_section-Nearer n x g e
  switch-Nearer Mode.state_section_enter x g e = Cases.on_state_section_enter-Nearer n x g
  switch-Nearer Mode.state_name_enter x g e = Cases.on_state_name_enter-Nearer n x g env
  switch-Nearer Mode.state_name_leave x g e =
      Cases.expect-Nearer n x g Mode.state_name_leave Mode.state_section_enter b';' refl refl
        (omega arith) (omega arith)
  switch-Nearer Mode.state_section_leave x g e =
      Cases.expect-Nearer n x g Mode.state_section_leave Mode.idle b';' refl refl (omega arith)
        (omega arith)
  switch-Nearer Mode.trans_section x g e =
      Cases.expect-Nearer n x g Mode.trans_section Mode.trans_section_enter b'{' refl refl
        (omega arith) (omega arith)
  switch-Nearer Mode.trans_section_enter x g e = Cases.on_trans_section_enter-Nearer n x g
  switch-Nearer Mode.trans_state_src x g e = Cases.on_trans_state_src-Nearer n x g
  switch-Nearer Mode.trans_state_row x g e = Cases.on_trans_state_row-Nearer n x g
  switch-Nearer Mode.trans_state_dst x g e = Cases.on_trans_state_dst-Nearer n x g
  switch-Nearer Mode.trans_state_dst_colon x g e =
      Cases.expect-Nearer n x g Mode.trans_state_dst_colon Mode.trans_code b':' refl refl
        (omega arith) (omega arith)
  switch-Nearer Mode.trans_code x g e = Channels.on_trans_code-Nearer n x g env
  switch-Nearer Mode.trans_code_channel x g e =
      Channels.on_trans_code_channel-Nearer n x g env (ap is_channel e)
  switch-Nearer Mode.channel_tick_interval x g e = Channels.on_tick_interval-Nearer n x g env
  switch-Nearer Mode.channel_tick_interval_period x g e = Ends.on_tick_interval_period-Nearer n x g
  switch-Nearer Mode.channel_sign_number x g e = Ends.on_sign_number-Nearer n x g env
  switch-Nearer Mode.channel_data_event x g e = Ends.on_data_event-Nearer n x g
  switch-Nearer Mode.trans_semicolon x g e = Ends.on_trans_semicolon-Nearer n x g env
  switch-Nearer Mode.trans_section_leave x g e =
      Cases.expect-Nearer n x g Mode.trans_section_leave Mode.idle b';' refl refl (omega arith)
        (omega arith)

rank-le : (m : Mode) → rank m ≤ 2
unfolding rank
rank-le Mode.start = omega arith
rank-le m = omega arith

-- What a round from `x` comes to.
abbrev pub Progress : ℕ → Parser → Round → Type 0
Progress n x (ended et) = IsTemplate et
Progress n x failed = Unit
Progress n x overrun = Unit
Progress n x (again y) = Nearer n x.mode x.p x.s y

weight-le :
    (n : ℕ) (m : Mode) (p q s : Text) → length q ≤ length p → weight n m q s ≤ weight n m p s
unfolding weight anchor extra
weight-le n m p q s h = elim (Bool-cases (is_channel m)) [
  | inl e ↦ rw e (omega arith)
  | inr e ↦ rw e (omega (arith, scale-le (n + 5) (length q) (length p) h))
]

module _ (n : ℕ) (env : Surroundings) (x : Parser) (g : Good n x) where
  Good-skip : (q : Text) → length q ≤ length x.p → Good n (record x { p = q })
  Good-skip q h = record {
    template = g.template;
    target = g.target;
    p_in = omega (arith, g.p_in);
    s_in = g.s_in;
    colon = g.colon;
  }

  passed : (q : Text) → length q < length x.p → weight n x.mode q x.s < weight n x.mode x.p x.s
  unfolding anchor extra
  passed q h = elim (Bool-cases (is_channel x.mode)) [
    | inl e ↦ weight-same n x.mode x.mode x.p q x.s x.s (rw e (omega arith)) (rw e h)
    | inr e ↦
        weight-down n x.mode x.mode x.p q x.s x.s (rw e h) (rw e (omega (arith, rank-le x.mode)))
  ]

  round_of-Progress :
      (q : Text) (r : Result Parser)
      → length q ≤ length x.p
      → Ok (Nearer n x.mode q x.s) r
      → Progress n x (round_of r)
  unfolding round_of
  round_of-Progress q (ok y) h v = record {
    good = v.good;
    less = omega (arith, v.less, weight-le n x.mode x.p q x.s h);
  }
  round_of-Progress q refused h v = tt
  round_of-Progress q fault h v = tt

  decode_at-Progress : (q : Text) → length q ≤ length x.p → Progress n x (decode_at env x q)
  unfolding decode_at
  decode_at-Progress q h = elim (Bool-cases (is_delim (peek q))) [
    | inl e ↦
        let shorter : length (skip 1 q) < length x.p =
          omega (arith, length-skip 1 q, peek-pos is_delim q refl e) in
        rw (decode_at, e)
          (record { good = Good-skip (skip 1 q) (omega arith); less = passed (skip 1 q) shorter })
    | inr e ↦
        rw (decode_at, e)
          (round_of-Progress q (switch env x.mode (record x { p = q })) h
            (switch-Nearer n env x.mode (record x { p = q }) (Good-skip q h) refl))
  ]

  after_block-Progress : (r : Skip) → Within (length x.p) r → Progress n x (after_block env x r)
  unfolding after_block
  after_block-Progress last h = g.template
  after_block-Progress broken h = tt
  after_block-Progress (from q) h = decode_at-Progress q h

  block_comment-le : (q : Text) → length q ≤ length x.p → Within (length x.p) (block_comment q)
  block_comment-le q h = within (block_comment q) (block_comment-Within q)
    where
      within : (r : Skip) → Within (length q) r → Within (length x.p) r
      within last k = tt
      within broken k = tt
      within (from p) k = omega (arith, h)

  after_line-Progress : (r : Skip) → Within (length x.p) r → Progress n x (after_line env x r)
  unfolding after_line
  after_line-Progress last h = g.template
  after_line-Progress broken h = tt
  after_line-Progress (from q) h = after_block-Progress (block_comment q) (block_comment-le q h)

  pub decode_round-Progress : Progress n x (decode_round env x)
  unfolding decode_round
  decode_round-Progress = elim (Bool-cases (is_end x.p)) [
    | inl e ↦ rw (decode_round, e) g.template
    | inr e ↦
        rw (decode_round, e) (after_line-Progress (line_comment x.p) (line_comment-Within x.p))
  ]
