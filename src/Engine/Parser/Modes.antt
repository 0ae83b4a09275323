-- ===== src/Engine/Parser/Modes.antt =====
-- engine/esma_template.c: the `switch` of `_decode_buffer`, one function for each case, up to the target
-- of a transition.
use esma.Base.{
  ℕ, ◌&&◌, ◌||◌, Option, none, some, List, [], ◌∷◌, map, length, leb, ◌==◌, if◌then◌else◌,
}
use esma.Engine.Types.{Name, Template, StateTemplate}
use esma.Engine.Load.{codes, find_name}
use esma.Engine.Parser.Text.{Text, peek, is_word, starts, skip, span}
use esma.Engine.Parser.Terms.{Surroundings, Internal, Result, ok, refused, fault, new_state}

-- `enum states`, without the two error states
pub data Mode : Type 0 where
  start : Mode
  idle : Mode
  state_section : Mode
  state_section_enter : Mode
  state_name_enter : Mode
  state_name_leave : Mode
  state_section_leave : Mode
  trans_section : Mode
  trans_section_enter : Mode
  trans_state_src : Mode
  trans_state_row : Mode
  trans_state_dst : Mode
  trans_state_dst_colon : Mode
  trans_code : Mode
  trans_code_channel : Mode
  channel_tick_interval : Mode
  channel_tick_interval_period : Mode
  channel_sign_number : Mode
  channel_data_event : Mode
  trans_semicolon : Mode
  trans_section_leave : Mode

-- The local variables of `_decode_buffer`, and the template.
pub record Parser : Type 0 where
  pub p : Text
  pub s : Text
  pub mode : Mode
  pub eti : Internal
  pub et : Template

abbrev pub at_mode : Parser → Mode → Text → Result Parser
at_mode x m p = ok (record x { mode = m; p = p })

-- One character is expected.
abbrev pub expect : Parser → ℕ → Mode → Result Parser
expect x c m = if peek x.p == c then at_mode x m (skip 1 x.p) else refused

abbrev pub names : Template → List Name
names et = map (λ (st : StateTemplate). st.name) et.states

abbrev pub or_else : Option ℕ → Option ℕ → Option ℕ
or_else none d = d
or_else (some a) d = some a

-- case st_start and st_idle
unfoldable pub on_idle : Parser → Result Parser
on_idle x =
    if leb 7 (length x.p) && starts (codes "states") x.p
    then at_mode x state_section (skip 6 x.p)
    else if leb 6 (length x.p) && starts (codes "trans") x.p
    then at_mode x trans_section (skip 5 x.p)
    else refused

-- `p++` where nothing was seen at `p`: behind the NUL the next round reads outside the text.
unfoldable pub forward : Parser → Text → Result Parser
forward x [] = fault
forward x (c ∷ cs) = ok (record x { p = cs })

unfoldable pub on_state_section : Parser → Result Parser
unfolding forward
on_state_section x =
    if peek x.p == b'{' then at_mode x state_section_enter (skip 1 x.p) else forward x x.p

unfoldable pub on_state_section_enter : Parser → Result Parser
on_state_section_enter x =
    if peek x.p == b'}'
    then at_mode x state_section_leave (skip 1 x.p)
    else if peek x.p == b';'
    then at_mode x state_section_enter (skip 1 x.p)
    else if is_word (peek x.p)
    then at_mode x state_name_enter x.p
    else refused

-- After `_new_esma_state_template`.
unfoldable pub added_state : Parser → Text → Result Template → Result Parser
added_state x rest (ok et) = ok (record x { mode = state_name_leave; p = rest; s = rest; et = et })
added_state x rest refused = refused
added_state x rest fault = fault

module _ (env : Surroundings) where
  unfoldable pub on_state_name_enter : Parser → Result Parser
  unfolding added_state
  on_state_name_enter x =
      let (name, rest) = span is_word x.p in
      if peek x.p == b'}'
      then (if length x.et.states == 2 then refused else at_mode x state_section_leave (skip 1 x.p))
      else if (length name == 4) && (starts (codes "init") x.p || starts (codes "fini") x.p)
      then at_mode (record x { s = rest }) state_name_leave x.p
      else added_state x rest (new_state env x.et name)

unfoldable pub on_trans_section_enter : Parser → Result Parser
on_trans_section_enter x =
    if peek x.p == b'}'
    then at_mode x trans_section_leave (skip 1 x.p)
    else if is_word (peek x.p)
    then at_mode x trans_state_src x.p
    else refused

-- The state that a name stands for is set; it must not be NULL then.
unfoldable pub known : Parser → Mode → Text → Option ℕ → Internal → Result Parser
known x m rest none eti = refused
known x m rest (some k) eti = ok (record x { mode = m; p = rest; s = rest; eti = eti })

unfoldable pub on_trans_state_src : Parser → Result Parser
unfolding known
on_trans_state_src x =
    let (name, rest) = span is_word x.p in
    let src = or_else (find_name name (names x.et)) x.eti.est_src in
    known x trans_state_row rest src (record (x.eti) { est_src = src })

unfoldable pub on_trans_state_row : Parser → Result Parser
on_trans_state_row x =
    if starts (codes "->") x.p then at_mode x trans_state_dst (skip 2 x.p) else refused

unfoldable pub on_trans_state_dst : Parser → Result Parser
unfolding known
on_trans_state_dst x =
    let (name, rest) = span is_word x.p in
    let dst = or_else (find_name name (names x.et)) x.eti.est_dst in
    if (length name == 4) && starts (codes "self") x.p
    then ok (record x {
      mode = trans_state_dst_colon;
      p = rest;
      s = rest;
      eti = record (x.eti) { est_dst = none };
    })
    else if length name == 0
    then refused
    else known x trans_state_dst_colon rest dst (record (x.eti) { est_dst = dst })
