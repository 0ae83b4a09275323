-- ===== src/Engine/Dispatch.antt =====
-- engine/esma_engine_dispatcher.c: what a message makes a machine do.
pub mod Keeps
pub mod Invariant
pub mod Trace
pub mod Outcomes
use esma.Base.{
  ℕ, zero, suc, ◌+◌, Bool, true, false, Option, none, some, ◌==◌, if◌then◌else◌, bit_and,
}
use esma.Engine.Types.{
  Machine, State, Channel, Trans, nth, ch_tick, ch_sign, ch_data, listening_channel, pollin,
  pollout, pollerr, pollhup,
}
use esma.Engine.World.{
  Source, io, ticks, signals, Message, between, from_os, Call, handler, read_tick, read_sign,
  read_avail, arm, disarm, watch, Surroundings, World, Outcome, value, returns, exits, crash, M,
  and_then, ◌>>=◌, ◌>>◌, pure, return, stop, deref, call, check, for_each, set_bytes_avail,
  set_current, machine, state_at,
}

abbrev pub opt : Option ℕ → (ℕ → M ℕ) → M ℕ → M ℕ
opt none f d = d
opt (some a) f d = f a

abbrev opt_trans : Option Trans → M Trans → M Trans
opt_trans none d = d
opt_trans (some t) d = pure t

-- The channel that a message of the reactor points to.
unfoldable pub channel_of : Machine → Source → Option Channel
channel_of m io = some m.io_channel
channel_of m (ticks k i) = elim (state_at m k) [
  | none ↦ none
  | some s ↦ elim (nth s.tick_trans i) [ none ↦ none | some t ↦ some t.ch ]
]
channel_of m (signals k i) = elim (state_at m k) [
  | none ↦ none
  | some s ↦ elim (nth s.sign_trans i) [ none ↦ none | some t ↦ some t.ch ]
]

-- `container_of(ch, struct trans, ch)`
unfoldable pub trans_of : Machine → Source → Option Trans
trans_of m io = none
trans_of m (ticks k i) = elim (state_at m k) [ none ↦ none | some s ↦ nth s.tick_trans i ]
trans_of m (signals k i) = elim (state_at m k) [ none ↦ none | some s ↦ nth s.sign_trans i ]

-- The `switch (code)` of the I/O channel.
unfoldable pub io_trans : State → ℕ → Option Trans
io_trans s code =
    if code == pollin
    then some s.data_pollin
    else if code == pollout
    then some s.data_pollout
    else if code == pollerr
    then some s.data_pollerr
    else if code == pollhup
    then some s.data_pollerr
    else none

module _ (env : Surroundings) where
  -- the `ioctl` of `_read_data`
  pub ask_avail : ℕ → ℕ → M (Unit {0})
  ask_avail i fd w =
      (check env (read_avail fd) (returns 1) >> set_bytes_avail i (env.avail w.calls fd)) w

  pub ask_unless_listening : ℕ → Channel → M (Unit {0})
  ask_unless_listening i ch =
      if bit_and ch.flags listening_channel == 0 then ask_avail i ch.fd else pure tt

  -- `_read_data` of the I/O channel of machine `i`
  pub read_io : ℕ → M (Unit {0})
  read_io i = machine i >>= (λ m. ask_unless_listening i m.io_channel)

  -- `_read_ch_data[ch->type](ch)`, with the `goto __fail` on an error. A channel of a transition
  -- is a timer or a signal.
  pub read_channel : ℕ → Channel → M (Unit {0})
  read_channel i ch =
      if ch.type == ch_tick
      then check env (read_tick ch.fd) (returns 1)
      else if ch.type == ch_sign
      then check env (read_sign ch.fd) (returns 1)
      else if ch.type == ch_data
      then read_io i
      else pure tt

  -- `__start_channels`
  pub start_channels : State → M (Unit {0})
  start_channels s = do
    for_each s.tick_trans.nitems 0 (λ i. do
      t ← deref (nth s.tick_trans i)
      check env (arm t.ch.fd t.ch.interval_msec t.ch.periodic) exits
      check env (watch t.ch.fd pollin) exits)
    for_each s.sign_trans.nitems 0
        (λ i. do t ← deref (nth s.sign_trans i); check env (watch t.ch.fd pollin) exits)

  -- `__stop_channels`, with the `goto __fail` on an error. The second loop takes its channels from
  -- `tick_trans`, as the source does.
  pub stop_channels : State → M (Unit {0})
  stop_channels s = do
    for_each s.tick_trans.nitems 0
        (λ i. do t ← deref (nth s.tick_trans i); check env (disarm t.ch.fd) (returns 1))
    for_each s.sign_trans.nitems 0
        (λ i. do t ← deref (nth s.tick_trans i); check env (watch t.ch.fd 0) (returns 1))

  -- the call of `state->leave`, if there is one
  pub leave_state : State → ℕ → ℕ → Option ℕ → M ℕ
  leave_state s src dst ptr = opt s.leave (λ f. call env (handler f src dst ptr)) (pure 0)

  -- After `state->enter`, which answered `err`.
  pub entered : ℕ → ℕ → Option ℕ → State → ℕ → M ℕ
  entered src dst ptr s err =
      if err == 0
      then (start_channels s >> pure 0)
      else (leave_state s src dst ptr >>= (λ ignored. return err))

  -- Machine `m` enters state `k`.
  pub enter_state : ℕ → ℕ → Option ℕ → ℕ → Machine → M ℕ
  enter_state src dst ptr k m = do
    s ← deref (state_at m k)
    err ← call env (handler s.enter src dst ptr)
    entered src dst ptr s err

  -- After `state->leave`, which answered `left`.
  pub left_state : ℕ → ℕ → Option ℕ → ℕ → ℕ → M ℕ
  left_state src dst ptr k left =
      if left == 0 then (set_current dst k >>= enter_state src dst ptr k) else return 1

  -- The Moore section. `s` is the state that the message found.
  pub transit : ℕ → ℕ → Option ℕ → State → ℕ → M ℕ
  transit src dst ptr s k = do
    stop_channels s
    left ← leave_state s src dst ptr
    left_state src dst ptr k left

  -- From `__send_msg:` on.
  pub deliver : ℕ → ℕ → Option ℕ → State → Trans → M ℕ
  deliver src dst ptr s t = elim t.next_state [
    | none ↦ (do f ← deref t.action; call env (handler f src dst ptr))
    | some k ↦ transit src dst ptr s k
  ]

  -- `state` and `trans` of a message that names its machines
  pub send_between : ℕ → ℕ → ℕ → ℕ → Machine → M ℕ
  send_between src dst ptr code m = do
    s ← deref (state_at m m.current_state)
    t ← deref (nth s.trans code)
    deliver src dst (some ptr) s t

  pub os_trans : Machine → Source → ℕ → State → Channel → M Trans
  os_trans m source code s ch =
      if ch.hard == 0 then opt_trans (io_trans s code) (return 1) else deref (trans_of m source)

  -- From `err = _read_ch_data[ch->type](ch)` on.
  pub send_read : ℕ → Channel → State → Trans → M ℕ
  send_read owner ch s t = do read_channel owner ch; deliver owner owner none s t

  pub send_found : ℕ → Source → ℕ → Machine → Channel → M ℕ
  send_found owner source code m ch = do
    s ← deref (state_at m m.current_state)
    t ← os_trans m source code s ch
    send_read owner ch s t

  -- From `__read_os_msg:` on.
  pub send_os : ℕ → Source → ℕ → Machine → M ℕ
  send_os owner source code m = do
    ch ← deref (channel_of m source)
    send_found owner source code m ch

  -- `esma_engine_dispatcher_send`
  pub send : Message → M ℕ
  send (between src dst ptr code) = machine dst >>= send_between src dst ptr code
  send (from_os owner source code) = machine owner >>= send_os owner source code
