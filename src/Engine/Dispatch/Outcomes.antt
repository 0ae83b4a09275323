-- ===== src/Engine/Dispatch/Outcomes.antt =====
-- The ways a message between machines that changes the state can end, when the system's own calls
-- succeed and the handlers answer as they please.
use esma.Base.{
  ℕ, ◌≡◌, refl, sym, ap, ◌∙◌, ◌≢◌, Option, none, some, List, [], ◌∷◌, ◌++◌, append-nil, ne-beq,
}
use esma.Engine.Types.{Machine, State, Trans, nth}
use esma.Engine.World.{
  between, Call, handler, Surroundings, World, Outcome, value, returns, and_then, ◌>>=◌, pure,
  return, call, update, set_current, machine, state_at,
}
use esma.Engine.Dispatch.{
  opt, leave_state, entered, enter_state, left_state, transit, deliver, send_between, send,
}
use esma.Engine.Dispatch.Trace.{
  SystemWorks, emit, InRange, stops, starts, stop_channels-works, start_channels-works,
}

-- The call of `state->leave`, if there is one, and its answer.
abbrev called : Option ℕ → (ℕ → Call) → List Call
called none c = []
called (some f) c = c f ∷ []

abbrev answered : Option ℕ → (ℕ → ℕ) → ℕ
answered none a = 0
answered (some f) a = a f

-- A message from machine `src` to `dst` with a code by which `dst` goes from state `s` to `s'`.
pub record Moves (env : Surroundings) (w : World) (src dst ptr code : ℕ) : Type 0 where
  pub works : SystemWorks env
  pub s : State
  pub t : Trans
  pub k : ℕ
  pub s' : State
  pub here : state_at (w.machines dst) (w.machines dst).current_state ≡ some s
  pub by : nth s.trans code ≡ some t
  pub to : t.next_state ≡ some k
  pub there : state_at (w.machines dst) k ≡ some s'
  pub range : InRange s
  pub range' : InRange s'

module _ {env : Surroundings} {w : World} {src dst ptr code : ℕ}
    (v : Moves env w src dst ptr code) where
  open v use {works, s, t, k, s', here, by, to, there, range, range'}

  abbrev leaves : State → List Call
  leaves q = called q.leave (λ f. handler f src dst (some ptr))

  abbrev answer_of : State → List Call → ℕ
  answer_of q calls = answered q.leave (λ f. env.answer calls (handler f src dst (some ptr)))

  abbrev enter_call : Call
  enter_call = handler s'.enter src dst (some ptr)

  -- The calls made before `leave` of the old state, before `enter` of the new one, and after it.
  abbrev before_leave : List Call
  before_leave = w.calls ++ stops s

  abbrev before_enter : List Call
  before_enter = before_leave ++ leaves s

  abbrev after_enter : List Call
  after_enter = before_enter ++ enter_call ∷ []

  abbrev moved_machines : ℕ → Machine
  moved_machines = update w.machines dst (record (w.machines dst) { current_state = k })

  leave-opt :
      (o : Option ℕ) (w' : World)
      → opt o (λ f. call env (handler f src dst (some ptr))) (pure 0) w' ≡ (
        value (answered o (λ f. env.answer w'.calls (handler f src dst (some ptr)))),
        emit w' (called o (λ f. handler f src dst (some ptr))),
      )
  unfolding call
  leave-opt none w' = ap (λ cs. (value 0, record w' { calls = cs })) (sym (append-nil w'.calls))
  leave-opt (some f) w' = refl

  leave-calls :
      (q : State) (w' : World)
      → leave_state env q src dst (some ptr) w' ≡ (value (answer_of q w'.calls), emit w' (leaves q))
  unfolding leave_state call
  leave-calls q w' = leave-opt q.leave w'

  send-transit : send env (between src dst ptr code) w ≡ transit env src dst (some ptr) s k w
  unfolding send send_between deliver machine
  send-transit = rw (here, by, to)

  abbrev world_left : World
  world_left = record w { calls = before_enter }

  transit-left :
      transit env src dst (some ptr) s k w
      ≡ left_state env src dst (some ptr) k (answer_of s before_leave) world_left
  unfolding transit
  transit-left =
      let then_leave = λ (r : Outcome (Unit {0}) × World).
        and_then r
          (λ _. leave_state env s src dst (some ptr) >>= left_state env src dst (some ptr) k) in
      ap then_leave (stop_channels-works env works s w range)
      ∙ ap (λ r. and_then r (left_state env src dst (some ptr) k))
          (leave-calls s (emit w (stops s)))

  abbrev world_entered : World
  world_entered = record { machines = moved_machines; calls = after_enter }

  left-entered :
      answer_of s before_leave ≡ 0
      → left_state env src dst (some ptr) k (answer_of s before_leave) world_left
        ≡ entered env src dst (some ptr) s' (env.answer before_enter enter_call) world_entered
  unfolding left_state set_current enter_state call
  left-entered ok = rw (ok, there)

  send-entered :
      answer_of s before_leave ≡ 0
      → send env (between src dst ptr code) w
        ≡ entered env src dst (some ptr) s' (env.answer before_enter enter_call) world_entered
  send-entered ok = send-transit ∙ transit-left ∙ left-entered ok

  -- For a message from a machine to one that it moves to another state, where the system calls
  -- succeed, the counts of timers and signals of both states stay within their arrays, and the
  -- array of timers of each has at least as many cells as the state counts signals (`__stop_channels`
  -- indexes it by them): if `leave` of the old state (called if there is one) and `enter` of the new
  -- one answer 0, the message returns 0 and the machine is in the new state, no other change; the
  -- calls in order are: each timer of the old state is disarmed, the events of its first timers'
  -- descriptors, as many as it counts signals, are cleared (those of its signals stay), `leave`,
  -- `enter`, and the channels of the new state are started.
  pub send-moves :
      answer_of s before_leave ≡ 0
      → env.answer before_enter enter_call ≡ 0
      → send env (between src dst ptr code) w
        ≡ (value 0, record { machines = moved_machines; calls = after_enter ++ starts s' })
  unfolding entered
  send-moves ok ok' =
      send-entered ok
      ∙ rw ok' (
          ap (λ r. and_then r (λ _. pure 0))
            (start_channels-works env works s' world_entered range'))

  -- For a message from a machine to one that it moves to another state, where the system calls
  -- succeed, the counts of timers and signals of both states stay within their arrays, and the
  -- array of timers of each has at least as many cells as the state counts signals (`__stop_channels`
  -- indexes it by them): if there is a `leave` of the old state and it
  -- answers other than 0, the message returns 1 and no machine changes; the calls are those that
  -- disarm the timers of the old state and clear the events of its first timers' descriptors, as
  -- many as it counts signals, then `leave`; no channel is started again.
  pub send-held :
      answer_of s before_leave ≢ 0
      → send env (between src dst ptr code) w ≡ (returns 1, record w { calls = before_enter })
  unfolding left_state
  send-held bad = send-transit ∙ transit-left ∙ rw (ne-beq bad)

  -- For a message from a machine to one that it moves to another state, where the system calls
  -- succeed, the counts of timers and signals of both states stay within their arrays, and the
  -- array of timers of each has at least as many cells as the state counts signals (`__stop_channels`
  -- indexes it by them): if `leave` of the old state (called if there is
  -- one) answers 0 and `enter` of the new one fails, the message returns its answer and the machine
  -- stays in the new state; the calls are those that disarm the timers of the old state and clear
  -- the events of its first timers' descriptors, as many as it counts signals, then `leave`, `enter`
  -- and the `leave` of the new state (if there is one); its channels are not started.
  pub send-half :
      answer_of s before_leave ≡ 0
      → env.answer before_enter enter_call ≢ 0
      → send env (between src dst ptr code) w ≡ (
        returns (env.answer before_enter enter_call),
        record { machines = moved_machines; calls = after_enter ++ leaves s' },
      )
  unfolding entered
  send-half ok bad =
      send-entered ok
      ∙ rw (ne-beq bad) (
          ap (λ r. and_then r (λ ignored. return (env.answer before_enter enter_call)))
            (leave-calls s' world_entered))
