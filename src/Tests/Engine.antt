-- ===== src/Tests/Engine.antt =====
-- engine/esma_load.c and engine/esma_engine_dispatcher.c at a machine of two states.
use esma.Base.{
  ℕ, zero, suc, ◌<◌, ◌≡◌, refl, sym, subst, ◌⊎◌, Bool, true, false, Option, none, some, List, [],
  ◌∷◌, ◌++◌, length, get_elem?, arith, ◌==◌, if◌then◌else◌,
}
use esma.Engine.Types.{
  Machine, State, Trans, Template, StateTemplate, TransTemplate, zero_trans, zero_channel, ch_none,
  ch_tick, tm_periodic, nth,
}
use esma.Engine.Load.{load, codes}
use esma.Engine.Load.Own.{last_own}
use esma.Engine.Load.Correct.{template_names, Distinct, load-target}
use esma.Engine.Exec.{Loop, AtEnd, exec, exec-ends}
use esma.Engine.World.{
  Message, Call, Call, handler, read_tick, read_sign, read_avail, arm, disarm, watch, Surroundings,
  World, value, returns, between, update,
}
use esma.Engine.Dispatch.{send}
use esma.Engine.Dispatch.Invariant.{
  IsMachine, Has, coded, on_tick, on_sign, on_pollin, on_pollout, on_pollerr, receiver,
  send-IsMachine,
}
use esma.Engine.Dispatch.Trace.{SystemWorks, InRange, is_handler, starts, stops, each}
use esma.Engine.Dispatch.Outcomes.{Moves, send-moves, send-held, send-half}

-- A state with a handler for `leave`, a transition of code 0 to state 1, and a timer.
abbrev step : Trans
step = record { code = 0; action = none; next_state = some 1; ch = zero_channel }

abbrev timer : Trans
timer = record {
  code = 0;
  action = some 9;
  next_state = none;
  ch = record zero_channel { fd = 5; type = ch_tick; interval_msec = 100; periodic = tm_periodic };
}

abbrev idle : State
idle = record {
  name = codes "idle";
  enter = 10;
  leave = some 11;
  trans = record { cells = step ∷ []; nitems = 0 };
  sign_trans = record { cells = zero_trans ∷ []; nitems = 0 };
  tick_trans = record { cells = timer ∷ []; nitems = 1 };
  data_pollin = zero_trans;
  data_pollout = zero_trans;
  data_pollerr = zero_trans;
}

abbrev two_states : Machine
two_states = record {
  name = codes "m";
  states = idle ∷ idle ∷ [];
  current_state = 0;
  io_channel = zero_channel;
}

abbrev world : World
world = record { machines = λ _. two_states; calls = [] }

-- The handler `f` answers `n`, and all else answers 0.
answer_of : ℕ → ℕ → Call → ℕ
answer_of f n (handler g src dst ptr) = if f == g then n else 0
answer_of f n c = 0

abbrev answering : ℕ → ℕ → Surroundings
answering f n = record { answer = λ calls c. answer_of f n c; avail = λ calls fd. 0 }

system-answers : (f n : ℕ) (c : Call) → is_handler c ≡ false → answer_of f n c ≡ 0
unfolding answer_of is_handler
system-answers f n (handler g src dst ptr) h = cc
system-answers f n (read_tick fd) h = refl
system-answers f n (read_sign fd) h = refl
system-answers f n (read_avail fd) h = refl
system-answers f n (arm fd interval_msec periodic) h = refl
system-answers f n (disarm fd) h = refl
system-answers f n (watch fd events) h = refl

answering-SystemWorks : (f n : ℕ) → SystemWorks (answering f n)
answering-SystemWorks f n calls c h = system-answers f n c h

idle-InRange : InRange idle
idle-InRange = record { ticks = omega arith; signs = omega arith; signs_in_ticks = omega arith }

idle-moves : (f n : ℕ) → Moves (answering f n) world 3 4 8 0
idle-moves f n = record {
  works = answering-SystemWorks f n;
  s = idle;
  t = step;
  k = 1;
  s' = idle;
  here = refl;
  by = refl;
  to = refl;
  there = refl;
  range = idle-InRange;
  range' = idle-InRange;
}

abbrev moved : ℕ → Machine
moved = update world.machines 4 (record two_states { current_state = 1 })

abbrev left_calls : List Call
left_calls = disarm 5 ∷ handler 11 3 4 (some 8) ∷ []

send-moves_example : send (answering 0 0) (between 3 4 8 0) world ≡ (
  value 0,
  record {
    machines = moved;
    calls = left_calls ++ handler 10 3 4 (some 8) ∷ arm 5 100 tm_periodic ∷ watch 5 1 ∷ [];
  },
)
unfolding starts stops each answer_of idle-moves
send-moves_example = send-moves (idle-moves 0 0) refl refl

send-held_example :
    send (answering 11 2) (between 3 4 8 0) world ≡ (returns 1, record world { calls = left_calls })
unfolding stops each answer_of idle-moves
send-held_example = send-held (idle-moves 11 2) (λ e. omega (arith, e))

send-half_example : send (answering 10 2) (between 3 4 8 0) world ≡ (
  returns 2,
  record {
    machines = moved;
    calls = left_calls ++ handler 10 3 4 (some 8) ∷ handler 11 3 4 (some 8) ∷ [];
  },
)
unfolding stops each answer_of idle-moves
send-half_example = send-half (idle-moves 10 2) refl (λ e. omega (arith, e))

-- Every transition of `idle` goes to state 1, if anywhere.
eq_of_some : {A : Type 0} {a b : A} → some a ≡ some b → a ≡ b
eq_of_some h = cc

cell-next :
    (u t : Trans) (i k : ℕ)
    → ((j : ℕ) → u.next_state ≡ some j → j < 2)
    → get_elem? (u ∷ []) i ≡ some t
    → t.next_state ≡ some k
    → k < 2
cell-next u t zero k all e h = all k (cc (e, h))
cell-next u t (suc i) k all e h = cc

idle-next : (t : Trans) (k : ℕ) → Has idle t → t.next_state ≡ some k → k < 2
idle-next t k (coded u i e) h = cell-next step t i k (λ j q. ground arith) e h
idle-next t k (on_tick u i e) h = cell-next timer t i k (λ j q. cc) e h
idle-next t k (on_sign u i e) h = cell-next zero_trans t i k (λ j q. cc) e h
idle-next t k on_pollin h = cc
idle-next t k on_pollout h = cc
idle-next t k on_pollerr h = cc

state-next :
    (j : ℕ) (s : State) (t : Trans) (k : ℕ)
    → get_elem? two_states.states j ≡ some s
    → Has s t
    → t.next_state ≡ some k
    → k < 2
state-next zero s t k e h n = idle-next t k (subst (λ q. Has q t) (sym (eq_of_some e)) h) n
state-next (suc zero) s t k e h n = idle-next t k (subst (λ q. Has q t) (sym (eq_of_some e)) h) n
state-next (suc (suc j)) s t k e h n = cc

two_states-IsMachine : IsMachine two_states
two_states-IsMachine = record { current_in = omega arith; closed = λ j s t k. state-next j s t k }

send-IsMachine_example :
    IsMachine ((send (answering 0 0) (between 3 4 8 0) world).1.machines 4)
    × (((send (answering 0 0) (between 3 4 8 0) world).1.machines 4).states ≡ two_states.states)
    × ((4 ≡ receiver (between 3 4 8 0))
        ⊎ ((send (answering 0 0) (between 3 4 8 0) world).1.machines 4 ≡ two_states))
send-IsMachine_example =
    send-IsMachine (answering 0 0) (between 3 4 8 0) world 4 (λ j. two_states-IsMachine)

abbrev one_message : List Call → List Message
one_message calls = between 3 4 8 0 ∷ []

exec-ends_example :
    (l : Loop) × (exec (answering 0 0) one_message 2 0 world ≡ some l)
    × AtEnd (answering 0 0) one_message world.machines l
exec-ends_example =
    exec-ends (answering 0 0) one_message 1 world (λ calls. omega arith) (λ j. two_states-IsMachine)

-- Two states, `a` and `b`: in `a` code 0 leads to `b`.
abbrev go : TransTemplate
go = record {
  action_code = 0;
  ch_type = ch_none;
  ch_data = 0;
  ch_periodic = 0;
  next_state = some 1;
}

abbrev template_state : List ℕ → List TransTemplate → StateTemplate
template_state name trans = record {
  name = name;
  trans = trans;
  ntrans = length trans;
  max_code = 0;
  max_sign_code = 0;
  max_data_code = 0;
  max_tick_code = 0;
}

abbrev template : Template
template = record {
  name = 109 ∷ [];
  states = template_state (1 ∷ []) (go ∷ []) ∷ template_state (2 ∷ []) [] ∷ [];
}

abbrev find_tool : List ℕ → Option ℕ
find_tool name = some 7

abbrev has_memory : ℕ → Bool
has_memory i = true

abbrev no_more : ℕ → ℕ → Option Trans
no_more i j = none

states_of : Option (List State) → List State
states_of none = []
states_of (some ss) = ss

loaded : List State
unfolding load states_of
loaded = states_of (load find_tool has_memory no_more template)

loaded_lem : load find_tool has_memory no_more template ≡ some loaded
unfolding load loaded states_of
loaded_lem = refl

apart : (n : List ℕ) → some (1 ∷ []) ≡ some n → some (2 ∷ []) ≡ some n → ⊥
apart n e e' = cc

names-Distinct : Distinct (template_names template.states)
names-Distinct zero zero n e e' = refl
names-Distinct zero (suc zero) n e e' = absurd (apart n e e')
names-Distinct (suc zero) zero n e e' = absurd (apart n e' e)
names-Distinct (suc zero) (suc zero) n e e' = refl
names-Distinct (suc (suc i)) j n e e' = cc
names-Distinct zero (suc (suc j)) n e e' = cc
names-Distinct (suc zero) (suc (suc j)) n e e' = cc

load-target_example :
    (s : State) × (tr : Trans) × (get_elem? loaded 0 ≡ some s)
    × (nth s.trans 0 ≡ some tr)
    × (tr.next_state ≡ some 1)
unfolding last_own
load-target_example =
    load-target find_tool has_memory no_more template loaded names-Distinct loaded_lem 0
      (template_state (1 ∷ []) (go ∷ [])) 0 go refl refl
