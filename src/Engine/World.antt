-- ===== src/Engine/World.antt =====
-- What surrounds the dispatcher: the machines, the messages, and the calls that leave the engine
-- (the program's handlers, `read`, `ioctl`, `timerfd_settime`, the reactor). An answer of the
-- surroundings may depend on all calls before it, so it stands for whatever they do, except that
-- handlers do not assign the state of a machine: they send messages.
use esma.Base.{
  ℕ, zero, suc, ◌+◌, Option, none, some, List, [], ◌∷◌, ◌++◌, get_elem?, ◌==◌, if◌then◌else◌,
}
use esma.Engine.Types.{Machine, State}

-- Which channel of a machine: its I/O channel, or that of a transition by its state and index.
pub data Source : Type 0 where
  io : Source
  ticks : ℕ → ℕ → Source
  signals : ℕ → ℕ → Source

-- `struct esma_message`. A message of the reactor has NULL for both machines and a channel for
-- its data; all others name both machines.
pub data Message : Type 0 where
  between : (src dst ptr code : ℕ) → Message
  from_os : (owner : ℕ) (source : Source) (code : ℕ) → Message

-- A call that leaves the engine. A handler gets the two machines and the data (NULL is `none`).
pub data Call : Type 0 where
  handler : (function src dst : ℕ) (ptr : Option ℕ) → Call
  read_tick : (fd : ℕ) → Call
  read_sign : (fd : ℕ) → Call
  read_avail : (fd : ℕ) → Call
  arm : (fd interval_msec periodic : ℕ) → Call
  disarm : (fd : ℕ) → Call
  watch : (fd events : ℕ) → Call

-- The answers: 0 for success (for `read`, the whole of what was asked for), and the number of
-- bytes that FIONREAD stores.
pub record Surroundings : Type 0 where
  pub answer : List Call → Call → ℕ
  pub avail : List Call → ℕ → ℕ

pub record World : Type 0 where
  pub machines : ℕ → Machine
  pub calls : List Call

-- `crash` is a call or a read through NULL; `exits` is `exit(1)`.
pub data Outcome (A : Type 0) : Type 0 where
  value : A → Outcome A
  returns : ℕ → Outcome A
  exits : Outcome A
  crash : Outcome A

abbrev pub M : Type 0 → Type 0
M A = World → Outcome A × World

abbrev pub and_then : {A B : Type 0} → Outcome A × World → (A → M B) → Outcome B × World
and_then (value a, w) f = f a w
and_then (returns n, w) f = (returns n, w)
and_then (exits, w) f = (exits, w)
and_then (crash, w) f = (crash, w)

infixl 5 ◌>>=◌ ◌>>◌
abbrev pub ◌>>=◌ : {A B : Type 0} → M A → (A → M B) → M B
◌>>=◌ m f w = and_then (m w) f

abbrev pub ◌>>◌ : {B : Type 0} → M (Unit {0}) → M B → M B
◌>>◌ m k w = and_then (m w) (λ _. k)

abbrev pub pure : {A : Type 0} → A → M A
pure a w = (value a, w)

abbrev pub return : {A : Type 0} → ℕ → M A
return n w = (returns n, w)

abbrev pub stop : {A : Type 0} → Outcome A → M A
stop o w = (o, w)

-- A pointer that must not be NULL.
abbrev pub deref : {A : Type 0} → Option A → M A
deref none w = (crash, w)
deref (some a) w = (value a, w)

module _ (env : Surroundings) where
  unfoldable pub call : Call → M ℕ
  call c w = (value (env.answer w.calls c), record w { calls = w.calls ++ c ∷ [] })

  -- `if (err) …` after a call
  unfoldable pub check : Call → Outcome (Unit {0}) → M (Unit {0})
  check c failed w =
      let w' = record w { calls = w.calls ++ c ∷ [] } in
      if env.answer w.calls c == 0 then (value tt, w') else (failed, w')

-- `for (int i = 0; i < n; i++) body(i)`
unfoldable pub for_each : ℕ → ℕ → (ℕ → M (Unit {0})) → M (Unit {0})
for_each zero i body = pure tt
for_each (suc n) i body = body i >> for_each n (i + 1) body

abbrev pub update : (ℕ → Machine) → ℕ → Machine → ℕ → Machine
update f i m j = if i == j then m else f j

-- `ch->info.data.bytes_avail` of the I/O channel, as `ioctl` stores it
unfoldable pub set_bytes_avail : ℕ → ℕ → M (Unit {0})
set_bytes_avail i n w =
    let m = w.machines i in
    let m' = record m { io_channel = record (m.io_channel) { bytes_avail = n } } in
    (value tt, record w { machines = update w.machines i m' })

-- `dst->current_state = …`, and the machine after it
unfoldable pub set_current : ℕ → ℕ → M Machine
set_current i k w =
    let m = record (w.machines i) { current_state = k } in
    (value m, record w { machines = update w.machines i m })

unfoldable pub machine : ℕ → M Machine
machine i w = (value (w.machines i), w)

abbrev pub state_at : Machine → ℕ → Option State
state_at m k = get_elem? m.states k
