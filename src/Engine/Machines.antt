-- ===== src/Engine/Machines.antt =====
-- engine/esma_machine.c: machines made, run, restarted and deleted, and their channels. What the kernel,
-- the reactor and the memory answer is an argument.
pub mod Register
pub mod Life
pub mod Made
pub mod Channels
pub mod Closed
pub mod Running
use esma.Base.{
  ℕ, zero, suc, ◌+◌, Bool, true, false, Option, none, some, List, [], ◌∷◌, ◌++◌, length, get_elem?,
  map, ltb, leb, ◌==◌, if◌then◌else◌,
}
use esma.Engine.Types.{
  Name, Channel, zero_channel, Trans, TransArray, State, Machine, Template, nth, ch_none, ch_tick,
  ch_data, ch_sign, init_state, fini_state,
}
use esma.Engine.Load.{codes, find_name}
use esma.Engine.World.{Source, ticks, signals}

-- A call of the reactor's `add`, for no events, that the registration makes.
pub data Added : Type 0 where
  added : (fd : ℕ) → (channel : Source) → Added

-- How a loop ends; `crash` is a read through NULL.
pub data Ended : Type 0 where
  fine : Ended
  failed : Ended
  crash : Ended

-- `esma_engine_new_timerfd` and `esma_engine_new_signalfd`, after the calls before them; none is -1.
pub record Kernel : Type 0 where
  pub timer : List Added → Option ℕ
  pub signal : List Added → ℕ → Option ℕ

-- `_esma_set_tick_trans` and `_esma_set_sign_trans` up to the descriptor, and with it.
unfoldable pub set_tick : ℕ → Trans → Trans
set_tick owner t = record t {
  ch = record (t.ch) { hard = 1; owner = owner; interval_msec = t.ch.raw_data };
}

unfoldable pub set_sign : ℕ → Trans → Trans
set_sign owner t = record t { ch = record (t.ch) { hard = 1; owner = owner } }

unfoldable pub with_fd : ℕ → Trans → Trans
with_fd fd t = record t { ch = record (t.ch) { fd = fd } }

abbrev pub keep : {A : Type 0} → A → List A × List Added × Ended → List A × List Added × Ended
keep a (as', log, e) = (a ∷ as', log, e)

-- A loop of `_esma_register_channels` over the items of one array, from item `j` on.
unfoldable pub register_cells :
    (List Added → Trans → Option ℕ)
    → (Trans → Trans)
    → (ℕ → Source)
    → ℕ
    → ℕ
    → List Trans
    → List Added
    → List Trans × List Added × Ended
unfolding with_fd
register_cells ask set source zero j ts log = (ts, log, fine)
register_cells ask set source (suc n) j [] log = ([], log, crash)
register_cells ask set source (suc n) j (t ∷ ts) log = elim (ask log t) [
  | none ↦ (set t ∷ ts, log, failed)
  | some fd ↦
      keep (with_fd fd (set t))
        (register_cells ask set source n (j + 1) ts (log ++ added fd (source j) ∷ []))
]

abbrev pub with_ticks : State → List Trans → State
with_ticks s ts = record s { tick_trans = record (s.tick_trans) { cells = ts } }

abbrev pub with_signs : State → List Trans → State
with_signs s ts = record s { sign_trans = record (s.sign_trans) { cells = ts } }

abbrev pub after_signs : State → List Trans × List Added × Ended → State × List Added × Ended
after_signs s (ts, log, e) = (with_signs s ts, log, e)

abbrev pub after_state :
    (List Added → List State × List Added × Ended)
    → List State
    → State × List Added × Ended
    → List State × List Added × Ended
after_state rest ss (s, log, fine) = keep s (rest log)
after_state rest ss (s, log, failed) = (s ∷ ss, log, failed)
after_state rest ss (s, log, crash) = (s ∷ ss, log, crash)

module _ (kernel : Kernel) (owner : ℕ) where
  unfoldable pub register_ticks : ℕ → TransArray → List Added → List Trans × List Added × Ended
  unfolding register_cells set_tick
  register_ticks i a log =
      register_cells (λ l t. kernel.timer l) (set_tick owner) (ticks i) a.nitems 0 a.cells log

  unfoldable pub register_signs : ℕ → TransArray → List Added → List Trans × List Added × Ended
  unfolding register_cells set_sign
  register_signs i a log =
      register_cells (λ l t. kernel.signal l t.ch.raw_data) (set_sign owner) (signals i) a.nitems 0
        a.cells log

  abbrev pub after_ticks : ℕ → State → List Trans × List Added × Ended → State × List Added × Ended
  after_ticks i s (ts, log, fine) =
      after_signs (with_ticks s ts) (register_signs i s.sign_trans log)
  after_ticks i s (ts, log, failed) = (with_ticks s ts, log, failed)
  after_ticks i s (ts, log, crash) = (with_ticks s ts, log, crash)

  -- One round of `_esma_register_channels`, at state `i`.
  unfoldable pub register_state : ℕ → State → List Added → State × List Added × Ended
  unfolding register_ticks register_signs
  register_state i s log = after_ticks i s (register_ticks i s.tick_trans log)

  -- `_esma_register_channels`, from state `i` on.
  unfoldable pub register : ℕ → List State → List Added → List State × List Added × Ended
  unfolding register_state
  register i [] log = ([], log, fine)
  register i (s ∷ ss) log = after_state (register (i + 1) ss) ss (register_state i s log)
