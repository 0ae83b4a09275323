-- ===== src/Tests/Machines.antt =====
-- A machine from a small template.
use esma.Base.{
  ℕ, ◌+◌, ◌≤◌, ◌≡◌, refl, ap, sym, inl, inr, true, none, some, List, [], ◌∷◌, length, arith,
}
use esma.Engine.Types.{Trans, init_state, zero_trans, zero_channel, StateTemplate, State}
use esma.Engine.Load.{load, prepare_states, prepare_state, tool_name, codes}
use esma.Engine.Load.Slots.{eq_of_some}
use esma.Engine.Load.Succeeds.{Small, Loadable}
use esma.Engine.Parser.Built.{IsTemplate}
use esma.Engine.Parser.Correct.{decode-IsTemplate}
use esma.Engine.Machines.{Kernel, added, fine, register}
use esma.Engine.World.{ticks}
use esma.Engine.Machines.Life.{
  Esma, Made, made, null, broken, new, machine_init, after_init, del, enters, run,
}
use esma.Engine.Machines.Register.{channels, AllFitted, Gives, register-channels}
use esma.Engine.Machines.Made.{Makes, new-Makes, new-lost}
use esma.Mempool.{Mempool, value, get_block, get_from}
use esma.Mempool.Free.{Gets}
use esma.Tests.Mempool.{pool, pool-Holds}
use esma.Tests.Parser.{env, source, empty, empty-IsTemplate, read_result, source_runs}

abbrev kernel : Kernel
kernel = record { timer = λ l. some (3 + length l); signal = λ l n. some (3 + length l) }

kernel-Gives : Gives kernel
kernel-Gives = record { timer = λ l. (3 + length l, refl); signal = λ l n. (3 + length l, refl) }

abbrev old_block : Esma
old_block = record { name = []; states = []; current = none; io_channel = zero_channel }

read_result-IsTemplate : IsTemplate read_result
read_result-IsTemplate = decode-IsTemplate env source empty read_result empty-IsTemplate source_runs

few :
    (st : StateTemplate)
    → st.max_code ≤ 9
    → st.ntrans ≤ 9
    → st.max_tick_code ≤ 9
    → st.max_sign_code ≤ 9
    → Small 0 st
few st a b c d = record {
  own = omega arith;
  trans = omega arith;
  tick = omega arith;
  sign = omega arith;
}

read_result-Loadable : Loadable (λ w. some (length w)) read_result.name 0 read_result.states
read_result-Loadable = (
  (
    (few _ (omega arith) (omega arith) (omega arith) (omega arith), (_, refl)),
    ((inl refl, λ e. (_, refl)), tt),
  ),
  (
    ((few _ (omega arith) (omega arith) (omega arith) (omega arith), (_, refl)), tt),
    (
      (
        (few _ (omega arith) (omega arith) (omega arith) (omega arith), (_, refl)),
        ((inr (inl refl), λ e. (_, refl)), tt),
      ),
      tt,
    ),
  ),
)

new-Makes_example : Makes pool (32 ∷ []) (8 ∷ 16 ∷ []) 100 read_result (
    new
      (λ w. some (length w))
      (λ i. true)
      (λ i j. some zero_trans)
      kernel
      true
      (some 100)
      (λ b. old_block)
      pool
      read_result
      none)
new-Makes_example =
    new-Makes (λ w. some (length w)) (λ i. true) (λ i j. some zero_trans) kernel 100
      (λ b. old_block) pool (32 ∷ []) (8 ∷ 16 ∷ []) (0 ∷ []) read_result none (λ i. refl)
      (λ i j. (zero_trans, refl)) kernel-Gives pool-Holds (omega arith) refl read_result-Loadable
      read_result-IsTemplate (omega arith)

-- No function is found.
abbrev pool_after : Mempool
pool_after = record pool { basket = none }

refused :
    new
      (λ w. none)
      (λ i. true)
      (λ i j. some zero_trans)
      kernel
      true
      (some 100)
      (λ b. old_block)
      pool
      read_result
      none
    ≡ null [] pool_after
unfolding new machine_init after_init del get_block get_from load prepare_states prepare_state
    tool_name
refused = refl

new-lost_example : (block : ℕ) × Gets pool (32 ∷ []) (8 ∷ 16 ∷ []) 100 (value block pool_after)
new-lost_example =
    new-lost (λ w. none) (λ i. true) (λ i j. some zero_trans) kernel 100 (λ b. old_block) pool
      pool_after (32 ∷ []) (8 ∷ 16 ∷ []) (0 ∷ []) read_result none [] refl pool-Holds (omega arith)
      refl refused

-- A machine with one timer.
abbrev ticking : State
ticking = record {
  name = codes "a";
  enter = 1;
  leave = none;
  trans = record { cells = []; nitems = 0 };
  sign_trans = record { cells = []; nitems = 0 };
  tick_trans = record { cells = zero_trans ∷ zero_trans ∷ []; nitems = 1 };
  data_pollin = zero_trans;
  data_pollout = zero_trans;
  data_pollerr = zero_trans;
}

register-channels_example :
    (ss : List State) × (register kernel 5 0 (ticking ∷ []) [] ≡ (ss, channels 0 ss, fine))
    × AllFitted 5 (ticking ∷ []) ss
register-channels_example =
    register-channels kernel 5 kernel-Gives 0 (ticking ∷ []) [] (omega arith, omega arith, tt)

zero_clear : (junk : Trans) → some zero_trans ≡ some junk → junk.next_state ≡ none
zero_clear junk e = sym (ap (λ (t : Trans). t.next_state) (eq_of_some e))

-- The machine that is made in the last block of the pool.
abbrev attempt : Made
attempt =
    new (λ w. some (length w)) (λ i. true) (λ i j. some zero_trans) kernel true (some 100)
      (λ b. old_block) pool read_result none

abbrev machine_in : Made → Esma
machine_in (made block m log mp) = m
machine_in (null log mp) = old_block
machine_in broken = old_block

new_machine : attempt ≡ made 32 (machine_in attempt) (added 3 (ticks 2 0) ∷ []) pool_after
unfolding new machine_init after_init del get_block get_from load prepare_states prepare_state
    tool_name
new_machine = refl

run_machine :
    run (machine_in attempt) ≡ enters 12 (record (machine_in attempt) { current = some init_state })
unfolding new machine_init after_init del get_block get_from load prepare_states prepare_state
    tool_name run
run_machine = refl
