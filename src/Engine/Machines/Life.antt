-- ===== src/Engine/Machines/Life.antt =====
-- engine/esma_machine.c: esma_machine_new, _run, _restart and _del.
use esma.Base.{
  length, leb, ℕ, Bool, false, Option, none, some, List, [], get_elem?, ◌==◌, if◌then◌else◌,
}
use esma.Engine.Types.{Name, Channel, Trans, State, Template, ch_none, init_state, fini_state}
use esma.Engine.Load.{codes, load}
use esma.Engine.Machines.{Added, Ended, fine, failed, crash, Kernel, register}
use esma.Mempool as Pool
use esma.Mempool.{Mempool}

-- `struct esma`; `current` is none while the pointer leads to no state in its array.
pub record Esma : Type 0 where
  pub name : Name
  pub states : List State
  pub current : Option ℕ
  pub io_channel : Channel

-- How `_esma_machine_init` ends: with the machine; without channels; with a new array of states that
-- is not done; without a new array; or with a read through NULL or a write outside `name`.
pub data Init : Type 0 where
  ready : Esma → List Added → Init
  unregistered : Esma → List Added → Init
  half_loaded : Init
  unloaded : Esma → Init
  crashed : Init

abbrev pub given_name : Option Name → Name
given_name none = codes "nameless"
given_name (some name) = name

abbrev pub with_channels : Esma → List State × List Added × Ended → Init
with_channels m (states, log, fine) = ready (record m { states = states }) log
with_channels m (states, log, failed) = unregistered (record m { states = states }) log
with_channels m (states, log, crash) = crashed

module _ (load_tool : List ℕ → Option ℕ) (calloc : ℕ → Bool) (more : ℕ → ℕ → Option Trans)
    (kernel : Kernel) where
  -- `esma_load` in the block, and the name; what the block held leads into no new array.
  -- The source leaves current_state as it was in the block; here it is none, which is not FINI.
  abbrev pub loaded : Esma → Template → Option Name → Option (List State) → Option Esma
  loaded old tmpl name none = none
  loaded old tmpl name (some states) = some (record {
    name = given_name name;
    states = states;
    current = none;
    io_channel = record (old.io_channel) { type = ch_none };
  })

  abbrev pub after_load : ℕ → Option Esma → Init
  after_load block none = half_loaded
  after_load block (some m) =
      if leb 64 (length m.name)
      then crashed
      else with_channels m (register kernel block 0 m.states [])

  -- `_esma_machine_init` of the machine in `block`, which held `old`; a name of 64 characters and more
  -- is written over what follows it.
  unfoldable pub machine_init : ℕ → Esma → Template → Option Name → Init
  unfolding load register
  machine_init block old tmpl name =
      if calloc 0
      then after_load block (loaded old tmpl name (load load_tool calloc more tmpl))
      else unloaded (record old { name = tmpl.name })

abbrev pub in_state : Option ℕ → ℕ → Bool
in_state none k = false
in_state (some i) k = i == k

-- `esma_machine_del` of the machine in `block` with this current state: what it returns, and the
-- pool.
unfoldable pub del : Mempool → ℕ → Option ℕ → ℕ × Mempool
del mp block current = if in_state current fini_state then (0, Pool.put_block mp block) else (1, mp)

-- What `esma_machine_new` comes to: a machine in a block, or NULL, with the pool and what the reactor
-- was told; or a use of memory that is not there.
pub data Made : Type 0 where
  made : ℕ → Esma → List Added → Mempool → Made
  null : List Added → Mempool → Made
  broken : Made

unfoldable pub after_init : ℕ → Mempool → Init → Made
unfolding del
after_init block mp (ready m log) = made block m log mp
after_init block mp (unregistered m log) = null log ((del mp block m.current).1)
after_init block mp half_loaded = null [] ((del mp block none).1)
after_init block mp (unloaded m) = null [] ((del mp block m.current).1)
after_init block mp crashed = broken

module _ (load_tool : List ℕ → Option ℕ) (calloc : ℕ → Bool) (more : ℕ → ℕ → Option Trans)
    (kernel : Kernel) (realloc : Bool) (malloc : Option ℕ) (memory : ℕ → Esma) where
  abbrev pub after_block : Template → Option Name → Pool.Result ℕ → Made
  after_block tmpl name (Pool.failed mp) = null [] mp
  after_block tmpl name Pool.fault = broken
  after_block tmpl name (Pool.value block mp) =
      after_init block mp (machine_init load_tool calloc more kernel block (memory block) tmpl name)

  -- `esma_machine_new`; `memory` is what the blocks hold.
  unfoldable pub new : Mempool → Template → Option Name → Made
  unfolding machine_init after_init
  new mp tmpl name = after_block tmpl name (Pool.get_block mp realloc malloc)

-- What `esma_machine_run` comes to: 1, or what this function answers to the machine itself.
pub data Run : Type 0 where
  no_state : Run
  enters : (function : ℕ) → Esma → Run

unfoldable pub run : Esma → Run
run m = elim (get_elem? m.states init_state) [
  | none ↦ no_state
  | some s ↦ enters s.enter (record m { current = some init_state })
]

-- `esma_machine_restart`
unfoldable pub restart : Esma → Esma × ℕ
restart m =
    if in_state m.current fini_state then (record m { current = some init_state }, 0) else (m, 1)
