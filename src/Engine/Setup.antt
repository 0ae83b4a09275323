-- ===== src/Engine/Setup.antt =====
-- esma_engine_init of engine/esma_engine.c, and the init of the message queue of
-- engine/modules/esma_msg_queue_ring_buffer.c. What get_api finds is an argument.
pub mod Ready
use esma.Base.{ℕ, Bool, Option, none, some, List, ◌==◌, if◌then◌else◌}
use esma.Engine.Types.{Name}
use esma.Engine.Load.{codes}
use esma.Ring.{RingBuffer}
use esma.Ring.Create.{without_lock, mutex, cmpxchg, init_locked}
use esma.Mempool as Pool
use esma.Mempool.{Mempool, Result, failed, value, fault}

-- How the init of an interface ends: the program exits, or it returns an error, or 0 and what it
-- made.
pub data Started (A : Type 0) : Type 0 where
  exited : Started A
  refused : Started A
  started : A → Started A

abbrev pub from_ring : Option RingBuffer → Started RingBuffer
from_ring none = refused
from_ring (some r) = started r

-- ESMA_QUEUE_…
abbrev pub queue_without_lock : ℕ
queue_without_lock = 1

abbrev pub queue_mutex : ℕ
queue_mutex = 2

abbrev pub queue_cmpxchg : ℕ
queue_cmpxchg = 3

-- `ring_buffer__init`, with the size of a message and the answers of pthread_mutex_init and calloc.
unfoldable pub queue_init : ℕ → Bool → Bool → ℕ → Started RingBuffer
unfolding init_locked
queue_init message_size mutex_made allocated lock_type =
    if lock_type == queue_without_lock
    then from_ring (init_locked message_size 128 without_lock mutex_made allocated)
    else if lock_type == queue_mutex
    then from_ring (init_locked message_size 128 mutex mutex_made allocated)
    else if lock_type == queue_cmpxchg
    then from_ring (init_locked message_size 128 cmpxchg mutex_made allocated)
    else exited

-- `struct esma_engine`, with a reactor and a queue of the interfaces' kinds.
pub record Engine (R Q : Type 0) : Type 0 where
  pub reactor : R
  pub queue : Q
  pub machine_pool : Mempool

-- How `esma_engine_init` ends: by `exit(1)`, with 0 and the engine, or with a read of freed memory.
pub data Setup (R Q : Type 0) : Type 0 where
  exits : Setup R Q
  ready : Engine R Q → Setup R Q
  broken : Setup R Q

abbrev pub name_or : Option Name → Name → Name
name_or none default = default
name_or (some name) default = name

module _ {R Q : Type 0} (pool : Mempool) (machine_size : ℕ) (realloc : Bool)
    (malloc : Option ℕ) where
  abbrev pub with_pool : R → Q → Result (Unit {0}) → Setup R Q
  with_pool r q (failed mp) = exits
  with_pool r q (value t mp) = ready (record { reactor = r; queue = q; machine_pool = mp })
  with_pool r q fault = broken

  abbrev pub with_queue : R → Started Q → Setup R Q
  with_queue r exited = exits
  with_queue r refused = exits
  with_queue r (started q) = with_pool r q (Pool.init pool machine_size realloc malloc)

  abbrev pub with_reactor : Started R → (ℕ → Started Q) → ℕ → Setup R Q
  with_reactor exited open_queue lock_type = exits
  with_reactor refused open_queue lock_type = exits
  with_reactor (started r) open_queue lock_type = with_queue r (open_queue lock_type)

  abbrev pub with_apis : Option (ℕ → Started R) → Option (ℕ → Started Q) → ℕ → Setup R Q
  with_apis none queue lock_type = exits
  with_apis (some open_reactor) none lock_type = exits
  with_apis (some open_reactor) (some open_queue) lock_type =
      with_reactor (open_reactor 32) open_queue lock_type

  -- `esma_engine_init`, where `pool` is what its machine pool held.
  unfoldable pub engine_init :
      (Name → Option (ℕ → Started R))
      → (Name → Option (ℕ → Started Q))
      → Option Name
      → Option Name
      → ℕ
      → Setup R Q
  unfolding Pool.init
  engine_init get_reactor get_queue reactor_name queue_name lock_type =
      with_apis (get_reactor (name_or reactor_name (codes "reactor_epoll")))
        (get_queue (name_or queue_name (codes "msg_queue_ring_buffer"))) lock_type
