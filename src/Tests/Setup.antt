-- ===== src/Tests/Setup.antt =====
-- The set-up of an engine with the poll reactor.
use esma.Base.{ℕ, refl, true, Option, none, some, arith}
use esma.Engine.Types.{Name}
use esma.Engine.Reactor.{Reactor, start}
use esma.Engine.Setup.{Started, refused, started, queue_init, engine_init}
use esma.Engine.Setup.Ready.{Ends, init-Ends}
use esma.Ring.{RingBuffer, align8}
use esma.Tests.Mempool.{pool}

abbrev opened : Option Reactor → Started Reactor
opened none = refused
opened (some r) = started r

abbrev open_poll : ℕ → Started Reactor
open_poll nevents = opened (start (λ c. none) nevents true true)

abbrev reactors : Name → Option (ℕ → Started Reactor)
reactors name = some open_poll

abbrev queues : Name → Option (ℕ → Started RingBuffer)
queues name = some (queue_init 28 true true)

init-Ends_example :
    Ends 28 112 1 true true true
      (some 4096)
      (open_poll 32)
      (engine_init pool 112 true (some 4096) reactors queues none none 1)
unfolding align8
init-Ends_example =
    init-Ends 28 112 1 true true true (some 4096) pool (omega arith) (omega arith) reactors queues
      none none open_poll refl refl
