-- ===== src/Echo/Master.antt =====
-- programs/esma_echo_server/master.c: the pool of slaves. A machine is its address, and 0 is NULL.
pub mod Popped
pub mod Hall
pub mod Serves
use esma.Base.{ℕ, Bool, Option, none, some, List, [], ◌∷◌, ◌==◌, if◌then◌else◌}
use esma.Objpool.{Objpool, Put, refused, fault, stored, put, get}

abbrev pub then_put : (Objpool → Option Objpool) → Put → Option Objpool
then_put rest refused = none
then_put rest fault = none
then_put rest (stored p) = rest p

-- The loop of `__master_init_slaves`, over what esma_machine_new returned; none is 1.
unfoldable pub init_slaves : Option (ℕ → ℕ) → List ℕ → Objpool → Option Objpool
init_slaves realloc [] p = some p
init_slaves realloc (s ∷ ss) p = then_put (init_slaves realloc ss) (put p s realloc)

-- What becomes of a client: a slave is sent message 1 for it, it is closed, or the program exits.
pub data Client : Type 0 where
  given : ℕ → Objpool → Client
  turned_away : Objpool → Client
  exits : Client

abbrev pub without_slave : Bool → Objpool → Client
without_slave accepted p = if accepted then turned_away p else exits

abbrev pub after_get : Bool → Option ℕ × Objpool → Client
after_get accepted (none, p) = without_slave accepted p
after_get accepted (some s, p) = if s == 0 then without_slave accepted p else given s p

-- `master_work_data_0`, with whether a client that gets no slave could be accepted
unfoldable pub work_data_0 : Objpool → Bool → Client
work_data_0 p accepted = after_get accepted (get p)
