-- ===== src/Engine/Epoll.antt =====
-- engine/modules/esma_reactor_epoll.c. The set of descriptors is the kernel's: a state `S` and the
-- calls of epoll_ctl on it are parameters, like the bits of epoll.h.
pub mod Same
pub mod Steps
pub mod Runs
pub mod Places
pub mod Waits
use esma.Base.{
  ℕ, zero, suc, ◌+◌, bit_and, bit_or, Bool, true, false, Option, none, some, List, [], ◌∷◌, ◌==◌,
  if◌then◌else◌,
}
use esma.Fd.{Fcntl, set_nonblocking}
use esma.Engine.Types.{pollin, pollout, pollhup, pollerr}
use esma.Engine.Reactor.{PollBits, Message}

-- `struct epoll_event`
pub record Event : Type 0 where
  pub ch : ℕ
  pub events : ℕ

-- The calls of epoll_ctl for a descriptor; none is -1.
pub record Calls (S : Type 0) : Type 0 where
  pub ctl_add : S → ℕ → Event → Option S
  pub ctl_mod : S → ℕ → Event → Option S
  pub ctl_del : S → ℕ → Option S

-- `MAX_EVENTS`
abbrev pub max_events : ℕ
max_events = 32

-- `epoll_reactor__init`, with what epoll_create answers
unfoldable pub start : {S : Type 0} → Option S → ℕ × Option S
start none = (1, none)
start (some s) = (0, some s)

-- What is returned after a call, and the kernel's set.
abbrev pub returned : {S : Type 0} → S → Option S → ℕ × S
returned s none = (1, s)
returned s (some s') = (0, s')

-- The events of `__mod__`
unfoldable pub mask : PollBits → ℕ → ℕ
mask bits events =
    bit_or (if bit_and events pollin == 0 then 0 else bits.sys_in)
      (if bit_and events pollout == 0 then 0 else bits.sys_out)

module _ {S : Type 0} (calls : Calls S) (bits : PollBits) where
  -- `epoll_reactor__mod`, and `__mod__` with an event of the channel.
  unfoldable pub mod_events : S → ℕ → ℕ → ℕ → ℕ × S
  unfolding mask
  mod_events s fd ch events =
      returned s (calls.ctl_mod s fd (record { ch = ch; events = mask bits events }))

  -- The event is zero but for the channel.
  unfoldable pub added : Fcntl → S → ℕ → ℕ → ℕ → Option S → ℕ × S
  unfolding mod_events set_nonblocking
  added fcntl s fd ch events none = (1, s)
  added fcntl s fd ch events (some s') =
      if set_nonblocking fcntl fd true == 0
      then (if events == 0 then (0, s') else mod_events s' fd ch events)
      else (1, s')

  -- `epoll_reactor__add`
  unfoldable pub add : Fcntl → S → ℕ → ℕ → ℕ → ℕ × S
  unfolding added
  add fcntl s fd ch events =
      added fcntl s fd ch events (calls.ctl_add s fd (record { ch = ch; events = 0 }))

-- `epoll_reactor__del`
unfoldable pub del : {S : Type 0} → Calls S → S → ℕ → ℕ × S
del calls s fd = returned s (calls.ctl_del s fd)

module _ (bits : PollBits) (put : ℕ → Bool) where
  unfoldable pub code_of : ℕ → ℕ
  code_of e =
      if bit_and e bits.sys_in == 0
      then (if bit_and e bits.sys_out == 0
          then (if bit_and e bits.sys_err == 0
              then (if bit_and e bits.sys_hup == 0 then 0 else pollhup)
              else pollerr)
          else pollout)
      else pollin

  abbrev pub message_of : Event → Message
  message_of ev = record { ch = ev.ch; code = code_of ev.events }

  -- The loop over the events from `i` on; none is `exit(1)`, when the queue takes no message.
  unfoldable pub wait_from : ℕ → List Event → Option (List Message)
  unfolding code_of
  wait_from i [] = some []
  wait_from i (ev ∷ evs) =
      let rest = wait_from (i + 1) evs in
      if put i then elim rest [ none ↦ none | some ms ↦ some (message_of ev ∷ ms) ] else none

  abbrev pub waited : Option (List Event) → Option (List Message)
  waited none = some []
  waited (some evs) = wait_from 0 evs

  -- `epoll_reactor__wait`, with what epoll_wait answers for a maximum of events; none is -1.
  unfoldable pub wait : (ℕ → Option (List Event)) → Option (List Message)
  unfolding wait_from
  wait epoll_wait = waited (epoll_wait max_events)
