-- ===== src/Engine/Reactor.antt =====
-- engine/modules/esma_reactor_poll.c. A channel is a number, and `index` what is stored in it (none is
-- -1); an array of pollfd and one of channels run side by side. The bits of poll are a parameter.
pub mod Tracks
pub mod Forgets
pub mod Ready
use esma.Base.{
  ℕ, zero, suc, ◌+◌, ◌-◌, ◌^◌, bit_and, bit_or, Bool, true, false, ◌&&◌, ◌||◌, Option, none, some,
  List, [], ◌∷◌, ltb, ◌==◌, if◌then◌else◌,
}
use esma.Array.{Array, Slot, null, outside, slot, init, nth, push, put_at, pop}
use esma.Engine.Types.{pollin, pollout, pollhup, pollerr}

-- `struct pollfd`; a descriptor is a 32-bit word.
pub record PollFd : Type 0 where
  pub fd : ℕ
  pub events : ℕ
  pub revents : ℕ

abbrev pub zero_pollfd : PollFd
zero_pollfd = record { fd = 0; events = 0; revents = 0 }

-- POLLIN, POLLOUT, POLLERR and POLLHUP of poll.h
pub record PollBits : Type 0 where
  pub sys_in : ℕ
  pub sys_out : ℕ
  pub sys_err : ℕ
  pub sys_hup : ℕ

pub record Reactor : Type 0 where
  pub event_list : Array PollFd
  pub channels : Array ℕ
  pub index : ℕ → Option ℕ

-- What a call comes to: its value and the reactor, or a write through NULL or outside an array.
pub data Result : Type 0 where
  value : ℕ → Reactor → Result
  fault : Result

-- `poll_reactor__init`; `index` is what the channels hold.
unfoldable pub start : (ℕ → Option ℕ) → ℕ → Bool → Bool → Option Reactor
start index nevents true true = some (record {
  event_list = record { item = λ i. zero_pollfd; nitems = 0; capacity = nevents };
  channels = record { item = λ i. 0; nitems = 0; capacity = nevents };
  index = index;
})
start index nevents true false = none
start index nevents false memory = none

abbrev pub set_index : (ℕ → Option ℕ) → ℕ → Option ℕ → ℕ → Option ℕ
set_index index ch k c = if ch == c then k else index c

module _ (bits : PollBits) where
  -- `__mod__`
  unfoldable pub mask : ℕ → ℕ
  mask events =
      bit_or (if bit_and events pollin == 0 then 0 else bits.sys_in)
        (if bit_and events pollout == 0 then 0 else bits.sys_out)

  -- What the cell of an added channel holds: with no events it keeps those that it had.
  unfoldable pub watch : PollFd → ℕ → ℕ → PollFd
  unfolding mask
  watch old fd events = record old {
    fd = fd;
    events = if events == 0 then old.events else mask events;
  }

  unfoldable pub add_at : Reactor → ℕ → ℕ → ℕ → Slot PollFd → Slot ℕ → Result
  unfolding watch
  add_at r fd ch events (slot i es) (slot j cs) = value 0 (record {
    event_list = put_at es i (watch (es.item i) fd events);
    channels = put_at cs j ch;
    index = set_index r.index ch (some (es.nitems - 1));
  })
  add_at r fd ch events (slot i es) null = fault
  add_at r fd ch events (slot i es) outside = fault
  add_at r fd ch events null cs = fault
  add_at r fd ch events outside cs = fault

  -- `poll_reactor__add`, with what realloc gives to each of the two arrays.
  unfoldable pub add : Reactor → ℕ → ℕ → ℕ → Option (ℕ → PollFd) → Option (ℕ → ℕ) → Result
  unfolding add_at
  add r fd ch events block block' =
      add_at r fd ch events (push r.event_list block) (push r.channels block')

  unfoldable pub mod_at : Reactor → ℕ → ℕ → Option PollFd → Result
  unfolding mask
  mod_at r k events none = fault
  mod_at r k events (some old) =
      value 0
        (record r { event_list = put_at r.event_list k (record old { events = mask events }) })

  unfoldable pub mod_from : Reactor → Option ℕ → ℕ → Result
  unfolding mod_at
  mod_from r none events = value 1 r
  mod_from r (some k) events = mod_at r k events (nth r.event_list k)

  -- `poll_reactor__mod`
  unfoldable pub mod_events : Reactor → ℕ → ℕ → Result
  unfolding mod_from
  mod_events r ch events = mod_from r (r.index ch) events

-- The last pair moves to where the channel was. An empty list leaves the pair unset.
unfoldable pub del_at : Reactor → ℕ → ℕ → Option PollFd × Array PollFd → Option ℕ × Array ℕ → Result
del_at r ch k (some ev, es) (some last, cs) =
    if ltb k es.capacity && ltb k cs.capacity
    then value 0 (record {
      event_list = put_at es k ev;
      channels = put_at cs k last;
      index = set_index (set_index r.index last (some k)) ch none;
    })
    else fault
del_at r ch k (some ev, es) (none, cs) = fault
del_at r ch k (none, es) cs = fault

unfoldable pub del_from : Reactor → ℕ → Option ℕ → Result
unfolding del_at
del_from r ch none = value 1 r
del_from r ch (some k) = del_at r ch k (pop zero_pollfd r.event_list) (pop 0 r.channels)

-- `poll_reactor__del`
unfoldable pub del : Reactor → ℕ → Result
unfolding del_from
del r ch = del_from r ch (r.index ch)

-- What `poll` answers.
pub data Answer : Type 0 where
  interrupted : Answer
  broken : Answer
  ready : ℕ → Answer

-- A message of the reactor: the channel and the code.
pub record Message : Type 0 where
  pub ch : ℕ
  pub code : ℕ

module _ (bits : PollBits) (revents : ℕ → ℕ) (put : ℕ → Bool) where
  unfoldable pub code_of : ℕ → ℕ
  code_of e =
      if bit_and e bits.sys_in == 0
      then (if bit_and e bits.sys_out == 0
          then (if bit_and e bits.sys_err == 0
              then (if bit_and e bits.sys_hup == 0 then 0 else pollhup)
              else pollerr)
          else pollout)
      else pollin

  abbrev pub idle_at : Reactor → ℕ → Bool
  idle_at r i = ((r.event_list.item i).fd == 2 ^ 32 - 1) || (revents i == 0)

  abbrev pub message_at : Reactor → ℕ → Message
  message_at r i = record { ch = r.channels.item i; code = code_of (revents i) }

  abbrev pub also : Message → Option (List Message) → Option (List Message)
  also m none = none
  also m (some ms) = some (m ∷ ms)

  -- The loop, `n` rounds from `i` on; none is `exit(1)`.
  unfoldable pub wait_from : Reactor → ℕ → ℕ → ℕ → Option (List Message)
  unfolding code_of
  wait_from r zero i left = some []
  wait_from r (suc n) i zero = some []
  wait_from r (suc n) i (suc left) =
      let rest = wait_from r n (i + 1) (suc left) in
      let next = wait_from r n (i + 1) left in
      if idle_at r i then rest else if put i then also (message_at r i) next else none

  -- `poll_reactor__wait`: `revents` is what poll stores, and `put` whether the queue takes a message.
  unfoldable pub wait : Reactor → Answer → Option (List Message)
  unfolding wait_from
  wait r interrupted = some []
  wait r broken = none
  wait r (ready n) = wait_from r r.event_list.nitems 0 n
