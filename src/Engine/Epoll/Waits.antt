-- ===== src/Engine/Epoll/Waits.antt =====
-- The messages that the two reactors send.
use mathlib.Core.List.{Memᴰ, Perm, Nodup, map-map, perm_ext_iff_of_Nodup}
use mathlib.Core.List.Perm as Perm
use mathlib.Core.Logic.{∥∥₁_map}
use mathlib.Core.List.Memᴰ as Mem
use esma.Base.{
  ℕ, ◌+◌, ◌-◌, ◌^◌, ◌<◌, ◌≤◌, ◌≡◌, ◌≢◌, refl, ap, ap₂, sym, subst, ◌∙◌, Bool, true, Option, none,
  some, List, [], ◌∷◌, map, length, length-map, arith,
}
use esma.Engine.Reactor as Poll
use esma.Engine.Reactor.{PollFd, PollBits, Reactor, Message, ready, idle_at, message_at}
use esma.Engine.Reactor.Tracks.{place-eq}
use esma.Engine.Reactor.Ready.{fired, wait-fired}
use esma.Engine.Epoll.{Event, code_of, message_of, wait_from, wait, waited, max_events}
use esma.Engine.Epoll.Same.{event, no_some, some_eq, Same}
use esma.Engine.Epoll.Places.{
  Memᴰ-fired, fired-busy, busy-revents, busy_at, Nodup-fired, count-length, Nodup-map, map-ext,
}

-- Something happens with a descriptor of the set.
abbrev pub Happened : {S : Type 0} → (S → ℕ → Option Event) → (ℕ → ℕ → ℕ) → S → ℕ → Type 0
Happened watched happens s fd =
    (c : ℕ) × (e : ℕ) × (watched s fd ≡ some (event c e)) × (happens fd e ≢ 0)

-- The event that tells it, with the descriptor's channel.
abbrev pub event_told : (ℕ → ℕ → ℕ) → ℕ → Option Event → Event
event_told happens fd none = event 0 0
event_told happens fd (some ev) = event ev.ch (happens fd ev.events)

-- What epoll_wait is documented to answer for a maximum: an event for each of some descriptors with which
-- something happens, none of them twice and not more than the maximum; for all of them, if they
-- are not more than the maximum.
pub record Answers {S : Type 0} (watched : S → ℕ → Option Event) (happens : ℕ → ℕ → ℕ) (s : S)
    (epoll_wait : ℕ → Option (List Event)) (max : ℕ) : Type 0 where
  pub fds : List ℕ
  pub told : epoll_wait max ≡ some (map (λ fd. event_told happens fd (watched s fd)) fds)
  pub once : Nodup fds
  pub few : length fds ≤ max
  pub only : (fd : ℕ) → Memᴰ fd fds → Happened watched happens s fd
  pub all :
      (ready_fds : List ℕ)
      → ((fd : ℕ) → Happened watched happens s fd → Memᴰ fd ready_fds)
      → length ready_fds ≤ max
      → (fd : ℕ) → Happened watched happens s fd
      → Memᴰ fd fds

wait_from-all :
    (bits : PollBits) (put : ℕ → Bool) (evs : List Event) (i : ℕ)
    → ((j : ℕ) → put j ≡ true)
    → wait_from bits put i evs ≡ some (map (message_of bits put) evs)
unfolding wait_from
wait_from-all bits put [] i p = refl
wait_from-all bits put (ev ∷ evs) i p =
    rw (wait_from, p i, wait_from-all bits put evs (i + 1) p) refl

module _ {S : Type 0} (watched : S → ℕ → Option Event) (happens : ℕ → ℕ → ℕ) (bits : PollBits)
    (put : ℕ → Bool) (revents : ℕ → ℕ) (r : Reactor) (s : S) where
  abbrev places : List ℕ
  places = fired bits revents put r r.event_list.nitems 0

  abbrev fd_of : ℕ → ℕ
  fd_of j = (r.event_list.item j).fd

  abbrev message_for : ℕ → Message
  message_for fd = message_of bits put (event_told happens fd (watched s fd))

  module _ (same : Same watched r s)
      (asked : (j : ℕ)
        → j < r.event_list.nitems
        → revents j ≡ happens (r.event_list.item j).fd (r.event_list.item j).events) where
    at_place :
        (j : ℕ)
        → j < r.event_list.nitems
        → watched s (fd_of j) ≡ some (event (r.channels.item j) (r.event_list.item j).events)
    at_place j l = same.there (r.channels.item j) (r.event_list.item j) (j, l, refl, refl)

    in_range : (j : ℕ) → Memᴰ j places → j < r.event_list.nitems
    in_range j m =
        let (high, busy) = fired-busy bits revents put r r.event_list.nitems 0 j m in
        omega (arith, high)

    -- Place `j` of the poll reactor sends what its event of the epoll reactor sends.
    message_at-for :
        (j : ℕ) → Memᴰ j places → message_at bits revents put r j ≡ message_for (fd_of j)
    unfolding code_of Poll.code_of
    message_at-for j m =
        let l = in_range j m in
        ap (λ (x : ℕ). message_of bits put (event (r.channels.item j) x)) (asked j l)
        ∙ ap (λ (o : Option Event). message_of bits put (event_told happens (fd_of j) o))
            (sym (at_place j l))

    apart_fds : (i j : ℕ) → Memᴰ i places → Memᴰ j places → fd_of i ≡ fd_of j → i ≡ j
    apart_fds i j mi mj e =
        let li = in_range i mi in
        let lj = in_range j mj in
        place-eq r i j same.tracks li lj (
          ap (λ (x : Event). x.ch)
            (some_eq (sym (at_place i li) ∙ ap (watched s) e ∙ at_place j lj)))

    fired-Happened : (fd : ℕ) → Memᴰ fd (map fd_of places) → Happened watched happens s fd
    fired-Happened fd m =
        let (j, mem, e) = Mem.of_map fd_of places m in
        let (high, busy) = fired-busy bits revents put r r.event_list.nitems 0 j mem in
        let l = in_range j mem in
        let here : Happened watched happens s (fd_of j) = (
          r.channels.item j,
          (r.event_list.item j).events,
          at_place j l,
          λ z. busy-revents bits revents put r j busy (asked j l ∙ z),
        ) in
        subst (Happened watched happens s) e here

    module _ (negative : watched s (2 ^ 32 - 1) ≡ none) where
      Happened-fired : (fd : ℕ) → Happened watched happens s fd → Memᴰ fd (map fd_of places)
      Happened-fired fd (c, e, at, ne) =
          let (p, (i, l, here, there), p_fd, p_events) = same.back fd c e at in
          let item_fd : fd_of i ≡ fd = ap (λ (x : PollFd). x.fd) there ∙ p_fd in
          let happened : revents i ≡ happens fd e =
            asked i l ∙ ap₂ happens item_fd (ap (λ (x : PollFd). x.events) there ∙ p_events) in
          let busy =
            busy_at bits revents put r i
              (λ x. no_some (sym negative ∙ ap (watched s) (sym x ∙ item_fd) ∙ at))
              (λ z. ne (sym happened ∙ z)) in
          subst (λ (x : ℕ). Memᴰ x (map fd_of places)) item_fd
            (Mem.map fd_of (
              Memᴰ-fired bits revents put r r.event_list.nitems 0 i (omega arith) (omega (arith, l))
                busy))

      module _ (epoll_wait : ℕ → Option (List Event))
          (answers : Answers watched happens s epoll_wait max_events) where
        Perm-fds : length places ≤ max_events → Perm (map fd_of places) answers.fds
        Perm-fds few =
            (perm_ext_iff_of_Nodup
                (Nodup-map fd_of places apart_fds
                  (Nodup-fired bits revents put r r.event_list.nitems 0))
                answers.once).1
              (λ fd. (
                (λ m. ∥∥₁_map m (λ d.
                    answers.all (map fd_of places) Happened-fired
                      (subst (λ (n : ℕ). n ≤ max_events) (sym (length-map fd_of places)) few) fd
                      (fired-Happened fd d))),
                (λ m. ∥∥₁_map m (λ d. Happened-fired fd (answers.only fd d))),
              ))

        -- If the poll and the epoll reactor watch the same channels, none by the descriptor -1, poll
        -- and epoll_wait answer with what happens to these descriptors, it happens to not more than
        -- MAX_EVENTS of them, and the queue takes all messages: a wait of either sends the same
        -- messages, each as often, up to their order.
        pub wait-same :
            ((j : ℕ) → put j ≡ true)
            → length (fired bits revents put r r.event_list.nitems 0) ≤ max_events
            → (ms : List Message) × (ms' : List Message) × (Poll.wait bits revents put r
                  (ready (length (fired bits revents put r r.event_list.nitems 0)))
                ≡ some ms)
              × (wait bits put epoll_wait ≡ some ms')
              × Perm ms ms'
        unfolding wait
        wait-same takes few = (
          map (message_at bits revents put r) places,
          map (message_of bits put) (map (λ fd. event_told happens fd (watched s fd)) answers.fds),
          ap (λ n. Poll.wait bits revents put r (ready n))
                (sym (count-length bits revents put places))
              ∙ wait-fired bits revents put r takes,
          ap (waited bits put) answers.told
              ∙ wait_from-all bits put
                  (map (λ fd. event_told happens fd (watched s fd)) answers.fds) 0 takes,
          subst
              (λ ms. Perm ms (
                map (message_of bits put)
                  (map (λ fd. event_told happens fd (watched s fd)) answers.fds)))
              (map-map message_for fd_of places
                ∙ sym (
                    map-ext (message_at bits revents put r) (λ j. message_for (fd_of j)) places
                      message_at-for))
              (subst (Perm (map message_for (map fd_of places)))
                (sym (
                  map-map (message_of bits put) (λ fd. event_told happens fd (watched s fd))
                    answers.fds))
                (Perm.map message_for (Perm-fds few))),
        )
