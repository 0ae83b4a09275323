-- ===== src/Tests/Epoll.antt =====
-- engine/modules/esma_reactor_epoll.c: a set of descriptors beside the poll reactor.
use mathlib.Core.List.{Perm, Nodup-nil, Nodup-cons, not-mem-nil}
use mathlib.Core.List.Memᴰ.{head}
use mathlib.Core.List.Memᴰ as Mem
use esma.Base.{
  ℕ, zero, suc, ◌<◌, ◌≡◌, subst, length, ◌≢◌, refl, ap, ap₂, sym, ◌∙◌, true, Option, none, some,
  List, [], ◌∷◌, ◌==◌, eq-beq, ne-beq, if◌then◌else◌, Bool-cases, inl, inr, ==→eq, arith,
}
use esma.Fd.{Fcntl, set_nonblocking}
use esma.Engine.Reactor.{PollFd, zero_pollfd, Reactor, Message, value, ready}
use esma.Engine.Reactor as Poll
use esma.Engine.Reactor.Tracks.{Watches}
use esma.Engine.Reactor.Ready.{fired}
use esma.Engine.Epoll.{Event, Calls, mask, mod_events, added, add, del, wait}
use esma.Engine.Epoll.Same.{Stores, Documented, event, Same, some_eq, no_some}
use esma.Engine.Epoll.Steps.{Call, adds, dels, epoll_call}
use esma.Engine.Epoll.Runs.{Both, poll_calls, epoll_calls, count_adds, AllAllowed, run-Same}
use esma.Engine.Epoll.Waits.{Happened, Answers, wait-same}
use esma.Tests.Reactor.{bits, first, second, two, two-Tracks, happened, takes, zeros}

abbrev Set : Type 0
Set = ℕ → Option Event

abbrev change : Set → ℕ → Option Event → Set
change s fd ev g = if g == fd then ev else s g

abbrev if_new : Set → ℕ → Event → Option Event → Option Set
if_new s fd ev none = some (change s fd (some ev))
if_new s fd ev (some old) = none

abbrev if_old : Set → ℕ → Option Event → Option Event → Option Set
if_old s fd ev none = none
if_old s fd ev (some old) = some (change s fd ev)

abbrev sets : Calls Set
sets = record {
  ctl_add = λ s fd ev. if_new s fd ev (s fd);
  ctl_mod = λ s fd ev. if_old s fd (some ev) (s fd);
  ctl_del = λ s fd. if_old s fd none (s fd);
}

change-Stores :
    (s : Set) (fd : ℕ) (ev : Option Event) → Stores (λ s' g. s' g) s (change s fd ev) fd ev
change-Stores s fd ev = (rw (eq-beq {a = fd} {b = fd} refl) refl, λ g ne. rw (ne-beq ne) refl)

sets-Documented : Documented sets
sets-Documented = record {
  watched = λ s g. s g;
  Accepts = λ fd. fd < 1024;
  adds =
      λ s fd ev ok e. (change s fd (some ev), ap (if_new s fd ev) e, change-Stores s fd (some ev));
  mods = λ s fd old ev e.
      (change s fd (some ev), ap (if_old s fd (some ev)) e, change-Stores s fd (some ev));
  dels = λ s fd old e. (change s fd none, ap (if_old s fd none) e, change-Stores s fd none);
}

abbrev fcntl : Fcntl
fcntl = record {
  getfl = λ fd. some 2;
  setfl = λ fd flags. true;
  getfd = λ fd. some 0;
  setfd = λ fd flags. true;
  o_nonblock = 2048;
  fd_cloexec = 1;
}

abbrev nothing : Set
nothing g = none

abbrev three_calls : List Call
three_calls = adds 5 10 1 ∷ adds 6 20 2 ∷ dels 5 10 ∷ []

no_twenty :
    (g e : ℕ)
    → (if g == 5 then some (event 10 1) else (if g == 5 then some (event 10 0) else none))
      ≢ some (event 20 e)
no_twenty g e = elim (Bool-cases (g == 5)) [
  | inl h ↦ λ q. omega (arith, ap (λ (x : Event). x.ch) (some_eq (rw h at q)))
  | inr h ↦ λ q. cc (rw h at q)
]

three_calls-AllAllowed :
    AllAllowed sets bits fcntl (λ fd. fd < 1024) (λ s g. s g) three_calls nothing
unfolding set_nonblocking AllAllowed epoll_call add added mod_events mask del
three_calls-AllAllowed = (
  (omega arith, refl, (λ g e q. cc), λ q. omega (arith, q)),
  ((omega arith, refl, no_twenty, λ q. omega (arith, q)), ((1, refl), tt)),
)

abbrev fresh : Reactor
fresh = record {
  event_list = record { item = λ i. zero_pollfd; nitems = 0; capacity = 4 };
  channels = record { item = λ i. 0; nitems = 0; capacity = 4 };
  index = λ c. none;
}

fresh_start : Poll.start (λ c. none) 4 true true ≡ some fresh
unfolding Poll.start
fresh_start = refl

run-Same_example :
    Both
      (λ (s : Set) g. s g)
      (poll_calls bits zeros (λ i. 0) three_calls fresh)
      (epoll_calls sets bits fcntl three_calls nothing)
unfolding count_adds sets-Documented set_nonblocking
run-Same_example =
    run-Same sets sets-Documented bits zeros (λ i. 0) fcntl (λ fd. refl) (λ c. none) 4 three_calls
      fresh nothing fresh_start (λ fd. refl) (omega arith) (omega arith) (omega arith)
      three_calls-AllAllowed

-- The set of the reactor with two channels.
abbrev pair : Set
pair g = if g == 5 then some (event 10 1) else (if g == 6 then some (event 20 4) else none)

pair_back :
    (fd c e : ℕ)
    → pair fd ≡ some (event c e)
    → (p : PollFd) × Watches two c p × (p.fd ≡ fd) × (p.events ≡ e)
pair_back fd c e h = elim (Bool-cases (fd == 5)) [
  | inl q ↦
      let found : event 10 1 ≡ event c e = some_eq (rw q at h) in
      (
        first,
        (0, omega arith, ap (λ (x : Event). x.ch) found, refl),
        sym (==→eq q),
        ap (λ (x : Event). x.events) found,
      )
  | inr q ↦ elim (Bool-cases (fd == 6)) [
    | inl q' ↦
        let found : event 20 4 ≡ event c e = some_eq (rw (q, q') at h) in
        (
          second,
          (1, omega arith, ap (λ (x : Event). x.ch) found, refl),
          sym (==→eq q'),
          ap (λ (x : Event). x.events) found,
        )
    | inr q' ↦ absurd (no_some (rw (q, q') at h))
  ]
]

pair_there : (c : ℕ) (p : PollFd) → Watches two c p → pair p.fd ≡ some (event c p.events)
pair_there c p (zero, h, e, e') =
    ap (λ (x : PollFd). pair x.fd) (sym e')
    ∙ ap₂ (λ x y. some (event x y)) e (ap (λ (x : PollFd). x.events) e')
pair_there c p (suc zero, h, e, e') =
    ap (λ (x : PollFd). pair x.fd) (sym e')
    ∙ ap₂ (λ x y. some (event x y)) e (ap (λ (x : PollFd). x.events) e')
pair_there c p (suc (suc i), h, e, e') = absurd (omega (arith, h))

two-Same : Same (λ (s : Set) g. s g) two pair
two-Same = record { tracks = two-Tracks; there = pair_there; back = pair_back }

-- Something happens with descriptor 6.
abbrev happens : ℕ → ℕ → ℕ
happens fd e = if fd == 6 then 5 else 0

two_asked :
    (j : ℕ) → j < 2 → happened j ≡ happens (two.event_list.item j).fd (two.event_list.item j).events
two_asked zero h = refl
two_asked (suc zero) h = refl
two_asked (suc (suc j)) h = absurd (omega (arith, h))

-- epoll_wait answers with the event of descriptor 6.
abbrev answer : ℕ → Option (List Event)
answer max = some (event 20 5 ∷ [])

-- Only descriptor 6 is ready.
only_six : (fd : ℕ) → Happened (λ (s : Set) g. s g) happens pair fd → fd ≡ 6
only_six fd (c, e, at, ne) = elim (Bool-cases (fd == 6)) [
  | inl q ↦ ==→eq q
  | inr q ↦ absurd (ne (rw q refl))
]

six : Happened (λ (s : Set) g. s g) happens pair 6
six = (20, 4, refl, λ z. omega (arith, z))

two-Answers : Answers (λ (s : Set) g. s g) happens pair answer 32
two-Answers = record {
  fds = 6 ∷ [];
  told = refl;
  once = Nodup-cons.1 (not-mem-nil, Nodup-nil);
  few = omega arith;
  only =
      λ fd m. subst (Happened (λ (s : Set) g. s g) happens pair) (sym (Mem.eq_of_singleton m)) six;
  all = λ fds covers few fd h. head (only_six fd h);
}

wait-same_example :
    (ms : List Message) × (ms' : List Message) × (Poll.wait bits happened takes two
        (ready (length (fired bits happened takes two 2 0)))
      ≡ some ms)
    × (wait bits takes answer ≡ some ms')
    × Perm ms ms'
unfolding fired
wait-same_example =
    wait-same (λ (s : Set) g. s g) happens bits takes happened two pair two-Same two_asked refl
      answer two-Answers (λ j. refl) (omega arith)
