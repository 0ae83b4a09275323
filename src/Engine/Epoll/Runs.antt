-- ===== src/Engine/Epoll/Runs.antt =====
-- Rows of calls of the two reactors, as long as the arrays of the poll reactor have room for the adds.
use esma.Base.{
  ℕ, zero, suc, ◌+◌, ◌^◌, ◌<◌, ◌≤◌, ◌≡◌, refl, ap, sym, subst, ◌∙◌, true, Option, none, some, List,
  [], ◌∷◌, arith,
}
use esma.Fd.{Fcntl, set_nonblocking}
use esma.Array.{nth}
use esma.Array.Items.{IsValid}
use esma.Engine.Reactor as Poll
use esma.Engine.Reactor.{
  PollFd, zero_pollfd, PollBits, Reactor, Result, value, fault, watch, set_index, add_at, mod_at,
  mod_from,
}
use esma.Engine.Reactor.Tracks.{Tracks}
use esma.Engine.Reactor.Forgets.{del-removed}
use esma.Engine.Reactor.Ready.{push-fits}
use esma.Engine.Epoll.{Event, Calls}
use esma.Engine.Epoll.Same.{Documented, no_some, some_eq, Same}
use esma.Engine.Epoll.Steps.{Call, adds, mods, dels, poll_call, epoll_call, Allowed, call-Same}

-- The arrays have room for `n` more channels.
pub record Fits (n : ℕ) (r : Reactor) : Type 0 where
  pub room : r.event_list.nitems + n ≤ r.event_list.capacity
  pub room' : r.channels.nitems + n ≤ r.channels.capacity
  pub pos : 0 < r.event_list.capacity
  pub pos' : 0 < r.channels.capacity
  pub small : r.event_list.capacity < 2 ^ 31
  pub small' : r.channels.capacity < 2 ^ 31

Fits-IsValid : (n : ℕ) (r : Reactor) → Fits n r → IsValid r.event_list × IsValid r.channels
Fits-IsValid n r f = (
  record { count = omega (arith, f.room); pos = f.pos; small = f.small },
  record { count = omega (arith, f.room'); pos = f.pos'; small = f.small' },
)

abbrev FitsIn : ℕ → Result → Type 0
FitsIn n (value k r) = Fits n r
FitsIn n fault = Unit

module _ (bits : PollBits) (r : Reactor) (n : ℕ) where
  adds-Fits :
      (fd ch events : ℕ) (junk : Option (ℕ → PollFd)) (junk' : Option (ℕ → ℕ))
      → Fits (suc n) r
      → FitsIn n (Poll.add bits r fd ch events junk junk')
  unfolding Poll.add add_at
  adds-Fits fd ch events junk junk' f =
      rw
        (
          Poll.add,
          push-fits r.event_list junk (omega (arith, f.room)),
          push-fits r.channels junk' (omega (arith, f.room')),
        )
        (record {
          room = omega (arith, f.room, f.small);
          room' = omega (arith, f.room', f.small');
          pos = f.pos;
          pos' = f.pos';
          small = f.small;
          small' = f.small';
        })

  mod_at-Fits :
      (k events : ℕ) (old : Option PollFd) → Fits n r → FitsIn n (mod_at bits r k events old)
  unfolding mod_at
  mod_at-Fits k events none f = tt
  mod_at-Fits k events (some old) f = record {
    room = f.room;
    room' = f.room';
    pos = f.pos;
    pos' = f.pos';
    small = f.small;
    small' = f.small';
  }

  mod_from-Fits : (k : Option ℕ) (events : ℕ) → Fits n r → FitsIn n (mod_from bits r k events)
  unfolding mod_from
  mod_from-Fits none events f = f
  mod_from-Fits (some k) events f = mod_at-Fits k events (nth r.event_list k) f

  dels-Fits :
      (ch k : ℕ)
      → Tracks r
      → k < r.event_list.nitems
      → r.channels.item k ≡ ch
      → Fits n r
      → FitsIn n (Poll.del r ch)
  dels-Fits ch k t h here f = subst (FitsIn n) (sym (del-removed r ch k t h here)) (record {
    room = omega (arith, f.room);
    room' = omega (arith, f.room');
    pos = f.pos;
    pos' = f.pos';
    small = f.small;
    small' = f.small';
  })

abbrev empty : (ℕ → Option ℕ) → ℕ → Reactor
empty index nevents = record {
  event_list = record { item = λ i. zero_pollfd; nitems = 0; capacity = nevents };
  channels = record { item = λ i. 0; nitems = 0; capacity = nevents };
  index = index;
}

-- How many channels a row of calls adds.
unfoldable pub count_adds : List Call → ℕ
count_adds [] = 0
count_adds (adds fd ch events ∷ cs) = suc (count_adds cs)
count_adds (mods fd ch events ∷ cs) = count_adds cs
count_adds (dels fd ch ∷ cs) = count_adds cs

-- A row of calls of the poll reactor, up to the first that does not return 0.
abbrev pub then_poll : (Reactor → Result) → Result → Result
then_poll rest (value zero r) = rest r
then_poll rest (value (suc n) r) = value (suc n) r
then_poll rest fault = fault

unfoldable pub poll_calls : PollBits → (ℕ → PollFd) → (ℕ → ℕ) → List Call → Reactor → Result
unfolding poll_call
poll_calls bits junk junk' [] r = value 0 r
poll_calls bits junk junk' (c ∷ cs) r =
    then_poll (poll_calls bits junk junk' cs) (poll_call bits junk junk' r c)

-- The same row of the epoll reactor.
abbrev pub then_epoll : {S : Type 0} → (S → ℕ × S) → ℕ × S → ℕ × S
then_epoll rest (zero, s) = rest s
then_epoll rest (suc n, s) = (suc n, s)

unfoldable pub epoll_calls : {S : Type 0} → Calls S → PollBits → Fcntl → List Call → S → ℕ × S
unfolding epoll_call
epoll_calls calls bits fcntl [] s = (0, s)
epoll_calls calls bits fcntl (c ∷ cs) s =
    then_epoll (epoll_calls calls bits fcntl cs) (epoll_call calls bits fcntl s c)

-- Each call of the row is allowed where it is made.
unfoldable pub AllAllowed :
    {S : Type 0}
    → Calls S
    → PollBits
    → Fcntl
    → (ℕ → Type 0)
    → (S → ℕ → Option Event)
    → List Call
    → S
    → Type 0
unfolding epoll_call
AllAllowed calls bits fcntl Accepts watched [] s = Unit
AllAllowed calls bits fcntl Accepts watched (c ∷ cs) s =
    Allowed Accepts watched s c
    × AllAllowed calls bits fcntl Accepts watched cs ((epoll_call calls bits fcntl s c).1)

-- Both return 0, and watch the same channels.
abbrev pub Both : {S : Type 0} → (S → ℕ → Option Event) → Result → ℕ × S → Type 0
Both watched result q = (r : Reactor) × (result ≡ value 0 r) × (q.0 ≡ 0) × Same watched r q.1

module _ {S : Type 0} (calls : Calls S) (kernel : Documented calls) (bits : PollBits)
    (junk : ℕ → PollFd) (junk' : ℕ → ℕ) (fcntl : Fcntl)
    (can : (fd : ℕ) → set_nonblocking fcntl fd true ≡ 0) where
  call-Fits :
      (r : Reactor) (s : S) (c : Call) (cs : List Call)
      → Same kernel.watched r s
      → Allowed kernel.Accepts kernel.watched s c
      → Fits (count_adds (c ∷ cs)) r
      → FitsIn (count_adds cs) (poll_call bits junk junk' r c)
  unfolding poll_call count_adds Poll.mod_events
  call-Fits r s (adds fd ch events) cs same a f =
      adds-Fits bits r (count_adds cs) fd ch events (some junk) (some junk') f
  call-Fits r s (mods fd ch events) cs same a f =
      mod_from-Fits bits r (count_adds cs) (r.index ch) events f
  call-Fits r s (dels fd ch) cs same (e, at) f =
      let (p, (k, h, here, ev), p_fd, p_events) = same.back fd ch e at in
      dels-Fits bits r (count_adds cs) ch k same.tracks h here f

  epoll_first :
      (cs : List Call) (q : ℕ × S)
      → q.0 ≡ 0
      → then_epoll (epoll_calls calls bits fcntl cs) q ≡ epoll_calls calls bits fcntl cs q.1
  epoll_first cs (zero, s) e = refl
  epoll_first cs (suc n, s) e = absurd (omega (arith, e))

  calls-Same :
      (cs : List Call) (r : Reactor) (s : S)
      → Same kernel.watched r s
      → Fits (count_adds cs) r
      → AllAllowed calls bits fcntl kernel.Accepts kernel.watched cs s
      → Both kernel.watched (poll_calls bits junk junk' cs r) (epoll_calls calls bits fcntl cs s)
  unfolding poll_calls epoll_calls AllAllowed
  calls-Same [] r s both f a = (r, refl, refl, both)
  calls-Same (c ∷ cs) r s both f (a, as') =
      let (v, v') = Fits-IsValid (count_adds (c ∷ cs)) r f in
      let (r', result, done, both') =
        call-Same calls kernel bits r s both fcntl can junk junk' c v v' a in
      let f' : Fits (count_adds cs) r' =
        subst (FitsIn (count_adds cs)) result (call-Fits r s c cs both a f) in
      let q = epoll_call calls bits fcntl s c in
      let (r2, result2, done2, both2) = calls-Same cs r' (q.1) both' f' as' in
      (
        r2,
        ap (then_poll (poll_calls bits junk junk' cs)) result ∙ result2,
        ap (λ (x : ℕ × S). x.0) (epoll_first cs q done) ∙ done2,
        subst (λ (x : ℕ × S). Same kernel.watched r2 x.1) (sym (epoll_first cs q done)) both2,
      )

  -- If epoll_ctl does what is documented: two reactors that were just initialised, the poll reactor for
  -- `nevents` events (more than 0 and less than 2^31) and the epoll reactor with an empty set,
  -- return 0 from every call of a row that adds not more than nevents channels, each for some
  -- events and each new with a new descriptor that epoll accepts, and changes and deletes only what was added, where
  -- the epoll reactor can make the descriptors non-blocking; and they then watch the same
  -- channels, by the same descriptors and for the same events.
  pub run-Same :
      (index : ℕ → Option ℕ) (nevents : ℕ) (cs : List Call) (r : Reactor) (s : S)
      → Poll.start index nevents true true ≡ some r
      → ((fd : ℕ) → kernel.watched s fd ≡ none)
      → 0 < nevents
      → nevents < 2 ^ 31
      → count_adds cs ≤ nevents
      → AllAllowed calls bits fcntl kernel.Accepts kernel.watched cs s
      → Both kernel.watched (poll_calls bits junk junk' cs r) (epoll_calls calls bits fcntl cs s)
  unfolding Poll.start
  run-Same index nevents cs r s made clear pos small few a =
      subst
        (λ (x : Reactor).
          Both kernel.watched (poll_calls bits junk junk' cs x) (epoll_calls calls bits fcntl cs s))
        (some_eq made)
        (calls-Same cs (empty index nevents) s
          (record {
            tracks = record {
              same = refl;
              room = omega arith;
              room' = omega arith;
              back = λ i h. absurd (omega (arith, h));
            };
            there = λ c p (i, h, w, w'). absurd (omega (arith, h));
            back = λ fd c e at. absurd (no_some (sym (clear fd) ∙ at));
          })
          (record {
            room = omega (arith, few);
            room' = omega (arith, few);
            pos = pos;
            pos' = pos;
            small = small;
            small' = small;
          })
          a)
