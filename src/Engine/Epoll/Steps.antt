-- ===== src/Engine/Epoll/Steps.antt =====
-- The same calls of the epoll reactor and of the poll reactor.
use esma.Base.{ℕ, ◌≡◌, ◌≢◌, refl, ap, sym, subst, ◌∙◌, true, Option, none, some, ne-beq}
use esma.Fd.{Fcntl, set_nonblocking}
use esma.Array.Items.{IsValid}
use esma.Engine.Reactor as Poll
use esma.Engine.Reactor.{PollFd, PollBits, Reactor, Result, value}
use esma.Engine.Reactor.Tracks.{Watches, Unwatched, add-Watches}
use esma.Engine.Reactor.Forgets.{del-forgets, mod_events-Watches}
use esma.Engine.Epoll.{Event, Calls, returned, mask, mod_events, added, add, del}
use esma.Engine.Epoll.Same.{
  Stores, Documented, event, some_eq, no_some, Same, Watches-eq, set-Same, drop-Same,
}

-- A call of a reactor's operations.
pub data Call : Type 0 where
  adds : (fd ch events : ℕ) → Call
  mods : (fd ch events : ℕ) → Call
  dels : (fd ch : ℕ) → Call

-- The call of the poll reactor, with what realloc gives.
unfoldable pub poll_call : PollBits → (ℕ → PollFd) → (ℕ → ℕ) → Reactor → Call → Result
poll_call bits junk junk' r (adds fd ch events) =
    Poll.add bits r fd ch events (some junk) (some junk')
poll_call bits junk junk' r (mods fd ch events) = Poll.mod_events bits r ch events
poll_call bits junk junk' r (dels fd ch) = Poll.del r ch

-- The call of the epoll reactor.
unfoldable pub epoll_call : {S : Type 0} → Calls S → PollBits → Fcntl → S → Call → ℕ × S
epoll_call calls bits fcntl s (adds fd ch events) = add calls bits fcntl s fd ch events
epoll_call calls bits fcntl s (mods fd ch events) = mod_events calls bits s fd ch events
epoll_call calls bits fcntl s (dels fd ch) = del calls s fd

-- What a caller keeps to: it adds a new descriptor that epoll accepts and a new channel, for some events, and changes
-- or deletes a descriptor and channel that it added.
abbrev pub Allowed : {S : Type 0} → (ℕ → Type 0) → (S → ℕ → Option Event) → S → Call → Type 0
Allowed Accepts watched s (adds fd ch events) =
    Accepts fd
    × (watched s fd ≡ none)
    × ((g e : ℕ) → watched s g ≢ some (event ch e))
    × (events ≢ 0)
Allowed Accepts watched s (mods fd ch events) = (e : ℕ) × (watched s fd ≡ some (event ch e))
Allowed Accepts watched s (dels fd ch) = (e : ℕ) × (watched s fd ≡ some (event ch e))

same_mask : (bits : PollBits) (events : ℕ) → Poll.mask bits events ≡ mask bits events
unfolding mask Poll.mask
same_mask bits events = refl

module _ {S : Type 0} (watched : S → ℕ → Option Event) (r : Reactor) (s : S)
    (same : Same watched r s) where
  Unwatched-there : (ch : ℕ) → ((g e : ℕ) → watched s g ≢ some (event ch e)) → Unwatched r ch
  Unwatched-there ch apart i h e =
      let p = r.event_list.item i in apart p.fd p.events (same.there ch p (i, h, e, refl))

  -- No other channel has the descriptor.
  alone :
      (fd ch e : ℕ)
      → watched s fd ≡ some (event ch e)
      → (c : ℕ) (p : PollFd) → c ≢ ch
      → Watches r c p
      → p.fd ≢ fd
  alone fd ch e at c p ne w q =
      ne (ap (λ (x : Event). x.ch) (some_eq (sym (same.there c p w) ∙ ap (watched s) q ∙ at)))

  -- The channel has no other descriptor.
  alone' :
      (fd ch e : ℕ)
      → watched s fd ≡ some (event ch e)
      → (g e' : ℕ) → g ≢ fd
      → watched s g ≢ some (event ch e')
  alone' fd ch e at g e' ne q =
      let (p, w, a, b) = same.back fd ch e at in
      let (p', w', a', b') = same.back g ch e' q in
      ne (sym a' ∙ ap (λ (x : PollFd). x.fd) (Watches-eq r ch p' p same.tracks w' w) ∙ a)

module _ {S : Type 0} (calls : Calls S) (kernel : Documented calls) (bits : PollBits) (r : Reactor)
    (s : S) (same : Same kernel.watched r s) where
  abbrev pub Agree : ℕ → Result → ℕ × S → Type 0
  Agree n result (n', s') =
      (r' : Reactor) × (result ≡ value n r') × (n' ≡ n) × Same kernel.watched r' s'

  mods-Same :
      (fd ch events e : ℕ)
      → kernel.watched s fd ≡ some (event ch e)
      → Agree 0 (Poll.mod_events bits r ch events) (mod_events calls bits s fd ch events)
  unfolding mod_events
  mods-Same fd ch events e at =
      let (p, w, a, b) = same.back fd ch e at in
      let (r', result, t, agree, w') = mod_events-Watches bits r ch events p same.tracks w in
      let (s', done, stores) = kernel.mods s fd (event ch e) (event ch (mask bits events)) at in
      subst (λ (o : Option S). Agree 0 (Poll.mod_events bits r ch events) (returned s o)) (sym done)
        (
          r',
          result,
          refl,
          set-Same kernel.watched r r' s s' ch fd same t agree
              (alone kernel.watched r s same fd ch e at) (alone' kernel.watched r s same fd ch e at)
              (record p { events = Poll.mask bits events }) (mask bits events) w' a
              (same_mask bits events) stores,
        )

  dels-Same :
      (fd ch e : ℕ)
      → kernel.watched s fd ≡ some (event ch e)
      → Agree 0 (Poll.del r ch) (del calls s fd)
  unfolding del
  dels-Same fd ch e at =
      let (p, w, a, b) = same.back fd ch e at in
      let (r', result, t, agree, un) = del-forgets r ch p same.tracks w in
      let (s', done, stores) = kernel.dels s fd (event ch e) at in
      subst (λ (o : Option S). Agree 0 (Poll.del r ch) (returned s o)) (sym done)
        (
          r',
          result,
          refl,
          drop-Same kernel.watched r r' s s' ch fd same t agree
              (alone kernel.watched r s same fd ch e at) (alone' kernel.watched r s same fd ch e at)
              un stores,
        )

  adds-Same :
      (fcntl : Fcntl) (can : (g : ℕ) → set_nonblocking fcntl g true ≡ 0) (junk : ℕ → PollFd)
      (junk' : ℕ → ℕ) (fd ch events : ℕ)
      → IsValid r.event_list
      → IsValid r.channels
      → kernel.Accepts fd
      → kernel.watched s fd ≡ none
      → ((g e : ℕ) → kernel.watched s g ≢ some (event ch e))
      → events ≢ 0
      → Agree 0
          (Poll.add bits r fd ch events (some junk) (some junk'))
          (add calls bits fcntl s fd ch events)
  unfolding add added mod_events
  adds-Same fcntl can junk junk' fd ch events v v' ok new new' some_events =
      let (r', result, t, agree, (p, w, a, b)) =
        add-Watches bits r fd ch events same.tracks junk junk' v v'
          (Unwatched-there kernel.watched r s same ch new') in
      let (s1, done, (at, others)) = kernel.adds s fd (event ch 0) ok new in
      let (s2, done', (at', others')) =
        kernel.mods s1 fd (event ch 0) (event ch (mask bits events)) at in
      let stores : Stores kernel.watched s s2 fd (some (event ch (mask bits events))) =
        (at', λ g ne. others' g ne ∙ others g ne) in
      let called : add calls bits fcntl s fd ch events ≡ (0, s2) =
        ap (added calls bits fcntl s fd ch events) done
        ∙ rw (can fd, ne-beq some_events) (ap (returned s1) done') in
      subst (Agree 0 (Poll.add bits r fd ch events (some junk) (some junk'))) (sym called) (
        r',
        result,
        refl,
        set-Same kernel.watched r r' s s2 ch fd same t agree
            (λ c q ne u x. no_some (sym new ∙ sym (ap (kernel.watched s) x) ∙ same.there c q u))
            (λ g e ne. new' g e) p (mask bits events) w a (b some_events ∙ same_mask bits events)
            stores,
      )

  -- A call that a caller may make, where descriptors can be made non-blocking, returns 0 in both, and they go on watching the same channels.
  pub call-Same :
      (fcntl : Fcntl) (can : (g : ℕ) → set_nonblocking fcntl g true ≡ 0) (junk : ℕ → PollFd)
      (junk' : ℕ → ℕ) (c : Call)
      → IsValid r.event_list
      → IsValid r.channels
      → Allowed kernel.Accepts kernel.watched s c
      → Agree 0 (poll_call bits junk junk' r c) (epoll_call calls bits fcntl s c)
  unfolding poll_call epoll_call
  call-Same fcntl can junk junk' (adds fd ch events) v v' (ok, new, new', some_events) =
      adds-Same fcntl can junk junk' fd ch events v v' ok new new' some_events
  call-Same fcntl can junk junk' (mods fd ch events) v v' (e, at) = mods-Same fd ch events e at
  call-Same fcntl can junk junk' (dels fd ch) v v' (e, at) = dels-Same fd ch e at
