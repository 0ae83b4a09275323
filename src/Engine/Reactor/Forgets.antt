-- ===== src/Engine/Reactor/Forgets.antt =====
-- `poll_reactor__del` and `poll_reactor__mod` of a channel that is watched.
use native.Mathlib.Decide.{ℕ_discrete}
use esma.Base.{
  ℕ, ◌-◌, ◌<◌, ◌≡◌, ◌≢◌, refl, ap, sym, subst, ◌∙◌, true, Option, none, some, ltb, lt→ltb, ne-beq,
  arith,
}
use esma.Array.{Array, nth, put_at, pop}
use esma.Engine.Reactor.{
  PollFd, zero_pollfd, PollBits, Reactor, value, set_index, mask, del_at, del_from, del, mod_at,
  mod_from, mod_events,
}
use esma.Engine.Reactor.Tracks.{
  Tracks, Watches, Unwatched, AgreeBut, place-eq, put_at_self, put_at_other, set_index_self,
  set_index_other,
}

abbrev popped : {A : Type 0} → A → Array A → Array A
popped zeroed a = record (put_at a (a.nitems - 1) zeroed) { nitems = a.nitems - 1 }

-- What a delete leaves of the channel in place `k`.
abbrev pub removed : Reactor → ℕ → ℕ → Reactor
removed r ch k = record {
  event_list =
      put_at (popped zero_pollfd r.event_list) k (r.event_list.item (r.event_list.nitems - 1));
  channels = put_at (popped 0 r.channels) k (r.channels.item (r.channels.nitems - 1));
  index = set_index (set_index r.index (r.channels.item (r.channels.nitems - 1)) (some k)) ch none;
}

popped-some :
    {A : Type 0} (zeroed : A) (a : Array A)
    → 0 < a.nitems
    → pop zeroed a ≡ (some (a.item (a.nitems - 1)), popped zeroed a)
unfolding pop
popped-some zeroed a h = rw (ne-beq {a = a.nitems} {b = 0} (omega arith)) refl

module _ (r : Reactor) (ch k : ℕ) (t : Tracks r) (h : k < r.event_list.nitems)
    (here : r.channels.item k ≡ ch) where
  pub del-removed : del r ch ≡ value 0 (removed r ch k)
  unfolding del del_from del_at
  del-removed =
      let index : r.index ch ≡ some k = ap r.index (sym here) ∙ t.back k h in
      let fits : ltb k r.event_list.capacity ≡ true =
        lt→ltb k r.event_list.capacity (omega (arith, t.room)) in
      let fits' : ltb k r.channels.capacity ≡ true =
        lt→ltb k r.channels.capacity (omega (arith, t.room', t.same)) in
      ap (del_from r ch) index
      ∙ ap (λ (q : Option PollFd × Array PollFd). del_at r ch k q (pop 0 r.channels))
          (popped-some zero_pollfd r.event_list (omega arith))
      ∙ ap
          (λ (q : Option ℕ × Array ℕ).
            del_at r ch k
              (some (r.event_list.item (r.event_list.nitems - 1)), popped zero_pollfd r.event_list)
              q)
          (popped-some 0 r.channels (omega (arith, t.same)))
      ∙ rw (fits, fits') refl

  abbrev n : ℕ
  n = r.event_list.nitems

  last-eq : r.channels.item (r.channels.nitems - 1) ≡ r.channels.item (n - 1)
  last-eq = ap (λ (m : ℕ). r.channels.item (m - 1)) t.same

  -- The place of the channel holds what the last place held; the others hold what they did.
  removed-here : (removed r ch k).channels.item k ≡ r.channels.item (n - 1)
  removed-here =
      put_at_self (popped 0 r.channels) k (r.channels.item (r.channels.nitems - 1)) ∙ last-eq

  removed-other : (i : ℕ) → i < n - 1 → i ≢ k → (removed r ch k).channels.item i ≡ r.channels.item i
  removed-other i l ne =
      put_at_other (popped 0 r.channels) k i (r.channels.item (r.channels.nitems - 1))
        (λ e. ne (sym e))
      ∙ put_at_other r.channels (r.channels.nitems - 1) i 0 (omega (arith, t.same))

  pub removed-event : (removed r ch k).event_list.item k ≡ r.event_list.item (n - 1)
  removed-event = put_at_self (popped zero_pollfd r.event_list) k (r.event_list.item (n - 1))

  removed-event_other :
      (i : ℕ) → i < n - 1 → i ≢ k → (removed r ch k).event_list.item i ≡ r.event_list.item i
  removed-event_other i l ne =
      put_at_other (popped zero_pollfd r.event_list) k i (r.event_list.item (n - 1))
        (λ e. ne (sym e))
      ∙ put_at_other r.event_list (n - 1) i zero_pollfd (omega arith)

  -- A place but that of the channel does not hold it.
  elsewhere : (i : ℕ) → i < n → i ≢ k → r.channels.item i ≢ ch
  elsewhere i l ne e = ne (place-eq r i k t l h (e ∙ sym here))

  removed-Unwatched : Unwatched (removed r ch k) ch
  removed-Unwatched i l e = elim (ℕ_discrete i k) [
    | yes q ↦
        elsewhere (n - 1) (omega arith) (omega (arith, l))
          (sym removed-here ∙ ap (removed r ch k).channels.item (sym q) ∙ e)
    | no q ↦ elsewhere i (omega arith) q (sym (removed-other i l q) ∙ e)
  ]

  removed-index :
      (c : ℕ) (j : Option ℕ)
      → c ≢ ch
      → set_index r.index (r.channels.item (r.channels.nitems - 1)) (some k) c ≡ j
      → (removed r ch k).index c ≡ j
  removed-index c j ne e =
      set_index_other (set_index r.index (r.channels.item (r.channels.nitems - 1)) (some k)) ch c
        none (λ q. ne (sym q))
      ∙ e

  removed-back :
      (i : ℕ) → i < n - 1 → (removed r ch k).index ((removed r ch k).channels.item i) ≡ some i
  removed-back i l = elim (ℕ_discrete i k) [
    | yes q ↦
        ap (λ (j : ℕ). (removed r ch k).index ((removed r ch k).channels.item j)) q
        ∙ ap (removed r ch k).index removed-here
        ∙ removed-index (r.channels.item (n - 1)) (some k)
            (elsewhere (n - 1) (omega arith) (omega (arith, l, q)))
            (subst (λ (c : ℕ). set_index r.index c (some k) (r.channels.item (n - 1)) ≡ some k)
              (sym last-eq) (set_index_self r.index (r.channels.item (n - 1)) (some k)))
        ∙ ap (λ (j : ℕ). some j) (sym q)
    | no q ↦
        ap (removed r ch k).index (removed-other i l q)
        ∙ removed-index (r.channels.item i) (some i) (elsewhere i (omega arith) q) (
            set_index_other r.index (r.channels.item (r.channels.nitems - 1)) (r.channels.item i)
              (some k)
              (λ e.
                absurd (
                  last_apart
                    (place-eq r (n - 1) i t (omega arith) (omega arith) (sym last-eq ∙ e))))
            ∙ t.back i (omega arith))
  ]
    where
      last_apart : n - 1 ≡ i → ⊥
      last_apart e = omega (arith, l, e)

  removed-Tracks : Tracks (removed r ch k)
  removed-Tracks = record {
    same = omega (arith, t.same);
    room = omega (arith, t.room);
    room' = omega (arith, t.room');
    back = removed-back;
  }

  removed-AgreeBut : AgreeBut ch r (removed r ch k)
  removed-AgreeBut c p ne = (
    λ (i, l, e, e'). elim (ℕ_discrete i (n - 1)) [
      | yes q ↦
          let apart : i ≢ k = λ w. ne (sym e ∙ ap r.channels.item w ∙ here) in
          (
            k,
            moved i q apart,
            removed-here ∙ ap r.channels.item (sym q) ∙ e,
            removed-event ∙ ap r.event_list.item (sym q) ∙ e',
          )
      | no q ↦
          let apart : i ≢ k = λ w. ne (sym e ∙ ap r.channels.item w ∙ here) in
          let l' : i < n - 1 = omega (arith, l) in
          (i, l', removed-other i l' apart ∙ e, removed-event_other i l' apart ∙ e')
    ],
    λ (i, l, e, e'). elim (ℕ_discrete i k) [
      | yes q ↦ (
        n - 1,
        omega arith,
        sym removed-here ∙ ap (removed r ch k).channels.item (sym q) ∙ e,
        sym removed-event ∙ ap (removed r ch k).event_list.item (sym q) ∙ e',
      )
      | no q ↦
          (i, omega (arith, l), sym (removed-other i l q) ∙ e, sym (removed-event_other i l q) ∙ e')
    ],
  )
    where
      moved : (i : ℕ) → i ≡ n - 1 → i ≢ k → k < n - 1
      moved i q apart = omega (arith, h)

-- In a reactor whose arrays run side by side, with its index in each channel: a delete of a channel
-- that is watched succeeds, and the channel is watched no longer; all others are watched as
-- before, and each still holds its index.
pub del-forgets :
    (r : Reactor) (ch : ℕ) (p : PollFd)
    → Tracks r
    → Watches r ch p
    → (r' : Reactor) × (del r ch ≡ value 0 r') × Tracks r' × AgreeBut ch r r' × Unwatched r' ch
del-forgets r ch p t (k, h, here, e) = (
  removed r ch k,
  del-removed r ch k t h here,
  removed-Tracks r ch k t h here,
  removed-AgreeBut r ch k t h here,
  removed-Unwatched r ch k t h here,
)

-- In a reactor whose arrays run side by side, with its index in each channel, a change of the events
-- of a channel that is watched succeeds: the channel is watched by the same descriptor for the new
-- events, all others as before, and each holds its index.
pub mod_events-Watches :
    (bits : PollBits) (r : Reactor) (ch events : ℕ) (p : PollFd)
    → Tracks r
    → Watches r ch p
    → (r' : Reactor) × (mod_events bits r ch events ≡ value 0 r')
      × Tracks r'
      × AgreeBut ch r r'
      × Watches r' ch (record p { events = mask bits events })
unfolding mod_events mod_from mod_at nth
mod_events-Watches bits r ch events p t (k, h, here, e) =
    let old = r.event_list.item k in
    let new : PollFd = record old { events = mask bits events } in
    let index : r.index ch ≡ some k = ap r.index (sym here) ∙ t.back k h in
    let fits : ltb k r.event_list.capacity ≡ true =
      lt→ltb k r.event_list.capacity (omega (arith, t.room)) in
    (
      record r { event_list = put_at r.event_list k new },
      ap (λ (o : Option ℕ). mod_from bits r o events) index ∙ rw (nth, fits) refl,
      record { same = t.same; room = t.room; room' = t.room'; back = t.back },
      λ c q ne. (
        λ (i, l, w, w'). (
          i,
          l,
          w,
          put_at_other r.event_list k i new (λ x. ne (sym w ∙ ap r.channels.item (sym x) ∙ here))
              ∙ w',
        ),
        λ (i, l, w, w'). (
          i,
          l,
          w,
          sym (
                put_at_other r.event_list k i new
                  (λ x. ne (sym w ∙ ap r.channels.item (sym x) ∙ here)))
              ∙ w',
        ),
      ),
      (
        k,
        h,
        here,
        put_at_self r.event_list k new
            ∙ ap (λ (c : PollFd). record c { events = mask bits events }) e,
      ),
    )
