-- ===== src/Engine/Reactor/Ready.antt =====
-- `poll_reactor__wait`, and what an add without events takes over.
use esma.Base.{
  ℕ, zero, suc, ◌+◌, ◌-◌, ◌^◌, ◌<◌, ◌≡◌, refl, ap, ◌∙◌, Bool, true, false, Option, some, List, [],
  ◌∷◌, map, lt→ltb, if◌then◌else◌, Bool-cases, inl, inr, arith,
}
use esma.Base.Bytes.{u32}
use esma.Array.{Array, Slot, slot, push, put_at, take_slot}
use esma.Engine.Reactor.{
  PollFd, PollBits, Reactor, value, watch, add_at, add, del, ready, Message, set_index, idle_at,
  message_at, also, wait_from, wait,
}
use esma.Engine.Reactor.Tracks.{Tracks, Watches, put_at_self}
use esma.Engine.Reactor.Forgets.{removed, removed-event, del-removed}

module _ (bits : PollBits) (revents : ℕ → ℕ) (put : ℕ → Bool) where
  -- The places from `i` on, `n` of them, in which something happened.
  unfoldable pub fired : Reactor → ℕ → ℕ → List ℕ
  fired r zero i = []
  fired r (suc n) i =
      let rest = fired r n (i + 1) in if idle_at bits revents put r i then rest else i ∷ rest

  unfoldable pub count : List ℕ → ℕ
  count [] = 0
  count (i ∷ is) = suc (count is)

  abbrev messages : Reactor → List ℕ → List Message
  messages r is = map (message_at bits revents put r) is

  wait_idle :
      (r : Reactor) (n i left : ℕ)
      → idle_at bits revents put r i ≡ true
      → wait_from bits revents put r (suc n) i left ≡ wait_from bits revents put r n (i + 1) left
  unfolding wait_from
  wait_idle r zero i zero h = refl
  wait_idle r (suc n) i zero h = refl
  wait_idle r n i (suc left) h = rw (wait_from, h) refl

  wait_busy :
      (r : Reactor) (n i left : ℕ)
      → idle_at bits revents put r i ≡ false
      → put i ≡ true
      → wait_from bits revents put r (suc n) i (suc left)
        ≡ also bits revents put
            (message_at bits revents put r i)
            (wait_from bits revents put r n (i + 1) left)
  unfolding wait_from
  wait_busy r n i left h p = rw (wait_from, h, p) refl

  wait_from-fired :
      (r : Reactor) (n i : ℕ)
      → ((j : ℕ) → put j ≡ true)
      → wait_from bits revents put r n i (count (fired r n i)) ≡ some (messages r (fired r n i))
  unfolding fired count
  wait_from-fired r zero i p = wait_none r i
    where
      wait_none : (r : Reactor) (i : ℕ) → wait_from bits revents put r 0 i 0 ≡ some []
      wait_none r i = unfold wait_from in refl
  wait_from-fired r (suc n) i p = elim (Bool-cases (idle_at bits revents put r i)) [
    | inl e ↦
        rw (fired, e)
          (wait_idle r n i (count (fired r n (i + 1))) e ∙ wait_from-fired r n (i + 1) p)
    | inr e ↦
        rw (fired, e)
          (wait_busy r n i (count (fired r n (i + 1))) e (p i)
            ∙ ap (also bits revents put (message_at bits revents put r i))
                (wait_from-fired r n (i + 1) p))
  ]

  -- If poll answers with the number of places in which something happened, and the queue takes all
  -- messages, then a wait sends one for each of these places, in order, to the channel of the place.
  pub wait-fired :
      (r : Reactor)
      → ((j : ℕ) → put j ≡ true)
      → wait bits revents put r (ready (count (fired r r.event_list.nitems 0)))
        ≡ some (messages r (fired r r.event_list.nitems 0))
  unfolding wait
  wait-fired r p = wait_from-fired r r.event_list.nitems 0 p

pub push-fits :
    {A : Type 0} (a : Array A) (block : Option (ℕ → A))
    → a.nitems < a.capacity
    → push a block ≡ slot a.nitems (record a { nitems = u32 (a.nitems + 1) })
unfolding push take_slot
push-fits a block h = rw (lt→ltb a.nitems a.capacity h) refl

-- In a reactor whose arrays run side by side, with its index in each channel: after the channel of
-- the last place was deleted, a channel that is added without events is watched for the events of
-- the deleted one.
pub del-add_stale :
    (bits : PollBits) (r : Reactor) (ch fd ch' : ℕ) (p : PollFd) (block : Option (ℕ → PollFd))
    (block' : Option (ℕ → ℕ))
    → Tracks r
    → 0 < r.event_list.nitems
    → r.event_list.capacity < 2 ^ 32
    → r.channels.capacity < 2 ^ 32
    → r.channels.item (r.event_list.nitems - 1) ≡ ch
    → r.event_list.item (r.event_list.nitems - 1) ≡ p
    → (r' : Reactor) × (r'' : Reactor) × (del r ch ≡ value 0 r')
      × (add bits r' fd ch' 0 block block' ≡ value 0 r'')
      × Watches r'' ch' (record p { fd = fd })
unfolding add add_at watch
del-add_stale bits r ch fd ch' p block block' t pos small small' here e =
    let k = r.event_list.nitems - 1 in
    let r' = removed r ch k in
    let es : Array PollFd = record (r'.event_list) { nitems = u32 (k + 1) } in
    let m = r.channels.nitems - 1 in
    let cs : Array ℕ = record (r'.channels) { nitems = u32 (m + 1) } in
    let new = watch bits (r'.event_list.item k) fd 0 in
    let r'' : Reactor = record {
      event_list = put_at es k new;
      channels = put_at cs m ch';
      index = set_index r'.index ch' (some (u32 (k + 1) - 1));
    } in
    (
      r',
      r'',
      del-removed r ch k t (omega arith) here,
      ap (λ (s : Slot PollFd). add_at bits r' fd ch' 0 s (push r'.channels block'))
            (push-fits r'.event_list block (omega (arith, t.room)))
          ∙ ap (λ (s : Slot ℕ). add_at bits r' fd ch' 0 (slot k es) s)
              (push-fits r'.channels block' (omega (arith, t.room', t.same))),
      (
        k,
        omega (arith, t.room),
        ap (λ (i : ℕ). (put_at cs i ch').item k) (omega (arith, t.same)) ∙ put_at_self cs k ch',
        put_at_self es k new
            ∙ ap (λ (q : PollFd). record q { fd = fd })
                (removed-event r ch k t (omega arith) here ∙ e),
      ),
    )
