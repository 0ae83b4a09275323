-- ===== src/Engine/Reactor/Tracks.antt =====
-- The poll reactor as the set of the channels that it watches.
use native.Mathlib.Decide.{ℕ_discrete}
use esma.Base.{
  ℕ, ◌+◌, ◌-◌, ◌≤◌, ◌<◌, ◌≡◌, ◌≢◌, refl, ap, sym, subst, ◌∙◌, Option, some, eq-beq, ne-beq, arith,
}
use esma.Array.{Array, Slot, slot, push, put_at}
use esma.Array.Items.{IsValid, push-Appends}
use esma.Engine.Reactor.{PollFd, PollBits, Reactor, value, set_index, mask, watch, add_at, add}

-- The two arrays have the same length and room for it, and each channel holds its index.
pub record Tracks (r : Reactor) : Type 0 where
  pub same : r.channels.nitems ≡ r.event_list.nitems
  pub room : r.event_list.nitems ≤ r.event_list.capacity
  pub room' : r.channels.nitems ≤ r.channels.capacity
  pub back : (i : ℕ) → i < r.event_list.nitems → r.index (r.channels.item i) ≡ some i

-- The reactor watches the channel by this pollfd.
abbrev pub Watches : Reactor → ℕ → PollFd → Type 0
Watches r ch ev =
    (i : ℕ) × (i < r.event_list.nitems) × (r.channels.item i ≡ ch) × (r.event_list.item i ≡ ev)

some_eq : {i j : ℕ} → some i ≡ some j → i ≡ j
some_eq h = cc

-- Two places do not hold one channel.
pub place-eq :
    (r : Reactor) (i j : ℕ)
    → Tracks r
    → i < r.event_list.nitems
    → j < r.event_list.nitems
    → r.channels.item i ≡ r.channels.item j
    → i ≡ j
place-eq r i j t h k e = some_eq (sym (t.back i h) ∙ ap r.index e ∙ t.back j k)

pub put_at_self : {A : Type 0} (a : Array A) (i : ℕ) (x : A) → (put_at a i x).item i ≡ x
put_at_self a i x = rw (eq-beq {a = i} {b = i} refl) refl

pub put_at_other :
    {A : Type 0} (a : Array A) (i j : ℕ) (x : A) → i ≢ j → (put_at a i x).item j ≡ a.item j
put_at_other a i j x h = rw (ne-beq {a = i} {b = j} h) refl

pub set_index_self : (index : ℕ → Option ℕ) (ch : ℕ) (k : Option ℕ) → set_index index ch k ch ≡ k
set_index_self index ch k = rw (eq-beq {a = ch} {b = ch} refl) refl

pub set_index_other :
    (index : ℕ → Option ℕ) (ch c : ℕ) (k : Option ℕ) → ch ≢ c → set_index index ch k c ≡ index c
set_index_other index ch c k h = rw (ne-beq {a = ch} {b = c} h) refl

-- No place holds the channel.
abbrev pub Unwatched : Reactor → ℕ → Type 0
Unwatched r ch = (i : ℕ) → i < r.event_list.nitems → r.channels.item i ≢ ch

-- The two reactors watch the same channels but this one, and in the same way.
abbrev pub AgreeBut : ℕ → Reactor → Reactor → Type 0
AgreeBut ch r r' =
    (c : ℕ) (p : PollFd)
    → c ≢ ch
    → (Watches r c p → Watches r' c p) × (Watches r' c p → Watches r c p)

module _ (bits : PollBits) (r : Reactor) (fd ch events : ℕ) (t : Tracks r) where
  abbrev added : (es : Array PollFd) (cs : Array ℕ) → Reactor
  added es cs = record {
    event_list = put_at es r.event_list.nitems (watch bits (es.item r.event_list.nitems) fd events);
    channels = put_at cs r.channels.nitems ch;
    index = set_index r.index ch (some (es.nitems - 1));
  }

  module _ (es : Array PollFd) (cs : Array ℕ) (count : es.nitems ≡ r.event_list.nitems + 1)
      (count' : cs.nitems ≡ r.channels.nitems + 1) (room : es.nitems ≤ es.capacity)
      (room' : cs.nitems ≤ cs.capacity)
      (kept : (i : ℕ) → i < r.event_list.nitems → es.item i ≡ r.event_list.item i)
      (kept' : (i : ℕ) → i < r.channels.nitems → cs.item i ≡ r.channels.item i)
      (new : Unwatched r ch) where
    added-new : (i : ℕ) → i < es.nitems → i ≡ r.channels.nitems → (added es cs).channels.item i ≡ ch
    added-new i h e =
        subst (λ (j : ℕ). (added es cs).channels.item j ≡ ch) (sym e)
          (put_at_self cs r.channels.nitems ch)

    added-old :
        (i : ℕ) → i < r.event_list.nitems → (added es cs).channels.item i ≡ r.channels.item i
    added-old i h =
        put_at_other cs r.channels.nitems i ch (omega (arith, t.same))
        ∙ kept' i (omega (arith, t.same))

    added-Tracks : Tracks (added es cs)
    added-Tracks = record {
      same = omega (arith, t.same, count, count');
      room = room;
      room' = room';
      back = λ i h. elim (ℕ_discrete i r.channels.nitems) [
        | yes e ↦
            ap (set_index r.index ch (some (es.nitems - 1))) (added-new i h e)
            ∙ set_index_self r.index ch (some (es.nitems - 1))
            ∙ ap (λ (k : ℕ). some k) (omega (arith, t.same, count))
        | no ne ↦
            let l : i < r.event_list.nitems = omega (arith, t.same, count) in
            ap (set_index r.index ch (some (es.nitems - 1))) (added-old i l)
            ∙ set_index_other r.index ch (r.channels.item i) (some (es.nitems - 1))
                (λ e. new i l (sym e))
            ∙ t.back i l
      ];
    }

    added-AgreeBut : AgreeBut ch r (added es cs)
    added-AgreeBut c p ne = (
      λ (i, h, e, e'). (
        i,
        omega (arith, count),
        added-old i h ∙ e,
        put_at_other es r.event_list.nitems i (watch bits (es.item r.event_list.nitems) fd events)
              (omega arith)
            ∙ kept i h
            ∙ e',
      ),
      λ (i, h, e, e'). elim (ℕ_discrete i r.channels.nitems) [
        | yes q ↦ absurd (ne (sym e ∙ added-new i h q))
        | no q ↦
            let l : i < r.event_list.nitems = omega (arith, t.same, count) in
            (
              i,
              l,
              sym (added-old i l) ∙ e,
              sym (kept i l)
                  ∙ sym (
                      put_at_other es r.event_list.nitems i
                        (watch bits (es.item r.event_list.nitems) fd events) (omega arith))
                  ∙ e',
            )
      ],
    )

  added-Watches :
      (es : Array PollFd) (cs : Array ℕ)
      → es.nitems ≡ r.event_list.nitems + 1
      → (p : PollFd) × Watches (added es cs) ch p
        × (p.fd ≡ fd)
        × (events ≢ 0 → p.events ≡ mask bits events)
  unfolding watch
  added-Watches es cs count =
      let n = r.event_list.nitems in
      let p = watch bits (es.item n) fd events in
      (
        p,
        (
          n,
          omega (arith, count),
          ap (put_at cs r.channels.nitems ch).item (sym t.same)
              ∙ put_at_self cs r.channels.nitems ch,
          put_at_self es n p,
        ),
        refl,
        λ ne. rw (ne-beq ne) refl,
      )

  -- In a reactor whose valid arrays run side by side, with its index in each channel: a channel that
  -- is not watched is watched after an add, if the two arrays get memory, by its descriptor
  -- and, if there are any, for the given events; the other channels are watched as before, and
  -- each holds its index.
  pub add-Watches :
      (junk : ℕ → PollFd) (junk' : ℕ → ℕ)
      → IsValid r.event_list
      → IsValid r.channels
      → Unwatched r ch
      → (r' : Reactor) × (add bits r fd ch events (some junk) (some junk') ≡ value 0 r')
        × Tracks r'
        × AgreeBut ch r r'
        × ((p : PollFd) × Watches r' ch p
            × (p.fd ≡ fd)
            × (events ≢ 0 → p.events ≡ mask bits events))
  unfolding add add_at
  add-Watches junk junk' v v' new =
      let q = push-Appends r.event_list junk v in
      let q' = push-Appends r.channels junk' v' in
      (
        added q.after q'.after,
        ap (λ (s : Slot PollFd). add_at bits r fd ch events s (push r.channels (some junk')))
              q.result
            ∙ ap (λ (s : Slot ℕ). add_at bits r fd ch events (slot r.event_list.nitems q.after) s)
                q'.result,
        added-Tracks q.after q'.after q.count q'.count q.room q'.room q.same q'.same new,
        added-AgreeBut q.after q'.after q.count q'.count q.room q'.room q.same q'.same new,
        added-Watches q.after q'.after q.count,
      )
