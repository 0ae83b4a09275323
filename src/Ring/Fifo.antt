-- ===== src/Ring/Fifo.antt =====
-- A valid ring stands for the queue of the items between `tail` and `head`, oldest first.
use native.Mathlib.Decide.{dec_le, dec_lt}
use native.Mathlib.Nat.{mod-eq_of_lt, mod-add-mod, div-add-mod}
use native.Mathlib.Numerals.{add-one}
use esma.Base.{
  ℕ, zero, suc, ◌+◌, ◌-◌, ◌*◌, ◌/◌, ◌%◌, ◌<◌, ◌≤◌, ◌≡◌, refl, ap, ap₂, subst, sym, ◌∙◌, ◌≢◌, ◌⊎◌,
  inl, inr, some, none, List, [], ◌∷◌, ◌++◌, length, arith, ne-beq,
}
use esma.Base.Bytes.{Memory, read, write, read-ext, write-outside, read-write_self}
use esma.Ring.{RingBuffer, at, Realloc, get, put}
use esma.Ring.Valid.{
  IsValid, enqueued, dequeued, put_next-room, enqueued-IsValid, get-some, get-none,
  dequeued-IsValid,
}

abbrev pub Item : Type 0
Item = List ℕ

-- The item in slot `i`.
abbrev pub item : ℕ → Memory → ℕ → Item
item isz m i = read m (isz * i) isz

-- The `n` items from slot `s % cap` on, going round at `cap`.
unfoldable pub items : ℕ → ℕ → Memory → ℕ → ℕ → List Item
items isz cap m s zero = []
items isz cap m s (suc n) = item isz m (s % cap) ∷ items isz cap m (s + 1) n

pub items-ext :
    (isz c c' : ℕ) (m m' : Memory) (s s' n : ℕ)
    → ((i : ℕ) → i < n → item isz m ((s + i) % c) ≡ item isz m' ((s' + i) % c'))
    → items isz c m s n ≡ items isz c' m' s' n
unfolding items
items-ext isz c c' m m' s s' zero h = refl
items-ext isz c c' m m' s s' (suc n) h =
    ap₂ ◌∷◌
      (ap (λ (k : ℕ). item isz m (k % c)) (omega arith)
        ∙ h 0 (omega arith)
        ∙ ap (λ (k : ℕ). item isz m' (k % c')) (omega arith))
      (items-ext isz c c' m m' (s + 1) (s' + 1) n (λ i below.
        ap (λ (k : ℕ). item isz m (k % c)) (omega arith)
        ∙ h (i + 1) (omega arith)
        ∙ ap (λ (k : ℕ). item isz m' (k % c')) (omega arith)))

module _ (isz cap : ℕ) where
  pub items-snoc :
      (m : Memory) (s n : ℕ)
      → items isz cap m s (suc n) ≡ items isz cap m s n ++ item isz m ((s + n) % cap) ∷ []
  unfolding items
  items-snoc m s zero = ap (λ (k : ℕ). item isz m (k % cap) ∷ []) (omega arith)
  items-snoc m s (suc n) =
      ap (λ l. item isz m (s % cap) ∷ l)
        (items-snoc m (s + 1) n
          ∙ ap (λ (k : ℕ). items isz cap m (s + 1) n ++ item isz m (k % cap) ∷ []) (omega arith))

  pub items-pos :
      (m : Memory) (s n : ℕ)
      → 0 < n
      → items isz cap m s n ≡ item isz m (s % cap) ∷ items isz cap m (s + 1) (n - 1)
  unfolding items
  items-pos m s zero h = absurd (omega arith)
  items-pos m s (suc n) h =
      ap (λ (k : ℕ). item isz m (s % cap) ∷ items isz cap m (s + 1) k) (omega arith)

-- Fewer than `cap` steps round the ring do not come back.
mod-apart : (cap t i n : ℕ) → i < n → n < cap → (t + i) % cap ≢ (t + n) % cap
mod-apart cap t i n below room e = elim (dec_le ((t + n) / cap) ((t + i) / cap)) [
  | yes p ↦
      let less : cap * ((t + n) / cap) ≤ cap * ((t + i) / cap) = grind arith in
      omega (arith, div-add-mod (t + i) cap, div-add-mod (t + n) cap)
  | no p ↦
      let more : cap * suc ((t + i) / cap) ≤ cap * ((t + n) / cap) = grind arith in
      omega (arith, div-add-mod (t + i) cap, div-add-mod (t + n) cap)
]

-- Different slots do not overlap.
slots-apart :
    (isz i j a : ℕ) → i ≢ j → isz * i ≤ a → a < isz * i + isz → (a < isz * j) ⊎ (isz * j + isz ≤ a)
slots-apart isz i j a ne p q = elim (dec_lt i j) [
  | yes l ↦ inl (let le : isz * suc i ≤ isz * j = grind arith in omega arith)
  | no g ↦ inr (let le : isz * suc j ≤ isz * i = grind arith in omega arith)
]

abbrev pub contents : RingBuffer → List Item
contents r = items r.item_size r.cap r.memory r.tail r.size

-- The client's write of an item through the pointer that `put` returned.
abbrev pub fill : RingBuffer → ℕ → Item → RingBuffer
fill r off x = record r { memory = write r.memory off x }

pub fill-IsValid : {r : RingBuffer} (off : ℕ) (x : Item) → IsValid r → IsValid (fill r off x)
fill-IsValid {r} off x v = record {
  log = v.log;
  log_small = v.log_small;
  cap_pow = v.cap_pow;
  mask_eq = v.mask_eq;
  size_in = v.size_in;
  tail_in = v.tail_in;
  head_in = v.head_in;
  next = v.next;
  storage = v.storage;
  fits = v.fits;
}

-- Filling the slot that `put` hands out appends the item and keeps the others.
pub fill-contents :
    {r : RingBuffer} (x : Item)
    → IsValid r
    → r.size < r.cap
    → length x ≡ r.item_size
    → contents (fill (enqueued r) (r.item_size * ((r.tail + r.size) % r.cap)) x)
      ≡ contents r ++ x ∷ []
fill-contents {r} x v room len =
    let isz = r.item_size in
    let j = (r.tail + r.size) % r.cap in
    let m = write r.memory (isz * j) x in
    rw (add-one, items-snoc isz r.cap m r.tail r.size)
      (ap₂ (λ l y. l ++ y ∷ [])
        (items-ext isz r.cap r.cap m r.memory r.tail r.tail r.size λ i below.
          read-ext m r.memory (isz * ((r.tail + i) % r.cap)) isz λ a p q.
            write-outside r.memory (isz * j) x a (
              rw len (
                slots-apart isz ((r.tail + i) % r.cap) j a
                  (mod-apart r.cap r.tail i r.size below room) p q)))
        (subst (λ n. read m (isz * j) n ≡ x) len (read-write_self r.memory (isz * j) x)))

-- What is left after a `get`, and what it took.
pub dequeue-contents :
    {r : RingBuffer}
    → IsValid r
    → 0 < r.size
    → contents r ≡ item r.item_size r.memory r.tail ∷ contents (dequeued r)
dequeue-contents {r} v more =
    let isz = r.item_size in
    let m = r.memory in
    items-pos isz r.cap m r.tail r.size more
    ∙ ap₂ ◌∷◌ (ap (λ (k : ℕ). item isz m k) (mod-eq_of_lt v.tail_in)) (
        items-ext isz r.cap r.cap m m (r.tail + 1) ((r.tail + 1) % r.cap) (r.size - 1)
          λ i below. ap (λ (k : ℕ). item isz m k) (sym (mod-add-mod (r.tail + 1) r.cap i)))

pub contents-empty : (r : RingBuffer) → r.size ≡ 0 → contents r ≡ []
unfolding items
contents-empty r e = ap (items r.item_size r.cap r.memory r.tail) e

pub put-room :
    {r : RingBuffer} (outcome : Realloc)
    → IsValid r
    → r.size < r.cap
    → put r outcome ≡ at (r.item_size * ((r.tail + r.size) % r.cap)) (enqueued r)
unfolding put
put-room {r} outcome v room =
    rw (ne-beq {a = r.size} {b = r.cap} (omega arith)) (put_next-room v room)

-- In a valid ring that is not full, `put` and the client's write of an item append it to the
-- queue, whatever `realloc` would do, and keep the ring valid and its capacity.
pub put-append :
    {r : RingBuffer} (x : Item) (outcome : Realloc)
    → IsValid r
    → r.size < r.cap
    → length x ≡ r.item_size
    → (off : ℕ) × (r' : RingBuffer) × (put r outcome ≡ at off r')
      × IsValid (fill r' off x)
      × (contents (fill r' off x) ≡ contents r ++ x ∷ [])
      × (r'.cap ≡ r.cap)
put-append {r} x outcome v room len =
    let off = r.item_size * ((r.tail + r.size) % r.cap) in
    (
      off,
      enqueued r,
      put-room outcome v room,
      fill-IsValid off x (enqueued-IsValid v room),
      fill-contents x v room len,
      refl,
    )

-- `get` of a valid ring returns NULL and changes nothing if the ring is empty, and otherwise
-- hands out the oldest item and leaves the queue of the others; the ring stays valid.
pub get-pop :
    {r : RingBuffer}
    → IsValid r
    → ((r.size ≡ 0) × (get r ≡ (none, r)) × (contents r ≡ []))
      ⊎ ((off : ℕ) × (r' : RingBuffer) × (get r ≡ (some off, r'))
          × IsValid r'
          × (contents r ≡ read r.memory off r.item_size ∷ contents r')
          × (r'.cap ≡ r.cap))
get-pop {r} v = elim (dec_lt 0 r.size) [
  | yes more ↦ inr (
    r.item_size * r.tail,
    dequeued r,
    get-some v more,
    dequeued-IsValid v more,
    dequeue-contents v more,
    refl,
  )
  | no empty ↦ let e : r.size ≡ 0 = omega arith in inl (e, get-none r e, contents-empty r e)
]
