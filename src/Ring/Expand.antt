-- ===== src/Ring/Expand.antt =====
-- `_expand`: what a put into a full ring does.
use native.Mathlib.Nat.{mod-eq_of_lt, mod_self, add-mod_right, two-pow-succ}
use native.Mathlib.Decide.{ℕ_discrete}
use esma.Base.{
  ℕ, suc, ◌+◌, ◌-◌, ◌*◌, ◌%◌, ◌^◌, ◌<◌, ◌≤◌, ◌≡◌, refl, ap, sym, ◌∙◌, ◌≢◌, ◌⊎◌, inl, inr, [], ◌∷◌,
  ◌++◌, length, arith, eq-beq, ne-beq, true, false, lt→ltb,
}
use esma.Base.Bits.{pow-small}
use esma.Base.Bytes.{Memory, read-ext, grown, u32, sub32}
use esma.Ring.{
  RingBuffer, null, at, Realloc, failed, in_place, moved, put, enlarge, is_wrapped, expand_in,
  expand, put_expanded, grown_to,
}
use esma.Ring.Valid.{IsValid, cap-pos, cap-le, enqueued, put_next-room, enqueued-IsValid}
use esma.Ring.Fifo.{Item, items-ext, contents, fill, fill-IsValid, fill-contents}

-- A full ring whose doubled storage stays below 4 GiB.
pub record CanGrow (r : RingBuffer) : Type 0 where
  pub valid : IsValid r
  pub full : r.size ≡ r.cap
  pub fits : r.item_size * (r.cap * 2) < 2 ^ 32
  pub small : r.cap ≤ 2 ^ 30

abbrev doubled : RingBuffer → Memory → RingBuffer
doubled r junk = record r {
  memory = grown r.bytes r.memory junk;
  bytes = r.item_size * (r.cap * 2);
  mask = r.cap * 2 - 1;
  cap = r.cap * 2;
}

module _ {r : RingBuffer} (g : CanGrow r) where
  open g use {valid, full, fits, small}

  pub enlarge-doubled : (junk : Memory) → enlarge r junk ≡ doubled r junk
  unfolding enlarge
  enlarge-doubled junk =
      let cap2 : u32 (r.cap * 2) ≡ r.cap * 2 = omega arith in
      let mask2 : sub32 (r.cap * 2) 1 ≡ r.cap * 2 - 1 = omega (arith, cap-pos valid) in
      rw (cap2, mask2, mod-eq_of_lt fits)

  -- The newest item is right before the oldest one, or at the end of the storage.
  head-tail : ((r.tail ≡ 0) × (r.head + 1 ≡ r.cap)) ⊎ ((r.tail ≡ r.head + 1) × (r.tail < r.cap))
  head-tail =
      let pos = cap-pos valid in
      let below : r.head < r.cap = valid.head_in (omega arith) in
      let e : (r.head + 1) % r.cap ≡ r.tail =
        valid.next
        ∙ ap (λ (k : ℕ). (r.tail + k) % r.cap) full
        ∙ add-mod_right r.tail r.cap
        ∙ mod-eq_of_lt valid.tail_in in
      elim (ℕ_discrete (r.head + 1) r.cap) [
        | yes last ↦ inl (sym e ∙ ap (λ (k : ℕ). k % r.cap) last ∙ mod_self r.cap, last)
        | no more ↦
            let small' : r.head + 1 < r.cap = omega arith in
            inr (sym e ∙ mod-eq_of_lt small', valid.tail_in)
      ]

  unwrapped : r.tail ≡ 0 → (r.head + 1 ≡ r.cap) × (is_wrapped r ≡ false)
  unfolding is_wrapped
  unwrapped e =
      let last : r.head + 1 ≡ r.cap = omega (arith, head-tail) in
      (last, rw (eq-beq {a = r.head} {b = sub32 r.cap 1} (omega (arith, cap-le valid))))

  pub wrapped : r.tail ≢ 0 → (r.tail ≡ r.head + 1) × (is_wrapped r ≡ true)
  unfolding is_wrapped
  wrapped ne =
      let next : r.tail ≡ r.head + 1 = omega (arith, head-tail) in
      (
        next,
        rw (ne-beq {a = r.head} {b = sub32 r.cap 1} (omega (arith, cap-le valid, valid.tail_in))),
      )

  doubled-IsValid : (junk : Memory) → r.tail ≡ 0 → IsValid (doubled r junk)
  doubled-IsValid junk e =
      let last = (unwrapped e).0 in
      let pow : r.cap * 2 ≡ 2 ^ suc valid.log =
        omega (arith, valid.cap_pow, two-pow-succ valid.log) in
      record {
        log = suc valid.log;
        log_small = pow-small (suc valid.log) (omega arith);
        cap_pow = pow;
        mask_eq = refl;
        size_in = omega arith;
        tail_in = omega arith;
        head_in = λ _. omega arith;
        next = ap (λ (k : ℕ). k % (r.cap * 2)) (omega arith);
        storage = omega arith;
        fits = omega arith;
      }

  kept :
      (junk : Memory) (i a : ℕ)
      → i < r.cap
      → a < r.item_size * i + r.item_size
      → grown r.bytes r.memory junk a ≡ r.memory a
  unfolding grown
  kept junk i a inner q =
      let le : r.item_size * suc i ≤ r.item_size * r.cap = grind arith in
      rw (lt→ltb a r.bytes (omega (arith, valid.storage)))

  doubled-contents : (junk : Memory) → r.tail ≡ 0 → contents (doubled r junk) ≡ contents r
  doubled-contents junk e =
      items-ext r.item_size (r.cap * 2) r.cap (grown r.bytes r.memory junk) r.memory r.tail r.tail
        r.size
        λ i below.
          let inner : r.tail + i < r.cap = omega arith in
          rw (mod-eq_of_lt inner, mod-eq_of_lt {n = r.tail + i} {m = r.cap * 2} (omega arith))
            (read-ext (grown r.bytes r.memory junk) r.memory (r.item_size * (r.tail + i))
              r.item_size λ a p q. kept junk (r.tail + i) a inner q)

  expand-doubled : (junk : Memory) → r.tail ≡ 0 → expand_in r junk ≡ doubled r junk
  unfolding expand_in
  expand-doubled junk e = rw ((unwrapped e).1, enlarge-doubled junk)

  abbrev room_in : Memory → ℕ
  room_in junk = r.item_size * ((r.tail + r.size) % (r.cap * 2))

  put-doubled :
      (junk : Memory) (outcome : Realloc)
      → r.tail ≡ 0
      → expand r outcome ≡ grown_to (doubled r junk)
      → put r outcome ≡ at (room_in junk) (enqueued (doubled r junk))
  unfolding put put_expanded
  put-doubled junk outcome e h =
      rw (eq-beq {a = r.size} {b = r.cap} full, h)
        (put_next-room (doubled-IsValid junk e) (omega (arith, cap-pos valid)))

-- What `realloc` returned, if it was not NULL.
abbrev pub Gave : Realloc → Memory → Type 0
Gave failed junk = ⊥
Gave (in_place m) junk = m ≡ junk
Gave (moved m) junk = m ≡ junk

expand-moved :
    (r : RingBuffer) (m : Memory)
    → is_wrapped r ≡ false
    → expand r (moved m) ≡ grown_to (expand_in r m)
unfolding expand
expand-moved r m e = rw e

expand-in_place : (r : RingBuffer) (m : Memory) → expand r (in_place m) ≡ grown_to (expand_in r m)
unfolding expand
expand-in_place r m = refl

expand-Gave :
    {r : RingBuffer} (g : CanGrow r) (junk : Memory) (outcome : Realloc)
    → r.tail ≡ 0
    → Gave outcome junk
    → expand r outcome ≡ grown_to (doubled r junk)
expand-Gave g junk failed e h = absurd h
expand-Gave {r} g junk (in_place m) e h =
    rw h (expand-in_place r junk ∙ ap grown_to (expand-doubled g junk e))
expand-Gave {r} g junk (moved m) e h =
    rw h (expand-moved r junk (unwrapped g e).1 ∙ ap grown_to (expand-doubled g junk e))

-- A put into a full valid ring whose oldest item lies at the start of the storage (and that can
-- double below 4 GiB): NULL if `realloc` gives none; if it gives memory, in place or elsewhere, the
-- client's item is appended, no item is lost, the ring stays valid and its capacity has doubled.
pub put-expand :
    {r : RingBuffer} (x : Item) (junk : Memory) (outcome : Realloc)
    → CanGrow r
    → r.tail ≡ 0
    → length x ≡ r.item_size
    → Gave outcome junk
    → (put r failed ≡ null)
      × ((off : ℕ) × (r' : RingBuffer) × (put r outcome ≡ at off r')
          × IsValid (fill r' off x)
          × (contents (fill r' off x) ≡ contents r ++ x ∷ [])
          × (r'.cap ≡ r.cap * 2))
unfolding put expand put_expanded
put-expand {r} x junk outcome g e len gave = (
  rw (eq-beq {a = r.size} {b = r.cap} g.full),
  let v = doubled-IsValid g junk e in
      let room : r.size < r.cap * 2 = omega (arith, cap-pos g.valid, g.full) in
      (
        room_in g junk,
        enqueued (doubled r junk),
        put-doubled g junk outcome e (expand-Gave g junk outcome e gave),
        fill-IsValid (room_in g junk) x (enqueued-IsValid v room),
        fill-contents x v room len ∙ ap (λ q. q ++ x ∷ []) (doubled-contents g junk e),
        refl,
      ),
)
