-- ===== src/Ring/Wrapped.antt =====
-- `_expand` of a full ring whose items go round the end of the storage: there the code moves the
-- unread items with the freed block, by a number of items taken as bytes.
use native.Mathlib.Nat.{mod-eq_of_lt, mod_self, two-pow-succ}
use native.Mathlib.Decide.{ℕ_discrete}
use esma.Base.{
  ℕ, suc, ◌+◌, ◌-◌, ◌*◌, ◌%◌, ◌^◌, ◌≤◌, ◌≡◌, refl, ap, ap₂, sym, ◌∙◌, ◌≢◌, arith, eq-beq, bit_and,
}
use esma.Base.Bits.{bit_and-mask}
use esma.Base.Bytes.{Memory, u32}
use esma.Ring.{
  RingBuffer, crash, at, moved, in_place, put, put_next, expand_in, expand, shift_unread, slot,
  put_expanded,
}
use esma.Ring.Valid.{IsValid, cap-pos}
use esma.Ring.Fifo.{Item, fill}
use esma.Ring.Expand.{CanGrow, wrapped, enlarge-doubled}

-- The fields of the expanded ring.
record Shifted (r s : RingBuffer) : Type 0 where
  head : s.head ≡ r.cap
  mask : s.mask ≡ r.cap * 2 - 1
  cap : s.cap ≡ r.cap * 2
  size : s.size ≡ r.size
  tail : s.tail ≡ r.tail
  item_size : s.item_size ≡ r.item_size

module _ {r : RingBuffer} (g : CanGrow r) (ne : r.tail ≢ 0) where
  expand_in-Shifted : (junk : Memory) → Shifted r (expand_in r junk)
  unfolding expand_in shift_unread
  expand_in-Shifted junk = rw (wrapped g ne).1 (record {
    head = omega (arith, wrapped g ne, g.small, cap-pos g.valid, g.valid.tail_in);
    mask = ap (λ s. s.mask) (enlarge-doubled g junk);
    cap = ap (λ s. s.cap) (enlarge-doubled g junk);
    size = refl;
    tail = refl;
    item_size = refl;
  })

  put-moved : (junk : Memory) → put r (moved junk) ≡ crash
  unfolding put expand put_expanded
  put-moved junk = rw (eq-beq {a = r.size} {b = r.cap} g.full, (wrapped g ne).1)

  put-in_place : (junk : Memory) → put r (in_place junk) ≡ put_next (expand_in r junk)
  unfolding put expand put_expanded
  put-in_place junk = rw (eq-beq {a = r.size} {b = r.cap} g.full)

abbrev advanced : RingBuffer → ℕ → RingBuffer
advanced s h = record s { size = u32 (s.size + 1); head = h }

next-Shifted :
    {r s : RingBuffer} (g : CanGrow r)
    → 2 ≤ r.tail
    → Shifted r s
    → put_next s ≡ at (r.item_size * (r.cap + 1)) (advanced s (r.cap + 1))
unfolding put_next slot
next-Shifted {r} {s} g two sh =
    let v = g.valid in
    let pow : r.cap * 2 ≡ 2 ^ suc v.log = omega (arith, v.cap_pow, two-pow-succ v.log) in
    let head1 : u32 (s.head + 1) ≡ r.cap + 1 = omega (arith, sh.head, g.small) in
    let ones : s.mask ≡ 2 ^ suc v.log - 1 = omega (arith, sh.mask) in
    let next : bit_and (u32 (s.head + 1)) s.mask ≡ r.cap + 1 =
      ap₂ bit_and head1 ones
      ∙ bit_and-mask (suc v.log) (r.cap + 1)
      ∙ ap (λ (k : ℕ). (r.cap + 1) % k) (sym pow)
      ∙ mod-eq_of_lt {n = r.cap + 1} {m = r.cap * 2} (omega (arith, v.tail_in)) in
    let le : r.item_size * (r.cap + 1) ≤ r.item_size * (r.cap * 2) = grind (arith, v.tail_in) in
    let off : u32 (s.item_size * (r.cap + 1)) ≡ r.item_size * (r.cap + 1) =
      ap (λ (k : ℕ). u32 (k * (r.cap + 1))) sh.item_size ∙ mod-eq_of_lt (omega (arith, g.fits)) in
    rw (next, off)

-- The slot of the next item is no longer behind the newest item.
advanced-not-IsValid :
    {r s : RingBuffer} (g : CanGrow r)
    → 2 ≤ r.tail
    → Shifted r s
    → (off : ℕ) (x : Item) → ¬ IsValid (fill (advanced s (r.cap + 1)) off x)
advanced-not-IsValid {r} {s} g two sh off x v =
    let more = g.valid.tail_in in
    let index : s.tail + u32 (s.size + 1) ≡ r.tail + (r.cap + 1) =
      omega (arith, sh.tail, sh.size, g.full, g.small) in
    let e : (r.cap + 1 + 1) % (r.cap * 2) ≡ (r.tail + (r.cap + 1)) % (r.cap * 2) =
      sym (ap (λ (k : ℕ). (r.cap + 1 + 1) % k) sh.cap)
      ∙ v.next
      ∙ ap₂ (λ (a b : ℕ). a % b) index sh.cap in
    let e' : r.cap + 1 + 1 ≡ (r.tail + (r.cap + 1)) % (r.cap * 2) =
      sym (mod-eq_of_lt {n = r.cap + 1 + 1} {m = r.cap * 2} (omega arith)) ∙ e in
    elim (ℕ_discrete (r.tail + (r.cap + 1)) (r.cap * 2)) [
      | yes last ↦ omega (arith, e', ap (λ (k : ℕ). k % (r.cap * 2)) last, mod_self (r.cap * 2))
      | no inner ↦
          omega (arith, e', mod-eq_of_lt {n = r.tail + (r.cap + 1)} {m = r.cap * 2} (omega arith))
    ]

-- A put into a full valid ring (that can double below 4 GiB) whose oldest item is not at the start
-- of the storage but in slot 2 or later: if `realloc` moves the block, the code works on the freed
-- one; if it does not, the new item goes to slot `cap + 1`, and no write of the client makes the
-- ring valid again.
pub put-wrapped :
    {r : RingBuffer}
    → CanGrow r
    → 2 ≤ r.tail
    → (junk : Memory)
    → (put r (moved junk) ≡ crash)
      × ((r' : RingBuffer) × (put r (in_place junk) ≡ at (r.item_size * (r.cap + 1)) r')
          × ((off : ℕ) (x : Item) → ¬ IsValid (fill r' off x)))
put-wrapped {r} g two junk =
    let ne : r.tail ≢ 0 = λ e. omega arith in
    (
      put-moved g ne junk,
      let sh = expand_in-Shifted g ne junk in
          (
            advanced (expand_in r junk) (r.cap + 1),
            put-in_place g ne junk ∙ next-Shifted g two sh,
            advanced-not-IsValid g two sh,
          ),
    )
