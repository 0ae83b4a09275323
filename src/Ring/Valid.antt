-- ===== src/Ring/Valid.antt =====
-- The representation invariant of the ring: no index leaves the storage, nothing wraps.
use native.Mathlib.Decide.{ℕ_discrete}
use native.Mathlib.Nat.{
  mod-lt, mod-eq_of_lt, one-le-pow, pow-le-pow_right, mod-add-mod, mod_self, two-pow-succ,
}
use esma.Base.{
  ℕ, ◌+◌, ◌-◌, ◌*◌, ◌%◌, ◌^◌, ◌≤◌, ◌<◌, ◌≡◌, refl, ap, sym, ◌∙◌, ◌⊎◌, true, false, some, none,
  bit_and, ltb, ◌==◌, Bool-cases, inl, inr, ne-beq, eq-beq, suc, zero, lt→ltb, arith, ◌&&◌,
}
use esma.Base.Bits.{bit_and-mask, bit_and-align, power_of_two, mod-word, pow-small}
use esma.Base.Bytes.{u32}
use esma.Ring.{RingBuffer, align8, capacity_of, init, get, put_next, at, slot}

-- `head` is one behind the slot of the next item: `2^32 - 1` in a new ring, where `tail` is 0.
pub record IsValid (r : RingBuffer) : Type 0 where
  pub log : ℕ
  pub log_small : log ≤ 31
  pub cap_pow : r.cap ≡ 2 ^ log
  pub mask_eq : r.mask ≡ r.cap - 1
  pub size_in : r.size ≤ r.cap
  pub tail_in : r.tail < r.cap
  pub head_in : 0 < r.size → r.head < r.cap
  pub next : (r.head + 1) % r.cap ≡ (r.tail + r.size) % r.cap
  pub storage : r.item_size * r.cap ≤ r.bytes
  pub fits : r.item_size * r.cap ≤ 2 ^ 32

module _ {r : RingBuffer} (v : IsValid r) where
  pub cap-pos : 0 < r.cap
  cap-pos = omega (arith, v.cap_pow, one-le-pow v.log 2 (omega arith))

  pub cap-le : r.cap ≤ 2 ^ 31
  cap-le = omega (arith, v.cap_pow, pow-le-pow_right {n = 2} (omega arith) {j = 31} v.log_small)

  -- `x++; x &= rb->mask;` is the successor modulo the capacity, also where `x++` wraps.
  pub masked : (x : ℕ) → bit_and (u32 (x + 1)) r.mask ≡ (x + 1) % r.cap
  masked x =
      rw (v.mask_eq, v.cap_pow)
        (bit_and-mask v.log (u32 (x + 1)) ∙ mod-word (x + 1) v.log (omega (arith, v.log_small)))

  -- The offset of an item does not wrap.
  pub slot-lem : (i : ℕ) → i < r.cap → slot r i ≡ r.item_size * i
  unfolding slot
  slot-lem i h = mod-eq_of_lt (elim (ℕ_discrete r.item_size 0) [
    | yes e ↦ omega (arith, ap (λ (t : ℕ). t * i) e)
    | no ne ↦
        let below : r.item_size * suc i ≤ r.item_size * r.cap = grind arith in omega (arith, v.fits)
  ])

  -- The slot that the next item goes to.
  pub head-next : bit_and (u32 (r.head + 1)) r.mask ≡ (r.tail + r.size) % r.cap
  head-next = masked r.head ∙ v.next

abbrev pub enqueued : RingBuffer → RingBuffer
enqueued r = record r { size = r.size + 1; head = (r.tail + r.size) % r.cap }

-- In a valid ring that is not full the second half of `_put` hands out the slot behind the last
-- item.
pub put_next-room :
    {r : RingBuffer}
    → IsValid r
    → r.size < r.cap
    → put_next r ≡ at (r.item_size * ((r.tail + r.size) % r.cap)) (enqueued r)
unfolding put_next
put_next-room {r} v room =
    let inside = mod-lt (r.tail + r.size) (cap-pos v) in
    let count : u32 (r.size + 1) ≡ r.size + 1 = omega (arith, cap-le v) in
    rw (head-next v, count, slot-lem v _ inside)

pub enqueued-IsValid : {r : RingBuffer} → IsValid r → r.size < r.cap → IsValid (enqueued r)
enqueued-IsValid {r} v room = record {
  log = v.log;
  log_small = v.log_small;
  cap_pow = v.cap_pow;
  mask_eq = v.mask_eq;
  size_in = omega arith;
  tail_in = v.tail_in;
  head_in = λ _. mod-lt (r.tail + r.size) (cap-pos v);
  next = mod-add-mod (r.tail + r.size) r.cap 1 ∙ ap (λ (t : ℕ). t % r.cap) (omega arith);
  storage = v.storage;
  fits = v.fits;
}

abbrev pub dequeued : RingBuffer → RingBuffer
dequeued r = record r { size = r.size - 1; tail = (r.tail + 1) % r.cap }

pub get-some :
    {r : RingBuffer} → IsValid r → 0 < r.size → get r ≡ (some (r.item_size * r.tail), dequeued r)
unfolding get
get-some {r} v more =
    let count : (r.size + 2 ^ 32 - 1) % 2 ^ 32 ≡ r.size - 1 = omega (arith, cap-le v, v.size_in) in
    rw (
      ne-beq {a = r.size} {b = 0} (omega arith),
      masked v r.tail,
      count,
      slot-lem v r.tail v.tail_in,
    )

pub get-none : (r : RingBuffer) → r.size ≡ 0 → get r ≡ (none, r)
unfolding get
get-none r e = rw (eq-beq e)

pub dequeued-IsValid : {r : RingBuffer} → IsValid r → 0 < r.size → IsValid (dequeued r)
dequeued-IsValid {r} v more = record {
  log = v.log;
  log_small = v.log_small;
  cap_pow = v.cap_pow;
  mask_eq = v.mask_eq;
  size_in = omega (arith, v.size_in);
  tail_in = mod-lt (r.tail + 1) (cap-pos v);
  head_in = λ h. v.head_in more;
  next =
      v.next
      ∙ sym (mod-add-mod (r.tail + 1) r.cap (r.size - 1) ∙ ap (λ (t : ℕ). t % r.cap) (omega arith));
  storage = v.storage;
  fits = v.fits;
}

-- `capacity_of` yields a power of two below `2^32`.
capacity_of-pow : (c : ℕ) → c < 2 ^ 32 → (k : ℕ) × (k ≤ 31) × (capacity_of c ≡ 2 ^ k)
unfolding capacity_of
capacity_of-pow c h = elim (Bool-cases (ltb 1 c && (bit_and c (c - 1) == 0))) [
  | inl e ↦
      let (k, eq) = power_of_two c (ground arith) (ground arith) in
      (k, pow-small k (omega arith), rw e eq)
  | inr e ↦ (7, omega arith, rw e refl)
]

align8-lt : (x : ℕ) → align8 x < 2 ^ 32
unfolding align8
align8-lt x = omega (arith, bit_and-align (u32 (x + 7)) (omega arith))

abbrev pub new_ring : ℕ → ℕ → ℕ → RingBuffer
new_ring item_size cap lock_type = record {
  memory = λ _. 0;
  bytes = align8 item_size * capacity_of cap;
  item_size = align8 item_size;
  tail = 0;
  head = 2 ^ 32 - 1;
  mask = capacity_of cap - 1;
  size = 0;
  cap = capacity_of cap;
  lock_type = lock_type;
}

pub new_ring-IsValid :
    (item_size cap lock_type : ℕ)
    → cap < 2 ^ 32
    → align8 item_size * capacity_of cap ≤ 2 ^ 32
    → IsValid (new_ring item_size cap lock_type)
new_ring-IsValid item_size cap lock_type h fits =
    let (k, small, eq) = capacity_of-pow cap h in
    record {
      log = k;
      log_small = small;
      cap_pow = eq;
      mask_eq = refl;
      size_in = omega arith;
      tail_in = omega (arith, eq, one-le-pow k 2 (omega arith));
      head_in = λ h. absurd (omega arith);
      next = rw eq (sym (mod-word (2 ^ 32) k (omega arith)));
      storage = omega arith;
      fits = fits;
    }

pub align8-lem : (x : ℕ) → x + 7 < 2 ^ 32 → (x ≤ align8 x) × (align8 x < x + 8) × (align8 x % 8 ≡ 0)
unfolding align8
align8-lem x h =
    let e = bit_and-align (u32 (x + 7)) (omega arith) in
    (omega (arith, e), omega (arith, e), omega (arith, e))

-- A power of two above 1.
abbrev pub PowerAbove : ℕ → Type 0
PowerAbove c = (k : ℕ) × (0 < k) × (c ≡ 2 ^ k)

power-test : (k c : ℕ) → 0 < k → c ≡ 2 ^ k → (ltb 1 c && (bit_and c (c - 1) == 0)) ≡ true
power-test zero c h e = absurd (omega arith)
power-test (suc k) c h e =
    let big : 1 < c = omega (arith, two-pow-succ k, one-le-pow k 2 (omega arith)) in
    let test : bit_and c (c - 1) ≡ 0 =
      rw e (bit_and-mask (suc k) (2 ^ suc k) ∙ mod_self (2 ^ suc k)) in
    rw (lt→ltb 1 c big, test)

power-pos : (k c : ℕ) → 1 < c → c ≡ 2 ^ k → 0 < k
power-pos zero c h e = omega arith
power-pos (suc k) c h e = omega arith

capacity_of-cases :
    (c : ℕ)
    → c < 2 ^ 32
    → (PowerAbove c × (capacity_of c ≡ c)) ⊎ ((¬ PowerAbove c) × (capacity_of c ≡ 128))
unfolding capacity_of
capacity_of-cases c h = elim (Bool-cases (ltb 1 c && (bit_and c (c - 1) == 0))) [
  | inl e ↦
      let (k, eq) = power_of_two c (ground arith) (ground arith) in
      inl ((k, power-pos k c (ground arith) eq, eq), rw e)
  | inr e ↦ inr (λ (k, pos, eq). cc (power-test k c pos eq, e), rw e)
]

-- `esma_ring_buffer`'s `_init`, given memory, makes an empty valid ring: its capacity is the one
-- asked for if that is a power of two above 1, and 128 otherwise; its item size is the one asked
-- for, rounded up to a multiple of 8. The items must fit 4 GiB and the rounding must not wrap.
-- Without memory it fails.
pub init-IsValid :
    (item_size cap lock_type : ℕ)
    → cap < 2 ^ 32
    → item_size + 7 < 2 ^ 32
    → align8 item_size * capacity_of cap ≤ 2 ^ 32
    → IsValid (new_ring item_size cap lock_type)
      × (init item_size cap lock_type true ≡ some (new_ring item_size cap lock_type))
      × (init item_size cap lock_type false ≡ none)
      × (item_size ≤ align8 item_size)
      × (align8 item_size < item_size + 8)
      × (align8 item_size % 8 ≡ 0)
      × ((k : ℕ) × (capacity_of cap ≡ 2 ^ k))
      × ((PowerAbove cap × (capacity_of cap ≡ cap))
          ⊎ ((¬ PowerAbove cap) × (capacity_of cap ≡ 128)))
unfolding init
init-IsValid item_size cap lock_type h small fits =
    let (k, bound, eq) = capacity_of-pow cap h in
    let (low, high, whole) = align8-lem item_size small in
    (
      new_ring-IsValid item_size cap lock_type h fits,
      refl,
      refl,
      low,
      high,
      whole,
      (k, eq),
      capacity_of-cases cap h,
    )
