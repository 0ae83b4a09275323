-- ===== src/Ring.antt =====
-- The ring buffer of core/esma_ring_buffer.c, without its locks (Ring/Lock.antt has those).
-- A function that updates `*rb` returns the new ring beside its result. Item pointers are byte
-- offsets from `rb->data`; a client reads and writes the item that it is handed through them.
pub mod Valid
pub mod Fifo
pub mod Expand
pub mod Wrapped
pub mod Lock
pub mod History
pub mod Create
use esma.Base.{
  ℕ, ◌+◌, ◌-◌, ◌*◌, ◌%◌, ◌^◌, Bool, true, false, not, ◌&&◌, Option, none, some, bit_and, ltb, ◌==◌,
  if◌then◌else◌,
}
use esma.Base.Bytes.{u32, sub32, Memory, memmove, grown}

-- `struct esma_ring_buffer`; `bytes` is the size of the block at `data`, which C does not keep.
pub record RingBuffer : Type 0 where
  pub memory : Memory
  pub bytes : ℕ
  pub item_size : ℕ
  pub tail : ℕ
  pub head : ℕ
  pub mask : ℕ
  pub size : ℕ
  pub cap : ℕ
  pub lock_type : ℕ

abbrev pub rb_default_size : ℕ
rb_default_size = 128

-- `ALIGN(x, 8)` on `u32`
unfoldable pub align8 : ℕ → ℕ
align8 x = bit_and (u32 (x + 7)) 0xffff_fff8

-- The capacity that `_init` takes for the one asked for.
unfoldable pub capacity_of : ℕ → ℕ
capacity_of cap = if ltb 1 cap && (bit_and cap (cap - 1) == 0) then cap else rb_default_size

-- `_init`; `allocated` says whether `esma_calloc` returned memory.
unfoldable pub init : ℕ → ℕ → ℕ → Bool → Option RingBuffer
unfolding align8 capacity_of
init item_size cap lock_type allocated =
    let c = capacity_of cap in
    let isz = align8 item_size in
    if not allocated
    then none
    else some (record {
      memory = λ _. 0;
      bytes = isz * c;
      item_size = isz;
      tail = 0;
      head = 2 ^ 32 - 1;
      mask = c - 1;
      size = 0;
      cap = c;
      lock_type = lock_type;
    })

-- `rb->item_size * i`, a product of two `u32`
unfoldable pub slot : RingBuffer → ℕ → ℕ
slot r i = u32 (r.item_size * i)

-- What `realloc` did: nothing, or a block in the same place, or one elsewhere. The bytes past the
-- old block are arbitrary.
pub data Realloc : Type 0 where
  failed : Realloc
  in_place : Memory → Realloc
  moved : Memory → Realloc

-- `fault`: the code reads or writes the block that `realloc` has freed.
pub data Expanded : Type 0 where
  refused : Expanded
  fault : Expanded
  grown_to : RingBuffer → Expanded

-- `rb->data`, `rb->mask` and `rb->cap` set to the new block.
unfoldable pub enlarge : RingBuffer → Memory → RingBuffer
unfolding grown
enlarge r junk =
    let newcap = u32 (r.cap * 2) in
    record r {
      memory = grown r.bytes r.memory junk;
      bytes = u32 (r.item_size * newcap);
      mask = sub32 newcap 1;
      cap = newcap;
    }

-- The `memmove` under `if (rb->head != rb->cap - 1)`; `r` has the memory that it works on.
unfoldable pub shift_unread : RingBuffer → RingBuffer
unfolding slot memmove
shift_unread r =
    let delta = sub32 r.cap r.head in
    let unread = slot r r.head in
    record r {
      memory = memmove unread (unread + delta) (u32 (delta * r.item_size)) r.memory;
      head = u32 (r.head + delta);
    }

unfoldable pub is_wrapped : RingBuffer → Bool
is_wrapped r = not (r.head == sub32 r.cap 1)

-- The two together: the move is computed with the old capacity.
unfoldable pub expand_in : RingBuffer → Memory → RingBuffer
unfolding enlarge shift_unread is_wrapped
expand_in r junk =
    let big = enlarge r junk in
    if is_wrapped r
    then (let moved_up = shift_unread (record r { memory = big.memory }) in
        record big { memory = moved_up.memory; head = moved_up.head })
    else big

unfoldable pub expand : RingBuffer → Realloc → Expanded
unfolding expand_in
expand r failed = refused
expand r (in_place junk) = grown_to (expand_in r junk)
expand r (moved junk) = if is_wrapped r then fault else grown_to (expand_in r junk)

-- `_get`: NULL, or the offset of the oldest item.
unfoldable pub get : RingBuffer → Option ℕ × RingBuffer
unfolding slot
get r = if r.size == 0 then (none, r) else (
  some (slot r r.tail),
  record r { size = sub32 r.size 1; tail = bit_and (u32 (r.tail + 1)) r.mask },
)

pub data Put : Type 0 where
  null : Put
  crash : Put
  at : ℕ → RingBuffer → Put

-- the second half of `_put`
unfoldable pub put_next : RingBuffer → Put
unfolding slot
put_next r =
    let head' = bit_and (u32 (r.head + 1)) r.mask in
    at (slot r head') (record r { size = u32 (r.size + 1); head = head' })

unfoldable pub put_expanded : Expanded → Put
unfolding put_next
put_expanded refused = null
put_expanded fault = crash
put_expanded (grown_to r) = put_next r

-- `_put`; the outcome of a `realloc` is looked at only by a full ring.
unfoldable pub put : RingBuffer → Realloc → Put
unfolding expand put_expanded
put r outcome = if r.size == r.cap then put_expanded (expand r outcome) else put_next r
