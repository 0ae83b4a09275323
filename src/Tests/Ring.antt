-- ===== src/Tests/Ring.antt =====
-- core/esma_ring_buffer.c at concrete rings of four items of eight bytes.
use esma.Base.{◌⊎◌, none, some, ℕ, ◌+◌, ◌<◌, ◌≤◌, ◌%◌, ◌≡◌, refl, List, [], ◌∷◌, ◌++◌, arith}
use esma.Ring.{RingBuffer, get, put, null, crash, at, failed, in_place, moved}
use esma.Ring.Valid.{IsValid}
use esma.Ring.Fifo.{Item, contents, fill, put-append, get-pop}
use esma.Base.Bytes.{read}
use esma.Ring.Expand.{CanGrow, put-expand}
use esma.Ring.Wrapped.{put-wrapped}
use esma.Ring.History.{Op, enqueue, dequeue, run, run_queue, run-queue}
use esma.Ring.Lock.{
  call_get, Shared, next, initial, try_lock, body, update, outside, spinning, loaded, leaving,
}

abbrev ring : ℕ → ℕ → ℕ → RingBuffer
ring tail head size = record {
  memory = λ a. a;
  bytes = 32;
  item_size = 8;
  tail = tail;
  head = head;
  mask = 3;
  size = size;
  cap = 4;
  lock_type = 0;
}

abbrev item : Item
item = 1 ∷ 2 ∷ 3 ∷ 4 ∷ 5 ∷ 6 ∷ 7 ∷ 8 ∷ []

ring-IsValid :
    (tail head size : ℕ)
    → tail < 4
    → head < 4
    → size ≤ 4
    → (head + 1) % 4 ≡ (tail + size) % 4
    → IsValid (ring tail head size)
ring-IsValid tail head size t h s e = record {
  log = 2;
  log_small = omega arith;
  cap_pow = refl;
  mask_eq = refl;
  size_in = s;
  tail_in = t;
  head_in = λ _. h;
  next = e;
  storage = omega arith;
  fits = omega arith;
}

two-IsValid : IsValid (ring 1 2 2)
two-IsValid = ring-IsValid 1 2 2 (omega arith) (omega arith) (omega arith) refl

put-append_example :
    (off : ℕ) × (r' : RingBuffer) × (put (ring 1 2 2) failed ≡ at off r')
    × IsValid (fill r' off item)
    × (contents (fill r' off item) ≡ contents (ring 1 2 2) ++ item ∷ [])
    × (r'.cap ≡ 4)
put-append_example = put-append item failed two-IsValid (omega arith) refl

get-pop_example :
    (((ring 1 2 2).size ≡ 0)
      × (get (ring 1 2 2) ≡ (none, ring 1 2 2))
      × (contents (ring 1 2 2) ≡ []))
    ⊎ ((off : ℕ) × (r' : RingBuffer) × (get (ring 1 2 2) ≡ (some off, r'))
        × IsValid r'
        × (contents (ring 1 2 2)
            ≡ read (ring 1 2 2).memory off (ring 1 2 2).item_size ∷ contents r')
        × (r'.cap ≡ (ring 1 2 2).cap))
get-pop_example = get-pop two-IsValid

full-CanGrow : (tail head : ℕ) → IsValid (ring tail head 4) → CanGrow (ring tail head 4)
full-CanGrow tail head v = record {
  valid = v;
  full = refl;
  fits = omega arith;
  small = omega arith;
}

put-expand_example :
    (put (ring 0 3 4) failed ≡ null)
    × ((off : ℕ) × (r' : RingBuffer) × (put (ring 0 3 4) (moved (λ a. 0)) ≡ at off r')
        × IsValid (fill r' off item)
        × (contents (fill r' off item) ≡ contents (ring 0 3 4) ++ item ∷ [])
        × (r'.cap ≡ 8))
put-expand_example =
    put-expand item (λ a. 0) (moved (λ a. 0))
      (full-CanGrow 0 3 (ring-IsValid 0 3 4 (omega arith) (omega arith) (omega arith) refl)) refl
      refl refl

put-wrapped_example :
    (put (ring 2 1 4) (moved (λ a. 0)) ≡ crash)
    × ((r' : RingBuffer) × (put (ring 2 1 4) (in_place (λ a. 0)) ≡ at 40 r')
        × ((off : ℕ) (x : Item) → ¬ IsValid (fill r' off x)))
put-wrapped_example =
    put-wrapped
      (full-CanGrow 2 1 (ring-IsValid 2 1 4 (omega arith) (omega arith) (omega arith) refl))
      (omega arith) (λ a. 0)

abbrev calls : List Op
calls = enqueue item failed ∷ dequeue ∷ dequeue ∷ dequeue ∷ dequeue ∷ []

run-queue_example : run (ring 1 2 2) calls ≡ run_queue (contents (ring 1 2 2)) calls
run-queue_example = run-queue calls two-IsValid (omega arith, refl, tt)

-- Thread 0 takes the lock, reads the ring and writes it back; thread 1 spins.
abbrev entered : Shared
entered = record (initial (ring 1 2 2)) { pc = update (λ _. outside) 0 (spinning call_get) }

abbrev waiting : Shared
waiting = record (try_lock entered 0 call_get) {
  pc = update ((try_lock entered 0 call_get).pc) 1 (spinning call_get);
}

abbrev held : Shared
held = try_lock waiting 1 call_get

abbrev seen : Shared
seen = record held { pc = update held.pc 0 (loaded call_get held.ring) }

abbrev written : Shared
written = record seen {
  ring = body held.ring call_get;
  pc = update seen.pc 0 leaving;
  done = call_get ∷ seen.done;
}
