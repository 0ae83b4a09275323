-- ===== src/Ring/History.antt =====
-- Whole histories of a ring: the calls of a client, and what it sees of them.
use native.Mathlib.Decide.{dec_lt}
use esma.Base.{
  ℕ, ◌+◌, ◌-◌, ◌*◌, ◌%◌, ◌<◌, ◌≡◌, refl, ap, subst, ◌∙◌, Option, some, none, List, [], ◌∷◌, ◌++◌,
  length, arith,
}
use esma.Base.Bytes.{read}
use esma.Ring.{RingBuffer, Put, null, crash, at, Realloc, get, put}
use esma.Ring.Valid.{IsValid, enqueued-IsValid, get-some, get-none, dequeued-IsValid}
use esma.Ring.Fifo.{
  Item, contents, fill, fill-IsValid, fill-contents, dequeue-contents, put-room, contents-empty,
}

-- What a client does: put an item, through the slot that it is handed, or get one. `outcome` is
-- what `realloc` would do.
pub data Op : Type 0 where
  enqueue : (x : Item) (outcome : Realloc) → Op
  dequeue : Op

pub data Reply : Type 0 where
  stored : Reply
  no_room : Reply
  faulted : Reply
  taken : Option Item → Reply

fetch : RingBuffer → Option ℕ → Option Item
fetch r none = none
fetch r (some off) = some (read r.memory off r.item_size)

after_put : Item → RingBuffer → Put → Reply × RingBuffer
after_put x r null = (no_room, r)
after_put x r crash = (faulted, r)
after_put x r (at off r') = (stored, fill r' off x)

pub do_op : RingBuffer → Op → Reply × RingBuffer
unfolding after_put fetch
do_op r (enqueue x outcome) = after_put x r (put r outcome)
do_op r dequeue = let (p, r') = get r in (taken (fetch r p), r')

pub run : RingBuffer → List Op → List Reply
run r [] = []
run r (op ∷ ops) = let (reply, r') = do_op r op in reply ∷ run r' ops

-- The queue that a client may think of.
pub run_queue : List Item → List Op → List Reply
run_queue q [] = []
run_queue q (enqueue x outcome ∷ ops) = stored ∷ run_queue (q ++ x ∷ []) ops
run_queue [] (dequeue ∷ ops) = taken none ∷ run_queue [] ops
run_queue (x ∷ q) (dequeue ∷ ops) = taken (some x) ∷ run_queue q ops

-- With `n` items stored, no put of `ops` meets a full ring, and all items have `isz` bytes.
abbrev pub Within : ℕ → ℕ → ℕ → List Op → Type 0
Within isz cap n [] = Unit
Within isz cap n (enqueue x outcome ∷ ops) =
    (n < cap) × (length x ≡ isz) × Within isz cap (n + 1) ops
Within isz cap n (dequeue ∷ ops) = Within isz cap (n - 1) ops

-- As long as no put meets a full ring, no sequence of calls tells a valid ring from the queue of
-- its contents, and no call fails.
pub run-queue :
    (ops : List Op) {r : RingBuffer}
    → IsValid r
    → Within r.item_size r.cap r.size ops
    → run r ops ≡ run_queue (contents r) ops
unfolding run run_queue do_op
run-queue [] v w = refl
run-queue (enqueue x outcome ∷ ops) {r} v (room, len, w) =
    let off = r.item_size * ((r.tail + r.size) % r.cap) in
    rw (put-room outcome v room) (
      ap (λ l. stored ∷ l)
        (run-queue ops (fill-IsValid off x (enqueued-IsValid v room)) w
          ∙ ap (λ q. run_queue q ops) (fill-contents x v room len)))
run-queue (dequeue ∷ ops) {r} v w = elim (dec_lt 0 r.size) [
  | yes more ↦
      rw (get-some v more, dequeue-contents v more)
        (ap (λ l. taken (some (read r.memory (r.item_size * r.tail) r.item_size)) ∷ l)
          (run-queue ops (dequeued-IsValid v more) w))
  | no empty ↦
      let e : r.size ≡ 0 = omega arith in
      let same =
        subst (λ n. Within r.item_size r.cap n ops) {x = r.size - 1} {y = r.size} (omega arith) w in
      rw (get-none r e, contents-empty r e)
        (ap (λ l. taken none ∷ l)
          (run-queue ops v same ∙ ap (λ q. run_queue q ops) (contents-empty r e)))
]
