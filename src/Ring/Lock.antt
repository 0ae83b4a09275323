-- ===== src/Ring/Lock.antt =====
-- `_get_cmpxchg` and `_put_cmpxchg`: threads that share a ring behind the spin lock `is_unlock`.
-- `lock cmpxchg` is atomic; the store that frees the lock is a plain one, and nothing tells the compiler
-- to keep it behind the stores of the body: where these are not `ordered`, the lock may be free
-- before they are made. The call of `_get` or `_put` under the lock is not atomic: a thread first reads
-- the ring and later writes it. The threads are a
-- function from their numbers, and a step is one thread's; any interleaving is a path of steps.
use native.Mathlib.Decide.{ℕ_discrete}
use mathlib.Core.Logic.{ite}
use esma.Base.{ℕ, ◌≡◌, ◌≢◌, Bool, true, false, List, [], ◌∷◌, ◌==◌, if◌then◌else◌}
use esma.Ring.{RingBuffer, Put, at, Realloc, get, put}

-- The call that a thread makes, with what `realloc` would do.
pub data Call : Type 0 where
  call_get : Call
  call_put : Realloc → Call

put_ring : RingBuffer → Put → RingBuffer
put_ring r (at off r') = r'
put_ring r other = r

-- What the body under the lock leaves of the ring that it read.
pub body : RingBuffer → Call → RingBuffer
unfolding put_ring
body r call_get = (get r).1
body r (call_put outcome) = put_ring r (put r outcome)

-- `is_unlock`: compare with 0 and set to 1; the lock word, and whether they were equal.
unfoldable pub is_unlock : ℕ → Bool × ℕ
is_unlock word = if word == 0 then (true, 1) else (false, word)

-- Where a thread stands: outside, in `while (1)`, under the lock before the ring is read, with the
-- ring read, about to run `rb->lock.cmpxchg = 0`, or with the lock freed before its stores.
pub data Pc : Type 0 where
  outside : Pc
  spinning : Call → Pc
  locked : Call → Pc
  loaded : Call → RingBuffer → Pc
  leaving : Pc
  late : Call → RingBuffer → Pc

unfoldable pub holds : Pc → Bool
holds outside = false
holds (spinning c) = false
holds (locked c) = true
holds (loaded c r) = true
holds leaving = true
holds (late c r) = true

-- `done` lists the calls whose result is in the ring, the last one first.
pub record Shared : Type 0 where
  pub word : ℕ
  pub ring : RingBuffer
  pub pc : ℕ → Pc
  pub done : List Call

unfoldable pub update : (ℕ → Pc) → ℕ → Pc → ℕ → Pc
update f i p j = ite (ℕ_discrete i j) p (f j)

unfoldable pub try_lock : Shared → ℕ → Call → Shared
unfolding is_unlock update
try_lock s i c =
    let (got, word') = is_unlock s.word in
    record s { word = word'; pc = update s.pc i (if got then locked c else spinning c) }

-- One step of thread `i`.
pub data Step (ordered : Bool) (s : Shared) : Shared → Type 0 where
  enter :
      (i : ℕ) (c : Call)
      → s.pc i ≡ outside
      → Step ordered s (record s { pc = update s.pc i (spinning c) })
  try : (i : ℕ) (c : Call) → s.pc i ≡ spinning c → Step ordered s (try_lock s i c)
  load :
      (i : ℕ) (c : Call)
      → s.pc i ≡ locked c
      → Step ordered s (record s { pc = update s.pc i (loaded c s.ring) })
  store :
      (i : ℕ) (c : Call) (seen : RingBuffer)
      → s.pc i ≡ loaded c seen
      → Step ordered s
          (record s { ring = body seen c; pc = update s.pc i leaving; done = c ∷ s.done })
  leave :
      (i : ℕ)
      → s.pc i ≡ leaving
      → Step ordered s (record s { word = 0; pc = update s.pc i outside })
  free_early :
      (i : ℕ) (c : Call) (seen : RingBuffer)
      → ordered ≡ false
      → s.pc i ≡ loaded c seen
      → Step ordered s (record s { word = 0; pc = update s.pc i (late c seen) })
  store_late :
      (i : ℕ) (c : Call) (seen : RingBuffer)
      → ordered ≡ false
      → s.pc i ≡ late c seen
      → Step ordered s
          (record s { ring = body seen c; pc = update s.pc i outside; done = c ∷ s.done })

pub data Reach (ordered : Bool) (s : Shared) : Shared → Type 0 where
  start : Reach ordered s s
  next : {t u : Shared} → Reach ordered s t → Step ordered t u → Reach ordered s u

-- The ring after the calls of a list, one after another (the last one first in the list).
unfoldable pub after : RingBuffer → List Call → RingBuffer
after r [] = r
after r (c ∷ cs) = body (after r cs) c

abbrev pub initial : RingBuffer → Shared
initial r = record { word = 0; ring = r; pc = λ _. outside; done = [] }

-- True of the start and kept by every step.
record Inv (r : RingBuffer) (s : Shared) : Type 0 where
  taken : (i : ℕ) → holds (s.pc i) ≡ true → s.word ≢ 0
  alone : (i j : ℕ) → holds (s.pc i) ≡ true → holds (s.pc j) ≡ true → i ≡ j
  fresh : (i : ℕ) (c : Call) (seen : RingBuffer) → s.pc i ≡ loaded c seen → seen ≡ s.ring
  serial : s.ring ≡ after r s.done
