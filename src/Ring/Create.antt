-- ===== src/Ring/Create.antt =====
-- esma_ring_buffer_init and esma_ring_buffer_new: the kinds of lock and the failures on the way.
use native.Mathlib.Decide.{dec_lt}
use esma.Base.{
  ℕ, ◌*◌, ◌^◌, ◌<◌, ◌≤◌, ◌≡◌, refl, ◌⊎◌, inl, inr, Bool, true, false, Option, none, some, arith,
  ◌==◌, if◌then◌else◌,
}
use esma.Ring.{RingBuffer, align8, capacity_of, init}
use esma.Ring.Valid.{IsValid, new_ring, new_ring-IsValid}

-- ESMA_RING_BUFFER_…
abbrev pub without_lock : ℕ
without_lock = 1

abbrev pub mutex : ℕ
mutex = 2

abbrev pub cmpxchg : ℕ
cmpxchg = 3

-- `esma_ring_buffer_init`; `mutex_made` says whether `pthread_mutex_init` succeeded. The functions
-- for get and put follow from `lock_type`.
unfoldable pub init_locked : ℕ → ℕ → ℕ → Bool → Bool → Option RingBuffer
unfolding init
init_locked item_size cap lock_type mutex_made allocated =
    if lock_type == without_lock
    then init item_size cap lock_type allocated
    else if lock_type == cmpxchg
    then init item_size cap lock_type allocated
    else if lock_type == mutex
    then (if mutex_made then init item_size cap lock_type allocated else none)
    else none

-- `esma_ring_buffer_new`; `header` says whether there is memory for the structure.
unfoldable pub new_locked : Bool → ℕ → ℕ → ℕ → Bool → Bool → Option RingBuffer
unfolding init_locked
new_locked false item_size cap lock_type mutex_made allocated = none
new_locked true item_size cap lock_type mutex_made allocated =
    init_locked item_size cap lock_type mutex_made allocated

known :
    (item_size cap lock_type : ℕ)
    → 0 < lock_type
    → lock_type < 4
    → new_locked true item_size cap lock_type true true ≡ some (new_ring item_size cap lock_type)
unfolding new_locked
known item_size cap lock_type h k = ground arith

unknown :
    (item_size cap lock_type : ℕ)
    → (lock_type ≡ 0) ⊎ (4 ≤ lock_type)
    → new_locked true item_size cap lock_type true true ≡ none
unfolding new_locked
unknown item_size cap lock_type h = ground arith

no_memory :
    (item_size cap lock_type : ℕ) (mutex_made : Bool)
    → new_locked true item_size cap lock_type mutex_made false ≡ none
unfolding new_locked
no_memory item_size cap lock_type mutex_made = ground arith

kind_cases :
    (lock_type : ℕ) → ((0 < lock_type) × (lock_type < 4)) ⊎ ((lock_type ≡ 0) ⊎ (4 ≤ lock_type))
kind_cases lock_type = elim (dec_lt lock_type 4) [
  | yes h ↦ elim (dec_lt 0 lock_type) [ yes k ↦ inl (k, h) | no k ↦ inr (inl (omega arith)) ]
  | no h ↦ inr (inr (omega arith))
]

-- `esma_ring_buffer_new` with memory and, for a mutex, its initialisation: for the lock types 1 to
-- 3 it gives an empty valid ring (whose items fit 4 GiB), for any other type NULL. Without memory
-- for the structure or for the items it gives NULL.
pub new_locked-IsValid :
    (item_size cap lock_type : ℕ) (mutex_made allocated : Bool)
    → cap < 2 ^ 32
    → align8 item_size * capacity_of cap ≤ 2 ^ 32
    → (((0 < lock_type)
          × (lock_type < 4)
          × (new_locked true item_size cap lock_type true true
              ≡ some (new_ring item_size cap lock_type))
          × IsValid (new_ring item_size cap lock_type))
        ⊎ (((lock_type ≡ 0) ⊎ (4 ≤ lock_type))
            × (new_locked true item_size cap lock_type true true ≡ none)))
      × (new_locked false item_size cap lock_type mutex_made allocated ≡ none)
      × (new_locked true item_size cap lock_type mutex_made false ≡ none)
unfolding new_locked
new_locked-IsValid item_size cap lock_type mutex_made allocated h fits =
    let made = new_ring-IsValid item_size cap lock_type h fits in
    (
      elim (kind_cases lock_type) [
        | inl (k, l) ↦ inl (k, l, known item_size cap lock_type k l, made)
        | inr o ↦ inr (o, unknown item_size cap lock_type o)
      ],
      refl,
      no_memory item_size cap lock_type mutex_made,
    )
