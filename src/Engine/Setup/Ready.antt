-- ===== src/Engine/Setup/Ready.antt =====
-- The engine that esma_engine_init leaves.
use esma.Base.{
  ℕ, zero, suc, ◌+◌, ◌-◌, ◌*◌, ◌^◌, ◌<◌, ◌≤◌, ◌≡◌, refl, ap, ap₂, sym, subst, ◌⊎◌, inl, inr, Bool,
  true, false, Option, none, some, [], ◌∷◌, ltb, ltb→lt, if◌then◌else◌, Bool-cases, arith,
}
use esma.Engine.Types.{Name}
use esma.Engine.Load.{codes}
use esma.Ring.{RingBuffer, align8, capacity_of, init}
use esma.Ring.Create.{init_locked}
use esma.Ring.Valid.{IsValid, align8-lem, new_ring, new_ring-IsValid}
use esma.Ring.Fifo.{contents, contents-empty}
use esma.Mempool as Pool
use esma.Mempool.{Mempool, Result, new_addr, add_page, failed, value, fault, page_at, page_blocks}
use esma.Mempool.Chains.{Chain, Distinct, page_list, Distinct-page_list, init_blocks-Chain}
use esma.Engine.Setup.{
  Started, exited, refused, started, queue_init, Engine, Setup, exits, ready, name_or, with_pool,
  with_queue, with_reactor, with_apis, engine_init,
}

-- The init does not return 0.
abbrev pub Fails : {A : Type 0} → Started A → Type 0
Fails a = (a ≡ exited) ⊎ (a ≡ refused)

started-Fails : {A : Type 0} (a : A) → Fails (started a) → ⊥
started-Fails a (inl e) = cc
started-Fails a (inr e) = cc

-- Why there is no queue: the type of lock is none of 1 to 3, there is no mutex, or there is no memory.
abbrev pub NoQueue : ℕ → Bool → Bool → Type 0
NoQueue lock_type mutex_made allocated =
    ((lock_type ≡ 0) ⊎ (4 ≤ lock_type))
    ⊎ (((lock_type ≡ 2) × (mutex_made ≡ false)) ⊎ (allocated ≡ false))

-- The lock types.
lock_cases : (n : ℕ) → ((n ≡ 1) ⊎ ((n ≡ 2) ⊎ (n ≡ 3))) ⊎ ((n ≡ 0) ⊎ (4 ≤ n))
lock_cases zero = inr (inl refl)
lock_cases (suc zero) = inl (inl refl)
lock_cases (suc (suc zero)) = inl (inr (inl refl))
lock_cases (suc (suc (suc zero))) = inl (inr (inr refl))
lock_cases (suc (suc (suc (suc n)))) = inr (inr (omega arith))

queue_unknown :
    (size lock_type : ℕ) (mutex_made allocated : Bool)
    → (lock_type ≡ 0) ⊎ (4 ≤ lock_type)
    → queue_init size mutex_made allocated lock_type ≡ exited
unfolding queue_init
queue_unknown size lock_type mutex_made allocated h = ground arith

abbrev Outcome : ℕ → Bool → Bool → ℕ → Type 0
Outcome size mutex_made allocated lock_type =
    (queue_init size mutex_made allocated lock_type ≡ started (new_ring size 128 lock_type))
    ⊎ (Fails (queue_init size mutex_made allocated lock_type)
        × NoQueue lock_type mutex_made allocated)

without-Outcome : (size : ℕ) (mutex_made allocated : Bool) → Outcome size mutex_made allocated 1
unfolding queue_init init_locked init
without-Outcome size mutex_made true = inl refl
without-Outcome size mutex_made false = inr (inr refl, inr (inr refl))

mutex-Outcome : (size : ℕ) (mutex_made allocated : Bool) → Outcome size mutex_made allocated 2
unfolding queue_init init_locked init
mutex-Outcome size true true = inl refl
mutex-Outcome size true false = inr (inr refl, inr (inr refl))
mutex-Outcome size false allocated = inr (inr refl, inr (inl (refl, refl)))

cmpxchg-Outcome : (size : ℕ) (mutex_made allocated : Bool) → Outcome size mutex_made allocated 3
unfolding queue_init init_locked init
cmpxchg-Outcome size mutex_made true = inl refl
cmpxchg-Outcome size mutex_made false = inr (inr refl, inr (inr refl))

queue_known :
    (size lock_type : ℕ) (mutex_made allocated : Bool)
    → (lock_type ≡ 1) ⊎ ((lock_type ≡ 2) ⊎ (lock_type ≡ 3))
    → Outcome size mutex_made allocated lock_type
queue_known size lock_type mutex_made allocated (inl e) =
    subst (Outcome size mutex_made allocated) (sym e) (without-Outcome size mutex_made allocated)
queue_known size lock_type mutex_made allocated (inr (inl e)) =
    subst (Outcome size mutex_made allocated) (sym e) (mutex-Outcome size mutex_made allocated)
queue_known size lock_type mutex_made allocated (inr (inr e)) =
    subst (Outcome size mutex_made allocated) (sym e) (cmpxchg-Outcome size mutex_made allocated)

queue_init-cases :
    (size lock_type : ℕ) (mutex_made allocated : Bool) → Outcome size mutex_made allocated lock_type
queue_init-cases size lock_type mutex_made allocated = elim (lock_cases lock_type) [
  | inl h ↦ queue_known size lock_type mutex_made allocated h
  | inr h ↦ inr (inl (queue_unknown size lock_type mutex_made allocated h), inl h)
]

-- The pool of a page at `a`, as the only one: its free blocks of the size, each once.
pub record NewPool (a size : ℕ) (mp : Mempool) : Type 0 where
  pub block_size : ℕ
  pub sized : mp.block_size ≡ block_size
  pub wide : size ≤ block_size
  pub chain : Chain mp.next mp.blocks (page_list a (page_blocks - 1) block_size)
  pub once : Distinct (page_list a (page_blocks - 1) block_size)
  pub all : mp.nblocks ≡ page_blocks
  pub pages : mp.addr ≡ some (a ∷ [])

wide-lem :
    (size : ℕ)
    → size + 7 < 2 ^ 32
    → (size ≤ align8 (if ltb 8 size then size else 8))
      × (0 < align8 (if ltb 8 size then size else 8))
unfolding align8
wide-lem size h = elim (Bool-cases (ltb 8 size)) [
  | inl e ↦
      let (low, high, whole) = align8-lem size h in rw e (low, omega (arith, low, ltb→lt 8 size e))
  | inr e ↦ rw e (ground arith, omega arith)
]

init-NewPool :
    (mp : Mempool) (size a : ℕ)
    → size + 7 < 2 ^ 32
    → (mp' : Mempool) × (Pool.init mp size true (some a) ≡ value tt mp') × NewPool a size mp'
unfolding Pool.init new_addr add_page page_at
init-NewPool mp size a h =
    let (wide, pos) = wide-lem size h in
    let old : Mempool = record mp {
      block_size = align8 (if ltb 8 size then size else 8);
      addr = some [];
    } in
    (
      page_at old [] a,
      refl,
      record {
        block_size = old.block_size;
        sized = refl;
        wide = wide;
        chain = init_blocks-Chain mp.next a (page_blocks - 1) old.block_size pos;
        once = Distinct-page_list a (page_blocks - 1) old.block_size pos;
        all = refl;
        pages = refl;
      },
    )

module _ {R : Type 0} (message_size machine_size lock_type : ℕ) where
  -- An engine with this reactor, an empty queue for 128 messages and a pool of the page at `a`.
  pub record IsReady (r : R) (a : ℕ) (e : Engine R RingBuffer) : Type 0 where
    pub reactor : e.reactor ≡ r
    pub queue : IsValid e.queue
    pub empty : contents e.queue ≡ []
    pub room : e.queue.cap ≡ 128
    pub lock : e.queue.lock_type ≡ lock_type
    pub machines : NewPool a machine_size e.machine_pool

  module _ (mutex_made allocated realloc : Bool) (malloc : Option ℕ) where
    -- Either the engine is ready, or the program exits because something was refused.
    abbrev pub Ends : Started R → Setup R RingBuffer → Type 0
    Ends opened result =
        ((r : R) × (a : ℕ) × (e : Engine R RingBuffer) × (opened ≡ started r)
          × (malloc ≡ some a)
          × (result ≡ ready e)
          × IsReady r a e)
        ⊎ ((result ≡ exits)
            × (Fails opened
                ⊎ (NoQueue lock_type mutex_made allocated ⊎ ((realloc ≡ false) ⊎ (malloc ≡ none)))))

    module _ (pool : Mempool) (fits : align8 message_size * 128 ≤ 2 ^ 32)
        (small : machine_size + 7 < 2 ^ 32) where
      pool-Ends :
          (r : R) (b : Bool) (m : Option ℕ)
          → realloc ≡ b
          → malloc ≡ m
          → Ends (started r) (
              with_pool pool machine_size b m r
                (new_ring message_size 128 lock_type)
                (Pool.init pool machine_size b m))
      unfolding Pool.init new_addr add_page capacity_of
      pool-Ends r false m e e' = inr (refl, inr (inr (inl e)))
      pool-Ends r true none e e' = inr (refl, inr (inr (inr e')))
      pool-Ends r true (some a) e e' =
          let (mp, made, new) = init-NewPool pool machine_size a small in
          let ring = new_ring message_size 128 lock_type in
          inl (
            r,
            a,
            record { reactor = r; queue = ring; machine_pool = mp },
            refl,
            e',
            ap (with_pool pool machine_size true (some a) r ring) made,
            record {
              reactor = refl;
              queue = new_ring-IsValid message_size 128 lock_type (omega arith) fits;
              empty = contents-empty ring refl;
              room = refl;
              lock = refl;
              machines = new;
            },
          )

      queue-Ends :
          (r : R) (q : Started RingBuffer)
          → (q ≡ started (new_ring message_size 128 lock_type))
            ⊎ (Fails q × NoQueue lock_type mutex_made allocated)
          → Ends (started r) (with_queue pool machine_size realloc malloc r q)
      queue-Ends r q (inl e) =
          subst
            (λ (x : Started RingBuffer).
              Ends (started r) (with_queue pool machine_size realloc malloc r x))
            (sym e) (pool-Ends r realloc malloc refl refl)
      queue-Ends r exited (inr (f, no_queue)) = inr (refl, inr (inl no_queue))
      queue-Ends r refused (inr (f, no_queue)) = inr (refl, inr (inl no_queue))
      queue-Ends r (started q) (inr (f, no_queue)) = absurd (started-Fails q f)

      reactor-Ends :
          (s : Started R)
          → Ends s (
              with_reactor pool machine_size realloc malloc s
                (queue_init message_size mutex_made allocated)
                lock_type)
      reactor-Ends exited = inr (refl, inl (inl refl))
      reactor-Ends refused = inr (refl, inl (inr refl))
      reactor-Ends (started r) =
          queue-Ends r (queue_init message_size mutex_made allocated lock_type)
            (queue_init-cases message_size lock_type mutex_made allocated)

      -- If get_api finds the reactor and the message queue, the messages fit 4 GiB and a machine is at least
      -- 8 bytes smaller than that: esma_engine_init either returns 0 and an engine with the
      -- reactor as its init left it for 32 events, a valid empty queue for 128 messages and a
      -- machine pool whose free blocks on the page are those of one new page, each once; or the
      -- program exits, and then the reactor's init failed, the type of lock is none of 1 to 3 or its
      -- mutex could not be made, or there was no memory.
      pub init-Ends :
          (get_reactor : Name → Option (ℕ → Started R))
          (get_queue : Name → Option (ℕ → Started RingBuffer))
          (reactor_name queue_name : Option Name) (open_reactor : ℕ → Started R)
          → get_reactor (name_or reactor_name (codes "reactor_epoll")) ≡ some open_reactor
          → get_queue (name_or queue_name (codes "msg_queue_ring_buffer"))
            ≡ some (queue_init message_size mutex_made allocated)
          → Ends (open_reactor 32) (
              engine_init pool machine_size realloc malloc get_reactor get_queue reactor_name
                queue_name lock_type)
      unfolding engine_init
      init-Ends get_reactor get_queue reactor_name queue_name open_reactor found found' =
          subst (Ends (open_reactor 32))
            (sym (
              ap₂
                (λ (x : Option (ℕ → Started R)) (y : Option (ℕ → Started RingBuffer)).
                  with_apis pool machine_size realloc malloc x y lock_type)
                found found'))
            (reactor-Ends (open_reactor 32))
