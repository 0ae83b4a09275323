-- ===== src/Echo/Master/Serves.antt =====
-- The echo server's slaves, from the start.
use esma.Base.{
  ℕ, ◌+◌, ◌^◌, ◌<◌, ◌≤◌, ◌≡◌, refl, ap, sym, ◌∙◌, Option, some, List, [], ◌∷◌, length, arith,
}
use esma.Objpool.{Objpool}
use esma.Objpool as Pool
use esma.Objpool.Stack.{IsValid, stack, contents}
use esma.Echo.Master.{init_slaves, then_put}
use esma.Echo.Master.Popped.{pushed, put-pushed, next_size, pushed-IsValid, pushed-Popped}
use esma.Echo.Master.Hall.{Hall, Reach, Orderly, count, reach-Inv, Serves, serves}

-- The pool with the slaves put into it.
abbrev pub pushed_all : List ℕ → Objpool → Objpool
pushed_all [] p = p
pushed_all (s ∷ ss) p = pushed_all ss (pushed p s)

module _ (realloc : Option (ℕ → ℕ)) where
  record Filled (ss : List ℕ) (p : Objpool) : Type 0 where
    result : init_slaves realloc ss p ≡ some (pushed_all ss p)
    valid : IsValid (pushed_all ss p)
    same : (pushed_all ss p).capacity ≡ p.capacity
    size : (pushed_all ss p).size ≡ p.size + length ss
    each : (x : ℕ) → count x (contents (pushed_all ss p)) ≡ count x ss + count x (contents p)

  fill : (ss : List ℕ) (p : Objpool) → IsValid p → p.size + length ss ≤ p.capacity → Filled ss p
  unfolding init_slaves count
  fill [] p v room = record {
    result = refl;
    valid = v;
    same = refl;
    size = omega arith;
    each = λ x. omega arith;
  }
  fill (s ∷ ss) p v room =
      let here_room : p.size < p.capacity = omega (arith, room) in
      let next = next_size s p v here_room in
      let f = fill ss (pushed p s) (pushed-IsValid s p v here_room) (omega (arith, room, next)) in
      record {
        result =
            ap (then_put (init_slaves realloc ss)) (put-pushed s p v here_room realloc) ∙ f.result;
        valid = f.valid;
        same = f.same;
        size = omega (arith, f.size, next);
        each = λ x. omega (arith, f.each x, ap (count x) (pushed-Popped s p v here_room).top);
      }

abbrev empty_pool : ℕ → (ℕ → ℕ) → Objpool
empty_pool n junk = record { capacity = n; capdelta = 0; items = junk; size = 0; min_size = 0 }

some_pool : {p q : Objpool} → some p ≡ some q → p ≡ q
some_pool h = cc

-- If esma_machine_new made all of the n slaves (n above 0 and below 2^32), none of them NULL, they all go
-- into a new pool of n; and however clients come and slaves finish from then on, if a slave puts itself
-- back only while it has a client (`slave_done_enter` does not look): each slave waits in the
-- pool or serves a client, altogether as often as it was made, and the next client gets a slave,
-- unless none waits.
pub reach-count :
    (realloc : Option (ℕ → ℕ)) (junk : ℕ → ℕ) (slaves : List ℕ) (pool : Objpool) (h : Hall)
    → count 0 slaves ≡ 0
    → 0 < length slaves
    → length slaves < 2 ^ 32
    → Pool.init (length slaves) 0 0 (some junk) ≡ some pool
    → (r : Reach realloc (record { pool = pushed_all slaves pool; busy = [] }) h) → Orderly r
    → (init_slaves realloc slaves pool ≡ some (pushed_all slaves pool))
      × ((x : ℕ) → count x (contents h.pool) + count x h.busy ≡ count x slaves)
      × Serves h
unfolding Pool.init stack count
reach-count realloc junk slaves pool h real pos small made r orderly =
    let same : empty_pool (length slaves) junk ≡ pool = some_pool made in
    let cap : length slaves ≡ pool.capacity = ap (λ (p : Objpool). p.capacity) same in
    let none_yet : 0 ≡ pool.size = ap (λ (p : Objpool). p.size) same in
    let v : IsValid pool = record {
      size_in = omega (arith, none_yet);
      cap_pos = omega (arith, cap);
      cap_word = omega (arith, cap);
    } in
    let f = fill realloc slaves pool v (omega (arith, cap, none_yet)) in
    let i =
      reach-Inv realloc slaves real (record { pool = pushed_all slaves pool; busy = [] }) h r
        (record {
          valid = f.valid;
          room = omega (arith, f.same, cap);
          total = omega (arith, f.size, none_yet);
          each = λ x.
              omega (arith, f.each x, ap (λ (n : ℕ). count x (stack pool.items n)) (sym none_yet));
        })
        orderly in
    (f.result, i.each, serves realloc slaves real h i)
