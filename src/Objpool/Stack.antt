-- ===== src/Objpool/Stack.antt =====
-- A pool stands for the stack of its pointers, the newest first.
use native.Mathlib.Decide.{ℕ_discrete}
use esma.Base.{
  ℕ, zero, suc, ◌+◌, ◌-◌, ◌^◌, ◌<◌, ◌≤◌, ◌≡◌, refl, ap, ap₂, sym, ◌∙◌, ◌≢◌, ◌⊎◌, inl, inr, none,
  some, List, [], ◌∷◌, arith, ltb, lt→ltb, ◌==◌, eq-beq, ne-beq, if◌then◌else◌, Bool-cases, ltb→lt,
}
use esma.Base.Bytes.{u32}
use esma.Objpool.{
  Objpool, resized, shrunk_cap, shrink, grown_cap, expand, Put, refused, stored, store,
  store_expanded, put, get, write_cell,
}

pub record IsValid (p : Objpool) : Type 0 where
  pub size_in : p.size ≤ p.capacity
  pub cap_pos : 0 < p.capacity
  pub cap_word : p.capacity < 2 ^ 32

-- The first `n` cells, the last one first.
unfoldable pub stack : (ℕ → ℕ) → ℕ → List ℕ
stack items zero = []
stack items (suc n) = items n ∷ stack items n

abbrev pub contents : Objpool → List ℕ
contents p = stack p.items p.size

stack_ext : (f g : ℕ → ℕ) (n : ℕ) → ((i : ℕ) → i < n → f i ≡ g i) → stack f n ≡ stack g n
unfolding stack
stack_ext f g zero h = refl
stack_ext f g (suc n) h = ap₂ ◌∷◌ (h n (omega arith)) (stack_ext f g n (λ i l. h i (omega arith)))

-- `xs` without its first `k`
unfoldable pub drop : ℕ → List ℕ → List ℕ
drop zero xs = xs
drop (suc k) [] = []
drop (suc k) (x ∷ xs) = drop k xs

drop-stack : (f : ℕ → ℕ) (n k : ℕ) → drop k (stack f (k + n)) ≡ stack f n
unfolding drop stack
drop-stack f n zero = ap (stack f) (omega arith)
drop-stack f n (suc k) =
    ap (λ (m : ℕ). drop (suc k) (stack f m)) {x = suc k + n} {y = suc (k + n)} (omega arith)
    ∙ drop-stack f n k

pub stack-write_cell : (f : ℕ → ℕ) (n x : ℕ) → stack (write_cell f n x) (suc n) ≡ x ∷ stack f n
unfolding stack
stack-write_cell f n x =
    ap₂ ◌∷◌ (rw (eq-beq {a = n} {b = n} refl))
      (stack_ext (write_cell f n x) f n λ i l. rw (ne-beq {a = n} {b = i} (omega arith)))

stack-resized : (cap n : ℕ) (f junk : ℕ → ℕ) → n ≤ cap → stack (resized cap f junk) n ≡ stack f n
unfolding resized
stack-resized cap n f junk h =
    stack_ext (resized cap f junk) f n λ i l. rw (lt→ltb i cap (omega arith))

-- A pool with `x` on top of what `p` has.
record Pushed (p : Objpool) (x : ℕ) (put_result : Put) : Type 0 where
  pool : Objpool
  result : put_result ≡ stored pool
  valid : IsValid pool
  top : contents pool ≡ x ∷ contents p

store-Pushed :
    (p : Objpool) (x : ℕ) → p.size < p.capacity → p.capacity < 2 ^ 32 → Pushed p x (store p x)
unfolding store
store-Pushed p x room word =
    let next : u32 (p.size + 1) ≡ suc p.size = omega arith in
    record {
      pool = record p { items = write_cell p.items p.size x; size = u32 (p.size + 1) };
      result = rw (lt→ltb p.size p.capacity room);
      valid = record { size_in = omega (arith, next); cap_pos = omega arith; cap_word = word };
      top = ap (stack (write_cell p.items p.size x)) next ∙ stack-write_cell p.items p.size x;
    }

-- The pool after a successful `expand`.
abbrev grown : Objpool → (ℕ → ℕ) → Objpool
grown p junk = record p { items = resized p.capacity p.items junk; capacity = grown_cap p }

grown_cap-lt : (p : Objpool) → grown_cap p < 2 ^ 32
unfolding grown_cap
grown_cap-lt p = elim (Bool-cases (p.capdelta == 0)) [
  | inl e ↦ rw e (omega arith)
  | inr e ↦ rw e (omega arith)
]

put-Pushed :
    (p : Objpool) (x : ℕ) (junk : ℕ → ℕ)
    → IsValid p
    → p.capacity < grown_cap p
    → Pushed p x (put p x (some junk))
unfolding put expand store_expanded
put-Pushed p x junk v room = elim (ℕ_discrete p.size p.capacity) [
  | yes full ↦
      let q = store-Pushed (grown p junk) x (omega arith) (grown_cap-lt p) in
      rw (eq-beq full) (record {
        pool = q.pool;
        result = q.result;
        valid = q.valid;
        top = q.top ∙ ap (λ l. x ∷ l) (stack-resized p.capacity p.size p.items junk v.size_in);
      })
  | no ne ↦ rw (ne-beq ne) (store-Pushed p x (omega (arith, v.size_in)) v.cap_word)
]

put-failed :
    (p : Objpool) (x : ℕ) (junk : ℕ → ℕ)
    → ((p.size ≡ p.capacity) × (put p x none ≡ refused))
      ⊎ ((p.size ≢ p.capacity) × (put p x none ≡ put p x (some junk)))
unfolding put expand store_expanded
put-failed p x junk = elim (ℕ_discrete p.size p.capacity) [
  | yes full ↦ inl (full, rw (eq-beq full))
  | no ne ↦ inr (ne, rw (ne-beq ne))
]

-- A put of a pointer into a valid pool, whose next capacity does not wrap, pushes it onto the
-- stack if `realloc` gives memory, and the pool stays valid; without memory it is refused if the
-- pool is full, and does the same otherwise.
pub put-push :
    (p : Objpool) (x : ℕ) (junk : ℕ → ℕ)
    → IsValid p
    → p.capacity < grown_cap p
    → (((p.size ≡ p.capacity) × (put p x none ≡ refused))
        ⊎ ((p.size ≢ p.capacity) × (put p x none ≡ put p x (some junk))))
      × ((p' : Objpool) × (put p x (some junk) ≡ stored p')
          × IsValid p'
          × (contents p' ≡ x ∷ contents p))
put-push p x junk v room =
    let q = put-Pushed p x junk v room in (put-failed p x junk, (q.pool, q.result, q.valid, q.top))

-- A get from a valid pool takes the newest pointer off the stack and leaves a valid pool, or
-- returns NULL and changes nothing if the stack is empty.
pub get-top :
    (p : Objpool)
    → IsValid p
    → ((contents p ≡ []) × (get p ≡ (none, p)))
      ⊎ ((x : ℕ) × (p' : Objpool) × (get p ≡ (some x, p'))
          × IsValid p'
          × (contents p ≡ x ∷ contents p'))
unfolding get stack
get-top p v = elim (ℕ_discrete p.size 0) [
  | yes e ↦ inl (ap (stack p.items) e, rw (eq-beq e))
  | no ne ↦ inr (
    p.items (p.size - 1),
    record p { size = p.size - 1 },
    rw (ne-beq ne),
    record { size_in = omega (arith, v.size_in); cap_pos = v.cap_pos; cap_word = v.cap_word },
    ap (stack p.items) {x = p.size} {y = suc (p.size - 1)} (omega arith),
  )
]

-- The pool after a successful `shrink`.
abbrev shrunk : Objpool → (ℕ → ℕ) → Objpool
shrunk p junk = record p {
  items = resized p.capacity p.items junk;
  capacity = shrunk_cap p;
  size = if ltb (shrunk_cap p) p.size then shrunk_cap p else p.size;
}

shrunk_cap-in :
    (p : Objpool)
    → IsValid p
    → p.capdelta ≢ 0
    → p.capdelta < 2 ^ 32
    → (0 < shrunk_cap p) × (shrunk_cap p < 2 ^ 32)
unfolding shrunk_cap
shrunk_cap-in p v ne word = elim (Bool-cases (ltb p.capdelta p.capacity)) [
  | inl e ↦
      let less = ltb→lt p.capdelta p.capacity e in rw e (omega arith, omega (arith, v.cap_word))
  | inr e ↦ rw e (omega arith, omega arith)
]

kept : ℕ → ℕ → ℕ
kept cap size = if ltb cap size then cap else size

kept_lem : (cap size : ℕ) → (kept cap size ≤ cap) × (size ≡ size - cap + kept cap size)
unfolding kept
kept_lem cap size = (ground arith, ground arith)

-- A shrink of a valid pool with a delta takes the newest pointers off the stack, as many as do not
-- fit the new capacity, and leaves a valid pool; without memory it returns 1 and changes nothing.
pub shrink-drop :
    (p : Objpool) (junk : ℕ → ℕ)
    → IsValid p
    → p.capdelta ≢ 0
    → p.capdelta < 2 ^ 32
    → (shrink p none ≡ (1, p))
      × ((p' : Objpool) × (shrink p (some junk) ≡ (0, p'))
          × IsValid p'
          × (contents p' ≡ drop (p.size - shrunk_cap p) (contents p)))
unfolding shrink kept
shrink-drop p junk v ne word =
    let cap = shrunk_cap p in
    let (low, all) = kept_lem cap p.size in
    let (pos, fits) = shrunk_cap-in p v ne word in
    (
      rw (ne-beq ne),
      (
        shrunk p junk,
        rw (ne-beq ne),
        record { size_in = low; cap_pos = pos; cap_word = fits },
        stack-resized p.capacity (kept cap p.size) p.items junk (omega (arith, v.size_in))
            ∙ sym (
                ap (λ (n : ℕ). drop (p.size - cap) (stack p.items n)) all
                ∙ drop-stack p.items (kept cap p.size) (p.size - cap)),
      ),
    )
