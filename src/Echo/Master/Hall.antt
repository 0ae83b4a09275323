-- ===== src/Echo/Master/Hall.antt =====
-- The slaves of the echo server, waiting in the pool and at work.
use native.Mathlib.Decide.{ℕ_discrete}
use esma.Base.{
  ℕ, suc, ◌+◌, ◌<◌, ◌≤◌, ◌≡◌, refl, ap, sym, subst, ◌∙◌, Bool, true, false, Option, none, some,
  List, [], ◌∷◌, length, ◌==◌, ◌⊎◌, ==→eq, ap₂, if◌then◌else◌, ne-beq, Bool-cases, inl, inr, arith,
}
use esma.Objpool.{Objpool, stored, put, get}
use esma.Objpool.Stack.{IsValid, get-top, contents}
use esma.Echo.Master.Popped.{
  Popped, stored_eq, get-Popped, pushed, put-pushed, next_size, pushed-IsValid, pushed-Popped, got,
  get-none,
}
use esma.Echo.Master.{given, turned_away, without_slave, after_get, work_data_0}

-- The pool, and the slaves that have a client.
pub record Hall : Type 0 where
  pub pool : Objpool
  pub busy : List ℕ

-- The list without the first place of a slave.
unfoldable pub take_out : ℕ → List ℕ → List ℕ
take_out s [] = []
take_out s (x ∷ xs) = let rest = take_out s xs in if x == s then xs else x ∷ rest

-- A client comes and gets a slave, or gets none; or a slave enters `done` and puts itself back, with
-- or without a client (`slave_done_enter`, which does not look).
pub data Moves (realloc : Option (ℕ → ℕ)) (h : Hall) : Hall → Type 0 where
  connects :
      (s : ℕ) (p : Objpool) (accepted : Bool)
      → work_data_0 h.pool accepted ≡ given s p
      → Moves realloc h (record { pool = p; busy = s ∷ h.busy })
  leaves :
      (p : Objpool) (accepted : Bool)
      → work_data_0 h.pool accepted ≡ turned_away p
      → Moves realloc h (record { pool = p; busy = h.busy })
  finishes :
      (s : ℕ) (p : Objpool)
      → put h.pool s realloc ≡ stored p
      → Moves realloc h (record { pool = p; busy = take_out s h.busy })

pub data Reach (realloc : Option (ℕ → ℕ)) (h : Hall) : Hall → Type 0 where
  here : Reach realloc h h
  next : (h' h'' : Hall) → Reach realloc h h' → Moves realloc h' h'' → Reach realloc h h''

abbrev one : ℕ → ℕ → ℕ
one x y = if x == y then 1 else 0

-- How often a slave is in a list.
unfoldable pub count : ℕ → List ℕ → ℕ
count x [] = 0
count x (y ∷ ys) = one x y + count x ys

one-apart : (x y : ℕ) → y == x ≡ false → one x y ≡ 0
one-apart x y e = ground arith

count-take_out :
    (x s : ℕ) (ys : List ℕ) → 0 < count s ys → count x ys ≡ one x s + count x (take_out s ys)
unfolding count take_out
count-take_out x s [] there = absurd (omega (arith, there))
count-take_out x s (y ∷ ys) there = elim (Bool-cases (y == s)) [
  | inl e ↦ rw (take_out, e) (ap (λ z. one x z + count x ys) (==→eq e))
  | inr e ↦
      let rest = count-take_out x s ys (omega (arith, there, one-apart s y e)) in
      rw (take_out, e) (omega (arith, rest))
]

length-take_out : (s : ℕ) (ys : List ℕ) → 0 < count s ys → length ys ≡ suc (length (take_out s ys))
unfolding count take_out
length-take_out s [] there = absurd (omega (arith, there))
length-take_out s (y ∷ ys) there = elim (Bool-cases (y == s)) [
  | inl e ↦ rw (take_out, e) refl
  | inr e ↦ rw (take_out, e) (ap suc (length-take_out s ys (omega (arith, there, one-apart s y e))))
]

-- A slave puts itself back only while it has a client.
abbrev pub OrderlyMove : {realloc : Option (ℕ → ℕ)} {h h' : Hall} → Moves realloc h h' → Type 0
OrderlyMove {h = h} (connects s p accepted e) = Unit
OrderlyMove {h = h} (leaves p accepted e) = Unit
OrderlyMove {h = h} (finishes s p e) = 0 < count s h.busy

unfoldable pub Orderly : {realloc : Option (ℕ → ℕ)} {h h' : Hall} → Reach realloc h h' → Type 0
Orderly here = Unit
Orderly (next h' h'' r m) = Orderly r × OrderlyMove m

take_out-given :
    (accepted : Bool) (s : ℕ) (q p : Objpool) → without_slave accepted q ≡ given s p → ⊥
take_out-given true s q p h = cc
take_out-given false s q p h = cc

given-get :
    (accepted : Bool) (r : Option ℕ × Objpool) (s : ℕ) (p : Objpool)
    → after_get accepted r ≡ given s p
    → r ≡ got (some s) p
given-get accepted (none, q) s p h = absurd (take_out-given accepted s q p h)
given-get accepted (some x, q) s p h = elim (Bool-cases (x == 0)) [
  | inl e ↦ absurd (take_out-given accepted s q p (rw e at h))
  | inr e ↦ given_eq x s q p (rw e at h)
]
  where
    given_eq : (x s : ℕ) (q p : Objpool) → given x q ≡ given s p → got (some x) q ≡ got (some s) p
    given_eq x s q p e = cc

without_turned :
    (accepted : Bool) (q p : Objpool) → without_slave accepted q ≡ turned_away p → q ≡ p
without_turned true q p h = cc
without_turned false q p h = cc

-- No slave waits, or the first pointer is NULL.
turned-get :
    (accepted : Bool) (r : Option ℕ × Objpool) (p : Objpool)
    → after_get accepted r ≡ turned_away p
    → (r ≡ got none p) ⊎ (r ≡ got (some 0) p)
turned-get accepted (none, q) p h = inl (ap (got none) (without_turned accepted q p h))
turned-get accepted (some x, q) p h = elim (Bool-cases (x == 0)) [
  | inl e ↦ inr (
      ap₂ (λ (y : ℕ) (z : Objpool). got (some y) z) (==→eq e)
        (without_turned accepted q p (rw e at h)))
  | inr e ↦ absurd (apart x q p (rw e at h))
]
  where
    apart : (x : ℕ) (q p : Objpool) → given x q ≡ turned_away p → ⊥
    apart x q p e = cc

-- Each slave is as often in the pool and at work, together, as in the list.
pub record Inv (slaves : List ℕ) (h : Hall) : Type 0 where
  pub valid : IsValid h.pool
  pub room : length slaves ≤ h.pool.capacity
  pub total : h.pool.size + length h.busy ≡ length slaves
  pub each : (x : ℕ) → count x (contents h.pool) + count x h.busy ≡ count x slaves

-- A client gets a slave, unless none waits.
abbrev pub Serves : Hall → Type 0
Serves h =
    ((contents h.pool ≡ []) × (work_data_0 h.pool true ≡ turned_away h.pool))
    ⊎ ((s : ℕ) × (p : Objpool) × (contents h.pool ≡ s ∷ contents p)
        × (work_data_0 h.pool true ≡ given s p))

module _ (realloc : Option (ℕ → ℕ)) (slaves : List ℕ) (real : count 0 slaves ≡ 0) where
  count-Popped :
      (s : ℕ) (p p' : Objpool) (x : ℕ)
      → Popped s p p'
      → count x (contents p) ≡ one x s + count x (contents p')
  unfolding count
  count-Popped s p p' x q = ap (count x) q.top

  -- The slave on top is there.
  top-real : (h : Hall) (p : Objpool) → Inv slaves h → get h.pool ≡ got (some 0) p → ⊥
  top-real h p i e =
      omega (arith, count-Popped 0 h.pool p 0 (get-Popped 0 h.pool p i.valid e), i.each 0, real)

  -- Only a hall without a waiting slave turns a client away.
  turned-empty :
      (h : Hall) (p : Objpool) (accepted : Bool)
      → Inv slaves h
      → work_data_0 h.pool accepted ≡ turned_away p
      → (h.pool ≡ p) × (h.pool.size ≡ 0)
  unfolding work_data_0
  turned-empty h p accepted i e = elim (turned-get accepted (get h.pool) p e) [
    | inl q ↦ get-none h.pool p q
    | inr q ↦ absurd (top-real h p i q)
  ]

  step-Inv : (h h' : Hall) (m : Moves realloc h h') → Inv slaves h → OrderlyMove m → Inv slaves h'
  unfolding work_data_0 count
  step-Inv h h' (connects s p accepted e) i busy =
      let q = get-Popped s h.pool p i.valid (given-get accepted (get h.pool) s p e) in
      record {
        valid = q.valid;
        room = omega (arith, i.room, q.same);
        total = omega (arith, i.total, q.less);
        each = λ x. omega (arith, i.each x, count-Popped s h.pool p x q);
      }
  step-Inv h h' (leaves p accepted e) i busy =
      let (same, empty) = turned-empty h p accepted i e in
      subst (λ (x : Objpool). Inv slaves (record { pool = x; busy = h.busy })) same
        (record { valid = i.valid; room = i.room; total = i.total; each = i.each })
  step-Inv h h' (finishes s p stored_p) i busy =
      let len = length-take_out s h.busy busy in
      let room : h.pool.size < h.pool.capacity = omega (arith, i.total, i.room, len) in
      let next = next_size s h.pool i.valid room in
      let popped = pushed-Popped s h.pool i.valid room in
      subst (λ (x : Objpool). Inv slaves (record { pool = x; busy = take_out s h.busy }))
        (stored_eq (sym (put-pushed s h.pool i.valid room realloc) ∙ stored_p))
        (record {
          valid = pushed-IsValid s h.pool i.valid room;
          room = i.room;
          total = omega (arith, i.total, len, next);
          each = λ x. omega (
            arith,
            i.each x,
            count-take_out x s h.busy busy,
            count-Popped s (pushed h.pool s) h.pool x popped,
          );
        })

  pub reach-Inv : (h h' : Hall) (r : Reach realloc h h') → Inv slaves h → Orderly r → Inv slaves h'
  unfolding Orderly
  reach-Inv h h' here i o = i
  reach-Inv h h' (next h1 h2 r m) i (o, busy) = step-Inv h1 h2 m (reach-Inv h h1 r i o) busy

  pub serves : (h : Hall) → Inv slaves h → Serves h
  unfolding work_data_0
  serves h i = elim (get-top h.pool i.valid) [
    | inl (empty, e) ↦ inl (empty, ap (after_get true) e)
    | inr (s, p, e, v, top) ↦ elim (ℕ_discrete s 0) [
      | yes z ↦ absurd (top-real h p i (e ∙ ap (λ (y : ℕ). got (some y) p) z))
      | no nz ↦ inr (s, p, top, ap (after_get true) e ∙ rw (ne-beq nz) refl)
    ]
  ]
