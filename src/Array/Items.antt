-- ===== src/Array/Items.antt =====
-- A valid array stands for the list of its counted items.
use native.Mathlib.Decide.{dec_lt, ℕ_discrete}
use esma.Base.{
  ℕ, zero, suc, ◌+◌, ◌-◌, ◌*◌, ◌^◌, ◌<◌, ◌≤◌, ◌≡◌, refl, ap, ap₂, subst, sym, ◌∙◌, ◌⊎◌, inl, inr,
  none, some, List, [], ◌∷◌, ◌++◌, arith, ltb, lt→ltb, ge→ltb, eq-beq, ne-beq, if◌then◌else◌, true,
}
use esma.Base.Bytes.{u32}
use esma.Array.{Array, Slot, slot, expand, take_slot, take_expanded, push, put_at, pop, copy}

pub record IsValid {A : Type 0} (a : Array A) : Type 0 where
  pub count : a.nitems ≤ a.capacity
  pub pos : 0 < a.capacity
  pub small : a.capacity < 2 ^ 31

module _ {A : Type 0} where
  unfoldable pub firsts : (ℕ → A) → ℕ → List A
  firsts f zero = []
  firsts f (suc n) = firsts f n ++ f n ∷ []

  abbrev pub contents : Array A → List A
  contents a = firsts a.item a.nitems

  firsts_ext : (f g : ℕ → A) (n : ℕ) → ((i : ℕ) → i < n → f i ≡ g i) → firsts f n ≡ firsts g n
  unfolding firsts
  firsts_ext f g zero h = refl
  firsts_ext f g (suc n) h =
      ap₂ (λ xs x. xs ++ x ∷ []) (firsts_ext f g n (λ i l. h i (omega arith))) (h n (omega arith))

  contents-put_at :
      (a b : Array A) (x : A)
      → b.nitems ≡ a.nitems + 1
      → ((i : ℕ) → i < a.nitems → b.item i ≡ a.item i)
      → contents (put_at b a.nitems x) ≡ contents a ++ x ∷ []
  unfolding firsts
  contents-put_at a b x e same =
      ap (firsts (put_at b a.nitems x).item) {x = b.nitems} {y = suc a.nitems} (omega arith)
      ∙ ap₂ (λ xs y. xs ++ y ∷ [])
          (firsts_ext (put_at b a.nitems x).item a.item a.nitems
            λ i l. rw (ne-beq {a = a.nitems} {b = i} (omega arith)) (same i l))
          (rw (eq-beq {a = a.nitems} {b = a.nitems} refl))

  -- A slot whose client's write appends an item.
  pub record Appends (a : Array A) (r : Slot A) : Type 0 where
    pub after : Array A
    pub result : r ≡ slot a.nitems after
    pub count : after.nitems ≡ a.nitems + 1
    pub room : after.nitems ≤ after.capacity
    pub same : (i : ℕ) → i < a.nitems → after.item i ≡ a.item i

  take_slot-Appends :
      (a : Array A) → a.nitems < a.capacity → a.capacity < 2 ^ 32 → Appends a (take_slot a)
  unfolding take_slot
  take_slot-Appends a h k = record {
    after = record a { nitems = u32 (a.nitems + 1) };
    result = rw (lt→ltb a.nitems a.capacity h);
    count = omega arith;
    room = omega arith;
    same = λ i l. refl;
  }

  abbrev enlarged : Array A → (ℕ → A) → Array A
  enlarged a junk = record a {
    item = λ i. if ltb i a.capacity then a.item i else junk i;
    capacity = u32 (a.capacity * 2);
  }

  push-room :
      (a : Array A) (junk : ℕ → A) → a.nitems < a.capacity → push a (some junk) ≡ take_slot a
  unfolding push take_slot
  push-room a junk h = rw (lt→ltb a.nitems a.capacity h)

  push-full :
      (a : Array A) (junk : ℕ → A)
      → a.capacity ≤ a.nitems
      → push a (some junk) ≡ take_slot (enlarged a junk)
  unfolding push take_slot expand take_expanded
  push-full a junk h = rw (ge→ltb a.nitems a.capacity h)

  enlarged-Appends :
      (a : Array A) (junk : ℕ → A)
      → IsValid a
      → a.capacity ≤ a.nitems
      → Appends a (take_slot (enlarged a junk))
  enlarged-Appends a junk v full =
      let q =
        take_slot-Appends (enlarged a junk) (omega (arith, v.small, v.pos, v.count))
          (omega arith) in
      record {
        after = q.after;
        result = q.result;
        count = q.count;
        room = q.room;
        same = λ i l. q.same i l ∙ rw (lt→ltb i a.capacity (omega (arith, v.count)));
      }

  pub push-Appends : (a : Array A) (junk : ℕ → A) → IsValid a → Appends a (push a (some junk))
  push-Appends a junk v = elim (dec_lt a.nitems a.capacity) [
    | yes h ↦
        subst (Appends a) (sym (push-room a junk h))
          (take_slot-Appends a h (omega (arith, v.small)))
    | no full ↦
        subst (Appends a) (sym (push-full a junk (omega arith)))
          (enlarged-Appends a junk v (omega arith))
  ]

  -- A push onto a valid array (of less than 2^31 cells) and the client's write of an item through
  -- the pointer append it, and there is a cell for it, whether the array was full or not.
  push-append :
      (a : Array A) (x : A) (junk : ℕ → A)
      → IsValid a
      → (a' : Array A) × (push a (some junk) ≡ slot a.nitems a')
        × (contents (put_at a' a.nitems x) ≡ contents a ++ x ∷ [])
        × (a'.nitems ≤ a'.capacity)
  push-append a x junk v =
      let q = push-Appends a junk v in
      (q.after, q.result, contents-put_at a q.after x q.count q.same, q.room)

  -- A pop of an array takes the last item off, into the client's memory; of an empty one it does
  -- nothing.
  pub pop-last :
      (zeroed : A) (a : Array A)
      → ((contents a ≡ []) × (pop zeroed a ≡ (none, a)))
        ⊎ ((x : A) × (a' : Array A) × (pop zeroed a ≡ (some x, a'))
            × (contents a ≡ contents a' ++ x ∷ [])
            × (a'.capacity ≡ a.capacity))
  unfolding pop firsts
  pop-last zeroed a = elim (ℕ_discrete a.nitems 0) [
    | yes e ↦ inl (ap (firsts a.item) e, rw (eq-beq e))
    | no ne ↦
        let n = a.nitems - 1 in
        inr (
          a.item n,
          record (put_at a n zeroed) { nitems = n },
          rw (ne-beq ne),
          ap (firsts a.item) {x = a.nitems} {y = suc n} (omega arith)
              ∙ ap (λ xs. xs ++ a.item n ∷ [])
                  (firsts_ext a.item (put_at a n zeroed).item n
                    λ i l. rw (ne-beq {a = n} {b = i} (omega arith))),
          refl,
        )
  ]

  -- A copy that gets memory is a valid array with the items of the source.
  pub copy-contents :
      (zeroed : A) (src : Array A)
      → IsValid src
      → (dst : Array A) × (copy zeroed src true ≡ some dst)
        × IsValid dst
        × (contents dst ≡ contents src)
  unfolding copy
  copy-contents zeroed src v = (
    record {
      item = λ i. if ltb i src.nitems then src.item i else zeroed;
      nitems = src.nitems;
      capacity = src.capacity;
    },
    refl,
    record { count = v.count; pos = v.pos; small = v.small },
    firsts_ext (λ i. if ltb i src.nitems then src.item i else zeroed) src.item src.nitems
        λ i l. rw (lt→ltb i src.nitems l),
  )
