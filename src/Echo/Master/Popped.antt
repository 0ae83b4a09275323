-- ===== src/Echo/Master/Popped.antt =====
-- A pool of slaves before and after a put or a get.
use native.Mathlib.Decide.{ℕ_discrete}
use esma.Base.{
  ℕ, suc, ◌+◌, ◌-◌, ◌<◌, ◌≡◌, refl, ap, sym, subst, ◌∙◌, Option, none, some, ◌∷◌, lt→ltb, eq-beq,
  ne-beq, arith,
}
use esma.Base.Bytes.{u32}
use esma.Objpool.{Objpool, stored, store, put, get, write_cell}
use esma.Objpool.Stack.{IsValid, stack, contents, stack-write_cell}

-- `p'` is `p` without the slave on top.
pub record Popped (s : ℕ) (p p' : Objpool) : Type 0 where
  pub valid : IsValid p'
  pub top : contents p ≡ s ∷ contents p'
  pub same : p'.capacity ≡ p.capacity
  pub less : p.size ≡ suc p'.size

pair_eq : {p q : Option ℕ × Objpool} → p ≡ q → (p.0 ≡ q.0) × (p.1 ≡ q.1)
pair_eq h = (ap (λ (x : Option ℕ × Objpool). x.0) h, ap (λ (x : Option ℕ × Objpool). x.1) h)

some_eq : {a b : ℕ} → some a ≡ some b → a ≡ b
some_eq h = cc

no_some : {a : ℕ} → none ≡ some a → ⊥
no_some h = cc

pub get-Popped : (s : ℕ) (p p' : Objpool) → IsValid p → get p ≡ (some s, p') → Popped s p p'
unfolding get stack
get-Popped s p p' v h = elim (ℕ_discrete p.size 0) [
  | yes e ↦ absurd (no_some ((pair_eq (rw (get, eq-beq e) at h)).0))
  | no ne ↦
      let (top, rest) = pair_eq (rw (get, ne-beq ne) at h) in
      subst (Popped s p) rest (record {
        valid = record {
          size_in = omega (arith, v.size_in);
          cap_pos = v.cap_pos;
          cap_word = v.cap_word;
        };
        top =
            ap (stack p.items) {x = p.size} {y = suc (p.size - 1)} (omega arith)
            ∙ ap (λ (x : ℕ). x ∷ stack p.items (p.size - 1)) (some_eq top);
        same = refl;
        less = omega (arith, ne);
      })
]

pub stored_eq : {p q : Objpool} → stored p ≡ stored q → p ≡ q
stored_eq h = cc

abbrev pub pushed : Objpool → ℕ → Objpool
pushed p s = record p { items = write_cell p.items p.size s; size = u32 (p.size + 1) }

-- A put into a pool with room pushes.
module _ (s : ℕ) (p : Objpool) (v : IsValid p) (room : p.size < p.capacity) where
  pub put-pushed : (realloc : Option (ℕ → ℕ)) → put p s realloc ≡ stored (pushed p s)
  unfolding put store
  put-pushed realloc =
      rw (ne-beq {a = p.size} {b = p.capacity} (omega (arith, room)), lt→ltb p.size p.capacity room)
        refl

  pub next_size : u32 (p.size + 1) ≡ suc p.size
  next_size = omega (arith, room, v.cap_word)

  pub pushed-IsValid : IsValid (pushed p s)
  pushed-IsValid = record {
    size_in = omega (arith, next_size, room);
    cap_pos = v.cap_pos;
    cap_word = v.cap_word;
  }

  pub pushed-Popped : Popped s (pushed p s) p
  pushed-Popped = record {
    valid = v;
    top = ap (stack (write_cell p.items p.size s)) next_size ∙ stack-write_cell p.items p.size s;
    same = refl;
    less = next_size;
  }

abbrev pub got : Option ℕ → Objpool → Option ℕ × Objpool
got o p = (o, p)

pub get-none : (p p' : Objpool) → get p ≡ got none p' → (p ≡ p') × (p.size ≡ 0)
unfolding get
get-none p p' h = elim (ℕ_discrete p.size 0) [
  | yes e ↦ ((pair_eq (rw (get, eq-beq e) at h)).1, e)
  | no ne ↦ absurd (no_some (sym ((pair_eq (rw (get, ne-beq ne) at h)).0)))
]
