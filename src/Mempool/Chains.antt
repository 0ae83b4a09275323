-- ===== src/Mempool/Chains.antt =====
-- The free blocks of a pool as lists.
use esma.Base.{
  ℕ, zero, suc, ◌+◌, ◌<◌, ◌≡◌, ◌≢◌, refl, sym, subst, ◌∙◌, Option, none, some, List, [], ◌∷◌, ◌++◌,
  eq-beq, ne-beq, arith,
}
use esma.Mempool.{Mempool, store, init_blocks}

-- The blocks that are linked from a pointer on, up to NULL.
abbrev pub Chain : (ℕ → Option ℕ) → Option ℕ → List ℕ → Type 0
Chain next o [] = o ≡ none
Chain next o (a ∷ rest) = (o ≡ some a) × Chain next (next a) rest

abbrev pub Absent : ℕ → List ℕ → Type 0
Absent a [] = Unit
Absent a (b ∷ bs) = (a ≢ b) × Absent a bs

abbrev pub Distinct : List ℕ → Type 0
Distinct [] = Unit
Distinct (a ∷ rest) = Absent a rest × Distinct rest

-- The pool has these blocks in its basket and on its page, and none of them twice.
pub record Holds (mp : Mempool) (basket page : List ℕ) : Type 0 where
  pub in_basket : Chain mp.next mp.basket basket
  pub on_page : Chain mp.next mp.blocks page
  pub distinct : Distinct (basket ++ page)

pub store_self : (next : ℕ → Option ℕ) (a : ℕ) (v : Option ℕ) → store next a v a ≡ v
store_self next a v = rw (eq-beq {a = a} {b = a} refl) refl

pub store_other : (next : ℕ → Option ℕ) (a b : ℕ) (v : Option ℕ) → a ≢ b → store next a v b ≡ next b
store_other next a b v h = rw (ne-beq {a = a} {b = b} h) refl

-- A write to a block that is not free leaves the free ones.
pub Chain-store :
    (next : ℕ → Option ℕ) (a : ℕ) (v o : Option ℕ) (bs : List ℕ)
    → Absent a bs
    → Chain next o bs
    → Chain (store next a v) o bs
Chain-store next a v o [] h c = c
Chain-store next a v o (b ∷ bs) (ne, h) (e, c) = (
  e,
  subst (λ (q : Option ℕ). Chain (store next a v) q bs) (sym (store_other next a b v ne))
      (Chain-store next a v (next b) bs h c),
)

-- The blocks of a page of `n + 1`.
unfoldable pub page_list : ℕ → ℕ → ℕ → List ℕ
page_list a zero size = a ∷ []
page_list a (suc n) size = a ∷ page_list (a + size) n size

Absent-page_list : (b a n size : ℕ) → b < a → Absent b (page_list a n size)
unfolding page_list
Absent-page_list b a zero size h = (λ e. absurd (omega (arith, e)), tt)
Absent-page_list b a (suc n) size h =
    (λ e. absurd (omega (arith, e)), Absent-page_list b (a + size) n size (omega arith))

pub Distinct-page_list : (a n size : ℕ) → 0 < size → Distinct (page_list a n size)
unfolding page_list
Distinct-page_list a zero size h = (tt, tt)
Distinct-page_list a (suc n) size h =
    (Absent-page_list a (a + size) n size (omega arith), Distinct-page_list (a + size) n size h)

init_blocks-below :
    (next : ℕ → Option ℕ) (a n size b : ℕ) → b < a → init_blocks next a n size b ≡ next b
unfolding init_blocks
init_blocks-below next a zero size b h = store_other next a b none (λ e. absurd (omega (arith, e)))
init_blocks-below next a (suc n) size b h =
    init_blocks-below (store next a (some (a + size))) (a + size) n size b (omega arith)
    ∙ store_other next a b (some (a + size)) (λ e. absurd (omega (arith, e)))

pub init_blocks-Chain :
    (next : ℕ → Option ℕ) (a n size : ℕ)
    → 0 < size
    → Chain (init_blocks next a n size) (some a) (page_list a n size)
unfolding init_blocks page_list
init_blocks-Chain next a zero size h = (refl, store_self next a none)
init_blocks-Chain next a (suc n) size h =
    let next' = store next a (some (a + size)) in
    let at_a : init_blocks next' (a + size) n size a ≡ some (a + size) =
      init_blocks-below next' (a + size) n size a (omega arith)
      ∙ store_self next a (some (a + size)) in
    (
      refl,
      subst
          (λ (q : Option ℕ).
            Chain (init_blocks next' (a + size) n size) q (page_list (a + size) n size))
          (sym at_a) (init_blocks-Chain next' (a + size) n size h),
    )
