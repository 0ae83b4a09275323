-- ===== src/Engine/Epoll/Places.antt =====
-- The places of the poll reactor in which something happened.
use mathlib.Core.List.{Memᴰ, Nodup, Nodup-nil, Nodup-cons}
use mathlib.Core.HLevel.{⊥_prop}
use mathlib.Core.Logic.{∥∥₁_elim}
use mathlib.Core.List.Memᴰ as Mem
use mathlib.Core.List.Memᴰ.{head, tail}
use native.Mathlib.Decide.{ℕ_discrete}
use esma.Base.{
  ℕ, zero, suc, ◌+◌, ◌-◌, ◌^◌, ◌<◌, ◌≤◌, ◌≡◌, ◌≢◌, refl, ap, ap₂, sym, subst, ◌∙◌, Bool, true,
  false, List, [], ◌∷◌, map, length, Bool-cases, inl, inr, ne-beq, arith,
}
use esma.Engine.Reactor.{PollBits, Reactor, idle_at}
use esma.Engine.Reactor.Ready.{fired, count}

true-false : true ≡ false → ⊥
true-false h = cc

module _ (bits : PollBits) (revents : ℕ → ℕ) (put : ℕ → Bool) (r : Reactor) where
  pub Memᴰ-fired :
      (n i j : ℕ)
      → i ≤ j
      → j < i + n
      → idle_at bits revents put r j ≡ false
      → Memᴰ j (fired bits revents put r n i)
  unfolding fired
  Memᴰ-fired zero i j low high busy = absurd (omega (arith, low, high))
  Memᴰ-fired (suc n) i j low high busy = elim (Bool-cases (idle_at bits revents put r i)) [
    | inl e ↦ rw (fired, e) (Memᴰ-fired n (i + 1) j (later e) (omega (arith, high)) busy)
    | inr e ↦ elim (ℕ_discrete j i) [
      | yes q ↦ rw (fired, e) (head q)
      | no q ↦
          rw (fired, e)
            (tail (Memᴰ-fired n (i + 1) j (omega (arith, low, q)) (omega (arith, high)) busy))
    ]
  ]
    where
      later : idle_at bits revents put r i ≡ true → i + 1 ≤ j
      later e = elim (ℕ_discrete j i) [
        | yes q ↦ absurd (true-false (sym e ∙ ap (idle_at bits revents put r) (sym q) ∙ busy))
        | no q ↦ omega (arith, low, q)
      ]

  fired-after : (n i j : ℕ) → Memᴰ j (fired bits revents put r n i) → i ≤ j
  unfolding fired
  fired-after zero i j m = absurd (Mem.not-nil m)
  fired-after (suc n) i j m = elim (Bool-cases (idle_at bits revents put r i)) [
    | inl e ↦ let l = fired-after n (i + 1) j (rw (fired, e) at m) in omega (arith, l)
    | inr e ↦ elim (Mem.cases_cons (rw (fired, e) at m)) [
      | inl q ↦ omega (arith, q)
      | inr later ↦ let l = fired-after n (i + 1) j later in omega (arith, l)
    ]
  ]

  pub fired-busy :
      (n i j : ℕ)
      → Memᴰ j (fired bits revents put r n i)
      → (j < i + n) × (idle_at bits revents put r j ≡ false)
  unfolding fired
  fired-busy zero i j m = absurd (Mem.not-nil m)
  fired-busy (suc n) i j m = elim (Bool-cases (idle_at bits revents put r i)) [
    | inl e ↦
        let (high, busy) = fired-busy n (i + 1) j (rw (fired, e) at m) in
        (omega (arith, high), busy)
    | inr e ↦ elim (Mem.cases_cons (rw (fired, e) at m)) [
      | inl q ↦ (omega (arith, q), ap (idle_at bits revents put r) q ∙ e)
      | inr later ↦ let (high, busy) = fired-busy n (i + 1) j later in (omega (arith, high), busy)
    ]
  ]

  pub busy-revents : (j : ℕ) → idle_at bits revents put r j ≡ false → revents j ≢ 0
  busy-revents j h e = ground arith

  pub busy_at :
      (j : ℕ)
      → (r.event_list.item j).fd ≢ 2 ^ 32 - 1
      → revents j ≢ 0
      → idle_at bits revents put r j ≡ false
  busy_at j h k = rw (ne-beq h, ne-beq k) refl

pub Nodup-fired :
    (bits : PollBits) (revents : ℕ → ℕ) (put : ℕ → Bool) (r : Reactor) (n i : ℕ)
    → Nodup (fired bits revents put r n i)
unfolding fired
Nodup-fired bits revents put r zero i = Nodup-nil
Nodup-fired bits revents put r (suc n) i = elim (Bool-cases (idle_at bits revents put r i)) [
  | inl e ↦ rw (fired, e) (Nodup-fired bits revents put r n (i + 1))
  | inr e ↦
      rw (fired, e)
        (Nodup-cons.1 (
          (λ m. ∥∥₁_elim m ⊥_prop (λ d. later (fired-after bits revents put r n (i + 1) i d))),
          Nodup-fired bits revents put r n (i + 1),
        ))
]
  where
    later : i + 1 ≤ i → ⊥
    later h = omega (arith, h)

pub count-length :
    (bits : PollBits) (revents : ℕ → ℕ) (put : ℕ → Bool) (is : List ℕ)
    → count bits revents put is ≡ length is
unfolding count
count-length bits revents put [] = refl
count-length bits revents put (i ∷ is) = ap suc (count-length bits revents put is)

-- Functions that differ on the elements of a list keep them apart.
pub Nodup-map :
    (f : ℕ → ℕ) (xs : List ℕ)
    → ((x y : ℕ) → Memᴰ x xs → Memᴰ y xs → f x ≡ f y → x ≡ y)
    → Nodup xs
    → Nodup (map f xs)
Nodup-map f [] apart d = Nodup-nil
Nodup-map f (x ∷ xs) apart d =
    let (new, d') = Nodup-cons.0 d in
    Nodup-cons.1 (
      (λ m. ∥∥₁_elim m ⊥_prop (λ k.
          let (y, mem, e) = Mem.of_map f xs k in
          new ∣ subst (λ (z : ℕ). Memᴰ z xs) (apart y x (tail mem) (head refl) e) mem ∣₁)),
      Nodup-map f xs (λ y z my mz. apart y z (tail my) (tail mz)) d',
    )

pub map-ext :
    {A : Type 0} (f g : ℕ → A) (xs : List ℕ)
    → ((x : ℕ) → Memᴰ x xs → f x ≡ g x)
    → map f xs ≡ map g xs
map-ext f g [] same = refl
map-ext f g (x ∷ xs) same =
    ap₂ (λ y ys. y ∷ ys) (same x (head refl)) (map-ext f g xs (λ y m. same y (tail m)))
