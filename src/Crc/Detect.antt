-- ===== src/Crc/Detect.antt =====
-- What the reflected checksums tell apart.
use native.Mathlib.Nat.{two-pow-succ}
use native.Mathlib.Decide.{ℕ_discrete}
use Prim.Native.Nat.{differ}
use esma.Base.{
  ℕ, zero, suc, ◌+◌, ◌*◌, ◌/◌, ◌%◌, ◌^◌, ◌<◌, ◌≤◌, ◌≡◌, refl, sym, ap, ◌∙◌, ◌≢◌, ◌⊎◌, inl, inr,
  true, some, List, [], ◌∷◌, ◌++◌, get_elem?, bit_and, bit_xor, arith, eq-beq, ne-beq,
}
use esma.Base.Bits.{bit_xor-halves, bit_and-mask}
use esma.Crc.{shift_down, rounds, true_true, Variant, checksum, crc_by_name}

differ_lem : (x y : ℕ) → x < 2 → y < 2 → differ x y ≡ (x + y) % 2
differ_lem zero zero h k = refl
differ_lem zero (suc zero) h k = refl
differ_lem (suc zero) zero h k = refl
differ_lem (suc zero) (suc zero) h k = refl
differ_lem zero (suc (suc y)) h k = absurd (omega arith)
differ_lem (suc zero) (suc (suc y)) h k = absurd (omega arith)
differ_lem (suc (suc x)) y h k = absurd (omega arith)

-- The lowest digit of an exclusive or, and the rest.
xor_digits : (a b : ℕ) → bit_xor a b ≡ 2 * bit_xor (a / 2) (b / 2) + (a % 2 + b % 2) % 2
xor_digits a b =
    bit_xor-halves a b
    ∙ ap (λ (d : ℕ). 2 * bit_xor (a / 2) (b / 2) + d)
        (differ_lem (a % 2) (b % 2) (omega arith) (omega arith))

bit_xor-lt : (w a b : ℕ) → a < 2 ^ w → b < 2 ^ w → bit_xor a b < 2 ^ w
bit_xor-lt zero zero zero h k = omega (arith, xor_digits 0 0)
bit_xor-lt zero zero (suc b) h k = absurd (omega arith)
bit_xor-lt zero (suc a) b h k = absurd (omega arith)
bit_xor-lt (suc w) a b h k = omega (
  arith,
  two-pow-succ w,
  xor_digits a b,
  bit_xor-lt w (a / 2) (b / 2) (omega (arith, two-pow-succ w)) (omega (arith, two-pow-succ w)),
)

-- A highest digit that only one number has is in their exclusive or.
bit_xor-high : (w a b : ℕ) → a < 2 ^ w → 2 ^ w ≤ b → b < 2 ^ suc w → 2 ^ w ≤ bit_xor a b
bit_xor-high zero a b h k l = omega (arith, xor_digits a b)
bit_xor-high (suc w) a b h k l = omega (
  arith,
  two-pow-succ w,
  two-pow-succ (suc w),
  xor_digits a b,
  bit_xor-high w (a / 2) (b / 2) (omega (arith, two-pow-succ w)) (omega (arith, two-pow-succ w))
      (omega (arith, two-pow-succ w, two-pow-succ (suc w))),
)

xor_cancel_to : (n a b p : ℕ) → a ≤ n → b ≤ n → bit_xor a p ≡ bit_xor b p → a ≡ b
xor_cancel_to zero a b p h k e = omega arith
xor_cancel_to (suc n) a b p h k e = omega (
  arith,
  xor_digits a p,
  xor_digits b p,
  xor_cancel_to n (a / 2) (b / 2) (p / 2) (omega arith) (omega arith)
      (omega (arith, xor_digits a p, xor_digits b p)),
)

bit_xor-cancel : (a b p : ℕ) → bit_xor a p ≡ bit_xor b p → a ≡ b
bit_xor-cancel a b p e = xor_cancel_to (a + b) a b p (omega arith) (omega arith) e

-- A value of `suc w` digits and a polynomial whose highest digit is set.
pub record Sized (w poly : ℕ) : Type 0 where
  pub high : 2 ^ w ≤ poly
  pub below : poly < 2 ^ suc w

-- Bytes, of at most `suc w` digits.
abbrev pub Fits : ℕ → List ℕ → Type 0
Fits w [] = Unit
Fits w (d ∷ ds) = (d < 2 ^ suc w) × Fits w ds

odd_test : (c : ℕ) → bit_and c 1 ≡ c % 2
odd_test c = bit_and-mask 1 c

module _ (w poly : ℕ) (v : Sized w poly) where
  shift_down-even : (c : ℕ) → c % 2 ≡ 0 → shift_down poly c ≡ c / 2
  unfolding shift_down
  shift_down-even c e = rw (eq-beq (odd_test c ∙ e))

  shift_down-odd : (c : ℕ) → c % 2 ≡ 1 → shift_down poly c ≡ bit_xor (c / 2) poly
  unfolding shift_down
  shift_down-odd c e = rw (ne-beq {a = bit_and c 1} {b = 0} (omega (arith, odd_test c)))

  -- The two cases, with where the result lies.
  shift_down-cases :
      (c : ℕ)
      → c < 2 ^ suc w
      → ((c % 2 ≡ 0) × (shift_down poly c ≡ c / 2) × (shift_down poly c < 2 ^ w))
        ⊎ ((c % 2 ≡ 1)
            × (shift_down poly c ≡ bit_xor (c / 2) poly)
            × (2 ^ w ≤ shift_down poly c)
            × (shift_down poly c < 2 ^ suc w))
  shift_down-cases c h = elim (ℕ_discrete (c % 2) 0) [
    | yes e ↦ inl (e, shift_down-even c e, omega (arith, shift_down-even c e, two-pow-succ w))
    | no ne ↦
        let odd : c % 2 ≡ 1 = omega arith in
        let half : c / 2 < 2 ^ w = omega (arith, two-pow-succ w) in
        let e = shift_down-odd c odd in
        inr (
          odd,
          e,
          omega (arith, e, bit_xor-high w (c / 2) poly half v.high v.below),
          omega (arith, e, bit_xor-lt (suc w) (c / 2) poly (omega (arith, two-pow-succ w)) v.below),
        )
  ]

  shift_down-lt : (c : ℕ) → c < 2 ^ suc w → shift_down poly c < 2 ^ suc w
  shift_down-lt c h = omega (arith, shift_down-cases c h, two-pow-succ w)

  shift_down-cancel :
      (a b : ℕ) → a < 2 ^ suc w → b < 2 ^ suc w → shift_down poly a ≡ shift_down poly b → a ≡ b
  shift_down-cancel a b h k e = elim (shift_down-cases a h) [
    | inl (ea, sa, la) ↦ omega (arith, shift_down-cases b k)
    | inr (oa, sa, ha, la) ↦ elim (shift_down-cases b k) [
      | inl (eb, sb, lb) ↦ omega arith
      | inr (ob, sb, hb, lb) ↦
          let half = bit_xor-cancel (a / 2) (b / 2) poly (sym sa ∙ e ∙ sb) in omega arith
    ]
  ]

  rounds-lt : (n c : ℕ) → c < 2 ^ suc w → rounds n (shift_down poly) c < 2 ^ suc w
  unfolding rounds
  rounds-lt zero c h = h
  rounds-lt (suc n) c h = rounds-lt n (shift_down poly c) (shift_down-lt c h)

  rounds-cancel :
      (n a b : ℕ)
      → a < 2 ^ suc w
      → b < 2 ^ suc w
      → rounds n (shift_down poly) a ≡ rounds n (shift_down poly) b
      → a ≡ b
  unfolding rounds
  rounds-cancel zero a b h k e = e
  rounds-cancel (suc n) a b h k e = shift_down-cancel a b h k (
      rounds-cancel n (shift_down poly a) (shift_down poly b) (shift_down-lt a h)
        (shift_down-lt b k) e)

  true_true-lt : (ds : List ℕ) (c : ℕ) → Fits w ds → c < 2 ^ suc w → true_true ds c poly < 2 ^ suc w
  unfolding true_true
  true_true-lt [] c b h = h
  true_true-lt (d ∷ ds) c (k, b) h =
      true_true-lt ds (rounds 8 (shift_down poly) (bit_xor c d)) b
        (rounds-lt 8 (bit_xor c d) (bit_xor-lt (suc w) c d h k))

  -- The loop forgets nothing of the value that it starts from.
  true_true-cancel :
      (ds : List ℕ) (a b : ℕ)
      → Fits w ds
      → a < 2 ^ suc w
      → b < 2 ^ suc w
      → true_true ds a poly ≡ true_true ds b poly
      → a ≡ b
  unfolding true_true
  true_true-cancel [] a b bs h k e = e
  true_true-cancel (d ∷ ds) a b (l, bs) h k e =
      let xa = bit_xor-lt (suc w) a d h l in
      let xb = bit_xor-lt (suc w) b d k l in
      bit_xor-cancel a b d (
        rounds-cancel 8 (bit_xor a d) (bit_xor b d) xa xb (
          true_true-cancel ds (rounds 8 (shift_down poly) (bit_xor a d))
            (rounds 8 (shift_down poly) (bit_xor b d)) bs (rounds-lt 8 (bit_xor a d) xa)
            (rounds-lt 8 (bit_xor b d) xb) e))

true_true-append :
    (pre ds : List ℕ) (c poly : ℕ)
    → true_true (pre ++ ds) c poly ≡ true_true ds (true_true pre c poly) poly
unfolding true_true
true_true-append [] ds c poly = refl
true_true-append (d ∷ pre) ds c poly =
    true_true-append pre ds (rounds 8 (shift_down poly) (bit_xor c d)) poly

xor_comm_to : (n a b : ℕ) → a ≤ n → b ≤ n → bit_xor a b ≡ bit_xor b a
xor_comm_to zero zero zero h k = refl
xor_comm_to zero zero (suc b) h k = absurd (omega arith)
xor_comm_to zero (suc a) b h k = absurd (omega arith)
xor_comm_to (suc n) a b h k = omega (
  arith,
  xor_digits a b,
  xor_digits b a,
  xor_comm_to n (a / 2) (b / 2) (omega arith) (omega arith),
)

bit_xor_comm : (a b : ℕ) → bit_xor a b ≡ bit_xor b a
bit_xor_comm a b = xor_comm_to (a + b) a b (omega arith) (omega arith)

eq_of_some : {A : Type 0} {a b : A} → some a ≡ some b → a ≡ b
eq_of_some h = cc

-- A case that runs `__crc…_true_true` on `suc w` bits with a polynomial of that degree.
pub record IsReflected (w : ℕ) (v : Variant) : Type 0 where
  pub reflected : v.reflected ≡ true
  pub sized : Sized w v.poly
  pub init_in : v.init < 2 ^ suc w

module _ {w : ℕ} {v : Variant} (good : IsReflected w v) where
  checksum-reflected :
      (width : ℕ) (ds : List ℕ) → checksum width v ds ≡ bit_xor (true_true ds v.init v.poly) v.out
  unfolding checksum
  checksum-reflected width ds = rw good.reflected

  true_true-byte :
      (pre post : List ℕ) (d d' : ℕ)
      → Fits w pre
      → Fits w post
      → d < 2 ^ suc w
      → d' < 2 ^ suc w
      → true_true (pre ++ d ∷ post) v.init v.poly ≡ true_true (pre ++ d' ∷ post) v.init v.poly
      → d ≡ d'
  unfolding true_true
  true_true-byte pre post d d' p q h h' e =
      let sz = good.sized in
      let c = true_true pre v.init v.poly in
      let lc = true_true-lt w v.poly sz pre v.init p good.init_in in
      let x = bit_xor-lt (suc w) c d lc h in
      let x' = bit_xor-lt (suc w) c d' lc h' in
      let same =
        true_true-cancel w v.poly sz post (rounds 8 (shift_down v.poly) (bit_xor c d))
          (rounds 8 (shift_down v.poly) (bit_xor c d')) q (rounds-lt w v.poly sz 8 (bit_xor c d) x)
          (rounds-lt w v.poly sz 8 (bit_xor c d') x')
          (sym (true_true-append pre (d ∷ post) v.init v.poly)
            ∙ e
            ∙ true_true-append pre (d' ∷ post) v.init v.poly) in
      bit_xor-cancel d d' c (
        bit_xor_comm d c
        ∙ rounds-cancel w v.poly sz 8 (bit_xor c d) (bit_xor c d') x x' same
        ∙ bit_xor_comm c d')

-- Two messages that differ in one byte only, in value and not in place, have different checksums
-- under every name whose case runs `__crc…_true_true` with a polynomial of the full degree.
pub crc_by_name-byte :
    (w name : ℕ) (vs : List Variant) (v : Variant) (pre post : List ℕ) (d d' : ℕ)
    → get_elem? vs name ≡ some v
    → IsReflected w v
    → Fits w pre
    → Fits w post
    → d < 2 ^ suc w
    → d' < 2 ^ suc w
    → d ≢ d'
    → crc_by_name (suc w) vs (pre ++ d ∷ post) name ≢ crc_by_name (suc w) vs (pre ++ d' ∷ post) name
unfolding crc_by_name
crc_by_name-byte w name vs v pre post d d' there good p q h h' ne e =
    let same = eq_of_some (rw (crc_by_name, there) at e) in
    ne (
      true_true-byte good pre post d d' p q h h' (
        bit_xor-cancel (true_true (pre ++ d ∷ post) v.init v.poly)
          (true_true (pre ++ d' ∷ post) v.init v.poly) v.out
          (sym (checksum-reflected good (suc w) (pre ++ d ∷ post))
            ∙ same
            ∙ checksum-reflected good (suc w) (pre ++ d' ∷ post))))
