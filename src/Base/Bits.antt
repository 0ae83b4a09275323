-- ===== src/Base/Bits.antt =====
-- Masks, alignment and the power-of-two test of the C code, as arithmetic.
use Prim.Native.Nat.{
  ℕ, zero, suc, ◌+◌, ◌-◌, ◌*◌, ◌/◌, ◌%◌, ◌^◌, ◌≤◌, ◌<◌, ◌∣◌, min, bit_and, digits, bit_and-bitwise,
  bit_xor, bit_xor-bitwise, differ,
}
use mathlib.Core.Path.{◌≡◌, refl, ◌∙◌, sym, ap, subst}
use mathlib.Core.WellFounded
use native.Mathlib.Decide.{ℕ_discrete, dec_le}
use native.Mathlib.Nat.{
  one-le-pow, two-pow-succ, add-mul-mod_self_left, mod-eq_of_lt, div-add-mod, mod-lt,
  mod-mod_of_dvd, dvd_refl, dvd-add, pow-le-pow_right,
}
use native.Mathlib.Omega.{arith}
use esma.Base.Order.{lt_wf}

differ-zero : (y : ℕ) → differ 0 y ≡ y
differ-zero y = refl

module _ (z : ℕ → ℕ) (f : ℕ → ℕ → ℕ) where
  -- One more round than the first number needs changes nothing.
  digits-suc : (n a b : ℕ) → a ≤ n → digits z f (suc n) a b ≡ digits z f n a b
  digits-suc zero zero b h = refl
  digits-suc zero (suc a) b h = absurd (omega arith)
  digits-suc (suc n) zero b h = refl
  digits-suc (suc n) (suc a) b h =
      ap (λ (q : ℕ). q * 2 + f (suc a % 2) (b % 2)) (digits-suc n (suc a / 2) (b / 2) (omega arith))

  digits-add : (d a b : ℕ) → digits z f (d + a) a b ≡ digits z f a a b
  digits-add zero a b = ap (λ (n : ℕ). digits z f n a b) (omega arith)
  digits-add (suc d) a b =
      let shift : suc d + a ≡ suc (d + a) = omega arith in
      ap (λ (n : ℕ). digits z f n a b) shift
      ∙ digits-suc (d + a) a b (omega arith)
      ∙ digits-add d a b

  -- The lowest digit and the rest.
  digits-halves :
      (a b : ℕ)
      → 0 < a
      → digits z f a a b ≡ digits z f (a / 2) (a / 2) (b / 2) * 2 + f (a % 2) (b % 2)
  digits-halves zero b h = absurd (omega arith)
  digits-halves (suc a) b h =
      let split : a ≡ a - suc a / 2 + suc a / 2 = omega arith in
      ap (λ (q : ℕ). q * 2 + f (suc a % 2) (b % 2))
        (ap (λ (n : ℕ). digits z f n (suc a / 2) (b / 2)) split
          ∙ digits-add (a - suc a / 2) (suc a / 2) (b / 2))

-- `&` and `^` by their lowest digit and the rest.
pub bit_and-halves : (a b : ℕ) → bit_and a b ≡ 2 * bit_and (a / 2) (b / 2) + min (a % 2) (b % 2)
bit_and-halves zero b = omega (arith, bit_and-bitwise 0 b, bit_and-bitwise 0 (b / 2))
bit_and-halves (suc a) b =
    let go = digits-halves (λ _. 0) min (suc a) b (omega arith) in
    bit_and-bitwise (suc a) b ∙ omega (arith, go, bit_and-bitwise (suc a / 2) (b / 2))

pub bit_xor-halves : (a b : ℕ) → bit_xor a b ≡ 2 * bit_xor (a / 2) (b / 2) + differ (a % 2) (b % 2)
bit_xor-halves zero b =
    omega (arith, bit_xor-bitwise 0 b, bit_xor-bitwise 0 (b / 2), differ-zero (b % 2))
bit_xor-halves (suc a) b =
    let go = digits-halves (λ d. d) differ (suc a) b (omega arith) in
    bit_xor-bitwise (suc a) b ∙ omega (arith, go, bit_xor-bitwise (suc a / 2) (b / 2))

no_digits : (n a : ℕ) → digits (λ _. 0) min n a 0 ≡ 0
no_digits zero a = refl
no_digits (suc n) zero = refl
no_digits (suc n) (suc a) = omega (arith, no_digits n (suc a / 2))

bit_and-zero : (a : ℕ) → bit_and a 0 ≡ 0
bit_and-zero a = bit_and-bitwise a 0 ∙ no_digits a a

pub mod_unique : (x m r q : ℕ) → x ≡ r + m * q → r < m → x % m ≡ r
mod_unique x m r q e h = ap (λ (t : ℕ). t % m) e ∙ add-mul-mod_self_left r m q ∙ mod-eq_of_lt h

-- Twice the modulus keeps one more binary digit.
mod-double : (a p : ℕ) → 0 < p → a % (p + p) ≡ 2 * (a / 2 % p) + a % 2
mod-double a p h =
    mod_unique a (p + p) (2 * (a / 2 % p) + a % 2) (a / 2 / p)
      (omega (arith, div-add-mod (a / 2) p)) (omega (arith, mod-lt (a / 2) h))

-- `a & (2^k - 1)` is the remainder by `2^k`.
pub bit_and-mask : (k a : ℕ) → bit_and a (2 ^ k - 1) ≡ a % 2 ^ k
bit_and-mask zero a = omega (arith, bit_and-zero a)
bit_and-mask (suc k) a =
    let half : (2 ^ suc k - 1) / 2 ≡ 2 ^ k - 1 =
      omega (arith, two-pow-succ k, one-le-pow k 2 (omega arith)) in
    let low : (2 ^ suc k - 1) % 2 ≡ 1 =
      omega (arith, two-pow-succ k, one-le-pow k 2 (omega arith)) in
    rw (bit_and-halves a (2 ^ suc k - 1), half, low, bit_and-mask k (a / 2), two-pow-succ k)
      (omega (arith, mod-double a (2 ^ k) (one-le-pow k 2 (omega arith))))

-- `x & ~7` of a 32-bit word drops the three low digits.
pub bit_and-align : (x : ℕ) → x < 2 ^ 32 → bit_and x 0xffff_fff8 ≡ x - x % 8
bit_and-align x h = omega (
  arith,
  bit_and-halves x 0xffff_fff8,
  bit_and-halves (x / 2) 0x7fff_fffc,
  bit_and-halves (x / 2 / 2) 0x3fff_fffe,
  bit_and-mask 29 (x / 2 / 2 / 2),
)

same_digits : (n a : ℕ) → a ≤ n → digits (λ _. 0) min n a a ≡ a
same_digits zero zero h = refl
same_digits zero (suc a) h = absurd (omega arith)
same_digits (suc n) zero h = refl
same_digits (suc n) (suc a) h = omega (arith, same_digits n (suc a / 2) (omega arith))

bit_and_self : (a : ℕ) → bit_and a a ≡ a
bit_and_self a = bit_and-bitwise a a ∙ same_digits a a (omega arith)

-- The halves of `n - 1`: the half of an odd `n`, one less than the half of an even one.
half-pred_even : (n : ℕ) → n % 2 ≡ 0 → 0 < n → (n - 1) / 2 ≡ n / 2 - 1
half-pred_even n e h = omega arith

half-pred_odd : (n : ℕ) → n % 2 ≡ 1 → (n - 1) / 2 ≡ n / 2
half-pred_odd n e = omega arith

-- What `cap > 1 && (cap & (cap - 1)) == 0` tests.
pub power_of_two : (c : ℕ) → 0 < c → bit_and c (c - 1) ≡ 0 → (k : ℕ) × (c ≡ 2 ^ k)
power_of_two c = WellFounded.induction lt_wf {C = Claim} c step
  where
    Claim : ℕ → Type 0
    Claim n = 0 < n → bit_and n (n - 1) ≡ 0 → (k : ℕ) × (n ≡ 2 ^ k)

    odd : (n : ℕ) → n % 2 ≡ 1 → bit_and n (n - 1) ≡ 0 → n ≡ 1
    odd n o e = omega (
      arith,
      bit_and-halves n (n - 1),
      ap (bit_and (n / 2)) (half-pred_odd n o),
      bit_and_self (n / 2),
    )

    step : (n : ℕ) → ((m : ℕ) → m < n → Claim m) → Claim n
    step n ih pos e = elim (ℕ_discrete (n % 2) 1) [
      | yes o ↦ (0, odd n o e)
      | no ne ↦
          let even : n % 2 ≡ 0 = omega arith in
          let (k, eq) = ih (n / 2) (omega arith) (omega arith) (
            omega (
              arith,
              bit_and-halves n (n - 1),
              ap (bit_and (n / 2)) (half-pred_even n even pos),
            )) in
          (suc k, omega (arith, two-pow-succ k))
    ]

two_pow_dvd : (k d : ℕ) → 2 ^ k ∣ 2 ^ (d + k)
two_pow_dvd k zero = subst (λ n. 2 ^ k ∣ 2 ^ n) (omega arith) (dvd_refl (2 ^ k))
two_pow_dvd k (suc d) =
    let below = two_pow_dvd k d in
    subst (λ n. 2 ^ k ∣ n) (sym (two-pow-succ (d + k)) ∙ ap (λ (n : ℕ). 2 ^ n) (omega arith))
      (dvd-add (2 ^ k) below below)

-- Wrapping at `2^32` does not show below a mask of at most 32 ones.
pub mod-word : (x k : ℕ) → k ≤ 32 → x % 2 ^ 32 % 2 ^ k ≡ x % 2 ^ k
mod-word x k h =
    mod-mod_of_dvd (2 ^ k) x
      (subst (λ n. 2 ^ k ∣ 2 ^ n) {x = 32 - k + k} {y = 32} (omega arith) (two_pow_dvd k (32 - k)))

pub pow-small : (k : ℕ) → 2 ^ k < 2 ^ 32 → k ≤ 31
pow-small k h = elim (dec_le k 31) [
  | yes p ↦ p
  | no p ↦
      absurd (omega (arith, pow-le-pow_right {n = 2} (omega arith) {i = 32} {j = k} (omega arith)))
]
