-- ===== src/Base/Bytes.antt =====
-- Blocks of memory, `memmove` and `memcpy`, and the unsigned arithmetic of C.
use Prim.Native.Nat.{ℕ, zero, suc, ◌+◌, ◌-◌, ◌%◌, ◌^◌, ◌≤◌, ◌<◌}
use mathlib.Core.Path.{◌≡◌, refl, ap, ap₂, ◌∙◌}
use mathlib.Core.Logic.{◌⊎◌}
use mathlib.Core.Bool.{◌&&◌}
use mathlib.Core.List.{List, [], ◌∷◌}
use native.Mathlib.Omega.{arith}
use esma.Base.Tests.{ltb, leb, if◌then◌else◌}
use esma.Base.Lists.{length, get_or}

abbrev pub u32 : ℕ → ℕ
u32 x = x % 2 ^ 32

-- `a - b` on `u32`
abbrev pub sub32 : ℕ → ℕ → ℕ
sub32 a b = (a + 2 ^ 32 - b) % 2 ^ 32

-- The bytes of a block, by their offset from its start.
abbrev pub Memory : Type 0
Memory = ℕ → ℕ

unfoldable pub read : Memory → ℕ → ℕ → List ℕ
read m off zero = []
read m off (suc n) = m off ∷ read m (off + 1) n

unfoldable pub write : Memory → ℕ → List ℕ → Memory
write m off xs a = if leb off a then get_or xs (a - off) (m a) else m a

-- `memmove(dst, src, n)` within one block
unfoldable pub memmove : ℕ → ℕ → ℕ → Memory → Memory
memmove dst src n m a = if leb dst a && ltb a (dst + n) then m (src + (a - dst)) else m a

-- `memset(dst, 0, n)`
unfoldable pub clear : ℕ → ℕ → Memory → Memory
clear dst n m a = if leb dst a && ltb a (dst + n) then 0 else m a

-- What a block of `old` bytes holds after `realloc`: the new bytes are whatever was there.
unfoldable pub grown : ℕ → Memory → Memory → Memory
grown old m junk a = if ltb a old then m a else junk a

pub read-ext :
    (m m' : Memory) (off n : ℕ)
    → ((a : ℕ) → off ≤ a → a < off + n → m a ≡ m' a)
    → read m off n ≡ read m' off n
unfolding read
read-ext m m' off zero h = refl
read-ext m m' off (suc n) h =
    ap₂ ◌∷◌ (h off (omega arith) (omega arith))
      (read-ext m m' (off + 1) n (λ a p q. h a (omega arith) (omega arith)))

pub length-read : (m : Memory) (off n : ℕ) → length (read m off n) ≡ n
unfolding read
length-read m off zero = refl
length-read m off (suc n) = ap suc (length-read m (off + 1) n)

get_or-outside : (xs : List ℕ) (i d : ℕ) → length xs ≤ i → get_or xs i d ≡ d
get_or-outside [] i d h = refl
get_or-outside (x ∷ xs) zero d h = absurd (omega arith)
get_or-outside (x ∷ xs) (suc i) d h = get_or-outside xs i d (omega arith)

pub write-outside :
    (m : Memory) (off : ℕ) (xs : List ℕ) (a : ℕ)
    → (a < off) ⊎ (off + length xs ≤ a)
    → write m off xs a ≡ m a
unfolding write
write-outside m off xs a h = ground (arith, get_or-outside xs (a - off) (m a))

write-cons :
    (m : Memory) (off x : ℕ) (xs : List ℕ) (a : ℕ)
    → off + 1 ≤ a
    → write m off (x ∷ xs) a ≡ write m (off + 1) xs a
unfolding write
write-cons m off x xs a h =
    let e : a - off ≡ suc (a - (off + 1)) = omega arith in rw e (ground arith)

write-first : (m : Memory) (off x : ℕ) (xs : List ℕ) → write m off (x ∷ xs) off ≡ x
unfolding write
write-first m off x xs = let e : off - off ≡ 0 = omega arith in rw e (ground arith)

pub read-write_self :
    (m : Memory) (off : ℕ) (xs : List ℕ) → read (write m off xs) off (length xs) ≡ xs
unfolding read
read-write_self m off [] = refl
read-write_self m off (x ∷ xs) = ap₂ ◌∷◌ (write-first m off x xs) (
    read-ext _ _ (off + 1) (length xs) (λ a p q. write-cons m off x xs a p)
    ∙ read-write_self m (off + 1) xs)
