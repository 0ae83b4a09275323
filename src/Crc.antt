-- ===== src/Crc.antt =====
-- core/esma_crc.c: the six loops and the tables of esma_crc8, esma_crc16 and esma_crc32. A variant
-- is what a case of a `switch` sets and calls; the cases are numbered from 0 without a gap.
pub mod Detect
use esma.Base.{
  ℕ, zero, suc, ◌+◌, ◌-◌, ◌*◌, ◌/◌, ◌%◌, ◌^◌, Bool, true, false, Option, none, some, List, [], ◌∷◌,
  get_elem?, bit_and, bit_xor, ◌==◌, if◌then◌else◌,
}

-- `struct crc8_poly`, `struct crc16_poly` and `struct crc32_poly`
pub record Poly : Type 0 where
  pub normal : ℕ
  pub revers : ℕ

abbrev poly_of : ℕ → ℕ → Poly
poly_of n r = record { normal = n; revers = r }

abbrev crc8_poly : List Poly
crc8_poly =
    poly_of 0x07 0xD0
    ∷ poly_of 0x39 0x9C
    ∷ poly_of 0x31 0x8C
    ∷ poly_of 0x9B 0xBD
    ∷ poly_of 0x07 0xD0
    ∷ []

abbrev crc16_poly : List Poly
crc16_poly =
    poly_of 0x1021 0x8408
    ∷ poly_of 0x8005 0xA001
    ∷ poly_of 0xC867 0xE613
    ∷ poly_of 0x0589 0x91A0
    ∷ poly_of 0x3D65 0xA6BC
    ∷ poly_of 0x8BB7 0xEDD1
    ∷ poly_of 0xA097 0x0000
    ∷ []

abbrev crc32_poly : List Poly
crc32_poly =
    poly_of 0x04C11DB7 0xEDB88320
    ∷ poly_of 0x1EDC6F41 0x82F63B78
    ∷ poly_of 0xA833982B 0xD419CC15
    ∷ poly_of 0x814141AB 0xD5828281
    ∷ poly_of 0x000000AF 0xF5000000
    ∷ []

-- One round of the inner loop of `__crc…_false_false`, on `w` bits.
unfoldable pub shift_up : ℕ → ℕ → ℕ → ℕ
shift_up w poly crc =
    if bit_and crc (2 ^ (w - 1)) == 0 then crc * 2 % 2 ^ w else bit_xor (crc * 2) poly % 2 ^ w

-- One round of the inner loop of `__crc…_true_true`.
unfoldable pub shift_down : ℕ → ℕ → ℕ
shift_down poly crc = if bit_and crc 1 == 0 then crc / 2 else bit_xor (crc / 2) poly

unfoldable pub rounds : ℕ → (ℕ → ℕ) → ℕ → ℕ
rounds zero f crc = crc
rounds (suc n) f crc = rounds n f (f crc)

-- `__crc8_false_false`, `__crc16_false_false` and `__crc32_false_false`
unfoldable pub false_false : ℕ → List ℕ → ℕ → ℕ → ℕ
unfolding shift_up rounds
false_false w [] crc poly = crc
false_false w (d ∷ ds) crc poly =
    false_false w ds (rounds 8 (shift_up w poly) (bit_xor crc (d * 2 ^ (w - 8)))) poly

-- `__crc8_true_true`, `__crc16_true_true` and `__crc32_true_true`
unfoldable pub true_true : List ℕ → ℕ → ℕ → ℕ
unfolding shift_down rounds
true_true [] crc poly = crc
true_true (d ∷ ds) crc poly = true_true ds (rounds 8 (shift_down poly) (bit_xor crc d)) poly

-- What a case does: the start value, the loop (`__crc…_true_true` if `reflected`), the polynomial,
-- and what its result is combined with by `^` (all ones for `~`).
pub record Variant : Type 0 where
  pub init : ℕ
  pub reflected : Bool
  pub poly : ℕ
  pub out : ℕ

abbrev poly_at : List Poly → ℕ → Poly
poly_at ps i = elim (get_elem? ps i) [ none ↦ poly_of 0 0 | some p ↦ p ]

abbrev up : List Poly → ℕ → ℕ → ℕ → Variant
up ps init i out = record {
  init = init;
  reflected = false;
  poly = (poly_at ps i).normal;
  out = out;
}

abbrev down : List Poly → ℕ → ℕ → ℕ → Variant
down ps init i out = record {
  init = init;
  reflected = true;
  poly = (poly_at ps i).revers;
  out = out;
}

-- CRC8_BASIC, CRC8_CDMA2000, CRC8_DARC, CRC8_WCDMA, CRC8_MAXIM
abbrev pub crc8_variants : List Variant
crc8_variants =
    up crc8_poly 0x00 0 0
    ∷ up crc8_poly 0xFF 3 0
    ∷ down crc8_poly 0x00 1 0
    ∷ down crc8_poly 0x00 3 0
    ∷ down crc8_poly 0xFF 2 0
    ∷ []

-- CRC16_ARC, AUG_CCITT, BUYPASS, CDMA2000, DDS_110, DECT_R, DECT_X, DNP, EN_13757, GENIBUS, MAXIM,
-- MCRF4XX, RIELLO, T10_DIF, TELEDISK, TMS37157, USB, A, KERMIT, MODBUS, X_25, XMODEM
abbrev pub crc16_variants : List Variant
crc16_variants =
    down crc16_poly 0x0000 1 0
    ∷ up crc16_poly 0x1D0F 0 0
    ∷ up crc16_poly 0x0000 1 0
    ∷ up crc16_poly 0xFFFF 2 0
    ∷ up crc16_poly 0x800D 1 0
    ∷ up crc16_poly 0x0000 3 1
    ∷ up crc16_poly 0x0000 3 0
    ∷ down crc16_poly 0x0000 4 0xFFFF
    ∷ up crc16_poly 0x0000 4 0xFFFF
    ∷ up crc16_poly 0xFFFF 0 0xFFFF
    ∷ down crc16_poly 0x0000 1 0xFFFF
    ∷ down crc16_poly 0xFFFF 0 0
    ∷ down crc16_poly 0x554D 0 0
    ∷ up crc16_poly 0x0000 5 0
    ∷ up crc16_poly 0x0000 6 0
    ∷ down crc16_poly 0x3791 0 0
    ∷ down crc16_poly 0xFFFF 1 0xFFFF
    ∷ down crc16_poly 0x6363 0 0
    ∷ down crc16_poly 0x0000 0 0
    ∷ down crc16_poly 0xFFFF 1 0
    ∷ down crc16_poly 0xFFFF 0 0xFFFF
    ∷ up crc16_poly 0x0000 0 0
    ∷ []

-- CRC32_BASIC, BZIP2, C, D, MPEG2, POSIX, Q, JAMCRC, XFER
abbrev pub crc32_variants : List Variant
crc32_variants =
    down crc32_poly 0xFFFF_FFFF 0 0xFFFF_FFFF
    ∷ up crc32_poly 0xFFFF_FFFF 0 0xFFFF_FFFF
    ∷ down crc32_poly 0xFFFF_FFFF 1 0xFFFF_FFFF
    ∷ down crc32_poly 0xFFFF_FFFF 2 0xFFFF_FFFF
    ∷ up crc32_poly 0xFFFF_FFFF 0 0
    ∷ up crc32_poly 0x0000_0000 0 0xFFFF_FFFF
    ∷ up crc32_poly 0x0000_0000 3 0
    ∷ down crc32_poly 0xFFFF_FFFF 0 0
    ∷ up crc32_poly 0x0000_0000 4 0
    ∷ []

unfoldable pub checksum : ℕ → Variant → List ℕ → ℕ
unfolding false_false true_true
checksum w v d =
    bit_xor (if v.reflected then true_true d v.init v.poly else false_false w d v.init v.poly) v.out

-- The value stored in `*crc`, or none for the return value 1.
unfoldable pub crc_by_name : ℕ → List Variant → List ℕ → ℕ → Option ℕ
unfolding checksum
crc_by_name w vs d name = elim (get_elem? vs name) [ none ↦ none | some v ↦ some (checksum w v d) ]

unfoldable pub crc8 : List ℕ → ℕ → Option ℕ
unfolding crc_by_name
crc8 d name = crc_by_name 8 crc8_variants d name

unfoldable pub crc16 : List ℕ → ℕ → Option ℕ
unfolding crc_by_name
crc16 d name = crc_by_name 16 crc16_variants d name

unfoldable pub crc32 : List ℕ → ℕ → Option ℕ
unfolding crc_by_name
crc32 d name = crc_by_name 32 crc32_variants d name
