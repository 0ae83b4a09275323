-- ===== src/Tests/Crc.antt =====
-- core/esma_crc.c: CRC32_BASIC of two short messages.
use esma.Base.{ℕ, ◌≡◌, ◌≢◌, refl, true, some, List, [], ◌∷◌, arith}
use esma.Crc.{crc_by_name, crc8, crc16, crc32, crc32_variants}
use esma.Crc.Detect.{crc_by_name-byte}

-- "123456789"
abbrev digits : List ℕ
digits = 49 ∷ 50 ∷ 51 ∷ 52 ∷ 53 ∷ 54 ∷ 55 ∷ 56 ∷ 57 ∷ []

crc32_basic : crc32 digits 0 ≡ some 0xCBF43926
unfolding crc32
crc32_basic = refl

crc16_xmodem : crc16 digits 21 ≡ some 0x31C3
unfolding crc16
crc16_xmodem = refl

crc8_basic : crc8 digits 0 ≡ some 0xF4
unfolding crc8
crc8_basic = refl

crc_by_name-byte_example :
    crc_by_name 32 crc32_variants (1 ∷ 2 ∷ 3 ∷ []) 0
    ≢ crc_by_name 32 crc32_variants (1 ∷ 7 ∷ 3 ∷ []) 0
crc_by_name-byte_example =
    crc_by_name-byte 31 0 crc32_variants
      (record { init = 0xFFFF_FFFF; reflected = true; poly = 0xEDB8_8320; out = 0xFFFF_FFFF })
      (1 ∷ []) (3 ∷ []) 2 7 refl
      (record {
        reflected = refl;
        sized = record { high = omega arith; below = omega arith };
        init_in = omega arith;
      })
      (omega arith, tt) (omega arith, tt) (omega arith) (omega arith) (λ e. omega (arith, e))
