-- ===== src/Dbuf.antt =====
-- core/esma_dbuf.c and core/esma_dbuf.h: a buffer by its bytes; `pos` is the offset of the pointer from
-- the start. What malloc and realloc give is an argument.
use esma.Base.{ℕ, Option, none, some}
use esma.Base.Bytes.{Memory, grown, sub32}

-- `struct esma_dbuf`
pub record Dbuf : Type 0 where
  pub loc : Memory
  pub pos : ℕ
  pub cnt : ℕ
  pub len : ℕ

-- `esma_dbuf_init`
unfoldable pub init : ℕ → Option Memory → Option Dbuf
init len none = none
init len (some junk) = some (record { loc = junk; pos = 0; cnt = 0; len = len })

-- `esma_dbuf_expand`; without memory the buffer stays as it was.
unfoldable pub expand : Dbuf → ℕ → Option Memory → Option Dbuf
expand d new_len none = none
expand d new_len (some junk) = some (record d { loc = grown d.len d.loc junk; len = new_len })

-- `esma_dbuf_clear`
unfoldable pub clear : Dbuf → Dbuf
clear d = record d { cnt = 0; pos = 0 }

-- `esma_dbuf_get_last`
unfoldable pub get_last : Dbuf → ℕ
get_last d = d.loc (sub32 d.cnt 1)
