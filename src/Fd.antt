-- ===== src/Fd.antt =====
-- core/esma_fd.c, with the answers of fcntl; a word of flags is a number.
use esma.Base.{ℕ, ◌-◌, bit_and, bit_or, Bool, Option, none, some, if◌then◌else◌}

-- What fcntl answers for a descriptor, and its constants: none and false are an error.
pub record Fcntl : Type 0 where
  pub getfl : ℕ → Option ℕ
  pub setfl : ℕ → ℕ → Bool
  pub getfd : ℕ → Option ℕ
  pub setfd : ℕ → ℕ → Bool
  pub o_nonblock : ℕ
  pub fd_cloexec : ℕ

-- `esma_fd_set_nonblocking`
unfoldable pub set_nonblocking : Fcntl → ℕ → Bool → ℕ
set_nonblocking k fd nonblocking = elim (k.getfl fd) [
  | none ↦ 1
  | some flags ↦
      if k.setfl fd
        (if nonblocking then bit_or flags k.o_nonblock else flags - bit_and flags k.o_nonblock)
      then 0
      else 1
]

-- `esma_fd_set_closexec`
unfoldable pub set_closexec : Fcntl → ℕ → ℕ
set_closexec k fd = elim (k.getfd fd) [
  | none ↦ 1
  | some flags ↦ if k.setfd fd (bit_or flags k.fd_cloexec) then 0 else 1
]
