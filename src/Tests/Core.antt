-- ===== src/Tests/Core.antt =====
-- core/esma_objpool.c at a small pool.
use esma.Base.{ℕ, ◌+◌, ◌≡◌, ◌≢◌, ◌⊎◌, none, some, [], ◌∷◌, arith}
use esma.Objpool.{Objpool, get, grown_cap, refused, stored, put}
use esma.Objpool.Stack

-- A full pool of two pointers.
abbrev pool : Objpool
pool = record { capacity = 2; capdelta = 1; items = λ i. 40 + i; size = 2; min_size = 0 }

abbrev junk : ℕ → ℕ
junk i = 0

pool-IsValid : Stack.IsValid pool
pool-IsValid = record { size_in = omega arith; cap_pos = omega arith; cap_word = omega arith }

put-push_example :
    (((pool.size ≡ 2) × (put pool 7 none ≡ refused))
      ⊎ ((pool.size ≢ 2) × (put pool 7 none ≡ put pool 7 (some junk))))
    × ((p' : Objpool) × (put pool 7 (some junk) ≡ stored p')
        × Stack.IsValid p'
        × (Stack.contents p' ≡ 7 ∷ Stack.contents pool))
unfolding grown_cap
put-push_example = Stack.put-push pool 7 junk pool-IsValid (omega arith)

get-top_example :
    ((Stack.contents pool ≡ []) × (get pool ≡ (none, pool)))
    ⊎ ((x : ℕ) × (p' : Objpool) × (get pool ≡ (some x, p'))
        × Stack.IsValid p'
        × (Stack.contents pool ≡ x ∷ Stack.contents p'))
get-top_example = Stack.get-top pool pool-IsValid
