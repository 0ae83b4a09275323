-- ===== src/Tests/Mempool.antt =====
-- core/esma_mempool.c: pools at small inputs.
use esma.Base.{
  ◌-◌, ℕ, ◌+◌, ◌*◌, ◌<◌, ◌≡◌, ◌≢◌, refl, none, some, true, [], ◌∷◌, ◌==◌, if◌then◌else◌, arith,
}
use esma.Mempool.{page_blocks, page_bytes, Mempool, value, get_block, put_block, get_block_n}
use esma.Mempool.Chains.{Absent, Holds, page_list}
use esma.Mempool.Free.{Gets, Inside, get_block-Inside, put_block-free}
use esma.Mempool.Several.{get_block_n-outside}

-- The block 32 is in the basket, 8 and 16 are on the page.
abbrev pub pool : Mempool
pool = record {
  next = λ a. if a == 8 then some 16 else none;
  blocks = some 8;
  basket = some 32;
  block_size = 8;
  nblocks = 2;
  addr = some (0 ∷ []);
}

apart : {a b : ℕ} → (a ≡ b → 1 < 0) → a ≢ b
apart h e = absurd (omega (arith, h e))

pub pool-Holds : Holds pool (32 ∷ []) (8 ∷ 16 ∷ [])
pool-Holds = record {
  in_basket = (refl, refl);
  on_page = (refl, (refl, refl));
  distinct = (
    (apart (λ e. omega (arith, e)), (apart (λ e. omega (arith, e)), tt)),
    ((apart (λ e. omega (arith, e)), tt), (tt, tt)),
  );
}

get_block-Inside_example :
    Gets pool (32 ∷ []) (8 ∷ 16 ∷ []) 100 (get_block pool true (some 100))
    × Inside 100 (100 + page_bytes 8) 8 (page_list 100 (page_blocks - 1) 8)
get_block-Inside_example =
    get_block-Inside pool (32 ∷ []) (8 ∷ 16 ∷ []) (0 ∷ []) 100 pool-Holds (omega arith)
      (omega arith) refl

put_block-free_example : Holds (put_block pool 24) (24 ∷ 32 ∷ []) (8 ∷ 16 ∷ [])
put_block-free_example = put_block-free pool (32 ∷ []) (8 ∷ 16 ∷ []) 24 pool-Holds (
  apart (λ e. omega (arith, e)),
  (apart (λ e. omega (arith, e)), (apart (λ e. omega (arith, e)), tt)),
)

abbrev page_only : Mempool
page_only = record pool { basket = none }

get_block_n-outside_example :
    (mp mp' : Mempool) × (get_block_n page_only 2 true none ≡ value (some 8) mp)
    × (get_block mp true none ≡ value (8 + 8 * 2) mp')
    × Absent (8 + 8 * 2) (page_list 8 1 8)
get_block_n-outside_example =
    get_block_n-outside page_only 8 1 true none (omega arith) (omega arith) refl refl refl
