-- ===== src/Mempool.antt =====
-- core/esma_mempool.c. A block is its address, and `next` what the memory holds at the start of a block
-- (none for NULL). What malloc and realloc answer is an argument.
pub mod Chains
pub mod Free
pub mod Several
use esma.Base.{
  ℕ, zero, suc, ◌+◌, ◌-◌, ◌*◌, ◌/◌, Bool, true, false, Option, none, some, List, [], ◌∷◌, ◌++◌, ltb,
  leb, ◌==◌, if◌then◌else◌,
}
use esma.Base.Bytes.{u32, sub32}
use esma.Ring.{align8}

-- `struct esma_mempool`, with the memory of its blocks; `addr` is none when it points to freed memory.
pub record Mempool : Type 0 where
  pub next : ℕ → Option ℕ
  pub blocks : Option ℕ
  pub basket : Option ℕ
  pub block_size : ℕ
  pub nblocks : ℕ
  pub addr : Option (List ℕ)

abbrev pub page_blocks : ℕ
page_blocks = 1024

abbrev pub store : (ℕ → Option ℕ) → ℕ → Option ℕ → ℕ → Option ℕ
store next a v b = if a == b then v else next b

-- `_esma_mempool_init_blocks`, for one block more than `n`.
unfoldable pub init_blocks : (ℕ → Option ℕ) → ℕ → ℕ → ℕ → ℕ → Option ℕ
init_blocks next a zero size = store next a none
init_blocks next a (suc n) size = init_blocks (store next a (some (a + size))) (a + size) n size

-- The bytes of a page that malloc is asked for, a u32.
unfoldable pub page_bytes : ℕ → ℕ
page_bytes block_size = u32 (page_blocks * block_size)

-- The blocks are linked after the fields are set.
unfoldable pub page_at : Mempool → List ℕ → ℕ → Mempool
page_at mp pages a = record {
  next = init_blocks mp.next a (page_blocks - 1) mp.block_size;
  blocks = some a;
  basket = mp.basket;
  block_size = mp.block_size;
  nblocks = page_blocks;
  addr = some (pages ++ a ∷ []);
}

-- What a call comes to: an error, with the pool as it is then, or success; a fault reads or frees
-- freed memory.
pub data Result (A : Type 0) : Type 0 where
  failed : Mempool → Result A
  value : A → Mempool → Result A
  fault : Result A

unfoldable pub add_page : Mempool → Bool → Option ℕ → Option (List ℕ) → Result (Unit {0})
unfolding page_at
add_page mp realloc malloc none = fault
add_page mp false malloc (some pages) = failed mp
add_page mp true none (some pages) = failed (record mp { addr = none })
add_page mp true (some a) (some pages) = value tt (page_at mp pages a)

-- `_esma_mempool_new_addr`, with whether realloc gives memory, and the page of malloc.
unfoldable pub new_addr : Mempool → Bool → Option ℕ → Result (Unit {0})
unfolding add_page
new_addr mp realloc malloc = add_page mp realloc malloc mp.addr

-- `esma_mempool_init`: the basket stays as it was.
unfoldable pub init : Mempool → ℕ → Bool → Option ℕ → Result (Unit {0})
unfolding new_addr align8
init mp block_size realloc malloc =
    new_addr
      (record mp {
        block_size = align8 (if ltb 8 block_size then block_size else 8);
        addr = some [];
      })
      realloc malloc

unfoldable pub take_block : Mempool → Option ℕ → Result ℕ
take_block mp none = fault
take_block mp (some b) = value b (record mp { blocks = mp.next b; nblocks = sub32 mp.nblocks 1 })

unfoldable pub take_new : Result (Unit {0}) → Result ℕ
unfolding take_block
take_new (value t mp) = take_block mp mp.blocks
take_new (failed mp) = failed mp
take_new fault = fault

unfoldable pub get_from : Mempool → Bool → Option ℕ → Option ℕ → Option ℕ → Result ℕ
unfolding take_new new_addr take_block
get_from mp realloc malloc (some b) blocks = value b (record mp { basket = mp.next b })
get_from mp realloc malloc none (some b) = take_block mp (some b)
get_from mp realloc malloc none none = take_new (new_addr mp realloc malloc)

-- `esma_mempool_get_block`
unfoldable pub get_block : Mempool → Bool → Option ℕ → Result ℕ
unfolding get_from
get_block mp realloc malloc = get_from mp realloc malloc mp.basket mp.blocks

-- `esma_mempool_put_block`
unfoldable pub put_block : Mempool → ℕ → Mempool
put_block mp p = record mp { basket = some p; next = store mp.next p mp.basket }

abbrev pub past : Option ℕ → ℕ → Option ℕ
past none n = if n == 0 then none else some n
past (some b) n = some (b + n)

unfoldable pub take_n : Mempool → ℕ → Result (Option ℕ)
take_n mp n =
    value mp.blocks (record mp {
      blocks = past mp.blocks (u32 (mp.block_size * n));
      nblocks = sub32 mp.nblocks n;
    })

unfoldable pub take_n_new : ℕ → Result (Unit {0}) → Result (Option ℕ)
unfolding take_n
take_n_new n (value t mp) = take_n mp n
take_n_new n (failed mp) = failed mp
take_n_new n fault = fault

-- The rest of the page goes to the basket; a struct block has 8 bytes.
unfoldable pub get_n_from : Mempool → ℕ → Bool → Option ℕ → Option ℕ → Result (Option ℕ)
unfolding take_n_new new_addr
get_n_from mp n realloc malloc none = fault
get_n_from mp n realloc malloc (some b) = take_n_new n (
    new_addr
      (record mp {
        next = store mp.next (b + 8 * u32 (mp.block_size * mp.nblocks)) mp.basket;
        basket = some b;
      })
      realloc malloc)

-- `esma_mempool_get_block_n`
unfoldable pub get_block_n : Mempool → ℕ → Bool → Option ℕ → Result (Option ℕ)
unfolding get_n_from take_n
get_block_n mp n realloc malloc =
    if leb n mp.nblocks then take_n mp n else get_n_from mp n realloc malloc mp.blocks

-- `esma_mempool_put_block_n`; none for `n == 0`, where the count of blocks wraps.
unfoldable pub put_block_n : Mempool → ℕ → ℕ → Option Mempool
unfolding init_blocks
put_block_n mp p zero = none
put_block_n mp p (suc n) = some (record mp {
  next =
      store (init_blocks mp.next p n mp.block_size) (p + 8 * u32 (mp.block_size * suc n)) mp.basket;
  basket = some p;
})
