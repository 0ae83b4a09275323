-- ===== src/Mempool/Several.antt =====
-- esma_mempool_get_block_n and esma_mempool_put_block_n.
use esma.Base.{
  ℕ, zero, suc, ◌+◌, ◌*◌, ◌^◌, ◌<◌, ◌≡◌, refl, ap, ◌∙◌, Bool, true, Option, none, some, leb, arith,
}
use esma.Base.Bytes.{u32, sub32}
use esma.Mempool.{
  Mempool, store, init_blocks, value, take_block, get_from, get_block, put_block_n, get_block_n,
  take_n, past,
}
use esma.Mempool.Chains.{Chain, Absent, Chain-store, page_list, init_blocks-Chain}

Absent-above : (b a n size : ℕ) → a + size * n < b → Absent b (page_list a n size)
unfolding page_list
Absent-above b a zero size h = (λ e. absurd (omega (arith, e)), tt)
Absent-above b a (suc n) size h =
    let more : size * suc n ≡ size + size * n = grind arith in
    (λ e. absurd (omega (arith, e)), Absent-above b (a + size) n size (omega (arith, more)))

-- After a put of several blocks, of less than 4 GiB, the basket consists of these alone: those that it held before are no
-- longer linked.
pub put_block_n-forgets :
    (mp : Mempool) (p n : ℕ)
    → 0 < mp.block_size
    → mp.block_size * suc n < 2 ^ 32
    → (mp' : Mempool) × (put_block_n mp p (suc n) ≡ some mp')
      × Chain mp'.next mp'.basket (page_list p n mp.block_size)
unfolding put_block_n
put_block_n-forgets mp p n pos small =
    let size = mp.block_size in
    let next = init_blocks mp.next p n size in
    let wide : u32 (size * suc n) ≡ size * suc n = omega (arith, small) in
    let behind = p + 8 * u32 (size * suc n) in
    let more : size * suc n ≡ size + size * n = grind arith in
    (
      record mp { next = store next behind mp.basket; basket = some p },
      refl,
      Chain-store next behind mp.basket (some p) (page_list p n size)
          (Absent-above behind p n size (omega (arith, more, wide)))
          (init_blocks-Chain mp.next p n size pos),
    )

-- If all blocks that are left of a page, less than 4 GiB, are taken at once, and the basket is empty, the next block
-- that is handed out is none of the page: it lies right behind it.
pub get_block_n-outside :
    (mp : Mempool) (b n : ℕ) (realloc : Bool) (malloc : Option ℕ)
    → 0 < mp.block_size
    → mp.block_size * suc n < 2 ^ 32
    → mp.blocks ≡ some b
    → mp.basket ≡ none
    → mp.nblocks ≡ suc n
    → (mp' mp'' : Mempool) × (get_block_n mp (suc n) realloc malloc ≡ value (some b) mp')
      × (get_block mp' realloc malloc ≡ value (b + mp.block_size * suc n) mp'')
      × Absent (b + mp.block_size * suc n) (page_list b n mp.block_size)
unfolding get_block_n take_n get_block get_from take_block
get_block_n-outside mp b n realloc malloc pos small e f g =
    let size = mp.block_size in
    let fits : leb (suc n) mp.nblocks ≡ true = ground arith in
    let more : size * suc n ≡ size + size * n = grind arith in
    let wide : u32 (size * suc n) ≡ size * suc n = omega (arith, small) in
    let mp' : Mempool = record mp {
      blocks = past mp.blocks (u32 (size * suc n));
      nblocks = sub32 mp.nblocks (suc n);
    } in
    let mp'' : Mempool = record mp' {
      blocks = mp.next (b + u32 (size * suc n));
      nblocks = sub32 mp'.nblocks 1;
    } in
    (
      mp',
      mp'',
      rw fits (ap (λ (o : Option ℕ). value o mp') e),
      ap (λ (o : Option ℕ). get_from mp' realloc malloc o mp'.blocks) f
          ∙ ap (λ (o : Option ℕ). get_from mp' realloc malloc none (past o (u32 (size * suc n)))) e
          ∙ ap (λ (k : ℕ). value (b + k) mp'') wide,
      Absent-above (b + size * suc n) b n size (omega (arith, more)),
    )
