-- ===== src/Mempool/Free.antt =====
-- What get and put do to the free blocks of a pool.
use esma.Base.{
  arith, ◌≤◌, ◌*◌, ◌^◌, ℕ, zero, suc, ◌+◌, ◌-◌, ◌<◌, ◌≡◌, refl, ap, sym, subst, ◌∙◌, ◌⊎◌, inl, inr,
  true, Option, none, some, List, [], ◌∷◌, ◌++◌,
}
use esma.Base.Bytes.{sub32}
use esma.Mempool.{
  page_bytes, Mempool, Result, store, init_blocks, page_blocks, page_at, value, add_page, new_addr,
  take_block, take_new, get_from, get_block, put_block,
}
use esma.Mempool.Chains.{
  Chain, Absent, Distinct, Holds, store_self, Chain-store, page_list, Distinct-page_list,
  init_blocks-Chain,
}

Absent-append : (a : ℕ) (xs ys : List ℕ) → Absent a (xs ++ ys) → Absent a xs × Absent a ys
Absent-append a [] ys h = (tt, h)
Absent-append a (x ∷ xs) ys (ne, h) = let (p, q) = Absent-append a xs ys h in ((ne, p), q)

-- The blocks of a page but the first.
page_rest : ℕ → ℕ → ℕ → List ℕ
page_rest a zero size = []
page_rest a (suc n) size = page_list (a + size) n size

page_list-eq : (a n size : ℕ) → page_list a n size ≡ a ∷ page_rest a n size
unfolding page_list page_rest
page_list-eq a zero size = refl
page_list-eq a (suc n) size = refl

-- What a get of a pool with these free blocks comes to, if a new page is at `a`: the first free block
-- is handed out, or the first of the page if there is none, and it is free no longer.
pub record Gets (mp : Mempool) (basket page : List ℕ) (a : ℕ) (r : Result ℕ) : Type 0 where
  pub block : ℕ
  pub after : Mempool
  pub basket' : List ℕ
  pub page' : List ℕ
  pub result : r ≡ value block after
  pub holds : Holds after basket' page'
  pub taken : Absent block (basket' ++ page')
  pub free :
      (basket ++ page ≡ block ∷ (basket' ++ page'))
      ⊎ ((basket ++ page ≡ [])
          × (block ∷ (basket' ++ page') ≡ page_list a (page_blocks - 1) mp.block_size))

-- The get of a pool whose list of pages is there, if there is memory for a new page.
pub get_block-free :
    (mp : Mempool) (basket page pages : List ℕ) (a : ℕ)
    → Holds mp basket page
    → 0 < mp.block_size
    → mp.addr ≡ some pages
    → Gets mp basket page a (get_block mp true (some a))
unfolding get_block get_from take_block take_new new_addr add_page page_at
get_block-free mp (k ∷ ks) page pages a h pos e = record {
  block = k;
  after = record mp { basket = mp.next k };
  basket' = ks;
  page' = page;
  result = ap (λ (o : Option ℕ). get_from mp true (some a) o mp.blocks) h.in_basket.0;
  holds = record { in_basket = h.in_basket.1; on_page = h.on_page; distinct = h.distinct.1 };
  taken = h.distinct.0;
  free = inl refl;
}
get_block-free mp [] (p ∷ ps) pages a h pos e = record {
  block = p;
  after = record mp { blocks = mp.next p; nblocks = sub32 mp.nblocks 1 };
  basket' = [];
  page' = ps;
  result =
      ap (λ (o : Option ℕ). get_from mp true (some a) o mp.blocks) h.in_basket
      ∙ ap (λ (o : Option ℕ). get_from mp true (some a) none o) h.on_page.0;
  holds = record { in_basket = h.in_basket; on_page = h.on_page.1; distinct = h.distinct.1 };
  taken = h.distinct.0;
  free = inl refl;
}
get_block-free mp [] [] pages a h pos e =
    let size = mp.block_size in
    let next = init_blocks mp.next a (page_blocks - 1) size in
    let rest = page_rest a (page_blocks - 1) size in
    let split = page_list-eq a (page_blocks - 1) size in
    let linked : Chain next (some a) (a ∷ rest) =
      subst (Chain next (some a)) split (init_blocks-Chain mp.next a (page_blocks - 1) size pos) in
    let apart : Distinct (a ∷ rest) =
      subst Distinct split (Distinct-page_list a (page_blocks - 1) size pos) in
    record {
      block = a;
      after = record (page_at mp pages a) { blocks = next a; nblocks = sub32 page_blocks 1 };
      basket' = [];
      page' = rest;
      result =
          ap (λ (o : Option ℕ). get_from mp true (some a) o mp.blocks) h.in_basket
          ∙ ap (λ (o : Option ℕ). get_from mp true (some a) none o) h.on_page
          ∙ ap (λ (o : Option (List ℕ)). take_new (add_page mp true (some a) o)) e;
      holds = record { in_basket = h.in_basket; on_page = linked.1; distinct = apart.1 };
      taken = apart.0;
      free = inr (refl, sym split);
    }

-- A put of a block that is not free makes it the first free one; the others stay free, each once.
pub put_block-free :
    (mp : Mempool) (basket page : List ℕ) (p : ℕ)
    → Holds mp basket page
    → Absent p (basket ++ page)
    → Holds (put_block mp p) (p ∷ basket) page
unfolding put_block
put_block-free mp basket page p h new =
    let (b, q) = Absent-append p basket page new in
    record {
      in_basket = (
        refl,
        subst (λ (o : Option ℕ). Chain (store mp.next p mp.basket) o basket)
            (sym (store_self mp.next p mp.basket))
            (Chain-store mp.next p mp.basket mp.basket basket b h.in_basket),
      );
      on_page = Chain-store mp.next p mp.basket mp.blocks page q h.on_page;
      distinct = (new, h.distinct);
    }

-- The blocks lie between two addresses.
abbrev pub Inside : ℕ → ℕ → ℕ → List ℕ → Type 0
Inside low high size [] = Unit
Inside low high size (b ∷ bs) = (low ≤ b) × (b + size ≤ high) × Inside low high size bs

Inside-page_list :
    (low high size n a : ℕ)
    → low ≤ a
    → a + size * suc n ≤ high
    → Inside low high size (page_list a n size)
unfolding page_list
Inside-page_list low high size zero a h k = (h, grind arith, tt)
Inside-page_list low high size (suc n) a h k =
    (h, grind arith, Inside-page_list low high size n (a + size) (omega arith) (grind arith))

-- If memory is there, and the list of pages (which esma_mempool loses when malloc fails), and a page is
-- less than 4 GiB: a get of a pool hands out its first free block, or the first of a new page if there
-- is none; that block is free no longer, and the others are, each once; and the blocks of a new
-- page lie within the bytes that malloc was asked for.
pub get_block-Inside :
    (mp : Mempool) (basket page pages : List ℕ) (a : ℕ)
    → Holds mp basket page
    → 0 < mp.block_size
    → page_blocks * mp.block_size < 2 ^ 32
    → mp.addr ≡ some pages
    → Gets mp basket page a (get_block mp true (some a))
      × Inside a
          (a + page_bytes mp.block_size)
          mp.block_size
          (page_list a (page_blocks - 1) mp.block_size)
unfolding page_bytes
get_block-Inside mp basket page pages a h pos small e = (
  get_block-free mp basket page pages a h pos e,
  Inside-page_list a (a + page_bytes mp.block_size) mp.block_size (page_blocks - 1) a (omega arith)
      (omega (arith, small)),
)
