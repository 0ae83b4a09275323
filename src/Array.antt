-- ===== src/Array.antt =====
-- core/esma_array.c and core/esma_array.h, for items of a type `A` of `item_size` bytes: the cells by
-- their index. The products of item_size and an index or a count are u32 in the source; they are left
-- out here, so that an array is taken to be smaller than 4 GiB. What `realloc` gives in the new cells is an argument, none for NULL.
pub mod Items
use esma.Base.{ℕ, ◌+◌, ◌-◌, ◌*◌, Bool, true, false, Option, none, some, ltb, ◌==◌, if◌then◌else◌}
use esma.Base.Bytes.{u32}

-- `struct esma_array`
pub record Array (A : Type 0) : Type 0 where
  pub item : ℕ → A
  pub nitems : ℕ
  pub capacity : ℕ

-- What a push hands out: NULL, a cell behind the block, or a cell by its index.
pub data Slot (A : Type 0) : Type 0 where
  null : Slot A
  outside : Slot A
  slot : ℕ → Array A → Slot A

module _ {A : Type 0} where
  -- `esma_array_init`; `zeroed` is an item of zero bytes, `calloc` whether there is memory.
  unfoldable pub init : A → ℕ → Bool → Option (Array A)
  init zeroed capacity false = none
  init zeroed capacity true = some (record { item = λ _. zeroed; nitems = 0; capacity = capacity })

  unfoldable pub new : A → ℕ → Bool → Bool → Option (Array A)
  unfolding init
  new zeroed capacity false calloc = none
  new zeroed capacity true calloc = init zeroed capacity calloc

  unfoldable pub nth : Array A → ℕ → Option A
  nth a i = if ltb i a.capacity then some (a.item i) else none

  unfoldable pub tail : Array A → Option A
  tail a = if a.nitems == 0 then none else some (a.item (a.nitems - 1))

  -- `_esma_array_expand`
  unfoldable pub expand : Array A → Option (ℕ → A) → Option (Array A)
  expand a none = none
  expand a (some junk) = some (record a {
    item = λ i. if ltb i a.capacity then a.item i else junk i;
    capacity = u32 (a.capacity * 2);
  })

  unfoldable pub take_slot : Array A → Slot A
  take_slot a =
      if ltb a.nitems a.capacity
      then slot a.nitems (record a { nitems = u32 (a.nitems + 1) })
      else outside

  unfoldable pub take_expanded : Option (Array A) → Slot A
  unfolding take_slot
  take_expanded none = null
  take_expanded (some a) = take_slot a

  -- `esma_array_push`
  unfoldable pub push : Array A → Option (ℕ → A) → Slot A
  unfolding take_expanded expand
  push a block = if ltb a.nitems a.capacity then take_slot a else take_expanded (expand a block)

  -- The client's write of an item.
  abbrev pub put_at : Array A → ℕ → A → Array A
  put_at a i x = record a { item = λ j. if i == j then x else a.item j }

  -- `esma_array_pop`: the item copied to `to`, if any.
  unfoldable pub pop : A → Array A → Option A × Array A
  pop zeroed a = if a.nitems == 0 then (none, a) else (
    some (a.item (a.nitems - 1)),
    record (put_at a (a.nitems - 1) zeroed) { nitems = a.nitems - 1 },
  )

  -- `esma_array_copy`: `dst` afterwards; without memory it is left as it was, with its items freed.
  unfoldable pub copy : A → Array A → Bool → Option (Array A)
  copy zeroed src false = none
  copy zeroed src true = some (record {
    item = λ i. if ltb i src.nitems then src.item i else zeroed;
    nitems = src.nitems;
    capacity = src.capacity;
  })
