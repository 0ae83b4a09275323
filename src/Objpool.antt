-- ===== src/Objpool.antt =====
-- core/esma_objpool.c and core/esma_objpool.h: a pool of pointers, kept as a stack. A pointer is a
-- number, and `items` is the array; what `realloc` gives in the new cells is an argument.
pub mod Stack
use esma.Base.{
  ℕ, ◌+◌, ◌-◌, ◌*◌, ◌%◌, ◌^◌, Bool, true, false, Option, none, some, ltb, ◌==◌, if◌then◌else◌,
}
use esma.Base.Bytes.{u32}

-- `struct esma_objpool`
pub record Objpool : Type 0 where
  pub capacity : ℕ
  pub capdelta : ℕ
  pub items : ℕ → ℕ
  pub size : ℕ
  pub min_size : ℕ

-- `esma_objpool_init` and `esma_objpool_new`, given what `malloc` returned.
unfoldable pub init : ℕ → ℕ → ℕ → Option (ℕ → ℕ) → Option Objpool
init capacity min_size capdelta none = none
init capacity min_size capdelta (some junk) = some (record {
  capacity = capacity;
  capdelta = capdelta;
  items = junk;
  size = 0;
  min_size = min_size;
})

unfoldable pub new : ℕ → ℕ → ℕ → Bool → Option (ℕ → ℕ) → Option Objpool
unfolding init
new capacity min_size capdelta false block = none
new capacity min_size capdelta true block = init capacity min_size capdelta block

unfoldable pub is_empty : Objpool → ℕ
is_empty p = if p.size == 0 then 0 else 1

-- `esma_realloc(pool->items, new_cap * sizeof(void *))`: the old cells, then arbitrary ones.
unfoldable pub resized : ℕ → (ℕ → ℕ) → (ℕ → ℕ) → ℕ → ℕ
resized capacity items junk i = if ltb i capacity then items i else junk i

unfoldable pub shrunk_cap : Objpool → ℕ
shrunk_cap p = if ltb p.capdelta p.capacity then p.capacity - p.capdelta else p.capdelta

-- `esma_objpool_shrink`: the return value, and the pool.
unfoldable pub shrink : Objpool → Option (ℕ → ℕ) → ℕ × Objpool
unfolding resized shrunk_cap
shrink p block = if p.capdelta == 0 then (0, p) else (elim block [
  | none ↦ (1, p)
  | some junk ↦ (
    0,
    record p {
      items = resized p.capacity p.items junk;
      capacity = shrunk_cap p;
      size = if ltb (shrunk_cap p) p.size then shrunk_cap p else p.size;
    },
  )
])

unfoldable pub grown_cap : Objpool → ℕ
grown_cap p = if p.capdelta == 0 then u32 (p.capacity * 2) else u32 (p.capacity + p.capdelta)

-- `esma_objpool_expand`
unfoldable pub expand : Objpool → Option (ℕ → ℕ) → Option Objpool
unfolding resized grown_cap
expand p none = none
expand p (some junk) =
    some (record p { items = resized p.capacity p.items junk; capacity = grown_cap p })

-- `pool->items[pool->size++] = item`; past the array it is a `fault`.
pub data Put : Type 0 where
  refused : Put
  fault : Put
  stored : Objpool → Put

abbrev pub write_cell : (ℕ → ℕ) → ℕ → ℕ → ℕ → ℕ
write_cell items i x j = if i == j then x else items j

unfoldable pub store : Objpool → ℕ → Put
store p x =
    if ltb p.size p.capacity
    then stored (record p { items = write_cell p.items p.size x; size = u32 (p.size + 1) })
    else fault

unfoldable pub store_expanded : Option Objpool → ℕ → Put
unfolding store
store_expanded none x = refused
store_expanded (some p) x = store p x

-- `esma_objpool_put`
unfoldable pub put : Objpool → ℕ → Option (ℕ → ℕ) → Put
unfolding expand store_expanded
put p x block = if p.size == p.capacity then store_expanded (expand p block) x else store p x

-- `esma_objpool_get`
unfoldable pub get : Objpool → Option ℕ × Objpool
get p =
    if p.size == 0 then (none, p) else (some (p.items (p.size - 1)), record p { size = p.size - 1 })
