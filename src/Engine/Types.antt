-- ===== src/Engine/Types.antt =====
-- engine/esma_types.h, engine/esma_channel.h and engine/esma_engine_common.h. A pointer to a state
-- is its index in the machine's array of states; names are lists of character codes. The arrays are
-- taken to be smaller than 4 GiB: the u32 products of item_size and an index are left out.
use esma.Base.{
  ℕ, ◌+◌, Option, none, some, List, ◌++◌, length, get_elem?, replicate, ltb, if◌then◌else◌,
}

abbrev pub Name : Type 0
Name = List ℕ

-- ESMA_CH_…
abbrev pub ch_empty : ℕ
ch_empty = 0

abbrev pub ch_none : ℕ
ch_none = 1

abbrev pub ch_tick : ℕ
ch_tick = 2

abbrev pub ch_data : ℕ
ch_data = 3

abbrev pub ch_sign : ℕ
ch_sign = 4

-- ESMA_TM_…
abbrev pub tm_oneshot : ℕ
tm_oneshot = 1

abbrev pub tm_periodic : ℕ
tm_periodic = 2

abbrev pub listening_channel : ℕ
listening_channel = 1

-- ESMA_POLL…
abbrev pub pollin : ℕ
pollin = 1

abbrev pub pollout : ℕ
pollout = 2

abbrev pub pollhup : ℕ
pollhup = 4

abbrev pub pollerr : ℕ
pollerr = 8

-- `__INIT__` and `__FINI__`
abbrev pub init_state : ℕ
init_state = 0

abbrev pub fini_state : ℕ
fini_state = 1

-- `struct esma_channel`; `owner` is the number of a machine.
pub record Channel : Type 0 where
  pub fd : ℕ
  pub type : ℕ
  pub hard : ℕ
  pub interval_msec : ℕ
  pub periodic : ℕ
  pub bytes_avail : ℕ
  pub flags : ℕ
  pub raw_data : ℕ
  pub owner : ℕ

abbrev pub zero_channel : Channel
zero_channel = record {
  fd = 0;
  type = 0;
  hard = 0;
  interval_msec = 0;
  periodic = 0;
  bytes_avail = 0;
  flags = 0;
  raw_data = 0;
  owner = 0;
}

-- `struct trans`; an action is the address of a function of the user's program.
pub record Trans : Type 0 where
  pub code : ℕ
  pub action : Option ℕ
  pub next_state : Option ℕ
  pub ch : Channel

abbrev pub zero_trans : Trans
zero_trans = record { code = 0; action = none; next_state = none; ch = zero_channel }

-- A `struct esma_array` of transitions: the cells of its memory, and how many are counted.
pub record TransArray : Type 0 where
  pub cells : List Trans
  pub nitems : ℕ

-- `esma_array_n`
abbrev pub nth : TransArray → ℕ → Option Trans
nth a i = get_elem? a.cells i

-- `esma_array_init`, given memory
abbrev pub new_array : ℕ → TransArray
new_array capacity = record { cells = replicate capacity zero_trans; nitems = 0 }

-- `esma_array_push`: the array and the index of the new item. A full array doubles; `more` is NULL
-- or what the new cells hold.
unfoldable pub push : TransArray → Option Trans → Option (TransArray × ℕ)
push a more =
    if ltb a.nitems (length a.cells)
    then some (record a { nitems = a.nitems + 1 }, a.nitems)
    else (elim more [
      | none ↦ none
      | some junk ↦ some (
        record a { cells = a.cells ++ replicate (length a.cells) junk; nitems = a.nitems + 1 },
        a.nitems,
      )
    ])

-- `struct state`
pub record State : Type 0 where
  pub name : Name
  pub enter : ℕ
  pub leave : Option ℕ
  pub trans : TransArray
  pub sign_trans : TransArray
  pub tick_trans : TransArray
  pub data_pollin : Trans
  pub data_pollout : Trans
  pub data_pollerr : Trans

-- `struct esma`
pub record Machine : Type 0 where
  pub name : Name
  pub states : List State
  pub current_state : ℕ
  pub io_channel : Channel

-- `struct esma_trans_template`; `next_state` is an index in the template's states, NULL for `self`.
pub record TransTemplate : Type 0 where
  pub action_code : ℕ
  pub ch_type : ℕ
  pub ch_data : ℕ
  pub ch_periodic : ℕ
  pub next_state : Option ℕ

-- `struct esma_state_template`
pub record StateTemplate : Type 0 where
  pub name : Name
  pub trans : List TransTemplate
  pub ntrans : ℕ
  pub max_code : ℕ
  pub max_sign_code : ℕ
  pub max_data_code : ℕ
  pub max_tick_code : ℕ

-- `struct esma_template`; `nstates` is the length of `states`.
pub record Template : Type 0 where
  pub name : Name
  pub states : List StateTemplate
