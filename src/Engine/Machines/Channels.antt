-- ===== src/Engine/Machines/Channels.antt =====
-- engine/esma_machine.c: the I/O channel of a machine, and the lookup of states and channels.
use esma.Base.{ℕ, Option, none, some, List, [], ◌∷◌, get_elem?, map, ltb, ◌==◌, if◌then◌else◌}
use esma.Engine.Types.{
  Name, Channel, zero_channel, State, Trans, nth, ch_none, ch_tick, ch_data, ch_sign,
}
use esma.Engine.Load.{find_name}
use esma.Engine.World.{Source, ticks, signals}

-- Calls of the reactor.
pub data Asked : Type 0 where
  adds : (fd : ℕ) → Asked
  dels : (fd : ℕ) → Asked
  mods : (fd events : ℕ) → Asked

abbrev pub failing : ℕ → ℕ
failing err = if err == 0 then 0 else 1

abbrev pub io_channel_of : ℕ → ℕ → Channel
io_channel_of owner fd = record zero_channel { type = ch_data; fd = fd; owner = owner }

-- `esma_machine_init_io_channel`, with the answer of the reactor; a negative descriptor is none.
-- The channel, the calls and what is returned.
unfoldable pub init_io_channel : ℕ → Option ℕ → ℕ → Channel → Channel × List Asked × ℕ
init_io_channel owner none err ch = (ch, [], 1)
init_io_channel owner (some fd) err ch =
    if ch.type == ch_none then (io_channel_of owner fd, adds fd ∷ [], failing err) else (ch, [], 0)

-- `esma_machine_free_io_channel`
unfoldable pub free_io_channel : Channel → Channel × List Asked × ℕ
free_io_channel ch =
    (record zero_channel { type = ch_none }, if ltb 0 ch.fd then dels ch.fd ∷ [] else [], 0)

abbrev pub event_enable : ℕ
event_enable = 0

abbrev pub event_disable : ℕ
event_disable = 1

-- `esma_machine_mod_io_channel`
unfoldable pub mod_io_channel : ℕ → ℕ → ℕ → Channel → List Asked × ℕ
mod_io_channel events action err ch =
    if ch.type == ch_none
    then ([], 0)
    else if action == event_enable
    then (mods ch.fd events ∷ [], failing err)
    else if action == event_disable
    then (mods ch.fd 0 ∷ [], failing err)
    else ([], 1)

-- `esma_machine_find_state_by_name`: the index of the state.
unfoldable pub find_state_by_name : List State → Option Name → Option ℕ
unfolding find_name
find_state_by_name ss none = none
find_state_by_name ss (some name) = find_name name (map (λ (s : State). s.name) ss)

-- What `esma_machine_get_channel` returns: NULL, a channel, or a pointer made of NULL, which is none.
pub data Found : Type 0 where
  null : Found
  channel : Source → Found
  invalid : Found

abbrev cell_found : Source → Option Trans → Found
cell_found source none = invalid
cell_found source (some t) = channel source

abbrev state_found : ℕ → ℕ → ℕ → Option State → Found
state_found i id type none = null
state_found i id type (some s) =
    if type == ch_tick
    then cell_found (ticks i id) (nth s.tick_trans id)
    else if type == ch_sign
    then cell_found (signals i id) (nth s.sign_trans id)
    else null

abbrev index_found : List State → ℕ → ℕ → Option ℕ → Found
index_found ss id type none = null
index_found ss id type (some i) = state_found i id type (get_elem? ss i)

-- `esma_machine_get_channel`, of a machine that is there, for an `id` that is not negative
unfoldable pub get_channel : List State → Option Name → ℕ → ℕ → Found
unfolding find_state_by_name
get_channel ss name id type = index_found ss id type (find_state_by_name ss name)
