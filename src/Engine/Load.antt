-- ===== src/Engine/Load.antt =====
-- engine/esma_load.c: a machine from a template. `load_tool` is `dlsym` (utils/load_tool.c),
-- `calloc` tells for each of the calls, numbered in order, whether it returns memory, and `more`
-- is what `realloc` does to a full array of transitions.
pub mod Slots
pub mod Own
pub mod Correct
pub mod Total
pub mod Succeeds
pub mod Bound
pub mod Closed
use esma.Base.{
  ℕ, zero, suc, ◌+◌, ◌-◌, ◌*◌, ◌/◌, ◌%◌, Bool, true, false, Option, none, some, List, [], ◌∷◌, ◌++◌,
  length, map, get_elem?, set, ltb, ◌==◌, if◌then◌else◌, ◌&&◌,
}
use esma.Base.Bytes.{u32}
use Prim.Native.Nat.{max}
use Prim.Native.Char.{code}
use Prim.Native.String.{String}
use esma.Engine.Types.{
  Name, Channel, Trans, TransArray, State, Template, StateTemplate, TransTemplate, zero_trans,
  new_array, nth, push, ch_none, ch_tick, ch_data, ch_sign, pollin, pollout, pollhup, pollerr,
}

-- The character codes of a C string literal.
abbrev pub codes : String → List ℕ
codes String.[] = []
codes (String.◌∷◌ c s) = code c ∷ codes s

-- `%d` of a number, with fuel; `n + 1` rounds are enough.
unfoldable pub decimal_fuel : ℕ → ℕ → List ℕ
decimal_fuel zero n = []
decimal_fuel (suc f) n =
    let front = decimal_fuel f (n / 10) in (if ltb n 10 then [] else front) ++ (48 + n % 10) ∷ []

unfoldable pub decimal : ℕ → List ℕ
unfolding decimal_fuel
decimal n = decimal_fuel (n + 1) n

-- `strcmp(a, b) == 0`
unfoldable pub same_name : Name → Name → Bool
same_name [] [] = true
same_name [] (y ∷ ys) = false
same_name (x ∷ xs) [] = false
same_name (x ∷ xs) (y ∷ ys) = (x == y) && same_name xs ys

infixl 5 ◌>>=◌
abbrev pub ◌>>=◌ : {A B : Type 0} → Option A → (A → Option B) → Option B
none >>= f = none
some a >>= f = f a

infixl 5 ◌>>◌
abbrev pub ◌>>◌ : {B : Type 0} → Option (Unit {0}) → Option B → Option B
none >> k = none
some t >> k = k

abbrev pub require : Bool → Option (Unit {0})
require true = some tt
require false = none

-- Where a transition of the template is stored in its state.
pub data Slot : Type 0 where
  own : ℕ → Slot
  tick : ℕ → Slot
  sign : ℕ → Slot
  on_pollin : Slot
  on_pollout : Slot
  on_pollerr : Slot

unfoldable pub read_slot : State → Slot → Option Trans
read_slot s (own i) = nth s.trans i
read_slot s (tick i) = nth s.tick_trans i
read_slot s (sign i) = nth s.sign_trans i
read_slot s on_pollin = some s.data_pollin
read_slot s on_pollout = some s.data_pollout
read_slot s on_pollerr = some s.data_pollerr

abbrev pub set_cell : TransArray → ℕ → Trans → TransArray
set_cell a i t = record a { cells = set a.cells i t }

unfoldable pub write_slot : State → Slot → Trans → State
write_slot s (own i) t = record s { trans = set_cell s.trans i t }
write_slot s (tick i) t = record s { tick_trans = set_cell s.tick_trans i t }
write_slot s (sign i) t = record s { sign_trans = set_cell s.sign_trans i t }
write_slot s on_pollin t = record s { data_pollin = t }
write_slot s on_pollout t = record s { data_pollout = t }
write_slot s on_pollerr t = record s { data_pollerr = t }

-- The inner `switch (trans_tmpl->ch_data)`.
unfoldable pub data_slot : ℕ → Option Slot
data_slot d =
    if d == pollin
    then some on_pollin
    else if d == pollout
    then some on_pollout
    else if d == pollerr
    then some on_pollerr
    else if d == pollhup
    then some on_pollerr
    else none

-- The `switch (trans_tmpl->ch_type)`: the state with room for the transition, its slot, and the
-- word in the name of its function. Where the push of a timer's or a signal's transition gets no
-- memory the source goes on with NULL; here it fails.
unfoldable pub pick_slot : State → TransTemplate → Option Trans → Option (State × Slot × List ℕ)
unfolding data_slot
pick_slot s t more =
    if t.ch_type == ch_none
    then some (s, own t.action_code, [])
    else if t.ch_type == ch_tick
    then (do
      (a, i) ← push s.tick_trans more
      some (record s { tick_trans = a }, tick i, codes "tick_"))
    else if t.ch_type == ch_sign
    then (do
      (a, i) ← push s.sign_trans more
      some (record s { sign_trans = a }, sign i, codes "sign_"))
    else if t.ch_type == ch_data
    then (do d ← data_slot t.ch_data; some (s, d, codes "data_"))
    else none

-- `_esma_find_next_state_by_name`: the first state of that name.
unfoldable pub find_name : Name → List Name → Option ℕ
find_name n [] = none
find_name n (m ∷ ms) = if same_name m n then some 0 else (do i ← find_name n ms; some (i + 1))

underscore : List ℕ
underscore = codes "_"

unfoldable pub tool_name : Name → Name → List ℕ → List ℕ
unfolding underscore
tool_name machine state word = machine ++ underscore ++ state ++ underscore ++ word

-- The channel fields that the loop sets: the period only of a tick.
unfoldable pub set_channel : Channel → TransTemplate → Channel
set_channel ch t = record ch {
  type = t.ch_type;
  raw_data = t.ch_data;
  periodic = if t.ch_type == ch_tick then t.ch_periodic else ch.periodic;
}

module _ (load_tool : List ℕ → Option ℕ) (calloc : ℕ → Bool) (more : ℕ → ℕ → Option Trans) where
  -- The action and the next state of a transition; the template's next state, if it has one, is
  -- turned into a state of the machine by its name.
  pub resolve : Template → List Name → Name → List ℕ → Option ℕ → Option (Option ℕ × Option ℕ)
  unfolding same_name find_name tool_name
  resolve tmpl names state word none = do
    a ← load_tool (tool_name tmpl.name state word)
    some (some a, none)
  resolve tmpl names state word (some k) = do
    target ← get_elem? tmpl.states k
    i ← find_name target.name names
    some (none, some i)

  -- The end of the loop of `_esma_prepare_trans`, over the transition that was in the slot.
  pub fill_trans : Template → List Name → State → TransTemplate → List ℕ → Trans → Option Trans
  unfolding decimal resolve set_channel
  fill_trans tmpl names s t word old = do
    (a, n) ← resolve tmpl names s.name (word ++ decimal t.action_code) t.next_state
    some (record { code = t.action_code; action = a; next_state = n; ch = set_channel old.ch t })

  -- One round of the inner loop of `_esma_prepare_trans`.
  pub add_trans : Template → List Name → State → TransTemplate → Option Trans → Option State
  unfolding fill_trans pick_slot push read_slot write_slot
  add_trans tmpl names s t grow = do
    (s', slot, word) ← pick_slot s t grow
    old ← read_slot s' slot
    new ← fill_trans tmpl names s t word old
    some (write_slot s' slot new)

  -- The inner loop, for state `i` from transition `j` on.
  pub add_all : Template → List Name → ℕ → ℕ → State → List TransTemplate → Option State
  unfolding add_trans
  add_all tmpl names i j s [] = some s
  add_all tmpl names i j s (t ∷ ts) =
      add_trans tmpl names s t (more i j) >>= λ s'. add_all tmpl names i (j + 1) s' ts

  -- `_esma_prepare_trans`, from state `i` on.
  pub prepare_trans :
      Template → List Name → ℕ → List State → List StateTemplate → Option (List State)
  unfolding add_all
  prepare_trans tmpl names i (s ∷ ss) (t ∷ ts) = add_all tmpl names i 0 s t.trans >>= λ s'.
      prepare_trans tmpl names (i + 1) ss ts >>= λ rest. some (s' ∷ rest)
  prepare_trans tmpl names i [] [] = some []
  prepare_trans tmpl names i ss ts = none

  -- One round of `_esma_prepare_states`. The largest codes are u32.
  unfoldable pub prepare_state : Template → ℕ → StateTemplate → Option State
  unfolding tool_name
  prepare_state tmpl i t = do
    enter ← load_tool (tool_name tmpl.name t.name (codes "enter"))
    require (calloc (3 * i + 1))
    require (calloc (3 * i + 2))
    require (calloc (3 * i + 3))
    some (record {
      name = t.name;
      enter = enter;
      leave = load_tool (tool_name tmpl.name t.name (codes "leave"));
      trans = new_array (u32 (max t.max_code t.ntrans + 1));
      tick_trans = new_array (u32 (t.max_tick_code + 1));
      sign_trans = new_array (u32 (t.max_sign_code + 1));
      data_pollin = zero_trans;
      data_pollout = zero_trans;
      data_pollerr = zero_trans;
    })

  -- `_esma_prepare_states`, from state `i` on.
  unfoldable pub prepare_states : Template → ℕ → List StateTemplate → Option (List State)
  unfolding prepare_state
  prepare_states tmpl i [] = some []
  prepare_states tmpl i (t ∷ ts) =
      prepare_state tmpl i t >>= λ s. prepare_states tmpl (i + 1) ts >>= λ rest. some (s ∷ rest)

  -- `esma_load`: the states of the machine.
  unfoldable pub load : Template → Option (List State)
  unfolding prepare_states prepare_trans
  load tmpl = do
    require (calloc 0)
    states ← prepare_states tmpl 0 tmpl.states
    prepare_trans tmpl (map (λ (s : State). s.name) states) 0 states tmpl.states
