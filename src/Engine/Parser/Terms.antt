-- ===== src/Engine/Parser/Terms.antt =====
-- engine/esma_template.c: what the parser adds to a template. Memory and the C library are
-- parameters.
use esma.Base.{
  ℕ, zero, suc, ◌+◌, ◌-◌, ◌%◌, ◌^◌, Bool, Option, none, some, List, [], ◌∷◌, ◌++◌, length,
  get_elem?, set, ◌≡◌, refl, ap, ◌∙◌, append-nil, ltb, leb, ◌==◌, if◌then◌else◌,
}
use esma.Engine.Types.{
  Name, Template, StateTemplate, TransTemplate, ch_none, ch_tick, ch_data, ch_sign,
}
use esma.Engine.Load.{codes}

-- `sscanf fmt p` is what `%d` behind the letters of `fmt` reads at `p`, as a 32-bit word; `signal` the
-- number of a signal, by its name without SIG. `fresh i` is what cell `i` of the states holds when
-- it is pushed (none if the push returns NULL), `calloc i` whether its transitions get memory, and
-- `room i j` whether the push of transition `j` of state `i` does.
pub record Surroundings : Type 0 where
  pub sscanf : List ℕ → List ℕ → Option ℕ
  pub signal : List ℕ → ℕ
  pub fresh : ℕ → Option StateTemplate
  pub calloc : ℕ → Bool
  pub room : ℕ → ℕ → Bool

-- `struct esma_template_internal`; `code` is -1 after `_esma_template_internal_clean`.
pub record Internal : Type 0 where
  pub code : ℕ
  pub flags : ℕ
  pub ch_type : ℕ
  pub ch_data : ℕ
  pub est_src : Option ℕ
  pub est_dst : Option ℕ

abbrev pub clean : Internal
clean = record {
  code = 2 ^ 32 - 1;
  flags = 0;
  ch_type = ch_none;
  ch_data = 0;
  est_src = none;
  est_dst = none;
}

pub data Result (A : Type 0) : Type 0 where
  ok : A → Result A
  refused : Result A
  fault : Result A

abbrev pub zero_state : StateTemplate
zero_state = record {
  name = [];
  trans = [];
  ntrans = 0;
  max_code = 0;
  max_sign_code = 0;
  max_data_code = 0;
  max_tick_code = 0;
}

abbrev drop : ℕ → List ℕ → List ℕ
drop zero xs = xs
drop (suc n) [] = []
drop (suc n) (x ∷ xs) = drop n xs

-- `memcpy(state->name, name, name_len)`: no NUL is written, and 64 bytes are there.
abbrev pub overlay : List ℕ → List ℕ → List ℕ
overlay name old = name ++ drop (length name) old

drop-nil : (n : ℕ) → drop n [] ≡ []
drop-nil zero = refl
drop-nil (suc n) = refl

pub overlay-nil : (name : List ℕ) → overlay name [] ≡ name
overlay-nil name = ap (λ (r : List ℕ). name ++ r) (drop-nil (length name)) ∙ append-nil name

-- The fields that a new state gets over what its cell held
unfoldable pub named : Name → StateTemplate → StateTemplate
named name old = record old { name = overlay name old.name; trans = [] }

module _ (env : Surroundings) where
  -- `old` is what the cell of the new state holds.
  unfoldable pub place_state : Template → Name → Option StateTemplate → Result Template
  unfolding named
  place_state et name none = fault
  place_state et name (some old) =
      if leb 64 (length name)
      then fault
      else if env.calloc (length et.states)
      then ok (record et { states = et.states ++ named name old ∷ [] })
      else refused

  -- `_new_esma_state_template`
  unfoldable pub new_state : Template → Name → Result Template
  unfolding place_state
  new_state et name = place_state et name (env.fresh (length et.states))

  -- `esma_template_init`, with `memory` for whether the array of states is given.
  unfoldable pub init : Bool → Name → Option Template
  init memory name =
      if memory
      then if env.calloc 0
        then if env.calloc 1
          then some (record {
            name = name;
            states =
                record zero_state { name = codes "init" }
                ∷ record zero_state { name = codes "fini" }
                ∷ [];
          })
          else none
        else none
      else none

-- `a > b ? a : b`
abbrev pub larger : ℕ → ℕ → ℕ
larger a b = if ltb b a then a else b

-- The `switch` of `_new_esma_trans_template`.
unfoldable pub counted : Internal → StateTemplate → StateTemplate
counted eti st =
    if eti.ch_type == ch_none
    then record st { ntrans = (st.ntrans + 1) % 2 ^ 32; max_code = larger eti.code st.max_code }
    else if eti.ch_type == ch_tick
    then record st { max_tick_code = larger eti.code st.max_tick_code }
    else if eti.ch_type == ch_data
    then record st { max_data_code = larger eti.code st.max_data_code }
    else if eti.ch_type == ch_sign
    then record st { max_sign_code = larger eti.code st.max_sign_code }
    else st

abbrev pub trans_of : Internal → TransTemplate
trans_of eti = record {
  action_code = eti.code;
  ch_type = eti.ch_type;
  ch_data = eti.ch_data;
  ch_periodic = eti.flags;
  next_state = eti.est_dst;
}

unfoldable pub with_trans : Internal → StateTemplate → StateTemplate
unfolding counted
with_trans eti st = record (counted eti st) { trans = st.trans ++ trans_of eti ∷ [] }

module _ (env : Surroundings) where
  -- The push for the source state `st`, which has index `k`.
  unfoldable pub push_trans : Internal → Template → ℕ → StateTemplate → Result Template
  unfolding with_trans
  push_trans eti et k st =
      if env.room k (length st.trans)
      then ok (record et { states = set et.states k (with_trans eti st) })
      else refused

  -- The source state is `none` only if a NULL pointer is read.
  unfoldable pub push_from : Internal → Template → Option ℕ → Result Template
  unfolding push_trans
  push_from eti et none = fault
  push_from eti et (some k) = elim (get_elem? et.states k) [
    | none ↦ fault
    | some st ↦ push_trans eti et k st
  ]

  -- `_new_esma_trans_template`
  unfoldable pub new_trans : Internal → Template → Result Template
  unfolding push_from
  new_trans eti et = push_from eti et eti.est_src
