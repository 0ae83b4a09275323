-- ===== src/Engine/Program/Named.antt =====
-- The names of a program and of the template that it becomes.
use esma.Base.{ℕ, zero, suc, ◌≡◌, refl, ap, ◌∙◌, true, none, some, List, [], ◌∷◌, map, get_elem?}
use esma.Engine.Types.{Name, Template, StateTemplate}
use esma.Engine.Load.{codes}
use esma.Engine.Load.Own.{last_own}
use esma.Engine.Parser.Text.{Text}
use esma.Engine.Parser.Terms.{Surroundings, init}
use esma.Engine.Parser.Modes.{names}
use esma.Engine.Parser.Printed.{named_state, with_states, print_states}
use esma.Engine.Parser.Arrows.{Arrow, with_arrow, with_arrows, with_arrow-names}
use esma.Engine.Parser.Roundtrip.{print_trans, Serves}

-- The text of a program, and the names of its states.
abbrev pub program : List Name → List Arrow → Text
program states arrows = print_states states (print_trans arrows [])

abbrev pub state_names : List Name → List Name
state_names states = codes "init" ∷ codes "fini" ∷ states

-- What `esma_template_init` leaves.
abbrev pub start : Name → Template
start name = record {
  name = name;
  states = named_state (codes "init") ∷ named_state (codes "fini") ∷ [];
}

pub start-init :
    (env : Surroundings) (name : Name) → Serves env → init env true name ≡ some (start name)
unfolding init
start-init env name serves = rw (init, serves.memory 0, serves.memory 1) refl

pub names-with_states :
    (name : Name) (states : List Name)
    → names (with_states (start name) states) ≡ state_names states
names-with_states name states =
    ap (λ (l : List Name). codes "init" ∷ codes "fini" ∷ l) (kept states)
  where
    kept : (ns : List Name) → map (λ (st : StateTemplate). st.name) (map named_state ns) ≡ ns
    kept [] = refl
    kept (n ∷ ns) = ap (λ (l : List Name). n ∷ l) (kept ns)

pub names-with_arrows :
    (et : Template) (arrows : List Arrow) → names (with_arrows et arrows) ≡ names et
unfolding with_arrows
names-with_arrows et [] = refl
names-with_arrows et (a ∷ arrows) =
    names-with_arrows (with_arrow et a) arrows ∙ with_arrow-names et a

pub name-with_arrows :
    (et : Template) (arrows : List Arrow) → (with_arrows et arrows).name ≡ et.name
unfolding with_arrows with_arrow
name-with_arrows et [] = refl
name-with_arrows et (a ∷ arrows) = name-with_arrows (with_arrow et a) arrows

-- A state of the names starts without transitions.
pub named-empty :
    (c k : ℕ) (src : Name) (ns : List Name)
    → get_elem? ns k ≡ some src
    → (st : StateTemplate) × (get_elem? (map named_state ns) k ≡ some st)
      × (last_own c st.trans ≡ none)
unfolding last_own
named-empty c k src [] e = cc
named-empty c zero src (n ∷ ns) e = (named_state n, refl, refl)
named-empty c (suc k) src (n ∷ ns) e = named-empty c k src ns e
