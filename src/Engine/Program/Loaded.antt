-- ===== src/Engine/Program/Loaded.antt =====
-- A printed program is read and loaded: the machine that it becomes.
use esma.Base.{ℕ, ◌≡◌, Bool, true, Option, none, some, List, get_elem?}
use esma.Engine.Types.{Name, Trans, State, Template, nth}
use esma.Engine.Load.{decimal, find_name, tool_name, load}
use esma.Engine.Load.Correct
use esma.Engine.Parser.Terms.{Surroundings, init}
use esma.Engine.Parser.Modes.{names}
use esma.Engine.Parser.Decode.{ended, decode}
use esma.Engine.Parser.Printed.{with_states}
use esma.Engine.Parser.Arrows.{Arrow, with_arrows, AllArrows}
use esma.Engine.Program.Named.{program, state_names, start}

-- Where a transition goes: for `self` the program's function and no state, and otherwise the first
-- state of the target's name.
abbrev pub Goes : (List ℕ → Option ℕ) → Name → List Name → Arrow → Option Name → Trans → Type 0
Goes load_tool name ns a none tr =
    (f : ℕ) × (load_tool (tool_name name a.src (decimal a.code)) ≡ some f)
    × (tr.action ≡ some f)
    × (tr.next_state ≡ none)
Goes load_tool name ns a (some dst) tr =
    (k : ℕ) × (find_name dst ns ≡ some k) × (tr.action ≡ none) × (tr.next_state ≡ some k)

-- The program's machine does what the arrow says.
pub record Follows (load_tool : List ℕ → Option ℕ) (name : Name) (ns : List Name) (a : Arrow)
    (machine : List State) : Type 0 where
  pub index : ℕ
  pub state : State
  pub trans : Trans
  pub source : find_name a.src ns ≡ some index
  pub here : get_elem? machine index ≡ some state
  pub cell : nth state.trans a.code ≡ some trans
  pub goes : Goes load_tool name ns a a.dst trans

module _ (load_tool : List ℕ → Option ℕ) (calloc : ℕ → Bool) (more : ℕ → ℕ → Option Trans)
    (name : Name) (states : List Name) (arrows : List Arrow)
    (known : AllArrows (state_names states) arrows) where
  abbrev ns : List Name
  ns = state_names states

  abbrev before : Template
  before = with_states (start name) states

  abbrev tmpl : Template
  tmpl = with_arrows before arrows

-- A program of these states and arrows runs as they say.
pub record Compiles (env : Surroundings) (load_tool : List ℕ → Option ℕ) (calloc : ℕ → Bool)
    (more : ℕ → ℕ → Option Trans) (name : Name) (states : List Name) (arrows : List Arrow)
    (a : Arrow) : Type 0 where
  pub empty : Template
  pub tmpl : Template
  pub machine : List State
  pub made : init env true name ≡ some empty
  pub read : decode env (program states arrows) empty ≡ some (ended tmpl)
  pub loaded : load load_tool calloc more tmpl ≡ some machine
  pub named : Correct.names machine ≡ state_names states
  pub follows : Follows load_tool name (state_names states) a machine
