-- ===== src/Engine/Machines/Running.antt =====
-- A machine that esma_machine_new made and esma_machine_run started, as the dispatcher finds it.
use esma.Base.{
  if◌then◌else◌, leb, ℕ, zero, suc, ◌<◌, ◌≡◌, refl, ap, sym, subst, ◌∙◌, Bool, Option, none, some,
  List, [], ◌∷◌, length, get_elem?, Option-cases, Bool-cases, inl, inr,
}
use esma.Engine.Types.{Name, Trans, State, Machine, Template, init_state}
use esma.Engine.Load.{load}
use esma.Engine.Load.Slots.{eq_of_some, get_elem?-lt}
use esma.Engine.Load.Bound.{Bound, AllBound-get, Closed, AllClosed, Clear}
use esma.Engine.Load.Closed.{load-Closed}
use esma.Engine.Dispatch.Invariant.{
  Has, coded, on_tick, on_sign, on_pollin, on_pollout, on_pollerr, IsMachine,
}
use esma.Engine.Machines.{Added, Ended, fine, failed, crash, Kernel, register}
use esma.Engine.Machines.Closed.{register-Closed}
use esma.Engine.Machines.Life.{
  given_name, Esma, Init, ready, unregistered, half_loaded, unloaded, crashed, with_channels,
  machine_init, made, after_init, after_block, new, enters, run,
}
use esma.Engine.Machines.Made.{after_array, named_machine, init_at-load}
use esma.Mempool as Pool
use esma.Mempool.{Mempool}

-- The machine of the dispatcher, in its state `k`.
abbrev pub machine_at : Esma → ℕ → Machine
machine_at m k = record {
  name = m.name;
  states = m.states;
  current_state = k;
  io_channel = m.io_channel;
}

Closed-Has : (n : ℕ) (s : State) (t : Trans) → Closed n s → Has s t → Bound n t
Closed-Has n s t c (coded u i e) = AllBound-get n s.trans.cells i u c.own e
Closed-Has n s t c (on_tick u i e) = AllBound-get n s.tick_trans.cells i u c.tick e
Closed-Has n s t c (on_sign u i e) = AllBound-get n s.sign_trans.cells i u c.sign e
Closed-Has n s t c on_pollin = c.on_in
Closed-Has n s t c on_pollout = c.on_out
Closed-Has n s t c on_pollerr = c.on_err

AllClosed-get :
    (n : ℕ) (ss : List State) (j : ℕ) (s : State)
    → AllClosed n ss
    → get_elem? ss j ≡ some s
    → Closed n s
AllClosed-get n [] j s c e = cc
AllClosed-get n (u ∷ ss) zero s (c, cs) e = subst (Closed n) (eq_of_some e) c
AllClosed-get n (u ∷ ss) (suc j) s (c, cs) e = AllClosed-get n ss j s cs e

machine_at-IsMachine :
    (m : Esma) (k : ℕ)
    → k < length m.states
    → AllClosed (length m.states) m.states
    → IsMachine (machine_at m k)
machine_at-IsMachine m k h c = record {
  current_in = h;
  closed = λ j s t i at has e.
      Closed-Has (length m.states) s t (AllClosed-get (length m.states) m.states j s c at) has i e;
}

after_init-made :
    (block block' : ℕ) (mp mp' : Mempool) (i : Init) (m : Esma) (log : List Added)
    → after_init block mp i ≡ made block' m log mp'
    → i ≡ ready m log
unfolding after_init
after_init-made block block' mp mp' (ready m' log') m log e = cc
after_init-made block block' mp mp' (unregistered m' log') m log e = cc
after_init-made block block' mp mp' half_loaded m log e = cc
after_init-made block block' mp mp' (unloaded m') m log e = cc
after_init-made block block' mp mp' crashed m log e = cc

ready-machine : (m m' : Esma) (log log' : List Added) → ready m log ≡ ready m' log' → m ≡ m'
ready-machine m m' log log' e = cc

with_channels-states :
    (old m : Esma) (log : List Added) (r : List State × List Added × Ended)
    → with_channels old r ≡ ready m log
    → r.0 ≡ m.states
with_channels-states old m log (ss, l, fine) e =
    ap (λ (u : Esma). u.states) (ready-machine (record old { states = ss }) m l log e)
with_channels-states old m log (ss, l, failed) e = cc
with_channels-states old m log (ss, l, crash) e = cc

enters-machine : (f f' : ℕ) (m m' : Esma) → enters f m ≡ enters f' m' → m ≡ m'
enters-machine f f' m m' e = cc

run-enters :
    (m m' : Esma) (f : ℕ)
    → run m ≡ enters f m'
    → (init_state < length m.states) × (record m { current = some init_state } ≡ m')
unfolding run
run-enters m m' f h = elim (Option-cases (get_elem? m.states init_state)) [
  | inl e ↦ cc (rw (run, e) at h)
  | inr (s, e) ↦ (
    get_elem?-lt m.states init_state e,
    enters-machine s.enter f (record m { current = some init_state }) m' (rw (run, e) at h),
  )
]

module _ (load_tool : List ℕ → Option ℕ) (calloc : ℕ → Bool) (more : ℕ → ℕ → Option Trans)
    (kernel : Kernel) (memory : ℕ → Esma) (tmpl : Template) (name : Option Name)
    (clear : (i j : ℕ) → Clear (more i j)) where
  array-Closed :
      (block : ℕ) (m : Esma) (log : List Added) (l : Option (List State))
      → load load_tool calloc more tmpl ≡ l
      → after_array load_tool calloc more kernel 0 memory block tmpl name l ≡ ready m log
      → AllClosed (length m.states) m.states
  array-Closed block m log none e h = cc
  array-Closed block m log (some states) e h =
      let fits = unbroken states m log h in
      let r = register kernel block 0 states [] in
      let (c, same) =
        register-Closed kernel block (length states) 0 states []
          (load-Closed load_tool calloc more tmpl clear states e) in
      let ss : r.0 ≡ m.states =
        with_channels-states (named_machine load_tool calloc more kernel 0 memory block name states)
          m log r fits in
      subst (λ (l : List State). AllClosed (length l) l) ss
        (subst (λ (n : ℕ). AllClosed n r.0) (sym same) c)
    where
      unbroken :
          (states : List State) (m : Esma) (log : List Added)
          → (if leb 64 (length (given_name name))
              then crashed
              else with_channels
                  (named_machine load_tool calloc more kernel 0 memory block name states)
                  (register kernel block 0 states []))
            ≡ ready m log
          → with_channels
              (named_machine load_tool calloc more kernel 0 memory block name states)
              (register kernel block 0 states [])
            ≡ ready m log
      unbroken states m log e = elim (Bool-cases (leb 64 (length (given_name name)))) [
        | inl long ↦ cc (rw long at e)
        | inr short ↦ rw short at e
      ]

  machine_init-Closed :
      (block : ℕ) (m : Esma) (log : List Added)
      → machine_init load_tool calloc more kernel block (memory block) tmpl name ≡ ready m log
      → AllClosed (length m.states) m.states
  unfolding machine_init
  machine_init-Closed block m log h = elim (Bool-cases (calloc 0)) [
    | inl room ↦
        array-Closed block m log (load load_tool calloc more tmpl) refl
          (sym (init_at-load load_tool calloc more kernel 0 memory block tmpl name room) ∙ h)
    | inr full ↦ cc (rw (machine_init, full) at h)
  ]

  after_block-Closed :
      (realloc : Bool) (malloc : Option ℕ) (r : Pool.Result ℕ) (block : ℕ) (m : Esma)
      (log : List Added) (mp' : Mempool)
      → after_block load_tool calloc more kernel realloc malloc memory tmpl name r
        ≡ made block m log mp'
      → AllClosed (length m.states) m.states
  after_block-Closed realloc malloc (Pool.failed mp) block m log mp' e = cc
  after_block-Closed realloc malloc Pool.fault block m log mp' e = cc
  after_block-Closed realloc malloc (Pool.value b mp) block m log mp' e =
      machine_init-Closed b m log (
        after_init-made b block mp mp'
          (machine_init load_tool calloc more kernel b (memory b) tmpl name) m log e)

  -- If what realloc adds to the arrays holds no next state: a machine that esma_machine_new returns and
  -- esma_machine_run enters is in INIT, which is one of its states, and all its transitions lead to
  -- one.
  run-IsMachine :
      (realloc : Bool) (malloc : Option ℕ) (mp mp' : Mempool) (block f : ℕ) (m m' : Esma)
      (log : List Added)
      → new load_tool calloc more kernel realloc malloc memory mp tmpl name ≡ made block m log mp'
      → run m ≡ enters f m'
      → (m'.current ≡ some init_state) × IsMachine (machine_at m' init_state)
  unfolding new
  run-IsMachine realloc malloc mp mp' block f m m' log h started =
      let (there, same) = run-enters m m' f started in
      let c =
        after_block-Closed realloc malloc (Pool.get_block mp realloc malloc) block m log mp' h in
      subst (λ (u : Esma). (u.current ≡ some init_state) × IsMachine (machine_at u init_state)) same
        (refl, machine_at-IsMachine (record m { current = some init_state }) init_state there c)
