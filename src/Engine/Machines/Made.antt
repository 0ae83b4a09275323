-- ===== src/Engine/Machines/Made.antt =====
-- What esma_machine_new makes, and what it loses.
use esma.Base.{
  arith, inl, inr, Bool-cases, false, length, leb, ℕ, ◌<◌, ◌≡◌, refl, ap, ap₂, sym, subst, ◌∙◌,
  Bool, true, Option, none, some, List, [], ◌∷◌, if◌then◌else◌,
}
use esma.Engine.Types.{Name, Trans, State, Template, ch_none}
use esma.Engine.Load.{load}
use esma.Engine.Load.Correct.{names, template_names, names-load}
use esma.Engine.Load.Succeeds.{Loadable, load-total}
use esma.Engine.Parser.Built.{IsTemplate}
use esma.Engine.Machines.{Added, Ended, fine, failed, crash, Kernel, register}
use esma.Engine.Machines.Life.{
  Esma, Init, unloaded, crashed, given_name, with_channels, loaded, after_load, machine_init, del,
  Made, made, null, after_init, after_block, new,
}
use esma.Engine.Machines.Register.{channels, AllFitted, Gives, register-channels}
use esma.Mempool as Pool
use esma.Mempool.{Mempool, Result, value}
use esma.Mempool.Chains.{Holds}
use esma.Mempool.Free.{Gets, get_block-free}

names-AllFitted : (owner : ℕ) (ss ss' : List State) → AllFitted owner ss ss' → names ss' ≡ names ss
names-AllFitted owner [] ss' e = ap names e
names-AllFitted owner (s ∷ ss) [] h = absurd h
names-AllFitted owner (s ∷ ss) (s' ∷ ss') (f, fs) =
    ap₂ (λ (n : Name) (l : List Name). n ∷ l) (ap (λ (r : State). r.name) f.kept)
      (names-AllFitted owner ss ss' fs)

-- A new machine: in a block that was free, with the template's states, and the reactor knows its
-- channels.
pub record Makes (mp : Mempool) (basket page : List ℕ) (a : ℕ) (tmpl : Template) (r : Made)
    : Type 0 where
  pub block : ℕ
  pub machine : Esma
  pub log : List Added
  pub after : Mempool
  pub result : r ≡ made block machine log after
  pub taken : Gets mp basket page a (value block after)
  pub named : names machine.states ≡ template_names tmpl.states
  pub told : log ≡ channels 0 machine.states

module _ (load_tool : List ℕ → Option ℕ) (calloc : ℕ → Bool) (more : ℕ → ℕ → Option Trans)
    (kernel : Kernel) (a : ℕ) (memory : ℕ → Esma) where
  abbrev new_at : Mempool → Template → Option Name → Made
  new_at = new load_tool calloc more kernel true (some a) memory

  abbrev pub init_at : ℕ → Template → Option Name → Init
  init_at block = machine_init load_tool calloc more kernel block (memory block)

  -- The get of the pool comes first.
  new-got :
      (mp : Mempool) (basket page : List ℕ) (tmpl : Template) (name : Option Name)
      (g : Gets mp basket page a (Pool.get_block mp true (some a)))
      → new_at mp tmpl name ≡ after_init g.block g.after (init_at g.block tmpl name)
  unfolding new
  new-got mp basket page tmpl name g =
      ap (after_block load_tool calloc more kernel true (some a) memory tmpl name) g.result

  taken-Gets :
      (mp : Mempool) (basket page : List ℕ)
      (g : Gets mp basket page a (Pool.get_block mp true (some a)))
      → Gets mp basket page a (value g.block g.after)
  taken-Gets mp basket page g = subst (Gets mp basket page a) g.result g

  abbrev pub named_machine : ℕ → Option Name → List State → Esma
  named_machine block name states = record {
    name = given_name name;
    states = states;
    current = none;
    io_channel = record (memory block).io_channel { type = ch_none };
  }

  abbrev pub after_array : ℕ → Template → Option Name → Option (List State) → Init
  after_array block tmpl name l =
      after_load load_tool calloc more kernel block
        (loaded load_tool calloc more kernel (memory block) tmpl name l)

  pub init_at-load :
      (block : ℕ) (tmpl : Template) (name : Option Name)
      → calloc 0 ≡ true
      → init_at block tmpl name ≡ after_array block tmpl name (load load_tool calloc more tmpl)
  unfolding machine_init
  init_at-load block tmpl name room =
      ap
        (λ (b : Bool).
          if b
          then after_array block tmpl name (load load_tool calloc more tmpl)
          else unloaded (record (memory block) { name = tmpl.name }))
        room

  fitting_name :
      (block : ℕ) (name : Option Name) (states : List State)
      → length (given_name name) < 64
      → (if leb 64 (length (given_name name))
          then crashed
          else with_channels (named_machine block name states) (register kernel block 0 states []))
        ≡ with_channels (named_machine block name states) (register kernel block 0 states [])
  fitting_name block name states h =
      let fits : leb 64 (length (given_name name)) ≡ false = ground arith in rw fits refl

  -- If memory is there and the kernel gives descriptors, a pool with a page list makes a machine of a
  -- template whose transitions are of known channels, whose counts stay below 2^32 and whose functions
  -- (enter, and of transitions to self) load_tool finds, under a name of less than
  -- 64 characters: it is in a block that was free, which is free
  -- no longer, its states are those of the template, in order, and the reactor was told of exactly
  -- the descriptors of its channels.
  pub new-Makes :
      (mp : Mempool) (basket page pages : List ℕ) (tmpl : Template) (name : Option Name)
      → ((i : ℕ) → calloc i ≡ true)
      → ((i j : ℕ) → (junk : Trans) × (more i j ≡ some junk))
      → Gives kernel
      → Holds mp basket page
      → 0 < mp.block_size
      → mp.addr ≡ some pages
      → Loadable load_tool tmpl.name 0 tmpl.states
      → IsTemplate tmpl
      → length (given_name name) < 64
      → Makes mp basket page a tmpl (new_at mp tmpl name)
  unfolding after_init
  new-Makes mp basket page pages tmpl name room grow gives holds pos addr loadable fits short =
      let g = get_block-free mp basket page pages a holds pos addr in
      let (states, e, counted) = load-total load_tool calloc more tmpl room grow loadable fits in
      let (states', registered, fitted) =
        register-channels kernel g.block gives 0 states [] counted in
      record {
        block = g.block;
        machine = named_machine g.block name states';
        log = channels 0 states';
        after = g.after;
        result =
            new-got mp basket page tmpl name g
            ∙ ap (after_init g.block g.after) (
                init_at-load g.block tmpl name (room 0)
                ∙ ap (after_array g.block tmpl name) e
                ∙ fitting_name g.block name states short
                ∙ ap (with_channels (named_machine g.block name states)) registered);
        taken = taken-Gets mp basket page g;
        named =
            names-AllFitted g.block states states' fitted
            ∙ names-load load_tool calloc more tmpl states e;
        told = refl;
      }

  registered-null :
      (block : ℕ) (name : Option Name) (states : List State) (mp mp' : Mempool) (log : List Added)
      (r : List State × List Added × Ended)
      → after_init block mp (with_channels (named_machine block name states) r) ≡ null log mp'
      → mp ≡ mp'
  unfolding after_init del
  registered-null block name states mp mp' log (ss, l, fine) e = cc
  registered-null block name states mp mp' log (ss, l, failed) e = cc
  registered-null block name states mp mp' log (ss, l, crash) e = cc

  crashed-null :
      (block : ℕ) (mp mp' : Mempool) (log : List Added)
      → after_init block mp crashed ≡ null log mp'
      → ⊥
  unfolding after_init
  crashed-null block mp mp' log e = cc

  -- Without a machine the block is not put back: its pointer to a state is none of FINI.
  array-null :
      (block : ℕ) (tmpl : Template) (name : Option Name) (mp mp' : Mempool) (log : List Added)
      (l : Option (List State))
      → after_init block mp (after_array block tmpl name l) ≡ null log mp'
      → mp ≡ mp'
  unfolding after_init del
  array-null block tmpl name mp mp' log none e = cc
  array-null block tmpl name mp mp' log (some states) e =
      elim (Bool-cases (leb 64 (length (given_name name)))) [
        | inl long ↦ absurd (crashed-null block mp mp' log (rw long at e))
        | inr short ↦
            registered-null block name states mp mp' log (register kernel block 0 states [])
              (rw short at e)
      ]

  -- If NULL comes back although the pool had a block, or memory for new ones, and there is memory for
  -- the array of states, the block is lost: it is in no machine, and the pool is as after the get.
  pub new-lost :
      (mp mp' : Mempool) (basket page pages : List ℕ) (tmpl : Template) (name : Option Name)
      (log : List Added)
      → calloc 0 ≡ true
      → Holds mp basket page
      → 0 < mp.block_size
      → mp.addr ≡ some pages
      → new_at mp tmpl name ≡ null log mp'
      → (block : ℕ) × Gets mp basket page a (value block mp')
  new-lost mp mp' basket page pages tmpl name log room holds pos addr e =
      let g = get_block-free mp basket page pages a holds pos addr in
      let same : g.after ≡ mp' =
        array-null g.block tmpl name g.after mp' log (load load_tool calloc more tmpl) (
          sym (
            new-got mp basket page tmpl name g
            ∙ ap (after_init g.block g.after) (init_at-load g.block tmpl name room))
          ∙ e) in
      (
        g.block,
        subst (λ (p : Mempool). Gets mp basket page a (value g.block p)) same
            (taken-Gets mp basket page g),
      )
