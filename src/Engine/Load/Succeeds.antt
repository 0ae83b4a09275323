-- ===== src/Engine/Load/Succeeds.antt =====
-- `esma_load` of a template that names only what the program has.
use esma.Base.{
  ap₂, ℕ, zero, suc, ◌+◌, ◌*◌, ◌^◌, ◌<◌, ◌≡◌, refl, ap, ◌∙◌, inl, inr, Bool, true, Option, none,
  some, List, [], ◌∷◌, ◌++◌, length, length-replicate, get_elem?, arith, Bool-cases, eq-beq,
}
use esma.Base.Bytes.{u32}
use Prim.Native.Nat.{max}
use esma.Engine.Types.{
  Name, Trans, State, Template, StateTemplate, TransTemplate, zero_trans, new_array,
}
use esma.Engine.Load.{
  write_slot, same_name, find_name, tool_name, resolve, fill_trans, add_trans, add_all,
  prepare_state, prepare_states, prepare_trans, load, set_channel, codes, decimal,
}
use esma.Engine.Load.Slots.{eq_of_some}
use esma.Engine.Load.Correct.{names, template_names, names-prepare_states}
use esma.Engine.Load.Total.{
  Counted, bind-some, get_elem?-total, Ready, Known, word_of, Known-Slotted,
}
use esma.Engine.Parser.Built.{Below, TransFits, AllTrans, AllStates, IsTemplate}

-- The counts of a state of the template, which the loader adds one to, stay below 2^32, with room for
-- `spare` more transitions.
pub record Small (spare : ℕ) (st : StateTemplate) : Type 0 where
  pub own : st.max_code + 1 < 2 ^ 32
  pub trans : st.ntrans + spare + 1 < 2 ^ 32
  pub tick : st.max_tick_code + 1 < 2 ^ 32
  pub sign : st.max_sign_code + 1 < 2 ^ 32

-- The program has the function of a transition to `self`.
abbrev pub Finds : (List ℕ → Option ℕ) → Name → Name → TransTemplate → Type 0
Finds load_tool name state t =
    t.next_state ≡ none
    → (f : ℕ) × (load_tool (tool_name name state (word_of t ++ decimal t.action_code)) ≡ some f)

abbrev pub AllKnown : (List ℕ → Option ℕ) → Name → Name → List TransTemplate → Type 0
AllKnown load_tool name state [] = Unit
AllKnown load_tool name state (t ∷ ts) =
    (Known t × Finds load_tool name state t) × AllKnown load_tool name state ts

-- The program has the enter function of a state.
abbrev pub Enters : (List ℕ → Option ℕ) → Name → Name → Type 0
Enters load_tool name state = (f : ℕ) × (load_tool (tool_name name state (codes "enter")) ≡ some f)

-- The states of a template of this name can be loaded, with room for `spare` more transitions.
abbrev pub Loadable : (List ℕ → Option ℕ) → Name → ℕ → List StateTemplate → Type 0
Loadable load_tool name spare [] = Unit
Loadable load_tool name spare (st ∷ ss) =
    ((Small spare st × Enters load_tool name st.name) × AllKnown load_tool name st.name st.trans)
    × Loadable load_tool name spare ss

pub same_name_refl : (n : Name) → same_name n n ≡ true
unfolding same_name
same_name_refl [] = refl
same_name_refl (x ∷ xs) = rw (eq-beq {a = x} {b = x} refl, same_name_refl xs) refl

-- The states of the machine that were found are those of the template.
find_name-total :
    (ts : List StateTemplate) (k : ℕ) (st : StateTemplate)
    → get_elem? ts k ≡ some st
    → (i : ℕ) × (find_name st.name (template_names ts) ≡ some i)
unfolding find_name
find_name-total [] k st e = cc
find_name-total (t ∷ ts) zero st e =
    let same : same_name t.name st.name ≡ true =
      ap (λ (u : StateTemplate). same_name u.name st.name) (eq_of_some e)
      ∙ same_name_refl st.name in
    (0, rw (find_name, same) refl)
find_name-total (t ∷ ts) (suc k) st e = elim (Bool-cases (same_name t.name st.name)) [
  | inl q ↦ (0, rw (find_name, q) refl)
  | inr q ↦ let (i, found) = find_name-total ts k st e in (i + 1, rw (find_name, q, found) refl)
]

length-new_array : (n : ℕ) → n + 1 < 2 ^ 32 → length (new_array (u32 (n + 1))).cells ≡ n + 1
length-new_array n h = length-replicate (u32 (n + 1)) zero_trans ∙ omega arith

module _ (load_tool : List ℕ → Option ℕ) (calloc : ℕ → Bool) (more : ℕ → ℕ → Option Trans)
    (tmpl : Template) (memory : (i : ℕ) → calloc i ≡ true)
    (room : (i j : ℕ) → (junk : Trans) × (more i j ≡ some junk)) where
  abbrev ns : List Name
  ns = template_names tmpl.states

  resolve-total :
      (state : Name) (word : List ℕ) (next : Option ℕ)
      → (next ≡ none → (f : ℕ) × (load_tool (tool_name tmpl.name state word) ≡ some f))
      → Below (length tmpl.states) next
      → (r : Option ℕ × Option ℕ) × (resolve load_tool calloc more tmpl ns state word next ≡ some r)
  unfolding resolve
  resolve-total state word none tool b = let (a, e) = tool refl in ((some a, none), bind-some _ e)
  resolve-total state word (some k) tool b =
      let (target, at) = get_elem?-total tmpl.states k b in
      let (i, found) = find_name-total tmpl.states k target at in
      ((none, some i), bind-some _ at ∙ bind-some _ found)

  add_trans-total :
      (st : StateTemplate) (s : State) (t : TransTemplate) (i j : ℕ)
      → Ready st.name st.max_code s
      → Known t × Finds load_tool tmpl.name st.name t
      → TransFits (length tmpl.states) st t
      → (s' : State) × (add_trans load_tool calloc more tmpl ns s t (more i j) ≡ some s')
        × Ready st.name st.max_code s'
  unfolding add_trans fill_trans
  add_trans-total st s t i j r known fits =
      let (junk, grow) = room i j in
      let p = Known-Slotted st.name st.max_code s t junk r known.0 fits.own in
      let ((a, n), e) =
        resolve-total s.name (p.word ++ decimal t.action_code) t.next_state
          (λ none_next.
            let (f, found) = known.1 none_next in
            (
              f,
              ap₂
                    (λ (n : Name) (w : List ℕ).
                      load_tool (tool_name tmpl.name n (w ++ decimal t.action_code)))
                    r.named p.called
                  ∙ found,
            ))
          fits.target in
      let new : Trans = record {
        code = t.action_code;
        action = a;
        next_state = n;
        ch = set_channel p.old.ch t;
      } in
      (
        write_slot p.state p.slot new,
        ap (λ (g : Option Trans). add_trans load_tool calloc more tmpl ns s t g) grow
            ∙ bind-some _ p.picked
            ∙ bind-some _ p.there
            ∙ bind-some (λ (tr : Trans). some (write_slot p.state p.slot tr)) (bind-some _ e),
        p.ready new,
      )

  add_all-total :
      (st : StateTemplate) (i j : ℕ) (ts : List TransTemplate) (s : State)
      → Ready st.name st.max_code s
      → AllKnown load_tool tmpl.name st.name ts
      → AllTrans (length tmpl.states) st ts
      → (s' : State) × (add_all load_tool calloc more tmpl ns i j s ts ≡ some s')
        × Ready st.name st.max_code s'
  unfolding add_all
  add_all-total st i j [] s r known fits = (s, refl, r)
  add_all-total st i j (t ∷ ts) s r (k, known) (f, fits) =
      let (s1, first, ready) = add_trans-total st s t i j r k f in
      let (s', rest, ready') = add_all-total st i (j + 1) ts s1 ready known fits in
      (s', bind-some _ first ∙ rest, ready')

  prepare_state-total :
      (i : ℕ) (st : StateTemplate)
      → Small 0 st × Enters load_tool tmpl.name st.name
      → (s : State) × (prepare_state load_tool calloc more tmpl i st ≡ some s)
        × Ready st.name st.max_code s
  unfolding prepare_state
  prepare_state-total i st (small, (a, e)) = (
    record {
      name = st.name;
      enter = a;
      leave = load_tool (tool_name tmpl.name st.name (codes "leave"));
      trans = new_array (u32 (max st.max_code st.ntrans + 1));
      tick_trans = new_array (u32 (st.max_tick_code + 1));
      sign_trans = new_array (u32 (st.max_sign_code + 1));
      data_pollin = zero_trans;
      data_pollout = zero_trans;
      data_pollerr = zero_trans;
    },
    bind-some _ e ∙ rw (memory (3 * i + 1), memory (3 * i + 2), memory (3 * i + 3)) refl,
    record {
      named = refl;
      own = omega (arith, length-new_array (max st.max_code st.ntrans), small.own, small.trans);
      tick = (omega (arith, length-new_array st.max_tick_code, small.tick), omega arith);
      sign = (omega (arith, length-new_array st.max_sign_code, small.sign), omega arith);
    },
  )

  abbrev AllReady : List State → List StateTemplate → Type 0
  AllReady [] [] = Unit
  AllReady (s ∷ ss) (st ∷ sts) = Ready st.name st.max_code s × AllReady ss sts
  AllReady ss sts = ⊥

  prepare_states-total :
      (i : ℕ) (sts : List StateTemplate)
      → Loadable load_tool tmpl.name 0 sts
      → (ss : List State) × (prepare_states load_tool calloc more tmpl i sts ≡ some ss)
        × AllReady ss sts
  unfolding prepare_states
  prepare_states-total i [] l = ([], refl, tt)
  prepare_states-total i (st ∷ sts) ((small, known), l) =
      let (s, first, ready) = prepare_state-total i st small in
      let (ss, rest, all) = prepare_states-total (i + 1) sts l in
      (s ∷ ss, bind-some _ first ∙ bind-some _ rest, (ready, all))

  prepare_trans-total :
      (i : ℕ) (ss : List State) (sts : List StateTemplate)
      → AllReady ss sts
      → Loadable load_tool tmpl.name 0 sts
      → AllStates (length tmpl.states) sts
      → (ss' : List State) × (prepare_trans load_tool calloc more tmpl ns i ss sts ≡ some ss')
        × Counted ss'
  unfolding prepare_trans
  prepare_trans-total i [] [] r l f = ([], refl, tt)
  prepare_trans-total i (s ∷ ss) (st ∷ sts) (r, rs) ((small, known), l) (f, fs) =
      let (s', first, ready) = add_all-total st i 0 st.trans s r known f in
      let (ss', rest, counted) = prepare_trans-total (i + 1) ss sts rs l fs in
      (s' ∷ ss', bind-some _ first ∙ bind-some _ rest, (ready.tick.1, ready.sign.1, counted))
  prepare_trans-total i [] (st ∷ sts) r l f = absurd r
  prepare_trans-total i (s ∷ ss) [] r l f = absurd r

  pub load-total :
      Loadable load_tool tmpl.name 0 tmpl.states
      → IsTemplate tmpl
      → (states : List State) × (load load_tool calloc more tmpl ≡ some states) × Counted states
  unfolding load
  load-total l fits =
      let (ss, made, ready) = prepare_states-total 0 tmpl.states l in
      let (states, done, counted) = prepare_trans-total 0 ss tmpl.states ready l fits in
      let same : names ss ≡ ns =
        names-prepare_states load_tool calloc more tmpl 0 tmpl.states ss made in
      (
        states,
        rw (memory 0) (
            bind-some _ made
            ∙ ap (λ (l : List Name). prepare_trans load_tool calloc more tmpl l 0 ss tmpl.states)
                same
            ∙ done),
        counted,
      )
