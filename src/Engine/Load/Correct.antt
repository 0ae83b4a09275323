-- ===== src/Engine/Load/Correct.antt =====
-- `esma_load` as a whole: the states of the machine against those of the template.
use esma.Base.{
  ℕ, zero, suc, ◌+◌, ◌≡◌, refl, ap, ap₂, subst, sym, ◌∙◌, Bool, true, Option, none, some, List, [],
  ◌∷◌, map, get_elem?, arith, Bool-cases, inl, inr,
}
use esma.Engine.Types.{Name, Trans, State, Template, StateTemplate, TransTemplate, nth}
use esma.Engine.Load.{
  add_all, prepare_state, prepare_states, prepare_trans, load, same_name, find_name, tool_name,
  require, codes, decimal,
}
use esma.Engine.Load.Slots.{>>=-eq-some, >>-eq-some, eq_of_some}
use esma.Engine.Load.Own.{last_own, Cell, Resolved, Implements, add_all-Cell}

abbrev pub names : List State → List Name
names ss = map (λ (s : State). s.name) ss

abbrev pub template_names : List StateTemplate → List Name
template_names ts = map (λ (t : StateTemplate). t.name) ts

pub same_name_lem : (a b : Name) → same_name a b ≡ true → a ≡ b
unfolding same_name
same_name_lem [] [] h = refl
same_name_lem [] (y ∷ b) h = cc
same_name_lem (x ∷ a) [] h = cc
same_name_lem (x ∷ a) (y ∷ b) h = ground (arith, same_name_lem a b)

-- The state that is found has the name that was looked for.
pub find_name-get_elem? :
    (n : Name) (ms : List Name) (i : ℕ) → find_name n ms ≡ some i → get_elem? ms i ≡ some n
unfolding find_name
find_name-get_elem? n [] i h = cc
find_name-get_elem? n (m ∷ ms) i h = elim (Bool-cases (same_name m n)) [
  | inl e ↦
      let zero_index : i ≡ 0 = sym (eq_of_some (rw (e, find_name) at h)) in
      rw (zero_index, same_name_lem m n e)
  | inr e ↦
      let (j, found, e') = >>=-eq-some (find_name n ms) _ (rw (e, find_name) at h) in
      let next : i ≡ suc j = sym (eq_of_some e') ∙ omega arith in
      rw next (find_name-get_elem? n ms j found)
]

pub get_elem?-map :
    {A B : Type 0} (f : A → B) (xs : List A) (i : ℕ) (a : A)
    → get_elem? xs i ≡ some a
    → get_elem? (map f xs) i ≡ some (f a)
get_elem?-map f [] i a h = cc
get_elem?-map f (x ∷ xs) zero a h = ap (λ y. some (f y)) (eq_of_some h)
get_elem?-map f (x ∷ xs) (suc i) a h = get_elem?-map f xs i a h

module _ (load_tool : List ℕ → Option ℕ) (calloc : ℕ → Bool) (more : ℕ → ℕ → Option Trans)
    (tmpl : Template) where
  name-prepare_state :
      (i : ℕ) (t : StateTemplate) (s : State)
      → prepare_state load_tool calloc more tmpl i t ≡ some s
      → s.name ≡ t.name
  unfolding prepare_state
  name-prepare_state i t s h =
      let (enter, found, h1) =
        >>=-eq-some (load_tool (tool_name tmpl.name t.name (codes "enter"))) _ h in
      ground arith

  pub names-prepare_states :
      (i : ℕ) (ts : List StateTemplate) (ss : List State)
      → prepare_states load_tool calloc more tmpl i ts ≡ some ss
      → names ss ≡ template_names ts
  unfolding prepare_states
  names-prepare_states i [] ss h = ap names (sym (eq_of_some h))
  names-prepare_states i (t ∷ ts) ss h =
      let (s, first, more') = >>=-eq-some (prepare_state load_tool calloc more tmpl i t) _ h in
      let (rest, others, e) =
        >>=-eq-some (prepare_states load_tool calloc more tmpl (i + 1) ts) _ more' in
      ap names (sym (eq_of_some e))
      ∙ ap₂ ◌∷◌ (name-prepare_state i t s first) (names-prepare_states (i + 1) ts rest others)

  -- Each state after `_esma_prepare_trans` is the one before with its transitions added.
  record Prepared (ns : List Name) (i : ℕ) (ss : List State) (ts : List StateTemplate)
      (ss' : List State) : Type 0 where
    same : names ss' ≡ names ss
    each :
        (k : ℕ) (st : StateTemplate)
        → get_elem? ts k ≡ some st
        → (s : State) × (s' : State) × (n : ℕ) × (get_elem? ss k ≡ some s)
          × (get_elem? ss' k ≡ some s')
          × (add_all load_tool calloc more tmpl ns n 0 s st.trans ≡ some s')

  Prepared-cons :
      (ns : List Name) (i : ℕ) (s s' : State) (ss ss' : List State) (t : StateTemplate)
      (ts : List StateTemplate)
      → add_all load_tool calloc more tmpl ns i 0 s t.trans ≡ some s'
      → s'.name ≡ s.name
      → Prepared ns (i + 1) ss ts ss'
      → Prepared ns i (s ∷ ss) (t ∷ ts) (s' ∷ ss')
  Prepared-cons ns i s s' ss ss' t ts added name p = record {
    same = ap₂ ◌∷◌ name p.same;
    each = λ k. first k;
  }
    where
      first :
          (k : ℕ) (st : StateTemplate)
          → get_elem? (t ∷ ts) k ≡ some st
          → (r : State) × (r' : State) × (n : ℕ) × (get_elem? (s ∷ ss) k ≡ some r)
            × (get_elem? (s' ∷ ss') k ≡ some r')
            × (add_all load_tool calloc more tmpl ns n 0 r st.trans ≡ some r')
      first zero st e = (
        s,
        s',
        i,
        refl,
        refl,
        subst (λ (u : StateTemplate). add_all load_tool calloc more tmpl ns i 0 s u.trans ≡ some s')
            (eq_of_some e) added,
      )
      first (suc k) st e = p.each k st e

  prepare_trans-Prepared :
      (ns : List Name) (i : ℕ) (ss : List State) (ts : List StateTemplate) (ss' : List State)
      → prepare_trans load_tool calloc more tmpl ns i ss ts ≡ some ss'
      → Prepared ns i ss ts ss'
  unfolding prepare_trans
  prepare_trans-Prepared ns i (s ∷ ss) (t ∷ ts) ss' h =
      let (s', first, h1) = >>=-eq-some (add_all load_tool calloc more tmpl ns i 0 s t.trans) _ h in
      let (rest, others, h2) =
        >>=-eq-some (prepare_trans load_tool calloc more tmpl ns (i + 1) ss ts) _ h1 in
      let name = (add_all-Cell load_tool calloc more tmpl ns i 0 t.trans 0 s s' first).0 in
      subst (λ l. Prepared ns i (s ∷ ss) (t ∷ ts) l) (eq_of_some h2)
        (Prepared-cons ns i s s' ss rest t ts first name
          (prepare_trans-Prepared ns (i + 1) ss ts rest others))
  prepare_trans-Prepared ns i [] [] ss' h = record {
    same = ap names (sym (eq_of_some h));
    each = λ k st e. cc;
  }
  prepare_trans-Prepared ns i [] (t ∷ ts) ss' h = cc
  prepare_trans-Prepared ns i (s ∷ ss) [] ss' h = cc

  Loaded : List State → Type 0
  Loaded states =
      (k : ℕ) (st : StateTemplate) (c : ℕ) (t : TransTemplate)
      → get_elem? tmpl.states k ≡ some st
      → last_own c st.trans ≡ some t
      → (s : State) × (tr : Trans) × (get_elem? states k ≡ some s)
        × (nth s.trans c ≡ some tr)
        × Implements load_tool calloc more tmpl (names states) s.name [] t tr

  Prepared-Loaded :
      (ss states : List State) → Prepared (names ss) 0 ss tmpl.states states → Loaded states
  unfolding Loaded
  Prepared-Loaded ss states p k st c t at last =
      let (s, s', n, before, after, added) = p.each k st at in
      let (name, cell) =
        add_all-Cell load_tool calloc more tmpl (names ss) n 0 st.trans c s s' added in
      let (tr, there, impl) = subst (Cell load_tool calloc more tmpl (names ss) s s' c) last cell in
      (
        s',
        tr,
        after,
        there,
        subst (λ ns. Implements load_tool calloc more tmpl ns s'.name [] t tr) (sym p.same)
            (subst (λ n'. Implements load_tool calloc more tmpl (names ss) n' [] t tr) (sym name)
              impl),
      )

  pub names-load :
      (states : List State)
      → load load_tool calloc more tmpl ≡ some states
      → names states ≡ template_names tmpl.states
  unfolding load
  names-load states h =
      let (ss, made, rest) =
        >>=-eq-some (prepare_states load_tool calloc more tmpl 0 tmpl.states) _
          (>>-eq-some (require (calloc 0)) _ h) in
      (prepare_trans-Prepared (names ss) 0 ss tmpl.states states rest).same
      ∙ names-prepare_states 0 tmpl.states ss made

  -- After a successful `esma_load` the machine has the template's states, in order and under their
  -- names; and in each the cell of a code holds what the template's last transition of that code
  -- (and of no channel) asks for: its code and channel data, and for `self` the program's function
  -- of that name and no next state, and otherwise no function and the first state of the machine
  -- with the target's name.
  pub load-own :
      (states : List State)
      → load load_tool calloc more tmpl ≡ some states
      → (k : ℕ) (st : StateTemplate) (c : ℕ) (t : TransTemplate) → get_elem? tmpl.states k ≡ some st
      → last_own c st.trans ≡ some t
      → (names states ≡ template_names tmpl.states)
        × ((s : State) × (tr : Trans) × (get_elem? states k ≡ some s)
            × (nth s.trans c ≡ some tr)
            × Implements load_tool calloc more tmpl (names states) s.name [] t tr)
  unfolding load Loaded
  load-own states h k st c t at last =
      let (ss, made, rest) =
        >>=-eq-some (prepare_states load_tool calloc more tmpl 0 tmpl.states) _
          (>>-eq-some (require (calloc 0)) _ h) in
      let p = prepare_trans-Prepared (names ss) 0 ss tmpl.states states rest in
      (
        p.same ∙ names-prepare_states 0 tmpl.states ss made,
        Prepared-Loaded ss states p k st c t at last,
      )

-- No two states of the template have one name.
abbrev pub Distinct : List Name → Type 0
Distinct ns = (i j : ℕ) (n : Name) → get_elem? ns i ≡ some n → get_elem? ns j ≡ some n → i ≡ j

Resolved-next :
    (load_tool : List ℕ → Option ℕ) (calloc : ℕ → Bool) (more : ℕ → ℕ → Option Trans)
    (tmpl : Template) (ns : List Name) (state : Name) (word : List ℕ) (next : Option ℕ) (tr : Trans)
    → Distinct ns
    → ns ≡ template_names tmpl.states
    → Resolved load_tool calloc more tmpl ns state word next tr
    → tr.next_state ≡ next
Resolved-next load_tool calloc more tmpl ns state word none tr d e (a, found, act, no_next) =
    no_next
Resolved-next load_tool calloc more tmpl ns state word (some k) tr d e
      (i, target, at, found, act, goes) =
    let here : get_elem? ns k ≡ some target.name =
      rw e (get_elem?-map (λ (t : StateTemplate). t.name) tmpl.states k target at) in
    goes ∙ ap some (d i k target.name (find_name-get_elem? target.name ns i found) here)

-- If the states of the template have distinct names, a loaded machine goes where the template
-- says: its transition of code `c` in state `k` has the index of the template's target state as
-- its next state, and none exactly for `self`.
pub load-target :
    (load_tool : List ℕ → Option ℕ) (calloc : ℕ → Bool) (more : ℕ → ℕ → Option Trans)
    (tmpl : Template) (states : List State)
    → Distinct (template_names tmpl.states)
    → load load_tool calloc more tmpl ≡ some states
    → (k : ℕ) (st : StateTemplate) (c : ℕ) (t : TransTemplate) → get_elem? tmpl.states k ≡ some st
    → last_own c st.trans ≡ some t
    → (s : State) × (tr : Trans) × (get_elem? states k ≡ some s)
      × (nth s.trans c ≡ some tr)
      × (tr.next_state ≡ t.next_state)
load-target load_tool calloc more tmpl states d h k st c t at last =
    let (same, (s, tr, there, cell, impl)) =
      load-own load_tool calloc more tmpl states h k st c t at last in
    (
      s,
      tr,
      there,
      cell,
      Resolved-next load_tool calloc more tmpl (names states) s.name (decimal t.action_code)
          t.next_state tr (subst Distinct (sym same) d) same impl.3,
    )
