-- ===== src/Engine/Load/Own.antt =====
-- The transitions that a machine sends itself, as `_esma_prepare_trans` leaves them: the cell of a
-- code holds the last transition of the template with that code.
use esma.Base.{
  ℕ, ◌+◌, ◌≡◌, refl, ap, subst, sym, ◌∙◌, inl, inr, Bool, true, false, Option, none, some, List, [],
  ◌∷◌, ◌++◌, get_elem?, get_elem?-set_self, get_elem?-set_ne, ◌==◌, arith, ◌&&◌, if◌then◌else◌,
  Bool-cases, eq-beq, ne-beq,
}
use native.Mathlib.Decide.{ℕ_discrete}
use esma.Engine.Types.{
  Name, Trans, TransArray, State, Template, StateTemplate, TransTemplate, ch_none, nth,
}
use esma.Engine.Load.{
  Slot, read_slot, write_slot, pick_slot, fill_trans, add_trans, add_all, tool_name, decimal,
  find_name, set_channel, resolve,
}
use esma.Engine.Load.Slots.{
  eq_of_some, >>=-eq-some, get_elem?-lt, own_index, pick_slot-own, write_slot-other,
  name-write_slot, write_slot-own,
}

-- Is `t` a transition of code `c` that the machine sends itself?
unfoldable pub is_own : ℕ → TransTemplate → Bool
is_own c t = (t.ch_type == ch_none) && (t.action_code == c)

-- The last of them in a list.
unfoldable pub last_own : ℕ → List TransTemplate → Option TransTemplate
unfolding is_own
last_own c [] = none
last_own c (t ∷ ts) =
    let first = if is_own c t then some t else none in
    elim (last_own c ts) [ some u ↦ some u | none ↦ first ]

module _ (load_tool : List ℕ → Option ℕ) (calloc : ℕ → Bool) (more : ℕ → ℕ → Option Trans)
    (tmpl : Template) (names : List Name) where
  -- What the template's next state asks for: for `self` the program's function of that name and
  -- no next state, and otherwise no function and the machine's state with the name of the target.
  abbrev pub Resolved : Name → List ℕ → Option ℕ → Trans → Type 0
  Resolved state word none tr =
      (a : ℕ) × (load_tool (tool_name tmpl.name state word) ≡ some a)
      × (tr.action ≡ some a)
      × (tr.next_state ≡ none)
  Resolved state word (some k) tr =
      (i : ℕ) × (target : StateTemplate) × (get_elem? tmpl.states k ≡ some target)
      × (find_name target.name names ≡ some i)
      × (tr.action ≡ none)
      × (tr.next_state ≡ some i)

  abbrev pub Implements : Name → List ℕ → TransTemplate → Trans → Type 0
  Implements state word t tr =
      (tr.code ≡ t.action_code)
      × (tr.ch.type ≡ t.ch_type)
      × (tr.ch.raw_data ≡ t.ch_data)
      × Resolved state (word ++ decimal t.action_code) t.next_state tr

  resolve-Resolved :
      (state : Name) (word : List ℕ) (next a n : Option ℕ) (tr : Trans)
      → resolve load_tool calloc more tmpl names state word next ≡ some (a, n)
      → tr.action ≡ a
      → tr.next_state ≡ n
      → Resolved state word next tr
  unfolding resolve
  resolve-Resolved state word none a n tr h p q =
      let (f, found, e) = >>=-eq-some (load_tool (tool_name tmpl.name state word)) _ h in
      (f, found, ground arith, ground arith)
  resolve-Resolved state word (some k) a n tr h p q =
      let (target, there, rest) = >>=-eq-some (get_elem? tmpl.states k) _ h in
      let (i, found, e) = >>=-eq-some (find_name target.name names) _ rest in
      (i, target, there, found, ground arith, ground arith)

  pub fill_trans-Implements :
      (s : State) (t : TransTemplate) (word : List ℕ) (old tr : Trans)
      → fill_trans load_tool calloc more tmpl names s t word old ≡ some tr
      → Implements s.name word t tr
  unfolding fill_trans set_channel
  fill_trans-Implements s t word old tr h =
      let word' = word ++ decimal t.action_code in
      let ((a, n), r, e) =
        >>=-eq-some (resolve load_tool calloc more tmpl names s.name word' t.next_state) _ h in
      (
        ground arith,
        ground arith,
        ground arith,
        resolve-Resolved s.name word' t.next_state a n tr r (ground arith) (ground arith),
      )

  pub record Added (s s' : State) (t : TransTemplate) : Type 0 where
    pub name : s'.name ≡ s.name
    pub here :
        t.ch_type ≡ ch_none
        → (tr : Trans) × (nth s'.trans t.action_code ≡ some tr) × Implements s.name [] t tr
    pub others : (c : ℕ) → is_own c t ≡ false → nth s'.trans c ≡ nth s.trans c

  stored-Added :
      (s s1 : State) (t : TransTemplate) (grow : Option Trans) (slot : Slot) (word : List ℕ)
      (old new : Trans)
      → pick_slot s t grow ≡ some (s1, slot, word)
      → read_slot s1 slot ≡ some old
      → fill_trans load_tool calloc more tmpl names s t word old ≡ some new
      → Added s (write_slot s1 slot new) t
  unfolding is_own
  stored-Added s s1 t grow slot word old new picked there filled =
      let (at, same, name, no_word) = pick_slot-own s t grow s1 slot word picked in
      record {
        name = name-write_slot s1 slot new ∙ name;
        here = λ e.
            let at' : own_index slot ≡ some t.action_code = at ∙ rw (eq-beq e) refl in
            let (cells, read) = write_slot-own s1 slot new t.action_code at' in
            (
              new,
              rw cells (
                  get_elem?-set_self s1.trans.cells t.action_code new
                    (get_elem?-lt s1.trans.cells t.action_code (sym read ∙ there))),
              subst (λ w. Implements s.name w t new) (no_word e)
                  (fill_trans-Implements s t word old new filled),
            );
        others = λ c miss. elim (ℕ_discrete t.ch_type ch_none) [
          | yes e ↦
              let at' : own_index slot ≡ some t.action_code = at ∙ rw (eq-beq e) refl in
              let (cells, read) = write_slot-own s1 slot new t.action_code at' in
              rw cells (
                get_elem?-set_ne s1.trans.cells new (ground arith)
                ∙ ap (λ (a : TransArray). nth a c) same)
          | no ne ↦
              let at' : own_index slot ≡ none = at ∙ rw (ne-beq ne) refl in
              ap (λ (a : TransArray). nth a c) (write_slot-other s1 slot new at' ∙ same)
        ];
      }

  pub add_trans-Added :
      (s s' : State) (t : TransTemplate) (grow : Option Trans)
      → add_trans load_tool calloc more tmpl names s t grow ≡ some s'
      → Added s s' t
  unfolding add_trans
  add_trans-Added s s' t grow h =
      let ((s1, slot, word), picked, h1) = >>=-eq-some (pick_slot s t grow) _ h in
      let (old, there, h2) = >>=-eq-some (read_slot s1 slot) _ h1 in
      let (new, filled, h3) =
        >>=-eq-some (fill_trans load_tool calloc more tmpl names s t word old) _ h2 in
      let e : write_slot s1 slot new ≡ s' = eq_of_some h3 in
      subst (λ r. Added s r t) e (stored-Added s s1 t grow slot word old new picked there filled)

  -- What the cell of code `c` holds once `o` was the last transition of that code.
  abbrev pub Cell : State → State → ℕ → Option TransTemplate → Type 0
  Cell s s' c none = nth s'.trans c ≡ nth s.trans c
  Cell s s' c (some t) = (tr : Trans) × (nth s'.trans c ≡ some tr) × Implements s.name [] t tr

  own-Cell :
      (s s1 s' : State) (t : TransTemplate) (c : ℕ)
      → Added s s1 t
      → is_own c t ≡ true
      → nth s'.trans c ≡ nth s1.trans c
      → Cell s s' c (some t)
  unfolding is_own
  own-Cell s s1 s' t c added e kept =
      let (tr, at, impl) = added.here (ground arith) in
      let same : t.action_code ≡ c = ground arith in
      (tr, kept ∙ ap (nth s1.trans) (sym same) ∙ at, impl)

  Cell-cons :
      (s s1 s' : State) (t : TransTemplate) (c : ℕ)
      → Added s s1 t
      → (o : Option TransTemplate) → Cell s1 s' c o
      → Cell s s' c (elim o [ some u ↦ some u | none ↦ if is_own c t then some t else none ])
  Cell-cons s s1 s' t c added (some u) (tr, at, impl) =
      (tr, at, subst (λ n. Implements n [] u tr) added.name impl)
  Cell-cons s s1 s' t c added none kept = elim (Bool-cases (is_own c t)) [
    | inl e ↦ rw e (own-Cell s s1 s' t c added e kept)
    | inr e ↦ rw e (kept ∙ added.others c e)
  ]

  -- The inner loop: its last transition of a code is the one that stays.
  pub add_all-Cell :
      (i j : ℕ) (ts : List TransTemplate) (c : ℕ) (s s' : State)
      → add_all load_tool calloc more tmpl names i j s ts ≡ some s'
      → (s'.name ≡ s.name) × Cell s s' c (last_own c ts)
  unfolding add_all last_own
  add_all-Cell i j [] c s s' h =
      let e : s' ≡ s = sym (eq_of_some h) in
      (ap (λ (r : State). r.name) e, ap (λ (r : State). nth r.trans c) e)
  add_all-Cell i j (t ∷ ts) c s s' h =
      let (s1, first, rest) =
        >>=-eq-some (add_trans load_tool calloc more tmpl names s t (more i j)) _ h in
      let added = add_trans-Added s s1 t (more i j) first in
      let (name, cell) = add_all-Cell i (j + 1) ts c s1 s' rest in
      (name ∙ added.name, Cell-cons s s1 s' t c added (last_own c ts) cell)
