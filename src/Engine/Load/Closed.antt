-- ===== src/Engine/Load/Closed.antt =====
-- Where the transitions of a loaded machine lead.
use esma.Base.Bytes.{u32}
use Prim.Native.Nat.{max}
use esma.Base.{length-map}
use esma.Base.{
  ◌*◌, ℕ, ◌+◌, ◌<◌, ◌≡◌, refl, ap, sym, subst, ◌∙◌, Bool, Option, none, some, List, [], ◌∷◌, ◌++◌,
  length, get_elem?,
}
use esma.Engine.Types.{Name, Trans, State, Template, StateTemplate, TransTemplate, zero_trans}
use esma.Engine.Load.{
  read_slot, pick_slot, find_name, tool_name, resolve, fill_trans, add_trans, add_all,
  prepare_state, prepare_states, prepare_trans, load, require, codes, decimal,
}
use esma.Engine.Load.Slots.{>>=-eq-some, >>-eq-some, eq_of_some, get_elem?-lt}
use esma.Engine.Load.Correct.{names, names-load, names-prepare_states, find_name-get_elem?}
use esma.Engine.Load.Bound.{
  Bound, AllBound-replicate, none_leads, no_some, Closed, AllClosed, Clear, write_slot-Closed,
  pick_slot-Closed,
}

module _ (load_tool : List ℕ → Option ℕ) (calloc : ℕ → Bool) (more : ℕ → ℕ → Option Trans)
    (tmpl : Template) (clear : (i j : ℕ) → Clear (more i j)) where
  resolve-lt :
      (ns : List Name) (state : Name) (word : List ℕ) (next a n : Option ℕ) (k : ℕ)
      → resolve load_tool calloc more tmpl ns state word next ≡ some (a, n)
      → n ≡ some k
      → k < length ns
  unfolding resolve
  resolve-lt ns state word none a n k h e =
      let (f, found, q) = >>=-eq-some (load_tool (tool_name tmpl.name state word)) _ h in
      absurd (no_some (ap (λ (p : Option ℕ × Option ℕ). p.1) (eq_of_some q) ∙ e))
  resolve-lt ns state word (some j) a n k h e =
      let (target, there, rest) = >>=-eq-some (get_elem? tmpl.states j) _ h in
      let (i, found, q) = >>=-eq-some (find_name target.name ns) _ rest in
      let same : i ≡ k = eq_of_some (ap (λ (p : Option ℕ × Option ℕ). p.1) (eq_of_some q) ∙ e) in
      subst (λ (x : ℕ). x < length ns) same
        (get_elem?-lt ns i (find_name-get_elem? target.name ns i found))

  add_trans-Closed :
      (ns : List Name) (s s' : State) (t : TransTemplate) (i j : ℕ)
      → Closed (length ns) s
      → add_trans load_tool calloc more tmpl ns s t (more i j) ≡ some s'
      → Closed (length ns) s'
  unfolding add_trans fill_trans
  add_trans-Closed ns s s' t i j c h =
      let ((s1, slot, word), picked, h1) = >>=-eq-some (pick_slot s t (more i j)) _ h in
      let (old, there, h2) = >>=-eq-some (read_slot s1 slot) _ h1 in
      let (new, filled, h3) =
        >>=-eq-some (fill_trans load_tool calloc more tmpl ns s t word old) _ h2 in
      let ((a, n), r, e) =
        >>=-eq-some
          (resolve load_tool calloc more tmpl ns s.name (word ++ decimal t.action_code)
            t.next_state)
          _ filled in
      subst (Closed (length ns)) (eq_of_some h3) (
        write_slot-Closed (length ns) s1 slot new
          (pick_slot-Closed (length ns) s s1 t (more i j) slot word (clear i j) c picked)
          (λ k q.
            resolve-lt ns s.name (word ++ decimal t.action_code) t.next_state a n k r
              (ap (λ (u : Trans). u.next_state) (eq_of_some e) ∙ q)))

  add_all-Closed :
      (ns : List Name) (i j : ℕ) (ts : List TransTemplate) (s s' : State)
      → Closed (length ns) s
      → add_all load_tool calloc more tmpl ns i j s ts ≡ some s'
      → Closed (length ns) s'
  unfolding add_all
  add_all-Closed ns i j [] s s' c h = subst (Closed (length ns)) (eq_of_some h) c
  add_all-Closed ns i j (t ∷ ts) s s' c h =
      let (s1, first, rest) =
        >>=-eq-some (add_trans load_tool calloc more tmpl ns s t (more i j)) _ h in
      add_all-Closed ns i (j + 1) ts s1 s' (add_trans-Closed ns s s1 t i j c first) rest

  prepare_state-Closed :
      (n i : ℕ) (st : StateTemplate) (s : State)
      → prepare_state load_tool calloc more tmpl i st ≡ some s
      → Closed n s
  unfolding prepare_state
  prepare_state-Closed n i st s h =
      let (enter, found, h1) =
        >>=-eq-some (load_tool (tool_name tmpl.name st.name (codes "enter"))) _ h in
      subst (Closed n)
        (eq_of_some (
          >>-eq-some (require (calloc (3 * i + 3))) _ (
            >>-eq-some (require (calloc (3 * i + 2))) _
              (>>-eq-some (require (calloc (3 * i + 1))) _ h1))))
        (record {
          own = AllBound-replicate n (u32 (max st.max_code st.ntrans + 1)) zero_trans zeros;
          tick = AllBound-replicate n (u32 (st.max_tick_code + 1)) zero_trans zeros;
          sign = AllBound-replicate n (u32 (st.max_sign_code + 1)) zero_trans zeros;
          on_in = zeros;
          on_out = zeros;
          on_err = zeros;
        })
    where
      zeros : Bound n zero_trans
      zeros = none_leads n zero_trans refl

  prepare_states-Closed :
      (n i : ℕ) (sts : List StateTemplate) (ss : List State)
      → prepare_states load_tool calloc more tmpl i sts ≡ some ss
      → AllClosed n ss
  unfolding prepare_states
  prepare_states-Closed n i [] ss h = subst (AllClosed n) (eq_of_some h) tt
  prepare_states-Closed n i (st ∷ sts) ss h =
      let (s, first, more') = >>=-eq-some (prepare_state load_tool calloc more tmpl i st) _ h in
      let (rest, others, e) =
        >>=-eq-some (prepare_states load_tool calloc more tmpl (i + 1) sts) _ more' in
      subst (AllClosed n) (eq_of_some e)
        (prepare_state-Closed n i st s first, prepare_states-Closed n (i + 1) sts rest others)

  prepare_trans-Closed :
      (ns : List Name) (i : ℕ) (ss : List State) (sts : List StateTemplate) (ss' : List State)
      → AllClosed (length ns) ss
      → prepare_trans load_tool calloc more tmpl ns i ss sts ≡ some ss'
      → AllClosed (length ns) ss'
  unfolding prepare_trans
  prepare_trans-Closed ns i [] [] ss' c h = subst (AllClosed (length ns)) (eq_of_some h) tt
  prepare_trans-Closed ns i [] (st ∷ sts) ss' c h = cc
  prepare_trans-Closed ns i (s ∷ ss) [] ss' c h = cc
  prepare_trans-Closed ns i (s ∷ ss) (st ∷ sts) ss' (c, cs) h =
      let (s', first, h1) =
        >>=-eq-some (add_all load_tool calloc more tmpl ns i 0 s st.trans) _ h in
      let (rest, others, e) =
        >>=-eq-some (prepare_trans load_tool calloc more tmpl ns (i + 1) ss sts) _ h1 in
      subst (AllClosed (length ns)) (eq_of_some e) (
        add_all-Closed ns i 0 st.trans s s' c first,
        prepare_trans-Closed ns (i + 1) ss sts rest cs others,
      )

  -- If what realloc adds holds no next state: all transitions of a loaded machine lead to its states.
  pub load-Closed :
      (states : List State)
      → load load_tool calloc more tmpl ≡ some states
      → AllClosed (length states) states
  unfolding load
  load-Closed states h =
      let (ss, made, rest) =
        >>=-eq-some (prepare_states load_tool calloc more tmpl 0 tmpl.states) _
          (>>-eq-some (require (calloc 0)) _ h) in
      let same : length (names ss) ≡ length states =
        ap length (
          names-prepare_states load_tool calloc more tmpl 0 tmpl.states ss made
          ∙ sym (names-load load_tool calloc more tmpl states h))
        ∙ length-map (λ (s : State). s.name) states in
      subst (λ (n : ℕ). AllClosed n states) same
        (prepare_trans-Closed (names ss) 0 ss tmpl.states states
          (prepare_states-Closed (length (names ss)) 0 tmpl.states ss made) rest)
