-- ===== src/Engine/Program/Last.antt =====
-- The last arrow of a source and a code, and the transition of the template that it becomes.
use esma.Base.{
  ℕ, zero, suc, ◌≡◌, ◌≢◌, refl, ap, sym, subst, ◌∙◌, inl, inr, true, false, ◌&&◌, ◌==◌, Option,
  none, some, List, [], ◌∷◌, ◌++◌, get_elem?, if◌then◌else◌, Bool-cases, arith,
}
use esma.Engine.Types.{Name, Template, StateTemplate, TransTemplate}
use esma.Engine.Load.{find_name, same_name}
use esma.Engine.Load.Slots.{eq_of_some}
use esma.Engine.Load.Own.{is_own, last_own}
use esma.Engine.Load.Correct.{find_name-get_elem?, same_name_lem}
use esma.Engine.Load.Succeeds.{same_name_refl}
use esma.Engine.Parser.Modes.{names}
use esma.Engine.Parser.Arrows.{
  Arrow, IsArrow, arrow_trans, gains, modify, modify_found, with_arrow, with_arrows, AllArrows,
  with_arrow-names,
}

-- The last arrow from states of this name with this code, or `found` if there is none.
unfoldable pub last_arrow : Name → ℕ → List Arrow → Option Arrow → Option Arrow
unfolding same_name
last_arrow src c [] found = found
last_arrow src c (a ∷ arrows) found =
    last_arrow src c arrows (if same_name a.src src && (a.code == c) then some a else found)

abbrev pub told : List Name → Option Arrow → Option TransTemplate
told ns none = none
told ns (some a) = some (arrow_trans ns a)

last_own-snoc :
    (c : ℕ) (ts : List TransTemplate) (t : TransTemplate)
    → last_own c (ts ++ t ∷ []) ≡ (if is_own c t then some t else last_own c ts)
unfolding last_own
last_own-snoc c [] t = refl
last_own-snoc c (u ∷ ts) t = elim (Bool-cases (is_own c t)) [
  | inl e ↦ rw (last_own-snoc c ts t, e) refl
  | inr e ↦ rw (last_own-snoc c ts t, e) refl
]

get_elem?-modify_self :
    (f : StateTemplate → StateTemplate) (k : ℕ) (ss : List StateTemplate) (st : StateTemplate)
    → get_elem? ss k ≡ some st
    → get_elem? (modify f k ss) k ≡ some (f st)
unfolding modify
get_elem?-modify_self f k [] st e = cc
get_elem?-modify_self f zero (s ∷ ss) st e = ap (λ (r : StateTemplate). some (f r)) (eq_of_some e)
get_elem?-modify_self f (suc k) (s ∷ ss) st e = get_elem?-modify_self f k ss st e

get_elem?-modify_other :
    (f : StateTemplate → StateTemplate) (j k : ℕ) (ss : List StateTemplate)
    → j ≢ k
    → get_elem? (modify f j ss) k ≡ get_elem? ss k
unfolding modify
get_elem?-modify_other f j k [] h = refl
get_elem?-modify_other f zero zero (s ∷ ss) h = absurd (h refl)
get_elem?-modify_other f zero (suc k) (s ∷ ss) h = refl
get_elem?-modify_other f (suc j) zero (s ∷ ss) h = refl
get_elem?-modify_other f (suc j) (suc k) (s ∷ ss) h =
    get_elem?-modify_other f j k ss (λ e. h (ap suc e))

module _ (ns : List Name) (src : Name) (k c : ℕ) (at : find_name src ns ≡ some k) where
  -- State `k` holds what the arrow says.
  abbrev pub Tells : List StateTemplate → Option Arrow → Type 0
  Tells ss found =
      (st : StateTemplate) × (get_elem? ss k ≡ some st) × (last_own c st.trans ≡ told ns found)

  modify-Tells :
      (a : Arrow) (j : ℕ) (ss : List StateTemplate) (found : Option Arrow)
      → find_name a.src ns ≡ some j
      → Tells ss found
      → Tells
          (modify (gains ns a) j ss)
          (if same_name a.src src && (a.code == c) then some a else found)
  unfolding is_own
  modify-Tells a j ss found e (st, here, last) = elim (Bool-cases (same_name a.src src)) [
    | inl q ↦
        let same : j ≡ k =
          eq_of_some (sym e ∙ ap (λ (n : Name). find_name n ns) (same_name_lem a.src src q) ∙ at) in
        (
          gains ns a st,
          ap (λ (i : ℕ). get_elem? (modify (gains ns a) i ss) k) same
              ∙ get_elem?-modify_self (gains ns a) k ss st here,
          rw q (last_own-snoc c st.trans (arrow_trans ns a) ∙ added a),
        )
    | inr q ↦
        let other : j ≢ k = λ same. absurd (
          differ (
            sym q
            ∙ ap (λ (n : Name). same_name n src)
                (eq_of_some (
                  sym (find_name-get_elem? a.src ns j e)
                  ∙ ap (get_elem? ns) same
                  ∙ find_name-get_elem? src ns k at))
            ∙ same_name_refl src)) in
        (st, get_elem?-modify_other (gains ns a) j k ss other ∙ here, rw q last)
  ]
    where
      added :
          (b : Arrow)
          → (if is_own c (arrow_trans ns b) then some (arrow_trans ns b) else last_own c st.trans)
            ≡ told ns (if b.code == c then some b else found)
      added b = elim (Bool-cases (b.code == c)) [ inl q ↦ rw q refl | inr q ↦ rw q last ]

      differ : false ≡ true → ⊥
      differ q = cc

  pub with_arrows-Tells :
      (et : Template) (arrows : List Arrow) (found : Option Arrow)
      → names et ≡ ns
      → AllArrows ns arrows
      → Tells et.states found
      → Tells (with_arrows et arrows).states (last_arrow src c arrows found)
  unfolding with_arrows last_arrow with_arrow
  with_arrows-Tells et [] found e hs t = t
  with_arrows-Tells et (a ∷ arrows) found e (h, hs) t =
      let (j, source) = h.source in
      let next = if same_name a.src src && (a.code == c) then some a else found in
      with_arrows-Tells (with_arrow et a) arrows next (with_arrow-names et a ∙ e) hs (
        subst
          (λ (ms : List Name).
            Tells (modify_found (gains ms a) (find_name a.src ms) et.states) next)
          (sym e)
          (subst (λ (o : Option ℕ). Tells (modify_found (gains ns a) o et.states) next) (sym source)
            (modify-Tells a j et.states found source t)))

-- The last arrow of a source and a code is one of theirs.
abbrev pub Fits : List Name → Name → ℕ → Option Arrow → Type 0
Fits ns src c none = Unit
Fits ns src c (some a) = IsArrow ns a × (a.src ≡ src) × (a.code ≡ c)

pub last_arrow-Fits :
    (ns : List Name) (src : Name) (c : ℕ) (arrows : List Arrow) (found : Option Arrow)
    → AllArrows ns arrows
    → Fits ns src c found
    → Fits ns src c (last_arrow src c arrows found)
unfolding last_arrow
last_arrow-Fits ns src c [] found hs f = f
last_arrow-Fits ns src c (a ∷ arrows) found (h, hs) f =
    last_arrow-Fits ns src c arrows (if same_name a.src src && (a.code == c) then some a else found)
      hs here
  where
    here : Fits ns src c (if same_name a.src src && (a.code == c) then some a else found)
    here = elim (Bool-cases (same_name a.src src)) [
      | inr q ↦ rw q f
      | inl q ↦ elim (Bool-cases (a.code == c)) [
        | inr r ↦ rw (q, r) f
        | inl r ↦ rw (q, r) (h, same_name_lem a.src src q, ground arith)
      ]
    ]
