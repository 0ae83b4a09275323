-- ===== src/Engine/Program/Gains.antt =====
-- A template that was read from states and arrows can be loaded.
use esma.Base.{
  get_elem?, ◌∙◌, ◌≡◌, ℕ, zero, suc, ◌+◌, ◌-◌, ◌^◌, ◌<◌, refl, sym, subst, inl, inr, Option, none,
  some, List, [], ◌∷◌, ◌++◌, map, length, ltb, Bool-cases, arith,
}
use esma.Engine.Types.{Name, Template, StateTemplate, TransTemplate}
use esma.Engine.Load.{decimal, tool_name}
use esma.Engine.Load.Correct.{find_name-get_elem?}
use esma.Engine.Load.Slots.{eq_of_some}
use esma.Engine.Load.Total.{Known}
use esma.Engine.Load.Succeeds.{Enters, Finds, Small, AllKnown, Loadable}
use esma.Engine.Parser.Terms.{larger}
use esma.Engine.Parser.Modes.{names}
use esma.Engine.Parser.Printed.{named_state}
use esma.Engine.Parser.Arrows.{
  IsArrow, IsTarget, target_of, Arrow, arrow_trans, gains, modify, modify_found, with_arrow,
  with_arrows, AllArrows, with_arrow-names,
}

larger-less : (a b n : ℕ) → a < n → b < n → larger a b < n
larger-less a b n p q = elim (Bool-cases (ltb b a)) [ inl e ↦ rw e p | inr e ↦ rw e q ]

Small-gains :
    (ns : List Name) (a : Arrow) (spare : ℕ) (st : StateTemplate)
    → a.code < 2 ^ 31
    → Small (suc spare) st
    → Small spare (gains ns a st)
Small-gains ns a spare st h s = record {
  own =
      omega
        (arith, larger-less a.code st.max_code (2 ^ 32 - 1) (omega arith) (omega (arith, s.own)));
  trans = omega (arith, s.trans);
  tick = s.tick;
  sign = s.sign;
}

-- The program has the functions that arrows to `self` ask for.
abbrev pub Calls : (List ℕ → Option ℕ) → Name → Arrow → Type 0
Calls load_tool name a =
    a.dst ≡ none → (f : ℕ) × (load_tool (tool_name name a.src (decimal a.code)) ≡ some f)

abbrev pub AllCalls : (List ℕ → Option ℕ) → Name → List Arrow → Type 0
AllCalls load_tool name [] = Unit
AllCalls load_tool name (a ∷ arrows) = Calls load_tool name a × AllCalls load_tool name arrows

abbrev pub AllEnter : (List ℕ → Option ℕ) → Name → List Name → Type 0
AllEnter load_tool name [] = Unit
AllEnter load_tool name (n ∷ ns) = Enters load_tool name n × AllEnter load_tool name ns

no_target :
    (ns : List Name) (dst : Option Name) → IsTarget ns dst → target_of ns dst ≡ none → dst ≡ none
no_target ns none t e = refl
no_target ns (some name) (w, l, ne, (k, at)) e = absurd (clash (sym at ∙ e))
  where
    clash : {k : ℕ} → some k ≡ none → ⊥
    clash q = cc

module _ (load_tool : List ℕ → Option ℕ) (name : Name) where
  AllKnown-snoc :
      (state : Name) (ts : List TransTemplate) (t : TransTemplate)
      → AllKnown load_tool name state ts
      → Known t × Finds load_tool name state t
      → AllKnown load_tool name state (ts ++ t ∷ [])
  AllKnown-snoc state [] t ks k = (k, tt)
  AllKnown-snoc state (u ∷ ts) t (q, ks) k = (q, AllKnown-snoc state ts t ks k)

  arrow-Finds :
      (ns : List Name) (a : Arrow)
      → IsTarget ns a.dst
      → Calls load_tool name a
      → Finds load_tool name a.src (arrow_trans ns a)
  arrow-Finds ns a t calls e = calls (no_target ns a.dst t e)

  Loadable-less :
      (spare : ℕ) (ss : List StateTemplate)
      → Loadable load_tool name (suc spare) ss
      → Loadable load_tool name spare ss
  Loadable-less spare [] l = tt
  Loadable-less spare (st ∷ ss) (((s, e), k), l) = (
    ((record { own = s.own; trans = omega (arith, s.trans); tick = s.tick; sign = s.sign }, e), k),
    Loadable-less spare ss l,
  )

  Loadable-modify :
      (ns : List Name) (a : Arrow) (spare k : ℕ) (ss : List StateTemplate)
      → a.code < 2 ^ 31
      → Finds load_tool name a.src (arrow_trans ns a)
      → get_elem? (map (λ (st : StateTemplate). st.name) ss) k ≡ some a.src
      → Loadable load_tool name (suc spare) ss
      → Loadable load_tool name spare (modify (gains ns a) k ss)
  unfolding modify
  Loadable-modify ns a spare k [] h finds at l = tt
  Loadable-modify ns a spare zero (st ∷ ss) h finds at (((s, e), ks), l) = (
    (
      (Small-gains ns a spare st h s, e),
      AllKnown-snoc st.name st.trans (arrow_trans ns a) ks (
        inl refl,
        subst (λ (n : Name). Finds load_tool name n (arrow_trans ns a)) (sym (eq_of_some at)) finds,
      ),
    ),
    Loadable-less spare ss l,
  )
  Loadable-modify ns a spare (suc k) (st ∷ ss) h finds at (s, l) =
      let here = Loadable-less spare (st ∷ []) (s, tt) in
      (here.0, Loadable-modify ns a spare k ss h finds at l)

  Loadable-arrow :
      (et : Template) (a : Arrow) (spare : ℕ)
      → IsArrow (names et) a
      → Calls load_tool name a
      → Loadable load_tool name (suc spare) et.states
      → Loadable load_tool name spare (with_arrow et a).states
  unfolding with_arrow
  Loadable-arrow et a spare h calls l =
      let (k, at) = h.source in
      subst
        (λ (o : Option ℕ).
          Loadable load_tool name spare (modify_found (gains (names et) a) o et.states))
        (sym at)
        (Loadable-modify (names et) a spare k et.states (omega (arith, h.small))
          (arrow-Finds (names et) a h.target calls) (find_name-get_elem? a.src (names et) k at) l)

  pub Loadable-arrows :
      (et : Template) (arrows : List Arrow)
      → AllArrows (names et) arrows
      → AllCalls load_tool name arrows
      → Loadable load_tool name (length arrows) et.states
      → Loadable load_tool name 0 (with_arrows et arrows).states
  unfolding with_arrows
  Loadable-arrows et [] hs cs l = l
  Loadable-arrows et (a ∷ arrows) (h, hs) (c, cs) l =
      Loadable-arrows (with_arrow et a) arrows
        (subst (λ (ns : List Name). AllArrows ns arrows) (sym (with_arrow-names et a)) hs) cs
        (Loadable-arrow et a (length arrows) h c l)

  pub Loadable-states :
      (spare : ℕ) (new : List Name)
      → spare + 1 < 2 ^ 32
      → AllEnter load_tool name new
      → Loadable load_tool name spare (map named_state new)
  Loadable-states spare [] h es = tt
  Loadable-states spare (n ∷ new) h (e, es) = (
    (
      (
        record { own = omega arith; trans = omega arith; tick = omega arith; sign = omega arith },
        e,
      ),
      tt,
    ),
    Loadable-states spare new h es,
  )
