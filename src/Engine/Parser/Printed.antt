-- ===== src/Engine/Parser/Printed.antt =====
-- What the parser makes of a section of states that is printed without blanks.
use esma.Base.{
  ℕ, ◌<◌, ◌≡◌, ◌≢◌, refl, ap, ap₂, subst, ◌∙◌, Bool, true, false, ◌&&◌, ◌||◌, some, List, [], ◌∷◌,
  ◌++◌, map, length, length-append, leb, ◌==◌, arith, Bool-cases, inl, inr,
}
use esma.Engine.Types.{Name, Template, StateTemplate}
use esma.Engine.Load.{codes}
use esma.Engine.Parser.Text.{Text, is_word, is_delim, starts, skip, span}
use esma.Engine.Parser.Terms.{
  Surroundings, Internal, ok, zero_state, named, place_state, new_state, overlay-nil,
}
use esma.Engine.Parser.Modes.{Mode, on_state_section_enter, added_state, on_state_name_enter}
use esma.Engine.Parser.Options.{switch}
use esma.Engine.Parser.Decode.{Round, round_of, again}
use esma.Engine.Parser.Runs.{Ends, step, parser_at, round-switch}

abbrev pub AllWord : Text → Type 0
AllWord [] = Unit
AllWord (c ∷ cs) = (is_word c ≡ true) × AllWord cs

-- A name that a template can give to a state of its own.
pub record IsName (name : Name) : Type 0 where
  pub words : AllWord name
  pub some_char : 0 < length name
  pub short : length name < 64
  pub not_init : name ≢ codes "init"
  pub not_fini : name ≢ codes "fini"

pub record NoMark (c : ℕ) : Type 0 where
  pub blank : is_delim c ≡ false
  pub comment : (c == b'/') ≡ false
  pub brace : (c == b'}') ≡ false
  pub semicolon : (c == b';') ≡ false

pub is_word-NoMark : (c : ℕ) → is_word c ≡ true → NoMark c
is_word-NoMark c h = record {
  blank = ground arith;
  comment = ground arith;
  brace = ground arith;
  semicolon = ground arith;
}

pub span-word :
    (name : Name) (d : ℕ) (cs : Text)
    → AllWord name
    → is_word d ≡ false
    → span is_word (name ++ d ∷ cs) ≡ (name, d ∷ cs)
unfolding span
span-word [] d cs w h = rw (span, h) refl
span-word (c ∷ name) d cs (e, w) h = rw (span, e) (rw (span-word name d cs w h) refl)

pub starts-eq :
    (w name : Name) (cs : Text) → length name ≡ length w → starts w (name ++ cs) ≡ true → name ≡ w
unfolding starts
starts-eq [] [] cs l h = refl
starts-eq [] (c ∷ name) cs l h = absurd (omega arith)
starts-eq (a ∷ w) [] cs l h = absurd (omega arith)
starts-eq (a ∷ w) (c ∷ name) cs l h = elim (Bool-cases (c == a)) [
  | inl e ↦
      ap₂ (λ (x : ℕ) (y : Name). x ∷ y) (ground arith)
        (starts-eq w name cs (omega arith)
          (subst (λ (b : Bool). (b && starts w (name ++ cs)) ≡ true) e h))
  | inr e ↦ absurd (
      false_true (starts w (name ++ cs))
        (subst (λ (b : Bool). (b && starts w (name ++ cs)) ≡ true) e h))
]
  where
    false_true : (b : Bool) → (false && b) ≡ true → ⊥
    false_true b q = cc

abbrev pub named_state : Name → StateTemplate
named_state name = record zero_state { name = name }

abbrev pub with_states : Template → List Name → Template
with_states et names = record et { states = et.states ++ map named_state names }

-- `name; name; …` without the blanks, and a section of them.
unfoldable pub print_names : List Name → Text → Text
print_names [] rest = rest
print_names (name ∷ names) rest = name ++ b';' ∷ print_names names rest

unfoldable pub print_states : List Name → Text → Text
unfolding print_names
print_states names rest = codes "states{" ++ print_names names (b'}' ∷ b';' ∷ rest)

abbrev pub AllNames : List Name → Type 0
AllNames [] = Unit
AllNames (name ∷ names) = IsName name × AllNames names

not_special :
    (name : Name) (cs : Text)
    → IsName name
    → ((length name == 4)
        && (starts (codes "init") (name ++ cs) || starts (codes "fini") (name ++ cs)))
      ≡ false
not_special name cs h = elim (Bool-cases (length name == 4)) [
  | inr e ↦ rw e refl
  | inl e ↦ elim (Bool-cases (starts (codes "init") (name ++ cs))) [
    | inl i ↦ absurd (h.not_init (starts-eq (codes "init") name cs (ground arith) i))
    | inr i ↦ elim (Bool-cases (starts (codes "fini") (name ++ cs))) [
      | inl f ↦ absurd (h.not_fini (starts-eq (codes "fini") name cs (ground arith) f))
      | inr f ↦ rw (e, i, f) refl
    ]
  ]
]

module _ (env : Surroundings) (fresh : (i : ℕ) → i < 10 → env.fresh i ≡ some zero_state)
    (memory : (i : ℕ) → env.calloc i ≡ true) where
  new_state-named :
      (et : Template) (name : Name)
      → length et.states < 10
      → length name < 64
      → new_state env et name ≡ ok (with_states et (name ∷ []))
  unfolding new_state place_state named
  new_state-named et name few h =
      let short : leb 64 (length name) ≡ false = ground arith in
      ap (place_state env et name) (fresh (length et.states) few)
      ∙ rw (place_state, short, memory (length et.states))
          (ap (λ (n : Name). ok (record et { states = et.states ++ named_state n ∷ [] }))
            (overlay-nil name))

  -- The rounds at one name.
  pub name-Ends :
      (c : ℕ) (name rest s : Text) (eti : Internal) (et : Template) (r : Round)
      → length et.states < 10
      → IsName (c ∷ name)
      → 0 < length rest
      → Ends env
          (parser_at Mode.state_section_enter rest
            (b';' ∷ rest)
            eti
            (with_states et ((c ∷ name) ∷ [])))
          r
      → Ends env (parser_at Mode.state_section_enter (c ∷ name ++ b';' ∷ rest) s eti et) r
  unfolding switch round_of on_state_section_enter on_state_name_enter added_state skip
  name-Ends c name rest s eti et r few h pos k =
      let m = is_word-NoMark c h.words.0 in
      let more : 0 < length (name ++ b';' ∷ rest) =
        omega (arith, length-append name (b';' ∷ rest)) in
      step
        (round-switch env Mode.state_section_enter c (name ++ b';' ∷ rest) s eti et m.blank
            m.comment more
          ∙ rw (on_state_section_enter, m.brace, m.semicolon, h.words.0) refl)
        (step
          (round-switch env Mode.state_name_enter c (name ++ b';' ∷ rest) s eti et m.blank m.comment
              more
            ∙ entered)
          (step
            (round-switch env Mode.state_name_leave b';' rest (b';' ∷ rest) eti
              (with_states et ((c ∷ name) ∷ [])) refl refl pos)
            k))
    where
      entered :
          round_of (
            on_state_name_enter env
              (parser_at Mode.state_name_enter (c ∷ name ++ b';' ∷ rest) s eti et))
          ≡ again (
              parser_at Mode.state_name_leave
                (b';' ∷ rest)
                (b';' ∷ rest)
                eti
                (with_states et ((c ∷ name) ∷ [])))
      entered =
          let m = is_word-NoMark c h.words.0 in
          rw
            (
              on_state_name_enter,
              span-word (c ∷ name) b';' rest h.words refl,
              m.brace,
              not_special (c ∷ name) (b';' ∷ rest) h,
              new_state-named et (c ∷ name) few h.short,
            )
            refl
