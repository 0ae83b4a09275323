-- ===== src/Engine/Parser/Sections.antt =====
-- What the parser makes of printed sections.
use esma.Base.{
  ℕ, ◌+◌, ◌<◌, ◌≤◌, ◌≡◌, refl, ap, sym, subst, ◌∙◌, true, some, List, [], ◌∷◌, ◌++◌, map, length,
  length-append, append-nil, append_assoc, leb, arith,
}
use esma.Engine.Types.{Name, Template, StateTemplate}
use esma.Engine.Load.{codes}
use esma.Engine.Parser.Text.{Text, starts, skip}
use esma.Engine.Parser.Terms.{Surroundings, Internal, clean, zero_state}
use esma.Engine.Parser.Modes.{Mode, Parser, on_idle, on_state_section, on_state_section_enter}
use esma.Engine.Parser.Options.{switch}
use esma.Engine.Parser.Decode.{Round, round_of, ended, decode_round, continue, decode}
use esma.Engine.Parser.Built.{IsTemplate}
use esma.Engine.Parser.Runs.{Ends, stop, step, parser_at, round-switch, decode-Ends}
use esma.Engine.Parser.Printed.{
  named_state, with_states, AllNames, print_names, print_states, name-Ends,
}

with_states-nil : (et : Template) → with_states et [] ≡ et
with_states-nil et =
    ap (λ (ss : List StateTemplate). record et { states = ss }) (append-nil et.states)

with_states-cons :
    (et : Template) (name : Name) (names : List Name)
    → with_states (with_states et (name ∷ [])) names ≡ with_states et (name ∷ names)
with_states-cons et name names =
    ap (λ (ss : List StateTemplate). record et { states = ss })
      (append_assoc et.states (named_state name ∷ []) (map named_state names))

print_names-pos :
    (names : List Name) (rest : Text) → 0 < length rest → 0 < length (print_names names rest)
unfolding print_names
print_names-pos [] rest h = h
print_names-pos ([] ∷ names) rest h = omega arith
print_names-pos ((c ∷ name) ∷ names) rest h = omega arith

module _ (env : Surroundings) (fresh : (i : ℕ) → i < 10 → env.fresh i ≡ some zero_state)
    (memory : (i : ℕ) → env.calloc i ≡ true) where
  pub names-Ends :
      (names : List Name) (tail s : Text) (eti : Internal) (et : Template) (r : Round)
      → length et.states + length names ≤ 10
      → AllNames names
      → ((s' : Text)
          → Ends env
              (parser_at Mode.state_section_leave (b';' ∷ tail) s' eti (with_states et names))
              r)
      → Ends env
          (parser_at Mode.state_section_enter (print_names names (b'}' ∷ b';' ∷ tail)) s eti et)
          r
  unfolding print_names switch round_of on_state_section_enter skip
  names-Ends [] tail s eti et r few h k =
      step
        (round-switch env Mode.state_section_enter b'}' (b';' ∷ tail) s eti et refl refl
          (omega arith))
        (subst
          (λ (t : Template). Ends env (parser_at Mode.state_section_leave (b';' ∷ tail) s eti t) r)
          (with_states-nil et) (k s))
  names-Ends ([] ∷ names) tail s eti et r few (h, hs) k = absurd (omega (arith, h.some_char))
  names-Ends ((c ∷ name) ∷ names) tail s eti et r few (h, hs) k =
      let rest = print_names names (b'}' ∷ b';' ∷ tail) in
      let et' = with_states et ((c ∷ name) ∷ []) in
      let grows : length et'.states ≡ length et.states + 1 = length-append et.states _ in
      name-Ends env fresh memory c name rest s eti et r (omega (arith, few)) h
        (print_names-pos names (b'}' ∷ b';' ∷ tail) (omega arith))
        (names-Ends names tail (b';' ∷ rest) eti et' r (omega (arith, few, grows)) hs (λ s'.
          subst
            (λ (t : Template).
              Ends env (parser_at Mode.state_section_leave (b';' ∷ tail) s' eti t) r)
            (sym (with_states-cons et (c ∷ name) names)) (k s')))

  -- From the start, or from behind another section.
  pub states-Ends :
      (m : Mode) (names : List Name) (tail s : Text) (eti : Internal) (et : Template) (r : Round)
      → ((x : Parser) → switch env m x ≡ on_idle x)
      → length et.states + length names ≤ 10
      → AllNames names
      → ((s' : Text)
          → Ends env
              (parser_at Mode.state_section_leave (b';' ∷ tail) s' eti (with_states et names))
              r)
      → Ends env (parser_at m (print_states names tail) s eti et) r
  unfolding print_states round_of on_idle on_state_section switch skip starts
  states-Ends m names tail s eti et r e few h k =
      let entries = print_names names (b'}' ∷ b';' ∷ tail) in
      let long : leb 7 (length (codes "states{" ++ entries)) ≡ true = ground arith in
      let idle =
        round-switch env m b's' (codes "tates{" ++ entries) s eti et refl refl (omega arith) in
      step
        (idle
          ∙ ap round_of (e (parser_at m (codes "states{" ++ entries) s eti et))
          ∙ rw (on_idle, long) refl)
        (step
          (round-switch env Mode.state_section b'{' entries s eti et refl refl
            (print_names-pos names (b'}' ∷ b';' ∷ tail) (omega arith)))
          (names-Ends names tail s eti et r few h k))

  -- A text that is a section of states adds a state for each name, in order, and nothing else.
  pub decode-states :
      (names : List Name) (et : Template)
      → IsTemplate et
      → length et.states + length names ≤ 10
      → AllNames names
      → decode env (print_states names []) et ≡ some (ended (with_states et names))
  unfolding decode_round on_idle switch continue
  decode-states names et v few h =
      let r = ended (with_states et names) in
      decode-Ends env (print_states names []) et r v (
        states-Ends Mode.start names [] (print_states names []) clean et r (λ x. refl) few h
          (λ s'. stop refl (λ next. refl)))
