-- ===== src/Engine/Parser/Special.antt =====
-- The names init and fini in a section of states.
use esma.Base.{
  ◌≡◌, refl, ◌∙◌, Bool, true, false, some, ◌∷◌, ◌++◌, length, leb, arith, if◌then◌else◌,
}
use esma.Engine.Types.{Template}
use esma.Engine.Load.{codes}
use esma.Engine.Parser.Text.{Text, starts, skip, span}
use esma.Engine.Parser.Terms.{Surroundings, clean}
use esma.Engine.Parser.Modes.{
  Mode, on_idle, on_state_section, on_state_section_enter, on_state_name_enter,
}
use esma.Engine.Parser.Options.{switch}
use esma.Engine.Parser.Decode.{round_of, failed, continue, decode}
use esma.Engine.Parser.Built.{IsTemplate}
use esma.Engine.Parser.Runs.{Ends, stop, step, parser_at, round-switch, decode-Ends}

-- `states{init;` or `states{fini;`
abbrev pub special : Bool → Text → Text
special b rest = codes "states{" ++ (if b then codes "init" else codes "fini") ++ b';' ∷ rest

module _ (env : Surroundings) (rest : Text) (s : Text) (et : Template) where
  name-refused :
      (b : Bool)
      → Ends env
          (parser_at Mode.state_section_enter
            ((if b then codes "init" else codes "fini") ++ b';' ∷ rest)
            s
            clean
            et)
          failed
  unfolding switch round_of on_state_section_enter on_state_name_enter skip span starts continue
  name-refused true =
      let q = codes "nit" ++ b';' ∷ rest in
      step (round-switch env Mode.state_section_enter b'i' q s clean et refl refl (omega arith)) (
        step (round-switch env Mode.state_name_enter b'i' q s clean et refl refl (omega arith)) (
          stop
            (round-switch env Mode.state_name_leave b'i' q (b';' ∷ rest) clean et refl refl
              (omega arith))
            (λ next. refl)))
  name-refused false =
      let q = codes "ini" ++ b';' ∷ rest in
      step (round-switch env Mode.state_section_enter b'f' q s clean et refl refl (omega arith)) (
        step (round-switch env Mode.state_name_enter b'f' q s clean et refl refl (omega arith)) (
          stop
            (round-switch env Mode.state_name_leave b'f' q (b';' ∷ rest) clean et refl refl
              (omega arith))
            (λ next. refl)))

-- From a template whose transitions have targets and whose maxima cover their codes, a text that
-- begins with `states{init;` or `states{fini;`, letter for letter, is refused, whatever follows.
pub decode-special :
    (env : Surroundings) (b : Bool) (rest : Text) (et : Template)
    → IsTemplate et
    → decode env (special b rest) et ≡ some failed
unfolding switch round_of on_idle on_state_section skip starts
decode-special env b rest et v =
    let q = (if b then codes "init" else codes "fini") ++ b';' ∷ rest in
    let text = special b rest in
    let long : leb 7 (length text) ≡ true = ground arith in
    decode-Ends env text et failed v (
      step
        (round-switch env Mode.start b's' (codes "tates{" ++ q) text clean et refl refl
            (omega arith)
          ∙ rw (on_idle, long) refl)
        (step (round-switch env Mode.state_section b'{' q text clean et refl refl (ground arith))
          (name-refused env rest text et b)))
