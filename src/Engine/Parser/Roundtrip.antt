-- ===== src/Engine/Parser/Roundtrip.antt =====
-- A printed template is read back.
use esma.Base.{
  ◌+◌, ◌≤◌, get_elem?, ℕ, ◌^◌, ◌<◌, ◌≡◌, refl, sym, subst, ◌∙◌, true, some, List, [], ◌∷◌, ◌++◌,
  length, length-append, leb, arith,
}
use esma.Engine.Types.{Name, StateTemplate, Template}
use esma.Engine.Load.{codes, decimal}
use esma.Engine.Parser.Text.{Text, starts, skip}
use esma.Engine.Parser.Terms.{Surroundings, clean, zero_state}
use esma.Engine.Parser.Modes.{Mode, names, on_idle, on_trans_section_enter}
use esma.Engine.Parser.Options.{switch}
use esma.Engine.Parser.Decode.{Round, round_of, ended, decode_round, continue, decode}
use esma.Engine.Parser.Built.{IsTemplate}
use esma.Engine.Parser.Runs.{Ends, stop, step, parser_at, round-switch, decode-Ends}
use esma.Engine.Parser.Printed.{with_states, AllNames, print_states}
use esma.Engine.Parser.Sections.{states-Ends}
use esma.Engine.Parser.Arrows.{
  Arrow, print_arrow, print_arrows, AllArrows, with_arrow, with_arrows, with_arrow-names,
}
use esma.Engine.Parser.Transitions.{arrow-Ends}

unfoldable pub print_trans : List Arrow → Text → Text
unfolding print_arrows
print_trans arrows rest = codes "trans{" ++ print_arrows arrows (b'}' ∷ b';' ∷ rest)

-- What the C library and the memory do: `%d` reads back what it printed, and memory is there; the ten
-- states of a new array are zero (esma_array_init calls calloc).
pub record Serves (env : Surroundings) : Type 0 where
  pub fresh : (i : ℕ) → i < 10 → env.fresh i ≡ some zero_state
  pub memory : (i : ℕ) → env.calloc i ≡ true
  pub room : (i j : ℕ) → env.room i j ≡ true
  pub scan : (n : ℕ) (rest : Text) → n < 2 ^ 31 → env.sscanf [] (decimal n ++ b';' ∷ rest) ≡ some n

-- Each state has room for so many more transitions, in an array whose size in bytes is no more than a u32.
abbrev pub Spare : Template → ℕ → Type 0
Spare et n =
    (k : ℕ) (st : StateTemplate) → get_elem? et.states k ≡ some st → length st.trans + n < 2 ^ 20

print_arrows-pos :
    (arrows : List Arrow) (rest : Text) → 0 < length rest → 0 < length (print_arrows arrows rest)
unfolding print_arrows print_arrow
print_arrows-pos [] rest h = h
print_arrows-pos (a ∷ arrows) rest h = omega (arith, length-append {0})

module _ (env : Surroundings) (serves : Serves env) where
  arrows-Ends :
      (arrows : List Arrow) (tail s : Text) (et : Template) (r : Round)
      → AllArrows (names et) arrows
      → ((s' : Text)
          → Ends env
              (parser_at Mode.trans_section_leave (b';' ∷ tail) s' clean (with_arrows et arrows))
              r)
      → Ends env
          (parser_at Mode.trans_section_enter (print_arrows arrows (b'}' ∷ b';' ∷ tail)) s clean et)
          r
  unfolding print_arrows with_arrows switch round_of on_trans_section_enter skip
  arrows-Ends [] tail s et r h k =
      step
        (round-switch env Mode.trans_section_enter b'}' (b';' ∷ tail) s clean et refl refl
          (omega arith))
        (k s)
  arrows-Ends (a ∷ arrows) tail s et r (h, hs) k =
      arrow-Ends env a (print_arrows arrows (b'}' ∷ b';' ∷ tail)) s et r
        (print_arrows-pos arrows (b'}' ∷ b';' ∷ tail) (omega arith)) h serves.room serves.scan
        (λ s'.
          arrows-Ends arrows tail s' (with_arrow et a) r
            (subst (λ (ns : List Name). AllArrows ns arrows) (sym (with_arrow-names et a)) hs) k)

  trans-Ends :
      (arrows : List Arrow) (tail s : Text) (et : Template) (r : Round)
      → AllArrows (names et) arrows
      → ((s' : Text)
          → Ends env
              (parser_at Mode.trans_section_leave (b';' ∷ tail) s' clean (with_arrows et arrows))
              r)
      → Ends env (parser_at Mode.idle (print_trans arrows tail) s clean et) r
  unfolding print_trans round_of on_idle switch skip starts
  trans-Ends arrows tail s et r h k =
      let entries = print_arrows arrows (b'}' ∷ b';' ∷ tail) in
      let pos = print_arrows-pos arrows (b'}' ∷ b';' ∷ tail) (omega arith) in
      let long : leb 6 (length (codes "trans{" ++ entries)) ≡ true = ground arith in
      let longer : leb 7 (length (codes "trans{" ++ entries)) ≡ true = ground arith in
      step
        (round-switch env Mode.idle b't' (codes "rans{" ++ entries) s clean et refl refl
            (omega arith)
          ∙ rw (on_idle, longer, long) refl)
        (step (round-switch env Mode.trans_section b'{' entries s clean et refl refl pos)
          (arrows-Ends arrows tail s et r h k))

  -- If %d is read back as it was printed, memory is there, and the states are not more than the ten of
  -- a new array, which are zero at first: reading into a template the text that prints a section of
  -- states (of words of less than 64 characters but init and fini) and one of transitions of no
  -- channel (between states that are there then, with codes below 2^20, so few that no state gets
  -- 2^20) builds what it says: a state for each name, in order, and for each transition one more in
  -- the first state of its source's name, to the first of its target's name or to self, with its
  -- code.
  pub decode-print :
      (states : List Name) (arrows : List Arrow) (et : Template)
      → IsTemplate et
      → length et.states + length states ≤ 10
      → Spare et (length arrows)
      → AllNames states
      → AllArrows (names (with_states et states)) arrows
      → decode env (print_states states (print_trans arrows [])) et
        ≡ some (ended (with_arrows (with_states et states) arrows))
  unfolding decode_round on_idle switch continue skip print_trans
  decode-print states arrows et v few spare h hs =
      let rest = print_trans arrows [] in
      let et' = with_states et states in
      let r = ended (with_arrows et' arrows) in
      decode-Ends env (print_states states rest) et r v (
        states-Ends env serves.fresh serves.memory Mode.start states rest (print_states states rest)
          clean et r (λ x. refl) few h
          (λ s.
            step
              (round-switch env Mode.state_section_leave b';' rest s clean et' refl refl
                (omega arith))
              (trans-Ends arrows [] s et' r hs (λ s'. stop refl (λ next. refl)))))
