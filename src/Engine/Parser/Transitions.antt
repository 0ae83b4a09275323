-- ===== src/Engine/Parser/Transitions.antt =====
-- The rounds of the parser at a printed transition.
use esma.Base.{
  ℕ, ◌^◌, ◌<◌, ◌≡◌, refl, ap, ◌∙◌, true, false, Option, none, some, List, [], ◌∷◌, ◌++◌, length,
  length-append, ◌==◌, arith,
}
use esma.Engine.Types.{Name, Template, StateTemplate, ch_none}
use esma.Engine.Load.{codes, decimal, find_name}
use esma.Engine.Load.Correct.{find_name-get_elem?}
use esma.Engine.Parser.Text.{Text, peek, is_word, starts, skip, span}
use esma.Engine.Parser.Terms.{
  Surroundings, Internal, clean, Result, ok, counted, with_trans, push_trans, push_from, new_trans,
}
use esma.Engine.Parser.Modes.{
  Mode, names, on_trans_section_enter, known, on_trans_state_src, on_trans_state_row,
  on_trans_state_dst,
}
use esma.Engine.Parser.Options.{on_trans_code, added_trans, on_trans_semicolon, switch}
use esma.Engine.Parser.Decode.{Round, round_of, again, decode_round}
use esma.Engine.Parser.Runs.{Ends, step, parser_at, round-switch}
use esma.Engine.Parser.Printed.{AllWord, is_word-NoMark, span-word}
use esma.Engine.Parser.Arrows.{
  Arrow, dst_text, print_arrow, IsTarget, IsArrow, target_of, gains, with_arrow, set-modify,
  names-state, decimal-AllWord, decimal-pos, not_self,
}

peek-word :
    (name rest : Text) → AllWord name → 0 < length name → is_word (peek (name ++ rest)) ≡ true
peek-word [] rest w h = absurd (omega arith)
peek-word (c ∷ name) rest w h = w.0

not_nil : (name : Name) → 0 < length name → (length name == 0) ≡ false
not_nil name h = ground arith

module _ (env : Surroundings) where
  -- At a word, with something behind it.
  round-word :
      (m : Mode) (name : Text) (d : ℕ) (rest s : Text) (eti : Internal) (et : Template)
      → AllWord name
      → 0 < length name
      → decode_round env (parser_at m (name ++ d ∷ rest) s eti et)
        ≡ round_of (switch env m (parser_at m (name ++ d ∷ rest) s eti et))
  round-word m [] d rest s eti et w h = absurd (omega arith)
  round-word m (c ∷ name) d rest s eti et w h =
      let mark = is_word-NoMark c w.0 in
      round-switch env m c (name ++ d ∷ rest) s eti et mark.blank mark.comment
        (omega (arith, length-append name (d ∷ rest)))

  round_enter :
      (name : Text) (d : ℕ) (rest s : Text) (eti : Internal) (et : Template)
      → AllWord name
      → 0 < length name
      → decode_round env (parser_at Mode.trans_section_enter (name ++ d ∷ rest) s eti et)
        ≡ again (parser_at Mode.trans_state_src (name ++ d ∷ rest) s eti et)
  unfolding switch round_of on_trans_section_enter
  round_enter name d rest s eti et w h =
      let word = peek-word name (d ∷ rest) w h in
      let mark = is_word-NoMark (peek (name ++ d ∷ rest)) word in
      round-word Mode.trans_section_enter name d rest s eti et w h
      ∙ rw (on_trans_section_enter, mark.brace, word) refl

  round_src :
      (name rest s : Text) (et : Template) (k : ℕ)
      → AllWord name
      → 0 < length name
      → find_name name (names et) ≡ some k
      → decode_round env (parser_at Mode.trans_state_src (name ++ b'-' ∷ rest) s clean et)
        ≡ again (
            parser_at Mode.trans_state_row
              (b'-' ∷ rest)
              (b'-' ∷ rest)
              (record clean { est_src = some k })
              et)
  unfolding switch round_of on_trans_state_src known
  round_src name rest s et k w h e =
      round-word Mode.trans_state_src name b'-' rest s clean et w h
      ∙ rw (on_trans_state_src, span-word name b'-' rest w refl, e) refl

  round_row :
      (rest s : Text) (eti : Internal) (et : Template)
      → decode_round env (parser_at Mode.trans_state_row (b'-' ∷ b'>' ∷ rest) s eti et)
        ≡ again (parser_at Mode.trans_state_dst rest s eti et)
  unfolding switch round_of on_trans_state_row starts skip
  round_row rest s eti et =
      round-switch env Mode.trans_state_row b'-' (b'>' ∷ rest) s eti et refl refl (omega arith)

  round_dst :
      (dst : Option Name) (rest s : Text) (eti : Internal) (et : Template)
      → IsTarget (names et) dst
      → decode_round env (parser_at Mode.trans_state_dst (dst_text dst ++ b':' ∷ rest) s eti et)
        ≡ again (
            parser_at Mode.trans_state_dst_colon
              (b':' ∷ rest)
              (b':' ∷ rest)
              (record eti { est_dst = target_of (names et) dst })
              et)
  unfolding switch round_of on_trans_state_dst known starts span
  round_dst none rest s eti et t =
      round-switch env Mode.trans_state_dst b's' (codes "elf" ++ b':' ∷ rest) s eti et refl refl
        (omega arith)
  round_dst (some name) rest s eti et (w, h, n, (k, e')) =
      round-word Mode.trans_state_dst name b':' rest s eti et w h
      ∙ rw
          (
            on_trans_state_dst,
            span-word name b':' rest w refl,
            not_self name (b':' ∷ rest) n,
            not_nil name h,
            e',
          )
          refl

  round_colon :
      (rest s : Text) (eti : Internal) (et : Template)
      → 0 < length rest
      → decode_round env (parser_at Mode.trans_state_dst_colon (b':' ∷ rest) s eti et)
        ≡ again (parser_at Mode.trans_code rest s eti et)
  unfolding switch round_of skip
  round_colon rest s eti et h =
      round-switch env Mode.trans_state_dst_colon b':' rest s eti et refl refl h

  round_code :
      (n : ℕ) (rest s : Text) (eti : Internal) (et : Template)
      → env.sscanf [] (decimal n ++ b';' ∷ rest) ≡ some n
      → decode_round env (parser_at Mode.trans_code (decimal n ++ b';' ∷ rest) s eti et)
        ≡ again (
            parser_at Mode.trans_semicolon (b';' ∷ rest) (b';' ∷ rest) (record eti { code = n }) et)
  unfolding switch round_of on_trans_code
  round_code n rest s eti et e =
      round-word Mode.trans_code (decimal n) b';' rest s eti et (decimal-AllWord n) (decimal-pos n)
      ∙ rw (on_trans_code, e, span-word (decimal n) b';' rest (decimal-AllWord n) refl) refl

  new_trans-modify :
      (et : Template) (a : Arrow) (k : ℕ)
      → find_name a.src (names et) ≡ some k
      → ((i j : ℕ) → env.room i j ≡ true)
      → new_trans env
          (record {
            code = a.code;
            flags = 0;
            ch_type = ch_none;
            ch_data = 0;
            est_src = some k;
            est_dst = target_of (names et) a.dst;
          })
          et
        ≡ ok (with_arrow et a)
  unfolding new_trans push_from push_trans with_trans counted with_arrow
  new_trans-modify et a k e room =
      let (st, g) = names-state et.states k a.src (find_name-get_elem? a.src (names et) k e) in
      rw (push_from, g, room k (length st.trans), e)
        (ap (λ (ss : List StateTemplate). ok (record et { states = ss }))
          (set-modify (gains (names et) a) et.states k st g))

  round_semicolon :
      (rest s : Text) (et : Template) (a : Arrow) (k : ℕ)
      → 0 < length rest
      → find_name a.src (names et) ≡ some k
      → ((i j : ℕ) → env.room i j ≡ true)
      → decode_round env (
          parser_at Mode.trans_semicolon
            (b';' ∷ rest)
            s
            (record {
              code = a.code;
              flags = 0;
              ch_type = ch_none;
              ch_data = 0;
              est_src = some k;
              est_dst = target_of (names et) a.dst;
            })
            et)
        ≡ again (parser_at Mode.trans_section_enter rest s clean (with_arrow et a))
  unfolding switch round_of on_trans_semicolon added_trans skip
  round_semicolon rest s et a k h e room =
      let eti : Internal = record {
        code = a.code;
        flags = 0;
        ch_type = ch_none;
        ch_data = 0;
        est_src = some k;
        est_dst = target_of (names et) a.dst;
      } in
      let x = parser_at Mode.trans_semicolon (b';' ∷ rest) s eti et in
      round-switch env Mode.trans_semicolon b';' rest s eti et refl refl h
      ∙ ap (λ (r : Result Template). round_of (added_trans x r)) (new_trans-modify et a k e room)

  -- The rounds at one transition: it is added, and what was read of it is cleaned.
  pub arrow-Ends :
      (a : Arrow) (rest s : Text) (et : Template) (r : Round)
      → 0 < length rest
      → IsArrow (names et) a
      → ((i j : ℕ) → env.room i j ≡ true)
      → ((n : ℕ) (q : Text) → n < 2 ^ 31 → env.sscanf [] (decimal n ++ b';' ∷ q) ≡ some n)
      → ((s' : Text)
          → Ends env (parser_at Mode.trans_section_enter rest s' clean (with_arrow et a)) r)
      → Ends env (parser_at Mode.trans_section_enter (print_arrow a rest) s clean et) r
  unfolding print_arrow
  arrow-Ends a rest s et r pos h room scan k =
      let (i, e) = h.source in
      let at_code = decimal a.code ++ b';' ∷ rest in
      let at_colon = b':' ∷ at_code in
      let at_dst = dst_text a.dst ++ at_colon in
      let at_row = b'-' ∷ b'>' ∷ at_dst in
      let eti : Internal = record clean { est_src = some i } in
      let eti' : Internal = record eti { est_dst = target_of (names et) a.dst } in
      step (round_enter a.src b'-' (b'>' ∷ at_dst) s clean et h.words h.some_char) (
        step (round_src a.src (b'>' ∷ at_dst) s et i h.words h.some_char e) (
          step (round_row at_dst at_row eti et) (
            step (round_dst a.dst at_code at_row eti et h.target) (
              step
                (round_colon at_code at_colon eti' et
                  (omega (arith, length-append (decimal a.code) (b';' ∷ rest))))
                (step
                  (round_code a.code rest at_colon eti' et
                    (scan a.code rest (omega (arith, h.small))))
                  (step (round_semicolon rest (b';' ∷ rest) et a i pos e room)
                    (k (b';' ∷ rest))))))))
