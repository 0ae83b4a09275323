-- ===== src/Engine/Parser/Cases.antt =====
-- Each case of the `switch` of `_decode_buffer` brings the parser nearer to its end.
use esma.Base.{
  ℕ, ◌≤◌, ◌<◌, ◌≡◌, refl, ap, Bool, true, false, ◌&&◌, ◌||◌, Option, none, some, List, [], ◌∷◌,
  length, length-map, leb, ◌==◌, ◌⊎◌, arith, Option-cases, inl, inr,
}
use esma.Engine.Types.{Name, Template, StateTemplate}
use esma.Engine.Load.{codes, find_name}
use esma.Engine.Load.Slots.{get_elem?-lt}
use esma.Engine.Load.Correct.{find_name-get_elem?}
use esma.Engine.Parser.Text.{Text, peek, is_word, starts, skip, span}
use esma.Engine.Parser.Terms.{Surroundings, Internal, Result, ok, refused, fault, new_state}
use esma.Engine.Parser.Modes.{
  Mode, Parser, expect, names, or_else, on_idle, forward, on_state_section, on_state_section_enter,
  added_state, on_state_name_enter, on_trans_section_enter, known, on_trans_state_src,
  on_trans_state_row, on_trans_state_dst,
}
use esma.Engine.Parser.Lengths.{length-skip, length-span, peek-eq_pos, starts-le}
use esma.Engine.Parser.Built.{Below, Below-le, Extends, Ok, Ok-if, new_state-Extends}
use esma.Engine.Parser.Moves.{is_channel, rank, Good, Nearer, advance, turn}

and-starts : (b : Bool) (w : List ℕ) (p : Text) → (b && starts w p) ≡ true → length w ≤ length p
and-starts true w p h = starts-le w p h
and-starts false w p h = cc

find_name-lt : (name : Name) (ns : List Name) (k : ℕ) → find_name name ns ≡ some k → k < length ns
find_name-lt name ns k h = get_elem?-lt ns k (find_name-get_elem? name ns k h)

module _ (n : ℕ) (x : Parser) (g : Good n x) where
  -- From `m` to `m'` behind some characters that are there.
  pub over :
      (m m' : Mode) (k : ℕ)
      → is_channel m ≡ false
      → is_channel m' ≡ false
      → rank m' ≤ 2
      → 0 < k
      → 0 < length x.p
      → Nearer n m x.p x.s (record x { mode = m'; p = skip k x.p })
  over m m' k a b r pos h =
      advance n x g m (record x { mode = m'; p = skip k x.p }) a b r g.template g.target
        (omega (arith, length-skip k x.p)) g.s_in

  pub expect-Nearer :
      (m m' : Mode) (c : ℕ)
      → is_channel m ≡ false
      → is_channel m' ≡ false
      → rank m' ≤ 2
      → 0 < c
      → Ok (Nearer n m x.p x.s) (expect x c m')
  expect-Nearer m m' c a b r pos =
      Ok-if (Nearer n m x.p x.s) (peek x.p == c) _ refused
        (λ e. over m m' 1 a b r (omega arith) (peek-eq_pos c x.p pos e)) (λ _. tt)

  pub on_idle-Nearer : (m : Mode) → is_channel m ≡ false → Ok (Nearer n m x.p x.s) (on_idle x)
  unfolding on_idle is_channel rank
  on_idle-Nearer m a =
      Ok-if (Nearer n m x.p x.s) (leb 7 (length x.p) && starts (codes "states") x.p) _ _
        (λ e.
          over m Mode.state_section 6 a refl (omega arith) (omega arith)
            (omega (arith, and-starts (leb 7 (length x.p)) (codes "states") x.p e)))
        (λ _.
          Ok-if (Nearer n m x.p x.s) (leb 6 (length x.p) && starts (codes "trans") x.p) _ refused
            (λ e.
              over m Mode.trans_section 5 a refl (omega arith) (omega arith)
                (omega (arith, and-starts (leb 6 (length x.p)) (codes "trans") x.p e)))
            (λ _. tt))

  forward-Nearer :
      (m : Mode) (p : Text)
      → is_channel m ≡ false
      → is_channel x.mode ≡ false
      → rank x.mode ≤ 2
      → p ≡ x.p
      → Ok (Nearer n m x.p x.s) (forward x p)
  unfolding forward
  forward-Nearer m [] a b r e = tt
  forward-Nearer m (c ∷ cs) a b r e =
      advance n x g m (record x { p = cs }) a b r g.template g.target (omega (arith, ap length e))
        g.s_in

  pub on_state_section-Nearer :
      x.mode ≡ Mode.state_section → Ok (Nearer n Mode.state_section x.p x.s) (on_state_section x)
  unfolding on_state_section is_channel rank
  on_state_section-Nearer e =
      Ok-if (Nearer n Mode.state_section x.p x.s) (peek x.p == b'{') _ (forward x x.p)
        (λ h.
          over Mode.state_section Mode.state_section_enter 1 refl refl (omega arith) (omega arith)
            (peek-eq_pos b'{' x.p (omega arith) h))
        (λ _.
          forward-Nearer Mode.state_section x.p refl (ap is_channel e) (omega (arith, ap rank e))
            refl)

  -- The mode changes and nothing else.
  stay :
      (m m' : Mode)
      → is_channel m ≡ false
      → is_channel m' ≡ false
      → rank m' < rank m
      → Nearer n m x.p x.s (record x { mode = m' })
  stay m m' a b r =
      turn n x g m (record x { mode = m' }) a b r g.template g.target (omega arith) g.s_in

  pub on_state_section_enter-Nearer :
      Ok (Nearer n Mode.state_section_enter x.p x.s) (on_state_section_enter x)
  unfolding on_state_section_enter is_channel rank
  on_state_section_enter-Nearer =
      let m = Mode.state_section_enter in
      Ok-if (Nearer n m x.p x.s) (peek x.p == b'}') _ _
        (λ h.
          over m Mode.state_section_leave 1 refl refl (omega arith) (omega arith)
            (peek-eq_pos b'}' x.p (omega arith) h))
        (λ _.
          Ok-if (Nearer n m x.p x.s) (peek x.p == b';') _ _
            (λ h.
              over m m 1 refl refl (omega arith) (omega arith)
                (peek-eq_pos b';' x.p (omega arith) h))
            (λ _.
              Ok-if (Nearer n m x.p x.s) (is_word (peek x.p)) _ refused
                (λ _. stay m Mode.state_name_enter refl refl (omega arith)) (λ _. tt)))

  pub on_trans_section_enter-Nearer :
      Ok (Nearer n Mode.trans_section_enter x.p x.s) (on_trans_section_enter x)
  unfolding on_trans_section_enter is_channel rank
  on_trans_section_enter-Nearer =
      let m = Mode.trans_section_enter in
      Ok-if (Nearer n m x.p x.s) (peek x.p == b'}') _ _
        (λ h.
          over m Mode.trans_section_leave 1 refl refl (omega arith) (omega arith)
            (peek-eq_pos b'}' x.p (omega arith) h))
        (λ _.
          Ok-if (Nearer n m x.p x.s) (is_word (peek x.p)) _ refused
            (λ _. stay m Mode.trans_state_src refl refl (omega arith)) (λ _. tt))

  -- Behind what a scan passes over.
  pub scanned : (test : ℕ → Bool) → length (span test x.p).1 ≤ n
  scanned test = omega (arith, length-span test x.p, g.p_in)

  added_state-Nearer :
      (rest : Text) (r : Result Template)
      → length rest ≤ length x.p
      → Ok (Extends x.et) r
      → Ok (Nearer n Mode.state_name_enter x.p x.s) (added_state x rest r)
  unfolding added_state is_channel rank
  added_state-Nearer rest (ok et) h v =
      turn n x g Mode.state_name_enter
        (record x { mode = Mode.state_name_leave; p = rest; s = rest; et = et }) refl refl
        (omega arith) v.valid (Below-le x.eti.est_dst v.more g.target) h (omega (arith, g.p_in))
  added_state-Nearer rest refused h v = tt
  added_state-Nearer rest fault h v = tt

  pub on_state_name_enter-Nearer :
      (env : Surroundings) → Ok (Nearer n Mode.state_name_enter x.p x.s) (on_state_name_enter env x)
  unfolding on_state_name_enter is_channel rank
  on_state_name_enter-Nearer env =
      let m = Mode.state_name_enter in
      let name = (span is_word x.p).0 in
      let rest = (span is_word x.p).1 in
      Ok-if (Nearer n m x.p x.s) (peek x.p == b'}') _ _
        (λ h.
          Ok-if (Nearer n m x.p x.s) (length x.et.states == 2) refused _ (λ _. tt)
            (λ _.
              over m Mode.state_section_leave 1 refl refl (omega arith) (omega arith)
                (peek-eq_pos b'}' x.p (omega arith) h)))
        (λ _.
          Ok-if (Nearer n m x.p x.s)
            ((length name == 4) && (starts (codes "init") x.p || starts (codes "fini") x.p)) _ _
            (λ _.
              turn n x g m (record x { mode = Mode.state_name_leave; s = rest }) refl refl
                (omega arith) g.template g.target (omega arith) (scanned is_word))
            (λ _.
              added_state-Nearer rest (new_state env x.et name)
                (omega (arith, length-span is_word x.p))
                (new_state-Extends env x.et name g.template)))

  known-Nearer :
      (m m' : Mode) (rest : Text) (o : Option ℕ) (eti : Internal)
      → is_channel m ≡ false
      → is_channel m' ≡ false
      → rank m' ≤ 2
      → (rank m' < rank m) ⊎ (length rest < length x.p)
      → length rest ≤ length x.p
      → Below (length x.et.states) eti.est_dst
      → Ok (Nearer n m x.p x.s) (known x m' rest o eti)
  unfolding known
  known-Nearer m m' rest none eti a b r d h t = tt
  known-Nearer m m' rest (some k) eti a b r (inl d) h t =
      turn n x g m (record x { mode = m'; p = rest; s = rest; eti = eti }) a b d g.template t h
        (omega (arith, g.p_in))
  known-Nearer m m' rest (some k) eti a b r (inr d) h t =
      advance n x g m (record x { mode = m'; p = rest; s = rest; eti = eti }) a b r g.template t d
        (omega (arith, g.p_in))

  pub on_trans_state_src-Nearer : Ok (Nearer n Mode.trans_state_src x.p x.s) (on_trans_state_src x)
  unfolding on_trans_state_src is_channel rank
  on_trans_state_src-Nearer =
      let name = (span is_word x.p).0 in
      let rest = (span is_word x.p).1 in
      let src = or_else (find_name name (names x.et)) x.eti.est_src in
      known-Nearer Mode.trans_state_src Mode.trans_state_row rest src
        (record (x.eti) { est_src = src }) refl refl (omega arith) (inl (omega arith))
        (omega (arith, length-span is_word x.p)) g.target

  pub on_trans_state_row-Nearer : Ok (Nearer n Mode.trans_state_row x.p x.s) (on_trans_state_row x)
  unfolding on_trans_state_row is_channel rank
  on_trans_state_row-Nearer =
      Ok-if (Nearer n Mode.trans_state_row x.p x.s) (starts (codes "->") x.p) _ refused
        (λ h.
          over Mode.trans_state_row Mode.trans_state_dst 2 refl refl (omega arith) (omega arith)
            (omega (arith, starts-le (codes "->") x.p h)))
        (λ _. tt)

  -- The found target is a state of the template, or was one before.
  found-Below :
      (name : List ℕ)
      → Below (length x.et.states) (or_else (find_name name (names x.et)) x.eti.est_dst)
  found-Below name = elim (Option-cases (find_name name (names x.et))) [
    | inl e ↦ rw e g.target
    | inr (k, e) ↦ rw e (
        omega (
          arith,
          find_name-lt name (names x.et) k e,
          length-map (λ (st : StateTemplate). st.name) x.et.states,
        ))
  ]

  pub on_trans_state_dst-Nearer : Ok (Nearer n Mode.trans_state_dst x.p x.s) (on_trans_state_dst x)
  unfolding on_trans_state_dst is_channel rank
  on_trans_state_dst-Nearer =
      let m = Mode.trans_state_dst in
      let m' = Mode.trans_state_dst_colon in
      let name = (span is_word x.p).0 in
      let rest = (span is_word x.p).1 in
      let dst = or_else (find_name name (names x.et)) x.eti.est_dst in
      let len = length-span is_word x.p in
      Ok-if (Nearer n m x.p x.s) ((length name == 4) && starts (codes "self") x.p) _ _
        (λ h.
          advance n x g m
            (record x { mode = m'; p = rest; s = rest; eti = record (x.eti) { est_dst = none } })
            refl refl (omega arith) g.template tt (ground (arith, len)) (scanned is_word))
        (λ _.
          Ok-if (Nearer n m x.p x.s) (length name == 0) refused _ (λ _. tt)
            (λ h.
              known-Nearer m m' rest dst (record (x.eti) { est_dst = dst }) refl refl (omega arith)
                (inr (ground (arith, len))) (omega (arith, len)) (found-Below name)))
