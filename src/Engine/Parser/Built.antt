-- ===== src/Engine/Parser/Built.antt =====
-- What the parser keeps of the template that it builds.
use esma.Base.{
  ℕ, zero, suc, ◌≤◌, ◌<◌, ◌≡◌, refl, sym, subst, Bool, true, false, Option, none, some, List, [],
  ◌∷◌, ◌++◌, length, length-append, length-set, get_elem?, set, leb, arith, if◌then◌else◌,
  Option-cases, inl, inr,
}
use esma.Engine.Types.{Template, StateTemplate, TransTemplate, ch_none, ch_tick, ch_data, ch_sign}
use esma.Engine.Parser.Terms.{
  Surroundings, Internal, Result, ok, refused, fault, named, place_state, new_state, larger,
  counted, trans_of, with_trans, push_trans, push_from, new_trans,
}

abbrev pub Below : ℕ → Option ℕ → Type 0
Below n none = Unit
Below n (some k) = k < n

-- A transition of a template of `n` states: its target is one of them, and the state's counts of
-- codes cover its code.
pub record TransFits (n : ℕ) (st : StateTemplate) (t : TransTemplate) : Type 0 where
  pub target : Below n t.next_state
  pub own : t.ch_type ≡ ch_none → t.action_code ≤ st.max_code
  pub tick : t.ch_type ≡ ch_tick → t.action_code ≤ st.max_tick_code
  pub io : t.ch_type ≡ ch_data → t.action_code ≤ st.max_data_code
  pub sign : t.ch_type ≡ ch_sign → t.action_code ≤ st.max_sign_code

abbrev pub AllTrans : ℕ → StateTemplate → List TransTemplate → Type 0
AllTrans n st [] = Unit
AllTrans n st (t ∷ ts) = TransFits n st t × AllTrans n st ts

abbrev pub AllStates : ℕ → List StateTemplate → Type 0
AllStates n [] = Unit
AllStates n (st ∷ ss) = AllTrans n st st.trans × AllStates n ss

abbrev pub IsTemplate : Template → Type 0
IsTemplate et = AllStates (length et.states) et.states

pub Below-le : {n m : ℕ} (o : Option ℕ) → n ≤ m → Below n o → Below m o
Below-le none h b = tt
Below-le (some k) h b = omega arith

record Grows (st st' : StateTemplate) : Type 0 where
  own : st.max_code ≤ st'.max_code
  tick : st.max_tick_code ≤ st'.max_tick_code
  io : st.max_data_code ≤ st'.max_data_code
  sign : st.max_sign_code ≤ st'.max_sign_code

AllTrans-Grows :
    {n m : ℕ} {st st' : StateTemplate} (ts : List TransTemplate)
    → n ≤ m
    → Grows st st'
    → AllTrans n st ts
    → AllTrans m st' ts
AllTrans-Grows [] h g a = tt
AllTrans-Grows (t ∷ ts) h g (f, a) = (
  record {
    target = Below-le t.next_state h f.target;
    own = λ e. omega (arith, f.own e, g.own);
    tick = λ e. omega (arith, f.tick e, g.tick);
    io = λ e. omega (arith, f.io e, g.io);
    sign = λ e. omega (arith, f.sign e, g.sign);
  },
  AllTrans-Grows ts h g a,
)

Grows-refl : (st : StateTemplate) → Grows st st
Grows-refl st = record {
  own = omega arith;
  tick = omega arith;
  io = omega arith;
  sign = omega arith;
}

AllTrans-snoc :
    {n : ℕ} {st : StateTemplate} (ts : List TransTemplate) (t : TransTemplate)
    → AllTrans n st ts
    → TransFits n st t
    → AllTrans n st (ts ++ t ∷ [])
AllTrans-snoc [] t a f = (f, tt)
AllTrans-snoc (u ∷ ts) t (g, a) f = (g, AllTrans-snoc ts t a f)

AllStates-le : {n m : ℕ} (ss : List StateTemplate) → n ≤ m → AllStates n ss → AllStates m ss
AllStates-le [] h a = tt
AllStates-le (st ∷ ss) h (f, a) = (AllTrans-Grows st.trans h (Grows-refl st) f, AllStates-le ss h a)

AllStates-snoc :
    (n : ℕ) (ss : List StateTemplate) (st : StateTemplate)
    → AllStates n ss
    → AllTrans n st st.trans
    → AllStates n (ss ++ st ∷ [])
AllStates-snoc n [] st a f = (f, tt)
AllStates-snoc n (s ∷ ss) st (g, a) f = (g, AllStates-snoc n ss st a f)

AllStates-set :
    (n : ℕ) (ss : List StateTemplate) (k : ℕ) (st : StateTemplate)
    → AllStates n ss
    → AllTrans n st st.trans
    → AllStates n (set ss k st)
AllStates-set n [] k st a f = tt
AllStates-set n (s ∷ ss) zero st (g, a) f = (f, a)
AllStates-set n (s ∷ ss) (suc k) st (g, a) f = (g, AllStates-set n ss k st a f)

eq_of_some : {A : Type 0} {a b : A} → some a ≡ some b → a ≡ b
eq_of_some h = cc

AllStates-get :
    (n : ℕ) (ss : List StateTemplate) (k : ℕ) (st : StateTemplate)
    → AllStates n ss
    → get_elem? ss k ≡ some st
    → AllTrans n st st.trans
AllStates-get n [] k st a e = cc
AllStates-get n (s ∷ ss) zero st (g, a) e = subst (λ q. AllTrans n q q.trans) (eq_of_some e) g
AllStates-get n (s ∷ ss) (suc k) st (g, a) e = AllStates-get n ss k st a e

-- What a result must be if it is one.
abbrev pub Ok : {A : Type 0} → (A → Type 0) → Result A → Type 0
Ok P (ok a) = P a
Ok P refused = Unit
Ok P fault = Unit

pub Ok-if :
    {A : Type 0} (P : A → Type 0) (b : Bool) (r s : Result A)
    → (b ≡ true → Ok P r)
    → (b ≡ false → Ok P s)
    → Ok P (if b then r else s)
Ok-if P true r s h k = h refl
Ok-if P false r s h k = k refl

larger-ge : (a b : ℕ) → (a ≤ larger a b) × (b ≤ larger a b)
larger-ge a b = (ground arith, ground arith)

-- `counted` on each of the channel types
counted-Grows : (eti : Internal) (st : StateTemplate) → Grows st (counted eti st)
unfolding counted
counted-Grows eti st = record {
  own = ground arith;
  tick = ground arith;
  io = ground arith;
  sign = ground arith;
}

counted-Fits :
    (n : ℕ) (eti : Internal) (st : StateTemplate)
    → Below n eti.est_dst
    → TransFits n (counted eti st) (trans_of eti)
unfolding counted
counted-Fits n eti st b = record {
  target = b;
  own = λ e. ground arith;
  tick = λ e. ground arith;
  io = λ e. ground arith;
  sign = λ e. ground arith;
}

with_trans-AllTrans :
    (n : ℕ) (eti : Internal) (st : StateTemplate)
    → Below n eti.est_dst
    → AllTrans n st st.trans
    → AllTrans n (with_trans eti st) (with_trans eti st).trans
unfolding with_trans
with_trans-AllTrans n eti st b a =
    AllTrans-Grows (st.trans ++ trans_of eti ∷ []) (omega arith) (kept eti st) (
      AllTrans-snoc st.trans (trans_of eti)
        (AllTrans-Grows st.trans (omega arith) (counted-Grows eti st) a) (counted-Fits n eti st b))
  where
    kept :
        (eti : Internal) (st : StateTemplate)
        → Grows (counted eti st) (record (counted eti st) { trans = st.trans ++ trans_of eti ∷ [] })
    kept eti st = record {
      own = omega arith;
      tick = omega arith;
      io = omega arith;
      sign = omega arith;
    }

named-AllTrans :
    (n : ℕ) (name : List ℕ) (old : StateTemplate)
    → AllTrans n (named name old) (named name old).trans
unfolding named
named-AllTrans n name old = tt

-- The template is still one, and has the states that it had.
pub record Extends (et et' : Template) : Type 0 where
  pub valid : IsTemplate et'
  pub more : length et.states ≤ length et'.states

module _ (env : Surroundings) where
  place_state-Extends :
      (et : Template) (name : List ℕ) (old : Option StateTemplate)
      → IsTemplate et
      → Ok (Extends et) (place_state env et name old)
  unfolding place_state
  place_state-Extends et name none v = tt
  place_state-Extends et name (some old) v =
      let n = length et.states in
      let st = named name old in
      let n' = length-append et.states (st ∷ []) in
      let done =
        Ok-if (Extends et) (env.calloc n) (ok (record et { states = et.states ++ st ∷ [] })) refused
          (λ _. record {
            valid =
                AllStates-snoc (length (et.states ++ st ∷ [])) et.states st
                  (AllStates-le et.states (omega (arith, n')) v)
                  (named-AllTrans (length (et.states ++ st ∷ [])) name old);
            more = omega (arith, n');
          })
          (λ _. tt) in
      Ok-if (Extends et) (leb 64 (length name)) fault _ (λ _. tt) (λ _. done)

  pub new_state-Extends :
      (et : Template) (name : List ℕ) → IsTemplate et → Ok (Extends et) (new_state env et name)
  unfolding new_state
  new_state-Extends et name v = place_state-Extends et name (env.fresh (length et.states)) v

  pub push_trans-Extends :
      (eti : Internal) (et : Template) (k : ℕ) (st : StateTemplate)
      → IsTemplate et
      → Below (length et.states) eti.est_dst
      → get_elem? et.states k ≡ some st
      → Ok (Extends et) (push_trans env eti et k st)
  unfolding push_trans
  push_trans-Extends eti et k st v b e =
      let n = length et.states in
      let same : length (set et.states k (with_trans eti st)) ≡ n =
        length-set et.states k (with_trans eti st) in
      Ok-if (Extends et) (env.room k (length st.trans)) _ refused
        (λ _. record {
          valid =
              subst (λ m. AllStates m (set et.states k (with_trans eti st))) (sym same)
                (AllStates-set n et.states k (with_trans eti st) v
                  (with_trans-AllTrans n eti st b (AllStates-get n et.states k st v e)));
          more = omega arith;
        })
        (λ _. tt)

  push_from-Extends :
      (eti : Internal) (et : Template) (src : Option ℕ)
      → IsTemplate et
      → Below (length et.states) eti.est_dst
      → Ok (Extends et) (push_from env eti et src)
  unfolding push_from
  push_from-Extends eti et none v b = tt
  push_from-Extends eti et (some k) v b = elim (Option-cases (get_elem? et.states k)) [
    | inl e ↦ rw (push_from, e) tt
    | inr (st, e) ↦ rw (push_from, e) (push_trans-Extends eti et k st v b e)
  ]

  pub new_trans-Extends :
      (eti : Internal) (et : Template)
      → IsTemplate et
      → Below (length et.states) eti.est_dst
      → Ok (Extends et) (new_trans env eti et)
  unfolding new_trans
  new_trans-Extends eti et v b = push_from-Extends eti et eti.est_src v b
