-- ===== src/Engine/Load/Bound.antt =====
-- Transitions that lead to the first states of a machine, and how the loader stores one.
use esma.Base.{
  ◌⊎◌, ℕ, zero, suc, ◌<◌, ◌≡◌, ap, sym, subst, ◌∙◌, Option, none, some, List, [], ◌∷◌, ◌++◌, length,
  get_elem?, set, replicate, ltb, ◌==◌, Bool-cases, inl, inr, Option-cases,
}
use esma.Engine.Types.{
  Trans, TransArray, State, TransTemplate, push, ch_none, ch_tick, ch_data, ch_sign,
}
use esma.Engine.Load.{
  Slot, own, tick, sign, on_pollin, on_pollout, on_pollerr, write_slot, data_slot, pick_slot,
}
use esma.Engine.Load.Slots.{>>=-eq-some, eq_of_some}

-- The transition leads to none but the first `n` states.
abbrev pub Bound : ℕ → Trans → Type 0
Bound n t = (k : ℕ) → t.next_state ≡ some k → k < n

abbrev pub AllBound : ℕ → List Trans → Type 0
AllBound n [] = Unit
AllBound n (t ∷ ts) = Bound n t × AllBound n ts

pub AllBound-get :
    (n : ℕ) (ts : List Trans) (i : ℕ) (t : Trans)
    → AllBound n ts
    → get_elem? ts i ≡ some t
    → Bound n t
AllBound-get n [] i t a e = cc
AllBound-get n (u ∷ ts) zero t (b, a) e = subst (Bound n) (eq_of_some e) b
AllBound-get n (u ∷ ts) (suc i) t (b, a) e = AllBound-get n ts i t a e

pub AllBound-set :
    (n : ℕ) (ts : List Trans) (i : ℕ) (t : Trans)
    → AllBound n ts
    → Bound n t
    → AllBound n (set ts i t)
AllBound-set n [] i t a b = tt
AllBound-set n (u ∷ ts) zero t (c, a) b = (b, a)
AllBound-set n (u ∷ ts) (suc i) t (c, a) b = (c, AllBound-set n ts i t a b)

pub AllBound-replicate : (n m : ℕ) (t : Trans) → Bound n t → AllBound n (replicate m t)
AllBound-replicate n zero t b = tt
AllBound-replicate n (suc m) t b = (b, AllBound-replicate n m t b)

pub AllBound-append :
    (n : ℕ) (ts us : List Trans) → AllBound n ts → AllBound n us → AllBound n (ts ++ us)
AllBound-append n [] us a b = b
AllBound-append n (t ∷ ts) us (c, a) b = (c, AllBound-append n ts us a b)

pub no_some : {A : Type 0} {x : A} → none ≡ some x → ⊥
no_some q = cc

array_eq : {p q : TransArray × ℕ} → some p ≡ some q → p.0 ≡ q.0
array_eq e = ap (λ (z : TransArray × ℕ). z.0) (eq_of_some e)

pub none_leads : (n : ℕ) (t : Trans) → t.next_state ≡ none → Bound n t
none_leads n t e k h = absurd (no_some (sym e ∙ h))

-- All transitions of the state lead to the first `n` states.
pub record Closed (n : ℕ) (s : State) : Type 0 where
  pub own : AllBound n s.trans.cells
  pub tick : AllBound n s.tick_trans.cells
  pub sign : AllBound n s.sign_trans.cells
  pub on_in : Bound n s.data_pollin
  pub on_out : Bound n s.data_pollout
  pub on_err : Bound n s.data_pollerr

abbrev pub AllClosed : ℕ → List State → Type 0
AllClosed n [] = Unit
AllClosed n (s ∷ ss) = Closed n s × AllClosed n ss

pub write_slot-Closed :
    (n : ℕ) (s : State) (slot : Slot) (t : Trans)
    → Closed n s
    → Bound n t
    → Closed n (write_slot s slot t)
unfolding write_slot
write_slot-Closed n s (own i) t c b = record {
  own = AllBound-set n s.trans.cells i t c.own b;
  tick = c.tick;
  sign = c.sign;
  on_in = c.on_in;
  on_out = c.on_out;
  on_err = c.on_err;
}
write_slot-Closed n s (tick i) t c b = record {
  own = c.own;
  tick = AllBound-set n s.tick_trans.cells i t c.tick b;
  sign = c.sign;
  on_in = c.on_in;
  on_out = c.on_out;
  on_err = c.on_err;
}
write_slot-Closed n s (sign i) t c b = record {
  own = c.own;
  tick = c.tick;
  sign = AllBound-set n s.sign_trans.cells i t c.sign b;
  on_in = c.on_in;
  on_out = c.on_out;
  on_err = c.on_err;
}
write_slot-Closed n s on_pollin t c b = record {
  own = c.own;
  tick = c.tick;
  sign = c.sign;
  on_in = b;
  on_out = c.on_out;
  on_err = c.on_err;
}
write_slot-Closed n s on_pollout t c b = record {
  own = c.own;
  tick = c.tick;
  sign = c.sign;
  on_in = c.on_in;
  on_out = b;
  on_err = c.on_err;
}
write_slot-Closed n s on_pollerr t c b = record {
  own = c.own;
  tick = c.tick;
  sign = c.sign;
  on_in = c.on_in;
  on_out = c.on_out;
  on_err = b;
}

-- What the memory that realloc adds holds, if it gives any.
abbrev pub Clear : Option Trans → Type 0
Clear more = (junk : Trans) → more ≡ some junk → junk.next_state ≡ none

pub push-AllBound :
    (n : ℕ) (a a' : TransArray) (i : ℕ) (more : Option Trans)
    → Clear more
    → AllBound n a.cells
    → push a more ≡ some (a', i)
    → AllBound n a'.cells
unfolding push
push-AllBound n a a' i more clear b e = elim (Bool-cases (ltb a.nitems (length a.cells))) [
  | inl q ↦ subst (λ (x : TransArray). AllBound n x.cells) (array_eq (rw (q, push) at e)) b
  | inr q ↦ elim (Option-cases more) [
    | inl r ↦ absurd (no_some (rw (q, r, push) at e))
    | inr (junk, r) ↦
        subst (λ (x : TransArray). AllBound n x.cells) (array_eq (rw (q, r, push) at e))
          (AllBound-append n a.cells (replicate (length a.cells) junk) b
            (AllBound-replicate n (length a.cells) junk (none_leads n junk (clear junk r))))
  ]
]

state_eq : {p q : State × Slot × List ℕ} → some p ≡ some q → p.0 ≡ q.0
state_eq e = ap (λ (z : State × Slot × List ℕ). z.0) (eq_of_some e)

-- The state with room for a transition.
pick_slot-cases :
    (s s' : State) (t : TransTemplate) (more : Option Trans) (slot : Slot) (w : List ℕ)
    → pick_slot s t more ≡ some (s', slot, w)
    → (s ≡ s')
      ⊎ ((a : TransArray) × (i : ℕ) × (push s.tick_trans more ≡ some (a, i))
          × (record s { tick_trans = a } ≡ s'))
      ⊎ ((a : TransArray) × (i : ℕ) × (push s.sign_trans more ≡ some (a, i))
          × (record s { sign_trans = a } ≡ s'))
unfolding pick_slot
pick_slot-cases s s' t more slot w h = elim (Bool-cases (t.ch_type == ch_none)) [
  | inl e ↦ inl (state_eq (rw (e, pick_slot) at h))
  | inr e ↦ elim (Bool-cases (t.ch_type == ch_tick)) [
    | inl e' ↦
        let ((a, i), pushed, r) =
          >>=-eq-some (push s.tick_trans more) _ (rw (e, e', pick_slot) at h) in
        inr (inl (a, i, pushed, state_eq r))
    | inr e' ↦ elim (Bool-cases (t.ch_type == ch_sign)) [
      | inl e2 ↦
          let ((a, i), pushed, r) =
            >>=-eq-some (push s.sign_trans more) _ (rw (e, e', e2, pick_slot) at h) in
          inr (inr (a, i, pushed, state_eq r))
      | inr e2 ↦ elim (Bool-cases (t.ch_type == ch_data)) [
        | inl e3 ↦
            let (d, found, r) =
              >>=-eq-some (data_slot t.ch_data) _ (rw (e, e', e2, e3, pick_slot) at h) in
            inl (state_eq r)
        | inr e3 ↦ absurd (no_some (rw (e, e', e2, e3, pick_slot) at h))
      ]
    ]
  ]
]

pub pick_slot-Closed :
    (n : ℕ) (s s' : State) (t : TransTemplate) (more : Option Trans) (slot : Slot) (w : List ℕ)
    → Clear more
    → Closed n s
    → pick_slot s t more ≡ some (s', slot, w)
    → Closed n s'
pick_slot-Closed n s s' t more slot w clear c h = elim (pick_slot-cases s s' t more slot w h) [
  | inl e ↦ subst (Closed n) e c
  | inr (inl (a, i, pushed, e)) ↦ subst (Closed n) e (record {
    own = c.own;
    tick = push-AllBound n s.tick_trans a i more clear c.tick pushed;
    sign = c.sign;
    on_in = c.on_in;
    on_out = c.on_out;
    on_err = c.on_err;
  })
  | inr (inr (a, i, pushed, e)) ↦ subst (Closed n) e (record {
    own = c.own;
    tick = c.tick;
    sign = push-AllBound n s.sign_trans a i more clear c.sign pushed;
    on_in = c.on_in;
    on_out = c.on_out;
    on_err = c.on_err;
  })
]
