-- ===== src/Engine/Load/Total.antt =====
-- When `esma_load` succeeds.
use esma.Base.{
  ℕ, zero, suc, ◌+◌, ◌≤◌, ◌<◌, ◌≡◌, refl, ap, ◌∙◌, ◌⊎◌, inl, inr, Option, some, List, [], ◌∷◌, ◌++◌,
  length, length-append, length-set, length-replicate, get_elem?, set, replicate, ltb, arith,
  Bool-cases,
}
use esma.Engine.Types.{
  Name, Trans, TransArray, State, TransTemplate, push, ch_none, ch_tick, ch_data, ch_sign,
}
use esma.Base.{◌==◌, if◌then◌else◌}
use esma.Engine.Load.{
  Slot, own, tick, sign, on_pollin, on_pollout, on_pollerr, read_slot, write_slot, data_slot,
  pick_slot, ◌>>=◌, codes,
}

pub bind-some :
    {A B : Type 0} {m : Option A} {a : A} (f : A → Option B) → m ≡ some a → (m >>= f) ≡ f a
bind-some f e = rw e refl

pub get_elem?-total :
    {A : Type 0} (xs : List A) (i : ℕ) → i < length xs → (x : A) × (get_elem? xs i ≡ some x)
get_elem?-total [] i h = absurd (omega arith)
get_elem?-total (x ∷ xs) zero h = (x, refl)
get_elem?-total (x ∷ xs) (suc i) h = get_elem?-total xs i (omega arith)

-- An array that holds a new transition, after `realloc` at least.
abbrev pub Room : TransArray → Type 0
Room a = (0 < length a.cells) × (a.nitems ≤ length a.cells)

push-Room :
    (a : TransArray) (junk : Trans)
    → Room a
    → (a' : TransArray) × (push a (some junk) ≡ some (a', a.nitems))
      × (a.nitems < length a'.cells)
      × Room a'
unfolding push
push-Room a junk (some_cells, counted) = elim (Bool-cases (ltb a.nitems (length a.cells))) [
  | inl e ↦
      let h : a.nitems < length a.cells = ground arith in
      (record a { nitems = a.nitems + 1 }, rw (push, e) refl, h, (some_cells, omega arith))
  | inr e ↦
      let cells = a.cells ++ replicate (length a.cells) junk in
      let n : length cells ≡ length a.cells + length a.cells =
        length-append a.cells (replicate (length a.cells) junk)
        ∙ ap (λ (k : ℕ). length a.cells + k) (length-replicate (length a.cells) junk) in
      (
        record a { cells = cells; nitems = a.nitems + 1 },
        rw (push, e) refl,
        omega (arith, n),
        (omega (arith, n), omega (arith, n)),
      )
]

-- The state has a cell for each own code up to `top`, and this name.
pub record Ready (n : Name) (top : ℕ) (s : State) : Type 0 where
  pub named : s.name ≡ n
  pub own : top < length s.trans.cells
  pub tick : Room s.tick_trans
  pub sign : Room s.sign_trans

-- The counted cells of the arrays are there.
abbrev pub Counted : List State → Type 0
Counted [] = Unit
Counted (s ∷ ss) =
    (s.tick_trans.nitems ≤ length s.tick_trans.cells)
    × (s.sign_trans.nitems ≤ length s.sign_trans.cells)
    × Counted ss

abbrev pub Known : TransTemplate → Type 0
Known t =
    (t.ch_type ≡ ch_none)
    ⊎ (t.ch_type ≡ ch_tick)
    ⊎ (t.ch_type ≡ ch_sign)
    ⊎ ((t.ch_type ≡ ch_data) × ((slot : Slot) × (data_slot t.ch_data ≡ some slot)))

-- The word in the name of the function of a transition.
abbrev pub word_of : TransTemplate → List ℕ
word_of t =
    if t.ch_type == ch_none
    then []
    else if t.ch_type == ch_tick
    then codes "tick_"
    else if t.ch_type == ch_sign
    then codes "sign_"
    else codes "data_"

-- The slot of a transition can be read and written.
pub record Slotted (n : Name) (top : ℕ) (s : State) (t : TransTemplate) (junk : Trans)
    : Type 0 where
  pub state : State
  pub slot : Slot
  pub word : List ℕ
  pub old : Trans
  pub called : word ≡ word_of t
  pub picked : pick_slot s t (some junk) ≡ some (state, slot, word)
  pub there : read_slot state slot ≡ some old
  pub ready : (new : Trans) → Ready n top (write_slot state slot new)
  pub name : state.name ≡ s.name

set-Room :
    (a : TransArray) (i : ℕ) (new : Trans) → Room a → Room (record a { cells = set a.cells i new })
set-Room a i new (p, q) =
    (omega (arith, length-set a.cells i new), omega (arith, length-set a.cells i new))

write_slot-Ready :
    (n : Name) (top : ℕ) (s : State) (slot : Slot) (new : Trans)
    → Ready n top s
    → Ready n top (write_slot s slot new)
unfolding write_slot
write_slot-Ready n top s (own i) new r = record {
  named = r.named;
  own = omega (arith, length-set s.trans.cells i new, r.own);
  tick = r.tick;
  sign = r.sign;
}
write_slot-Ready n top s (tick i) new r = record {
  named = r.named;
  own = r.own;
  tick = set-Room s.tick_trans i new r.tick;
  sign = r.sign;
}
write_slot-Ready n top s (sign i) new r = record {
  named = r.named;
  own = r.own;
  tick = r.tick;
  sign = set-Room s.sign_trans i new r.sign;
}
write_slot-Ready n top s on_pollin new r = record {
  named = r.named;
  own = r.own;
  tick = r.tick;
  sign = r.sign;
}
write_slot-Ready n top s on_pollout new r = record {
  named = r.named;
  own = r.own;
  tick = r.tick;
  sign = r.sign;
}
write_slot-Ready n top s on_pollerr new r = record {
  named = r.named;
  own = r.own;
  tick = r.tick;
  sign = r.sign;
}

data_there :
    (s : State) (d : ℕ) (slot : Slot)
    → data_slot d ≡ some slot
    → (old : Trans) × (read_slot s slot ≡ some old)
unfolding read_slot data_slot
data_there s d (own i) q = ground arith
data_there s d (tick i) q = ground arith
data_there s d (sign i) q = ground arith
data_there s d on_pollin q = (s.data_pollin, refl)
data_there s d on_pollout q = (s.data_pollout, refl)
data_there s d on_pollerr q = (s.data_pollerr, refl)

module _ (n : Name) (top : ℕ) (s : State) (t : TransTemplate) (junk : Trans)
    (r : Ready n top s) where
  own-Slotted : t.ch_type ≡ ch_none → t.action_code ≤ top → Slotted n top s t junk
  unfolding pick_slot read_slot
  own-Slotted e h =
      let (old, at) = get_elem?-total s.trans.cells t.action_code (omega (arith, r.own)) in
      record {
        state = s;
        slot = own t.action_code;
        word = [];
        old = old;
        called = rw e refl;
        picked = rw (pick_slot, e) refl;
        there = at;
        ready = λ new. write_slot-Ready n top s (own t.action_code) new r;
        name = refl;
      }

  tick-Slotted : t.ch_type ≡ ch_tick → Slotted n top s t junk
  unfolding pick_slot read_slot
  tick-Slotted e =
      let (a, pushed, room, ok) = push-Room s.tick_trans junk r.tick in
      let (old, at) = get_elem?-total a.cells s.tick_trans.nitems room in
      let s' : State = record s { tick_trans = a } in
      record {
        state = s';
        slot = tick s.tick_trans.nitems;
        word = codes "tick_";
        old = old;
        called = rw e refl;
        picked = rw (pick_slot, e, pushed) refl;
        there = at;
        ready = λ new.
            write_slot-Ready n top s' (tick s.tick_trans.nitems) new
              (record { named = r.named; own = r.own; tick = ok; sign = r.sign });
        name = refl;
      }

  sign-Slotted : t.ch_type ≡ ch_sign → Slotted n top s t junk
  unfolding pick_slot read_slot
  sign-Slotted e =
      let (a, pushed, room, ok) = push-Room s.sign_trans junk r.sign in
      let (old, at) = get_elem?-total a.cells s.sign_trans.nitems room in
      let s' : State = record s { sign_trans = a } in
      record {
        state = s';
        slot = sign s.sign_trans.nitems;
        word = codes "sign_";
        old = old;
        called = rw e refl;
        picked = rw (pick_slot, e, pushed) refl;
        there = at;
        ready = λ new.
            write_slot-Ready n top s' (sign s.sign_trans.nitems) new
              (record { named = r.named; own = r.own; tick = r.tick; sign = ok });
        name = refl;
      }

  data-Slotted :
      t.ch_type ≡ ch_data → (slot : Slot) → data_slot t.ch_data ≡ some slot → Slotted n top s t junk
  unfolding pick_slot
  data-Slotted e slot h =
      let (old, at) = data_there s t.ch_data slot h in
      record {
        state = s;
        slot = slot;
        word = codes "data_";
        old = old;
        called = rw e refl;
        picked = rw (pick_slot, e, h) refl;
        there = at;
        ready = λ new. write_slot-Ready n top s slot new r;
        name = refl;
      }

  pub Known-Slotted : Known t → (t.ch_type ≡ ch_none → t.action_code ≤ top) → Slotted n top s t junk
  Known-Slotted (inl e) h = own-Slotted e (h e)
  Known-Slotted (inr (inl e)) h = tick-Slotted e
  Known-Slotted (inr (inr (inl e))) h = sign-Slotted e
  Known-Slotted (inr (inr (inr (e, (slot, q))))) h = data-Slotted e slot q
