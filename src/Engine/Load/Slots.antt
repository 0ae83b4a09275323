-- ===== src/Engine/Load/Slots.antt =====
-- Where `_esma_prepare_trans` stores a transition, and what it leaves alone.
use esma.Base.{
  ℕ, zero, suc, ◌<◌, ◌≡◌, refl, ap, Option, none, some, List, [], ◌∷◌, get_elem?, set, length, ◌==◌,
  arith, if◌then◌else◌,
}
use esma.Engine.Types.{Trans, State, TransTemplate, ch_none}
use esma.Engine.Load.{
  Slot, own, tick, sign, on_pollin, on_pollout, on_pollerr, read_slot, write_slot, data_slot,
  pick_slot, ◌>>=◌, ◌>>◌,
}

-- Inversion of a successful bind.
pub >>=-eq-some :
    {A B : Type 0} (m : Option A) (f : A → Option B) {b : B}
    → (m >>= f) ≡ some b
    → (a : A) × (m ≡ some a) × (f a ≡ some b)
>>=-eq-some none f h = cc
>>=-eq-some (some a) f h = (a, refl, h)

pub >>-eq-some :
    {B : Type 0} (m : Option (Unit {0})) (k : Option B) {b : B} → (m >> k) ≡ some b → k ≡ some b
>>-eq-some none k h = cc
>>-eq-some (some t) k h = h

pub eq_of_some : {A : Type 0} {a b : A} → some a ≡ some b → a ≡ b
eq_of_some h = cc

pub get_elem?-lt {ℓ} :
    {A : Type ℓ} (xs : List A) (i : ℕ) {a : A} → get_elem? xs i ≡ some a → i < length xs
get_elem?-lt [] i h = cc
get_elem?-lt (x ∷ xs) zero h = omega arith
get_elem?-lt (x ∷ xs) (suc i) h = omega (arith, get_elem?-lt xs i h)

unfoldable pub own_index : Slot → Option ℕ
own_index (own i) = some i
own_index other = none

data_slot-own : (d : ℕ) (slot : Slot) → data_slot d ≡ some slot → own_index slot ≡ none
unfolding data_slot own_index
data_slot-own d slot h = ground arith

pub pick_slot-own :
    (s : State) (t : TransTemplate) (more : Option Trans) (s' : State) (slot : Slot) (w : List ℕ)
    → pick_slot s t more ≡ some (s', slot, w)
    → (own_index slot ≡ (if t.ch_type == ch_none then some t.action_code else none))
      × (s'.trans ≡ s.trans)
      × (s'.name ≡ s.name)
      × (t.ch_type ≡ ch_none → w ≡ [])
unfolding pick_slot own_index
pick_slot-own s t more s' slot w h = ground arith

pub write_slot-other :
    (s : State) (slot : Slot) (t : Trans)
    → own_index slot ≡ none
    → (write_slot s slot t).trans ≡ s.trans
unfolding write_slot own_index
write_slot-other s (own i) t h = cc
write_slot-other s (tick i) t h = refl
write_slot-other s (sign i) t h = refl
write_slot-other s on_pollin t h = refl
write_slot-other s on_pollout t h = refl
write_slot-other s on_pollerr t h = refl

pub write_slot-own :
    (s : State) (slot : Slot) (t : Trans) (i : ℕ)
    → own_index slot ≡ some i
    → ((write_slot s slot t).trans.cells ≡ set s.trans.cells i t)
      × (read_slot s slot ≡ get_elem? s.trans.cells i)
unfolding write_slot read_slot own_index
write_slot-own s (own j) t i h =
    let e : j ≡ i = ground arith in
    (ap (λ k. set s.trans.cells k t) e, ap (get_elem? s.trans.cells) e)
write_slot-own s (tick j) t i h = cc
write_slot-own s (sign j) t i h = cc
write_slot-own s on_pollin t i h = cc
write_slot-own s on_pollout t i h = cc
write_slot-own s on_pollerr t i h = cc

pub name-write_slot : (s : State) (slot : Slot) (t : Trans) → (write_slot s slot t).name ≡ s.name
unfolding write_slot
name-write_slot s (own i) t = refl
name-write_slot s _ t = refl
