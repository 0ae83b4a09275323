-- ===== src/Engine/Parser/Arrows.antt =====
-- Transitions of no channel as the parser reads them, printed without blanks.
use esma.Base.{
  ℕ, zero, suc, ◌+◌, ◌/◌, ◌%◌, ◌^◌, ◌<◌, ◌≡◌, ◌≢◌, refl, ap, sym, subst, true, false, ◌&&◌, Option,
  none, some, List, [], ◌∷◌, ◌++◌, map, length, length-append, get_elem?, set, ltb, ◌==◌, arith,
  if◌then◌else◌, Bool-cases, inl, inr,
}
use esma.Engine.Types.{Name, Template, StateTemplate, TransTemplate, ch_none}
use esma.Engine.Load.{codes, decimal, decimal_fuel, find_name}
use esma.Engine.Load.Slots.{eq_of_some}
use esma.Engine.Parser.Text.{Text, is_word, starts}
use esma.Engine.Parser.Terms.{larger}
use esma.Engine.Parser.Modes.{names}
use esma.Engine.Parser.Printed.{AllWord, starts-eq}

-- `src -> dst: code;`, without a target for self.
pub record Arrow : Type 0 where
  pub src : Name
  pub dst : Option Name
  pub code : ℕ

abbrev pub dst_text : Option Name → Text
dst_text none = codes "self"
dst_text (some name) = name

unfoldable pub print_arrow : Arrow → Text → Text
print_arrow a rest =
    a.src ++ b'-' ∷ b'>' ∷ (dst_text a.dst ++ b':' ∷ (decimal a.code ++ b';' ∷ rest))

unfoldable pub print_arrows : List Arrow → Text → Text
unfolding print_arrow
print_arrows [] rest = rest
print_arrows (a ∷ arrows) rest = print_arrow a (print_arrows arrows rest)

-- A target that states of these names have.
abbrev pub IsTarget : List Name → Option Name → Type 0
IsTarget ns none = Unit
IsTarget ns (some name) =
    AllWord name
    × (0 < length name)
    × (name ≢ codes "self")
    × ((k : ℕ) × (find_name name ns ≡ some k))

-- An arrow between states of these names, whose code is a positive int.
pub record IsArrow (ns : List Name) (a : Arrow) : Type 0 where
  pub words : AllWord a.src
  pub some_char : 0 < length a.src
  pub source : (k : ℕ) × (find_name a.src ns ≡ some k)
  pub target : IsTarget ns a.dst
  pub small : a.code < 2 ^ 20

abbrev pub AllArrows : List Name → List Arrow → Type 0
AllArrows ns [] = Unit
AllArrows ns (a ∷ arrows) = IsArrow ns a × AllArrows ns arrows

-- What an arrow means: the first state of the source's name gets one more transition, to the first
-- state of the target's name.
abbrev pub target_of : List Name → Option Name → Option ℕ
target_of ns none = none
target_of ns (some name) = find_name name ns

abbrev pub arrow_trans : List Name → Arrow → TransTemplate
arrow_trans ns a = record {
  action_code = a.code;
  ch_type = ch_none;
  ch_data = 0;
  ch_periodic = 0;
  next_state = target_of ns a.dst;
}

abbrev pub gains : List Name → Arrow → StateTemplate → StateTemplate
gains ns a st = record st {
  trans = st.trans ++ arrow_trans ns a ∷ [];
  ntrans = (st.ntrans + 1) % 2 ^ 32;
  max_code = larger a.code st.max_code;
}

unfoldable pub modify :
    (StateTemplate → StateTemplate) → ℕ → List StateTemplate → List StateTemplate
modify f k [] = []
modify f zero (st ∷ ss) = f st ∷ ss
modify f (suc k) (st ∷ ss) = st ∷ modify f k ss

abbrev pub modify_found :
    (StateTemplate → StateTemplate) → Option ℕ → List StateTemplate → List StateTemplate
modify_found f none ss = ss
modify_found f (some k) ss = modify f k ss

unfoldable pub with_arrow : Template → Arrow → Template
with_arrow et a = record et {
  states = modify_found (gains (names et) a) (find_name a.src (names et)) et.states;
}

unfoldable pub with_arrows : Template → List Arrow → Template
unfolding with_arrow
with_arrows et [] = et
with_arrows et (a ∷ arrows) = with_arrows (with_arrow et a) arrows

modify-name :
    (f : StateTemplate → StateTemplate) (k : ℕ) (ss : List StateTemplate)
    → ((st : StateTemplate) → (f st).name ≡ st.name)
    → map (λ (st : StateTemplate). st.name) (modify f k ss)
      ≡ map (λ (st : StateTemplate). st.name) ss
unfolding modify
modify-name f k [] h = refl
modify-name f zero (st ∷ ss) h =
    ap (λ (n : Name). n ∷ map (λ (s : StateTemplate). s.name) ss) (h st)
modify-name f (suc k) (st ∷ ss) h = ap (λ (ns : List Name). st.name ∷ ns) (modify-name f k ss h)

pub with_arrow-names : (et : Template) (a : Arrow) → names (with_arrow et a) ≡ names et
unfolding with_arrow
with_arrow-names et a = found (find_name a.src (names et))
  where
    found :
        (o : Option ℕ)
        → map (λ (st : StateTemplate). st.name) (modify_found (gains (names et) a) o et.states)
          ≡ names et
    found none = refl
    found (some k) = modify-name (gains (names et) a) k et.states (λ st. refl)

pub set-modify :
    (f : StateTemplate → StateTemplate) (ss : List StateTemplate) (k : ℕ) (st : StateTemplate)
    → get_elem? ss k ≡ some st
    → set ss k (f st) ≡ modify f k ss
unfolding modify
set-modify f [] k st h = refl
set-modify f (s ∷ ss) zero st h = ap (λ (t : StateTemplate). f t ∷ ss) (sym (eq_of_some h))
set-modify f (s ∷ ss) (suc k) st h = ap (λ (r : List StateTemplate). s ∷ r) (set-modify f ss k st h)

-- A name of a template is the name of a state of it.
pub names-state :
    (ss : List StateTemplate) (k : ℕ) (name : Name)
    → get_elem? (map (λ (st : StateTemplate). st.name) ss) k ≡ some name
    → (st : StateTemplate) × (get_elem? ss k ≡ some st)
names-state [] k name h = absurd (cc)
names-state (s ∷ ss) zero name h = (s, refl)
names-state (s ∷ ss) (suc k) name h = names-state ss k name h

-- The digits of a number are characters of words.
digit-word : (n : ℕ) → is_word (48 + n % 10) ≡ true
digit-word n = ground arith

AllWord-snoc : (cs : Text) (c : ℕ) → AllWord cs → is_word c ≡ true → AllWord (cs ++ c ∷ [])
AllWord-snoc [] c h e = (e, tt)
AllWord-snoc (d ∷ cs) c (k, h) e = (k, AllWord-snoc cs c h e)

decimal_fuel-AllWord : (f n : ℕ) → AllWord (decimal_fuel f n)
unfolding decimal_fuel
decimal_fuel-AllWord zero n = tt
decimal_fuel-AllWord (suc f) n = elim (Bool-cases (ltb n 10)) [
  | inl e ↦ rw (decimal_fuel, e) (digit-word n, tt)
  | inr e ↦
      rw (decimal_fuel, e)
        (AllWord-snoc (decimal_fuel f (n / 10)) (48 + n % 10) (decimal_fuel-AllWord f (n / 10))
          (digit-word n))
]

pub decimal-AllWord : (n : ℕ) → AllWord (decimal n)
unfolding decimal
decimal-AllWord n = decimal_fuel-AllWord (n + 1) n

last_digit : (f n : ℕ) → 0 < length (decimal_fuel (suc f) n)
unfolding decimal_fuel
last_digit f n =
    rw (length-append (if ltb n 10 then [] else decimal_fuel f (n / 10)) ((48 + n % 10) ∷ []))
      (omega arith)

pub decimal-pos : (n : ℕ) → 0 < length (decimal n)
unfolding decimal
decimal-pos n =
    let e : suc n ≡ n + 1 = omega arith in
    subst (λ (f : ℕ). 0 < length (decimal_fuel f n)) e (last_digit n n)

-- A target that is a name is not taken for self.
pub not_self :
    (name : Name) (cs : Text)
    → name ≢ codes "self"
    → ((length name == 4) && starts (codes "self") (name ++ cs)) ≡ false
not_self name cs h = elim (Bool-cases (length name == 4)) [
  | inr e ↦ rw e refl
  | inl e ↦ elim (Bool-cases (starts (codes "self") (name ++ cs))) [
    | inl i ↦ absurd (h (starts-eq (codes "self") name cs (ground arith) i))
    | inr i ↦ rw (e, i) refl
  ]
]
