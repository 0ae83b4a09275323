-- ===== src/Serial/Setters.antt =====
-- The setters of a serial port as a whole.
use esma.Base.{
  ℕ, ◌≡◌, refl, sym, subst, ◌⊎◌, inl, inr, Bool, true, false, ==→eq, not, ◌&&◌, ◌||◌, Bool-cases,
  Option, none, some, ◌==◌, arith,
}
use esma.Serial.{
  without, with_bits, Termios, Constants, SerialPort, Done, databits, no_parity, even_parity,
  odd_parity, parity, stopbits, flow, raw_output, set_termios, set_attributes, Setting, rate, bits,
  letter, stops, control, raw, change_of, store_of, set,
}
use esma.Serial.Settings.{
  no_bits, databits-eq, parity-eq, stopbits-eq, flow-eq, baudrate-eq, without-Same, with_bits-Same,
  without-All, with_bits-All, Same-refl, Only, Shows,
}

-- What a change makes of the attributes: the speeds are set by the C library, and of the flags for the
-- other settings none but their own change, and these as asked for.
abbrev pub Right : Constants → Setting → Termios → Termios → Type 0
Right k (rate n) t t' = t' ≡ k.with_speeds (k.speeds n) t
Right k (bits n) t t' = Only k (bits n) t t' × Shows k (bits n) t'
Right k (letter c) t t' = Only k (letter c) t t' × Shows k (letter c) t'
Right k (stops n) t t' = Only k (stops n) t t' × Shows k (stops n) t'
Right k (control n) t t' = Only k (control n) t t' × Shows k (control n) t'
Right k raw t t' = Only k raw t t' × Shows k raw t'

stopbits-Right :
    (k : Constants) (n : ℕ) (t t' : Termios) → stopbits k n t ≡ some t' → Right k (stops n) t t'
stopbits-Right k n t t' e = elim (stopbits-eq k n t t' e) [
  | inl (v, q) ↦ subst (Right k (stops n) t) (sym q) (
    record {
      on_c = without-Same t.cflag k.cstopb;
      on_i = Same-refl no_bits t.iflag;
      on_o = Same-refl no_bits t.oflag;
    },
    rw v (without-All t.cflag k.cstopb),
  )
  | inr (v, q) ↦ subst (Right k (stops n) t) (sym q) (
    record {
      on_c = with_bits-Same t.cflag k.cstopb;
      on_i = Same-refl no_bits t.iflag;
      on_o = Same-refl no_bits t.oflag;
    },
    rw v (with_bits-All t.cflag k.cstopb),
  )
]

databits-Right :
    (k : Constants) (n : ℕ) (t t' : Termios)
    → ((b : ℕ) → k.csize b ≡ false → k.cs n b ≡ false)
    → databits k n t ≡ some t'
    → Right k (bits n) t t'
unfolding without with_bits
databits-Right k n t t' inside e = subst (Right k (bits n) t) (sym (databits-eq k n t t' e)) (
  record {
    on_c = λ b h. outside b h (inside b h);
    on_i = Same-refl no_bits t.iflag;
    on_o = Same-refl no_bits t.oflag;
  },
  λ b h. ground arith,
)
  where
    outside :
        (b : ℕ)
        → k.csize b ≡ false
        → k.cs n b ≡ false
        → ((t.cflag b && not (k.csize b)) || k.cs n b) ≡ t.cflag b
    outside b h i = ground arith

parity-Right :
    (k : Constants) (c : ℕ) (t t' : Termios) → parity k c t ≡ some t' → Right k (letter c) t t'
unfolding without with_bits no_parity even_parity odd_parity
parity-Right k c t t' e = elim (parity-eq k c t t' e) [
  | inl (v, q) ↦ subst (Right k (letter c) t) (sym q) (
    record {
      on_c = λ b h. ground arith;
      on_i = without-Same t.iflag k.inpck;
      on_o = Same-refl no_bits t.oflag;
    },
    (rw v (without-All t.cflag k.parenb), rw v (without-All t.iflag k.inpck), inl v),
  )
  | inr (inl (v, o, q)) ↦ subst (Right k (letter c) t) (sym q) (
    record {
      on_c = λ b h. ground arith;
      on_i = with_bits-Same t.iflag k.inpck;
      on_o = Same-refl no_bits t.oflag;
    },
    (
      rw v (with_bits-All (without t.cflag k.parodd) k.parenb),
      rw v (with_bits-All t.iflag k.inpck),
      inr (λ b h. ground arith),
    ),
  )
  | inr (inr (v, o, q)) ↦ subst (Right k (letter c) t) (sym q) (
    record {
      on_c = λ b h. ground arith;
      on_i = with_bits-Same t.iflag k.inpck;
      on_o = Same-refl no_bits t.oflag;
    },
    ((λ b h. ground arith), rw v (with_bits-All t.iflag k.inpck), inr (λ b h. ground arith)),
  )
]

flow-Right :
    (k : Constants) (n : ℕ) (t t' : Termios) → flow k n t ≡ some t' → Right k (control n) t t'
flow-Right k n t t' e = elim (flow-eq k n t t' e) [
  | inl (v, w, q) ↦ subst (Right k (control n) t) (sym q) (
    record {
      on_c = without-Same t.cflag k.crtscts;
      on_i = without-Same t.iflag k.ixon;
      on_o = Same-refl no_bits t.oflag;
    },
    (rw v (without-All t.cflag k.crtscts), rw w (without-All t.iflag k.ixon)),
  )
  | inr (inl (v, w, q)) ↦ subst (Right k (control n) t) (sym q) (
    record {
      on_c = with_bits-Same t.cflag k.crtscts;
      on_i = without-Same t.iflag k.ixon;
      on_o = Same-refl no_bits t.oflag;
    },
    (rw v (with_bits-All t.cflag k.crtscts), rw w (without-All t.iflag k.ixon)),
  )
  | inr (inr (v, w, q)) ↦ subst (Right k (control n) t) (sym q) (
    record {
      on_c = without-Same t.cflag k.crtscts;
      on_i = with_bits-Same t.iflag k.ixon;
      on_o = Same-refl no_bits t.oflag;
    },
    (rw v (without-All t.cflag k.crtscts), rw w (with_bits-All t.iflag k.ixon)),
  )
]

change-Right :
    (k : Constants) (s : Setting) (t t' : Termios)
    → ((n b : ℕ) → k.csize b ≡ false → k.cs n b ≡ false)
    → change_of k s t ≡ some t'
    → Right k s t t'
unfolding change_of raw_output
change-Right k (rate n) t t' inside e = baudrate-eq k n t t' e
change-Right k (bits n) t t' inside e = databits-Right k n t t' (inside n) e
change-Right k (letter c) t t' inside e = parity-Right k c t t' e
change-Right k (stops n) t t' inside e = stopbits-Right k n t t' e
change-Right k (control n) t t' inside e = flow-Right k n t t' e
change-Right k raw t t' inside e = subst (Right k raw t) (same e) (
  record {
    on_c = Same-refl no_bits t.cflag;
    on_i = Same-refl no_bits t.iflag;
    on_o = without-Same t.oflag k.opost;
  },
  without-All t.oflag k.opost,
)
  where
    same : {u v : Termios} → some u ≡ some v → u ≡ v
    same r = cc

-- Why a setter fails: the port is not open, the kernel does not tell the attributes, the value is none
-- that the setter knows, or the kernel sets none of what it is asked for.
abbrev pub Fails : Constants → Setting → Option Termios → (Termios → Bool) → SerialPort → Type 0
Fails k s gets sets p =
    (p.status ≡ 0)
    ⊎ ((gets ≡ none)
        ⊎ ((t : Termios) × (gets ≡ some t)
            × ((change_of k s t ≡ none)
                ⊎ ((t' : Termios) × (change_of k s t ≡ some t') × (sets t' ≡ false)))))

-- How a setter ends, for what tcgetattr answered.
abbrev pub Sets :
    Constants → Setting → Option Termios → (Termios → Bool) → SerialPort → Done → Type 0
Sets k s gets sets p d =
    (Fails k s gets sets p × (d.err ≡ 1) × (d.port ≡ p))
    ⊎ ((t : Termios) × (t' : Termios) × (gets ≡ some t)
        × (d.asked ≡ some t')
        × (sets t' ≡ true)
        × (d.err ≡ 0)
        × (d.port ≡ store_of s p)
        × Right k s t t')

module _ (k : Constants) (s : Setting) (sets : Termios → Bool) (p : SerialPort)
    (inside : (n b : ℕ) → k.csize b ≡ false → k.cs n b ≡ false) where
  set_termios-Sets :
      (t : Termios) (o : Option Termios)
      → change_of k s t ≡ o
      → Sets k s (some t) sets p (set_termios o (store_of s) sets p)
  unfolding set_termios
  set_termios-Sets t none e = inl (inr (inr (t, refl, inl e)), refl, refl)
  set_termios-Sets t (some t') e = elim (Bool-cases (sets t')) [
    | inl q ↦ rw q (inr (t, t', refl, refl, q, refl, refl, change-Right k s t t' inside e))
    | inr q ↦ rw q (inl (inr (inr (t, refl, inr (t', e, q))), refl, refl))
  ]

  set_attributes-Sets :
      (gets : Option Termios)
      → Sets k s gets sets p (set_attributes (change_of k s) (store_of s) gets sets p)
  unfolding set_attributes
  set_attributes-Sets none = elim (Bool-cases (p.status == 0)) [
    | inl q ↦ rw q (inl (inl (==→eq q), refl, refl))
    | inr q ↦ rw q (inl (inr (inl refl), refl, refl))
  ]
  set_attributes-Sets (some t) = elim (Bool-cases (p.status == 0)) [
    | inl q ↦ rw q (inl (inl (==→eq q), refl, refl))
    | inr q ↦ rw q (set_termios-Sets t (change_of k s t) refl)
  ]

  -- If the constants for the numbers of data bits lie within CSIZE: each setter either returns 1 and
  -- leaves the port, and then the port is not open, the kernel does not tell the terminal's attributes,
  -- the value is unknown or tcsetattr fails; or it returns 0, notes the value in the port and has asked
  -- tcsetattr for the attributes as they were but with the setting's own flags as they should be (or,
  -- for the baud rate, with its speeds set by the C library).
  pub set-Right : (gets : Option Termios) → Sets k s gets sets p (set k s gets sets p)
  unfolding set
  set-Right gets = set_attributes-Sets gets
