-- ===== src/Serial/Settings.antt =====
-- What a setter changes of the terminal, and what it leaves.
use esma.Base.{
  ℕ, ◌≡◌, refl, sym, ◌∙◌, ◌⊎◌, inl, inr, Bool, true, false, not, ◌&&◌, ◌||◌, Bool-cases, none, some,
  ◌==◌, arith,
}
use esma.Serial.{
  rates, high_rates, is_in, Bits, without, with_bits, Termios, Constants, baudrate, databits,
  no_parity, even_parity, odd_parity, parity, stopbits, flow, Setting, rate, bits, letter, stops,
  control, raw,
}

abbrev pub no_bits : Bits
no_bits b = false

-- The bits of the three words that are a setting's own.
abbrev pub own_c : Constants → Setting → Bits
own_c k (bits n) = k.csize
own_c k (letter c) = λ b. k.parenb b || k.parodd b
own_c k (stops n) = k.cstopb
own_c k (control n) = k.crtscts
own_c k (rate n) = no_bits
own_c k raw = no_bits

abbrev pub own_i : Constants → Setting → Bits
own_i k (letter c) = k.inpck
own_i k (control n) = k.ixon
own_i k (bits n) = no_bits
own_i k (stops n) = no_bits
own_i k (rate n) = no_bits
own_i k raw = no_bits

abbrev pub own_o : Constants → Setting → Bits
own_o k raw = k.opost
own_o k (letter c) = no_bits
own_o k (control n) = no_bits
own_o k (bits n) = no_bits
own_o k (stops n) = no_bits
own_o k (rate n) = no_bits

abbrev pub Same : Bits → Bits → Bits → Type 0
Same m w w' = (b : ℕ) → m b ≡ false → w' b ≡ w b

-- Nothing but the setting's own bits has changed.
pub record Only (k : Constants) (s : Setting) (t t' : Termios) : Type 0 where
  pub on_c : Same (own_c k s) t.cflag t'.cflag
  pub on_i : Same (own_i k s) t.iflag t'.iflag
  pub on_o : Same (own_o k s) t.oflag t'.oflag

pub without-Same : (w m : Bits) → Same m w (without w m)
unfolding without
without-Same w m b h = ground arith

pub with_bits-Same : (w m : Bits) → Same m w (with_bits w m)
unfolding with_bits
with_bits-Same w m b h = ground arith

pub databits-eq :
    (k : Constants) (n : ℕ) (t t' : Termios)
    → databits k n t ≡ some t'
    → t' ≡ record t { cflag = with_bits (without t.cflag k.csize) (k.cs n) }
unfolding databits
databits-eq k n t t' e = ground arith

abbrev pub none_letter : ℕ → Bool
none_letter c = (c == 110) || (c == 78)

abbrev pub odd_letter : ℕ → Bool
odd_letter c = (c == 111) || (c == 79)

pub parity-eq :
    (k : Constants) (c : ℕ) (t t' : Termios)
    → parity k c t ≡ some t'
    → ((none_letter c ≡ true) × (t' ≡ no_parity k t))
      ⊎ ((none_letter c ≡ false) × (odd_letter c ≡ false) × (t' ≡ even_parity k t))
      ⊎ ((none_letter c ≡ false) × (odd_letter c ≡ true) × (t' ≡ odd_parity k t))
unfolding parity
parity-eq k c t t' e = ground arith

pub stopbits-eq :
    (k : Constants) (n : ℕ) (t t' : Termios)
    → stopbits k n t ≡ some t'
    → (((n == 2) ≡ false) × (t' ≡ record t { cflag = without t.cflag k.cstopb }))
      ⊎ (((n == 2) ≡ true) × (t' ≡ record t { cflag = with_bits t.cflag k.cstopb }))
unfolding stopbits
stopbits-eq k n t t' e = ground arith

pub flow-eq :
    (k : Constants) (n : ℕ) (t t' : Termios)
    → flow k n t ≡ some t'
    → (((n == 1) ≡ false)
        × ((n == 2) ≡ false)
        × (t' ≡ record t { cflag = without t.cflag k.crtscts; iflag = without t.iflag k.ixon }))
      ⊎ (((n == 1) ≡ true)
          × ((n == 2) ≡ false)
          × (t' ≡ record t { cflag = with_bits t.cflag k.crtscts; iflag = without t.iflag k.ixon }))
      ⊎ (((n == 1) ≡ false)
          × ((n == 2) ≡ true)
          × (t' ≡ record t { cflag = without t.cflag k.crtscts; iflag = with_bits t.iflag k.ixon }))
unfolding flow
flow-eq k n t t' e = ground arith

pub baudrate-eq :
    (k : Constants) (n : ℕ) (t t' : Termios)
    → baudrate k n t ≡ some t'
    → t' ≡ k.with_speeds (k.speeds n) t
unfolding baudrate
baudrate-eq k n t t' e = elim (Bool-cases (is_in n rates || (is_in n high_rates && k.defined n))) [
  | inl q ↦ same (sym e ∙ rw (baudrate, q) refl)
  | inr q ↦ absurd (no_speed (sym e ∙ rw (baudrate, q) refl))
]
  where
    no_speed : some t' ≡ none → ⊥
    no_speed r = cc

    same : {u : Termios} → some t' ≡ some u → t' ≡ u
    same r = cc

-- All bits of a mask are set, or all are clear.
abbrev pub All : Bits → Bool → Bits → Type 0
All m v w = (b : ℕ) → m b ≡ true → w b ≡ v

-- The terminal is set as asked for. The bits of the number of data bits are those of the constant; for
-- a parity that is not none, a bit of PARODD that is not one of PARENB tells odd from even.
abbrev pub Shows : Constants → Setting → Termios → Type 0
Shows k (rate n) t = Unit
Shows k (bits n) t = (b : ℕ) → k.csize b ≡ true → t.cflag b ≡ k.cs n b
Shows k (letter c) t =
    All k.parenb (not (none_letter c)) t.cflag
    × All k.inpck (not (none_letter c)) t.iflag
    × ((none_letter c ≡ true) ⊎ All (λ b. k.parodd b && not (k.parenb b)) (odd_letter c) t.cflag)
Shows k (stops n) t = All k.cstopb (n == 2) t.cflag
Shows k (control n) t = All k.crtscts (n == 1) t.cflag × All k.ixon (n == 2) t.iflag
Shows k raw t = All k.opost false t.oflag

pub without-All : (w m : Bits) → All m false (without w m)
unfolding without
without-All w m b h = ground arith

pub with_bits-All : (w m : Bits) → All m true (with_bits w m)
unfolding with_bits
with_bits-All w m b h = ground arith

pub Same-refl : (m w : Bits) → Same m w w
Same-refl m w b h = refl
