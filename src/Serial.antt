-- ===== src/Serial.antt =====
-- core/esma_serial_port.c. A word of flags of a terminal is a function from its bits; the masks, the
-- speeds and the answers of the kernel are arguments.
pub mod Settings
pub mod Setters
use esma.Base.{
  ℕ, Bool, true, false, not, ◌&&◌, ◌||◌, Option, none, some, List, [], ◌∷◌, ◌==◌, if◌then◌else◌,
}

abbrev pub Bits : Type 0
Bits = ℕ → Bool

-- `w &= ~m` and `w |= m`
unfoldable pub without : Bits → Bits → Bits
without w m b = w b && not (m b)

unfoldable pub with_bits : Bits → Bits → Bits
with_bits w m b = w b || m b

-- `struct termios`, as far as it is used; where it holds the speeds is left to the C library.
pub record Termios : Type 0 where
  pub cflag : Bits
  pub iflag : Bits
  pub oflag : Bits

-- The constants of termios.h; `speeds` has B110 and so on, by the rate, and `defined` tells which of
-- those above B38400 there are. `with_speeds` is what cfsetispeed and cfsetospeed make of a terminal's
-- attributes.
pub record Constants : Type 0 where
  pub csize : Bits
  pub cs : ℕ → Bits
  pub parenb : Bits
  pub parodd : Bits
  pub cstopb : Bits
  pub crtscts : Bits
  pub inpck : Bits
  pub ixon : Bits
  pub opost : Bits
  pub speeds : ℕ → ℕ
  pub defined : ℕ → Bool
  pub with_speeds : ℕ → Termios → Termios

-- `struct esma_serial_port`; `dev` tells whether there is a device name.
pub record SerialPort : Type 0 where
  pub fd : ℕ
  pub baudrate : ℕ
  pub databits : ℕ
  pub parity : ℕ
  pub stopbits : ℕ
  pub flow : ℕ
  pub status : ℕ
  pub old_term : Option Termios

-- The port, what tcsetattr was asked for (none if it was not called), and what is returned. The kernel may set
-- less than it is asked for, and succeeds if it can set any of it.
pub record Done : Type 0 where
  pub port : SerialPort
  pub asked : Option Termios
  pub err : ℕ

-- The shape that the setters share: check_status, GET_TERMIOS, the switch, SET_TERMIOS and the
-- assignment to the port. `gets` is what tcgetattr answers, and `sets` whether tcsetattr succeeds.
unfoldable pub set_termios :
    Option Termios → (SerialPort → SerialPort) → (Termios → Bool) → SerialPort → Done
set_termios none store sets p = record { port = p; asked = none; err = 1 }
set_termios (some t') store sets p =
    if sets t'
    then record { port = store p; asked = some t'; err = 0 }
    else record { port = p; asked = some t'; err = 1 }

unfoldable pub set_attributes :
    (Termios → Option Termios)
    → (SerialPort → SerialPort)
    → Option Termios
    → (Termios → Bool)
    → SerialPort
    → Done
unfolding set_termios
set_attributes change store gets sets p =
    if p.status == 0 then record { port = p; asked = none; err = 1 } else (elim gets [
      | none ↦ record { port = p; asked = none; err = 1 }
      | some t ↦ set_termios (change t) store sets p
    ])

abbrev pub rates : List ℕ
rates = 110 ∷ 300 ∷ 600 ∷ 1200 ∷ 2400 ∷ 4800 ∷ 9600 ∷ 19200 ∷ 38400 ∷ []

-- Those between `#ifdef` and `#endif`.
abbrev pub high_rates : List ℕ
high_rates =
    57600 ∷ 115200 ∷ 230400 ∷ 460800 ∷ 500000 ∷ 576000 ∷ 921600 ∷ 1000000 ∷ 1152000 ∷ 1500000
    ∷ 2500000 ∷ 3000000 ∷ 3500000 ∷ 4000000 ∷ []

unfoldable pub is_in : ℕ → List ℕ → Bool
is_in n [] = false
is_in n (m ∷ ms) = (n == m) || is_in n ms

module _ (k : Constants) where
  -- The switches of the setters.
  unfoldable pub baudrate : ℕ → Termios → Option Termios
  unfolding is_in
  baudrate n t =
      if is_in n rates || (is_in n high_rates && k.defined n)
      then some (k.with_speeds (k.speeds n) t)
      else none

  unfoldable pub databits : ℕ → Termios → Option Termios
  unfolding without with_bits
  databits n t =
      let bits = record t { cflag = with_bits (without t.cflag k.csize) (k.cs n) } in
      if n == 5
      then some bits
      else if n == 6
      then some bits
      else if n == 7
      then some bits
      else if n == 8
      then some bits
      else none

  unfoldable pub no_parity : Termios → Termios
  unfolding without
  no_parity t = record t { cflag = without t.cflag k.parenb; iflag = without t.iflag k.inpck }

  unfoldable pub even_parity : Termios → Termios
  unfolding without with_bits
  even_parity t = record t {
    cflag = with_bits (without t.cflag k.parodd) k.parenb;
    iflag = with_bits t.iflag k.inpck;
  }

  unfoldable pub odd_parity : Termios → Termios
  unfolding with_bits
  odd_parity t = record t {
    cflag = with_bits (with_bits t.cflag k.parenb) k.parodd;
    iflag = with_bits t.iflag k.inpck;
  }

  -- 'n', 'N', 'e', 'E', 'o' and 'O'
  unfoldable pub parity : ℕ → Termios → Option Termios
  unfolding no_parity even_parity odd_parity
  parity c t =
      if (c == 110) || (c == 78)
      then some (no_parity t)
      else if (c == 101) || (c == 69)
      then some (even_parity t)
      else if (c == 111) || (c == 79)
      then some (odd_parity t)
      else none

  unfoldable pub stopbits : ℕ → Termios → Option Termios
  unfolding without with_bits
  stopbits n t =
      if n == 1
      then some (record t { cflag = without t.cflag k.cstopb })
      else if n == 2
      then some (record t { cflag = with_bits t.cflag k.cstopb })
      else none

  unfoldable pub flow : ℕ → Termios → Option Termios
  unfolding without with_bits
  flow n t =
      if n == 0
      then some (record t { cflag = without t.cflag k.crtscts; iflag = without t.iflag k.ixon })
      else if n == 1
      then some (record t { cflag = with_bits t.cflag k.crtscts; iflag = without t.iflag k.ixon })
      else if n == 2
      then some (record t { cflag = without t.cflag k.crtscts; iflag = with_bits t.iflag k.ixon })
      else none

  unfoldable pub raw_output : Termios → Option Termios
  unfolding without
  raw_output t = some (record t { oflag = without t.oflag k.opost })

-- The setters but their answers: esma_serial_port_set_baudrate, _databits, _parity, _stopbits, _flow and
-- _raw_output.
pub data Setting : Type 0 where
  rate : ℕ → Setting
  bits : ℕ → Setting
  letter : ℕ → Setting
  stops : ℕ → Setting
  control : ℕ → Setting
  raw : Setting

unfoldable pub change_of : Constants → Setting → Termios → Option Termios
unfolding baudrate databits parity stopbits flow raw_output
change_of k (rate n) t = baudrate k n t
change_of k (bits n) t = databits k n t
change_of k (letter c) t = parity k c t
change_of k (stops n) t = stopbits k n t
change_of k (control n) t = flow k n t
change_of k raw t = raw_output k t

unfoldable pub store_of : Setting → SerialPort → SerialPort
store_of (rate n) p = record p { baudrate = n }
store_of (bits n) p = record p { databits = n }
store_of (letter c) p = record p { parity = c }
store_of (stops n) p = record p { stopbits = n }
store_of (control n) p = record p { flow = n }
store_of raw p = p

-- One of the setters.
unfoldable pub set : Constants → Setting → Option Termios → (Termios → Bool) → SerialPort → Done
unfolding set_attributes change_of store_of
set k s gets sets p = set_attributes (change_of k s) (store_of s) gets sets p

-- `esma_serial_port_open`, with the descriptor of `open` and the answers of `tcflush` and of
-- `tcgetattr`, which is asked for the descriptor that the port held before.
unfoldable pub open_port : Option ℕ → ℕ → (ℕ → Option Termios) → SerialPort → SerialPort × ℕ
open_port none flush gets p = (p, 1)
open_port (some fd) flush gets p =
    if flush == 0
    then (elim (gets p.fd) [
      | none ↦ (p, 1)
      | some t ↦ (record p { fd = fd; status = 1; old_term = some t }, 0)
    ])
    else (p, 1)

-- `esma_serial_port_close`, with the answer of `close`
unfoldable pub close_port : ℕ → SerialPort → SerialPort × ℕ
close_port err p = if p.status == 0 then (p, 0) else (record p { status = 0 }, err)
