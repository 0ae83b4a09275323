-- ===== src/Tests/Serial.antt =====
-- A serial port whose flags are single bits.
use esma.Base.{ℕ, ◌≡◌, true, false, none, some, ◌==◌, ◌||◌, if◌then◌else◌, arith}
use esma.Serial.{Bits, Termios, Constants, SerialPort, letter, set}
use esma.Serial.Setters.{Sets, set-Right}

abbrev bit : ℕ → Bits
bit n b = b == n

abbrev none_set : Bits
none_set b = false

-- CSIZE is the bits 0 and 1.
abbrev constants : Constants
constants = record {
  csize = λ b. (b == 0) || (b == 1);
  cs = λ n b. if n == 8 then (b == 0) || (b == 1) else false;
  parenb = bit 2;
  parodd = bit 3;
  cstopb = bit 4;
  crtscts = bit 5;
  inpck = bit 0;
  ixon = bit 1;
  opost = bit 0;
  speeds = λ n. n;
  defined = λ n. false;
  with_speeds = λ n t. t;
}

abbrev tty : Termios
tty = record { cflag = none_set; iflag = none_set; oflag = bit 0 }

abbrev port : SerialPort
port = record {
  fd = 3;
  baudrate = 9600;
  databits = 8;
  parity = 110;
  stopbits = 1;
  flow = 0;
  status = 1;
  old_term = none;
}

sizes-inside : (n b : ℕ) → constants.csize b ≡ false → constants.cs n b ≡ false
sizes-inside n b h = ground (arith, h)

set-Right_example :
    Sets constants
      (letter 101)
      (some tty)
      (λ t. true)
      port
      (set constants (letter 101) (some tty) (λ t. true) port)
set-Right_example = set-Right constants (letter 101) (λ t. true) port sizes-inside (some tty)
