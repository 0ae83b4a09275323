-- ===== src/Engine/Parser/Words.antt =====
-- engine/esma_template.c: the words for periods, signals and events.
use esma.Base.{ℕ, Option, none, some, List, [], ◌∷◌, ◌==◌, if◌then◌else◌}
use esma.Engine.Types.{Name, tm_oneshot, tm_periodic, pollin, pollout, pollhup, pollerr}
use esma.Engine.Load.{codes}
use esma.Engine.Parser.Text.{Text, starts}

-- The flag for the name behind `ESMA_TM_`, of length `n`.
unfoldable pub period : ℕ → Text → ℕ → ℕ
period n q old =
    if n == 8
    then if starts (codes "PERIODIC") q then tm_periodic else old
    else if n == 7
    then if starts (codes "ONESHOT") q then tm_oneshot else old
    else old

-- The last of the names that `q` starts with, among those of one length.
unfoldable pub find_start : List Name → Text → Option Name
unfolding starts
find_start [] q = none
find_start (n ∷ ns) q = elim (find_start ns q) [
  | some m ↦ some m
  | none ↦ if starts n q then some n else none
]

abbrev pub signals3 : List Name
signals3 = codes "FPE" ∷ codes "HUP" ∷ codes "INT" ∷ codes "SYS" ∷ codes "URG" ∷ []

abbrev pub signals4 : List Name
signals4 =
    codes "ABRT"
    ∷ codes "ALRM"
    ∷ codes "CHLD"
    ∷ codes "CONT"
    ∷ codes "PIPE"
    ∷ codes "QUIT"
    ∷ codes "TERM"
    ∷ codes "TSTP"
    ∷ codes "TTIN"
    ∷ codes "TTOU"
    ∷ codes "USR1"
    ∷ codes "USR2"
    ∷ codes "POLL"
    ∷ codes "PROF"
    ∷ codes "TRAP"
    ∷ codes "XCPU"
    ∷ codes "XCPU"
    ∷ []

-- The name behind `SIG`, of length `n`, that the `switch` knows.
unfoldable pub signal_name : ℕ → Text → Option Name
unfolding find_start
signal_name n q =
    if n == 3
    then find_start signals3 q
    else if n == 4
    then find_start signals4 q
    else find_start (codes "VTALRM" ∷ []) q

-- The event for the name behind `ESMA_`, of length `n`; 0 for none.
unfoldable pub event_of : ℕ → Text → ℕ
event_of n q =
    if n == 7
    then (if starts (codes "POLLHUP") q
        then pollhup
        else if starts (codes "POLLERR") q
        then pollerr
        else if starts (codes "POLLOUT") q
        then pollout
        else 0)
    else if n == 6
    then (if starts (codes "POLLIN") q then pollin else 0)
    else 0
