-- ===== src/Echo.antt =====
-- programs/esma_echo_server/slave.c: what the machine of one client does. The answers of the kernel
-- are arguments; the states and transitions are those of slave.esma.
pub mod Recv
pub mod Send
pub mod Round
pub mod Master
use esma.Base.{
  ℕ, zero, suc, ◌+◌, ◌-◌, ◌^◌, Bool, true, false, ◌&&◌, Option, none, some, List, [], ◌∷◌, length,
  ltb, leb, ◌==◌, if◌then◌else◌,
}
use esma.Base.Bytes.{Memory, read, write, u32, sub32}
use esma.Dbuf.{Dbuf, init, expand, clear, get_last}
use esma.Engine.Types.{pollin, pollout}

-- What a handler does, in order: a message to its own machine, the events that it asks for, a write
-- to the client, the end of the connection, and the return of the machine to the pool.
pub data Act : Type 0 where
  message : ℕ → Act
  watch : ℕ → Act
  sends : List ℕ → Act
  accepts : Act
  closes : Act
  released : Act

-- A handler that returns, with the buffer, or one that works on memory that is not its own.
pub data Turn : Type 0 where
  turn : Dbuf → List Act → Turn
  wild : Turn

-- What `read` answers: bytes, at most as many as were asked for, or -1.
pub data Read : Type 0 where
  got : List ℕ → Read
  failing : Read

pub data Write : Type 0 where
  wrote : ℕ → Write
  interrupted : Write
  broken : Write

abbrev pub newline : ℕ
newline = 10

-- `slave_init_enter`: the buffer, if memory is there for `slave_info` and for it.
unfoldable pub init_enter : Bool → Option Memory → Option Dbuf × List Act
unfolding init
init_enter false malloc = (none, message 3 ∷ [])
init_enter true malloc = elim (init 1024 malloc) [
  | none ↦ (none, message 3 ∷ [])
  | some d ↦ (some d, message 0 ∷ [])
]

-- `slave_idle_1`, with whether there is a server and whether a client could be accepted
unfoldable pub idle_1 : Bool → Bool → List Act
idle_1 server client = if server && client then accepts ∷ message 0 ∷ [] else message 3 ∷ []

-- `slave_recv_enter`
unfoldable pub recv_enter : Dbuf → Turn
unfolding clear
recv_enter d = turn (clear d) (watch pollin ∷ [])

-- The buffer with room for `ba` more bytes.
unfoldable pub make_room : Dbuf → ℕ → Option Memory → Option Dbuf
unfolding expand
make_room d ba realloc =
    let space = sub32 d.len d.cnt in
    if ltb space ba then expand d (sub32 (d.len + ba) space) realloc else some d

-- After `read`, whose answer is `n` as a u32.
unfoldable pub after_read : Dbuf → ℕ → ℕ → Turn
unfolding get_last
after_read d ba n =
    let d' = record d { cnt = u32 (d.cnt + n) } in
    if (n == ba) && (get_last d' == newline)
    then turn d' (message 0 ∷ [])
    else turn (record d' { pos = d.pos + n }) []

-- The kernel writes at `pos`; -1 is no negative number for a u32.
unfoldable pub read_into : ℕ → Read → Dbuf → Turn
unfolding after_read
read_into ba (got bytes) d =
    if leb (d.pos + length bytes) d.len
    then after_read (record d { loc = write d.loc d.pos bytes }) ba (length bytes)
    else wild
read_into ba failing d = after_read d ba (2 ^ 32 - 1)

unfoldable pub recv_room : Dbuf → ℕ → Read → Option Dbuf → Turn
unfolding read_into
recv_room d ba answer none = turn d (message 1 ∷ [])
recv_room d ba answer (some d') = read_into ba answer d'

-- `slave_recv_data_0`; `ba` is what FIONREAD told.
unfoldable pub recv_data_0 : Dbuf → ℕ → Option Memory → Read → Turn
unfolding recv_room make_room
recv_data_0 d ba realloc answer =
    if ba == 0 then turn d (message 1 ∷ []) else recv_room d ba answer (make_room d ba realloc)

-- `slave_recv_data_1`
unfoldable pub recv_data_1 : Dbuf → Turn
recv_data_1 d = turn (record d { pos = 0 }) (message 1 ∷ [])

-- `slave_recv_tick_0` and `slave_send_tick_0`
unfoldable pub timeout : Dbuf → Turn
timeout d = turn d (message 1 ∷ [])

-- `slave_send_enter`
unfoldable pub send_enter : Dbuf → Turn
send_enter d = turn d (watch pollout ∷ [])

-- After `write`.
unfoldable pub written : Dbuf → Write → Turn
unfolding clear
written d interrupted = turn d []
written d broken = turn (clear d) (message 1 ∷ [])
written d (wrote n) =
    let out = sends (read d.loc d.pos n) in
    if n == d.cnt
    then turn d (out ∷ watch 0 ∷ message 0 ∷ [])
    else turn (record d { pos = d.pos + n; cnt = sub32 d.cnt n }) (out ∷ [])

-- `slave_send_data_0`; `write` reads `cnt` bytes from `pos` on.
unfoldable pub send_data_0 : Dbuf → Write → Turn
unfolding written
send_data_0 d answer = if leb (d.pos + d.cnt) d.len then written d answer else wild

-- `slave_done_enter`, with what the put into the pool answers; none is `exit(1)`.
unfoldable pub done_enter : ℕ → Option (List Act)
done_enter err = if err == 0 then some (closes ∷ released ∷ message 0 ∷ []) else none
