-- ===== src/Tests/Echo.antt =====
-- The echo server at a buffer of four bytes.
use esma.Base.{ℕ, ◌≡◌, refl, ◌⊎◌, inl, inr, true, none, some, ◌+◌, List, [], ◌∷◌, length, arith}
use esma.Objpool as Pool
use esma.Objpool.{Objpool, get}
use esma.Objpool.Stack.{contents}
use esma.Echo.Master.{init_slaves, work_data_0}
use esma.Echo.Master.Hall.{Hall, Moves, Reach, Orderly, here, next, connects, Serves, count}
use esma.Echo.Master.Serves.{pushed_all, reach-count}
use esma.Base.Bytes.{Memory, read, write}
use esma.Dbuf.{Dbuf}
use esma.Echo.{
  Act, message, sends, watch, turn, wild, got, wrote, interrupted, recv_data_0, send_data_0,
}
use esma.Echo.Recv.{Received, Complete, Reads, is_last, last_of, recv_data_0-Reads}
use esma.Echo.Send.{Takes, bytes_of, messages_of}
use esma.Echo.Round.{echo_run, echo_once, send_data_0-Complete}

abbrev buffer : Memory → ℕ → ℕ → Dbuf
buffer m pos cnt = record { loc = m; pos = pos; cnt = cnt; len = 4 }

abbrev fresh : Memory
fresh a = 7

abbrev line : List ℕ
line = 104 ∷ 105 ∷ 10 ∷ []

fresh-Received : Received (buffer fresh 0 0) []
unfolding read
fresh-Received = record { pos = refl; cnt = refl; fits = omega arith; held = refl }

recv_data_0-Reads_example :
    Reads [] 3 line (recv_data_0 (buffer fresh 0 0) 3 (some fresh) (got line))
recv_data_0-Reads_example =
    recv_data_0-Reads (buffer fresh 0 0) [] line 3 fresh fresh-Received (omega arith) (omega arith)
      (omega arith) (omega arith)

line-is_last : is_last (length line) line ≡ true
unfolding is_last last_of
line-is_last = refl

portions : Takes (length line) (wrote 1 ∷ interrupted ∷ wrote 2 ∷ [])
portions = inr (omega arith, inl (refl, refl))

echo_once_example :
    (acts : List Act) × (echo_run
        (some fresh)
        ((length line, got line) ∷ [])
        (wrote 1 ∷ interrupted ∷ wrote 2 ∷ [])
        (buffer fresh 2 3)
      ≡ some acts)
    × (bytes_of acts ≡ line)
    × (messages_of acts ≡ 0 ∷ 0 ∷ [])
echo_once_example =
    echo_once (buffer fresh 2 3) line (wrote 1 ∷ interrupted ∷ wrote 2 ∷ []) fresh (omega arith)
      (omega arith) line-is_last portions

abbrev filled : Memory
filled = write fresh 0 line

late-Complete : Complete (buffer filled 1 3) (104 ∷ []) (105 ∷ 10 ∷ [])
unfolding read write
late-Complete = record { pos = refl; cnt = refl; fits = omega arith; held = refl }

send_data_0-Complete_example :
    (send_data_0 (buffer filled 1 3) (wrote 3) ≡ wild)
    ⊎ ((stale : List ℕ) × (length stale ≡ 1)
        × (send_data_0 (buffer filled 1 3) (wrote 3)
            ≡ turn (buffer filled 1 3) (sends (105 ∷ 10 ∷ stale) ∷ watch 0 ∷ message 0 ∷ [])))
send_data_0-Complete_example =
    send_data_0-Complete (buffer filled 1 3) (104 ∷ []) (105 ∷ 10 ∷ []) late-Complete

-- Two slaves; a client is with the second.
abbrev two_slaves : List ℕ
two_slaves = 7 ∷ 8 ∷ []

abbrev restroom : Objpool
restroom = record { capacity = 2; capdelta = 0; items = λ i. 0; size = 0; min_size = 0 }

abbrev opened : Hall
opened = record { pool = pushed_all two_slaves restroom; busy = [] }

abbrev serving : Hall
serving = record { pool = record (pushed_all two_slaves restroom) { size = 1 }; busy = 8 ∷ [] }

abbrev serving_moves : Moves none opened serving
unfolding work_data_0 get
serving_moves = connects 8 serving.pool true refl

abbrev serving-Reach : Reach none opened serving
serving-Reach = next opened serving here serving_moves

reach-count_example :
    (init_slaves none two_slaves restroom ≡ some (pushed_all two_slaves restroom))
    × ((x : ℕ) → count x (contents serving.pool) + count x serving.busy ≡ count x two_slaves)
    × Serves serving
unfolding Pool.init count Orderly serving_moves
reach-count_example =
    reach-count none (λ i. 0) two_slaves restroom serving refl (omega arith) (omega arith) refl
      serving-Reach (tt, tt)
