-- ===== src/Echo/Send.antt =====
-- Sending of the echo server: what the client gets of the buffer.
use esma.Base.{
  ℕ, ◌+◌, ◌-◌, ◌^◌, ◌≤◌, ◌<◌, ◌≡◌, refl, ap, sym, subst, ◌∙◌, ◌⊎◌, inl, inr, true, Option, none,
  some, List, [], ◌∷◌, ◌++◌, append-nil, leb, eq-beq, ne-beq, arith,
}
use esma.Base.Bytes.{read, sub32}
use esma.Dbuf.{Dbuf}
use esma.Echo.{
  Act, message, watch, sends, accepts, closes, released, Turn, turn, wild, Write, wrote,
  interrupted, broken, written, send_data_0,
}
use esma.Echo.Recv.{read-append}

-- The bytes that the client gets, and the messages that the machine sends itself.
unfoldable pub bytes_of : List Act → List ℕ
bytes_of [] = []
bytes_of (sends bytes ∷ acts) = bytes ++ bytes_of acts
bytes_of (message n ∷ acts) = bytes_of acts
bytes_of (watch n ∷ acts) = bytes_of acts
bytes_of (accepts ∷ acts) = bytes_of acts
bytes_of (closes ∷ acts) = bytes_of acts
bytes_of (released ∷ acts) = bytes_of acts

unfoldable pub messages_of : List Act → List ℕ
messages_of [] = []
messages_of (message n ∷ acts) = n ∷ messages_of acts
messages_of (sends bytes ∷ acts) = messages_of acts
messages_of (watch n ∷ acts) = messages_of acts
messages_of (accepts ∷ acts) = messages_of acts
messages_of (closes ∷ acts) = messages_of acts
messages_of (released ∷ acts) = messages_of acts

abbrev pub then_acts : List Act → Option (List Act) → Option (List Act)
then_acts acts none = none
then_acts acts (some rest) = some (acts ++ rest)

abbrev pub go_on : (Dbuf → Option (List Act)) → Turn → Option (List Act)
go_on next wild = none
go_on next (turn d acts) = then_acts acts (next d)

-- One `slave_send_data_0` for each answer of `write`; none if one reads what is not in the buffer.
unfoldable pub send_run : List Write → Dbuf → Option (List Act)
send_run [] d = some []
send_run (w ∷ ws) d = go_on (send_run ws) (send_data_0 d w)

-- The kernel takes `n` bytes, in any portions, with interruptions.
abbrev pub Takes : ℕ → List Write → Type 0
Takes n [] = ⊥
Takes n (interrupted ∷ ws) = Takes n ws
Takes n (broken ∷ ws) = ⊥
Takes n (wrote k ∷ ws) = ((k ≡ n) × (ws ≡ [])) ⊎ ((k < n) × Takes (n - k) ws)

-- Exactly these bytes were sent, and then the machine goes on.
pub record Sent (ws : List Write) (d : Dbuf) (bytes : List ℕ) : Type 0 where
  pub acts : List Act
  pub runs : send_run ws d ≡ some acts
  pub out : bytes_of acts ≡ bytes
  pub told : messages_of acts ≡ 0 ∷ []

module _ (d : Dbuf) (inside : d.pos + d.cnt ≤ d.len) where
  in_buffer : (w : Write) → send_data_0 d w ≡ written d w
  unfolding send_data_0
  in_buffer w = let e : leb (d.pos + d.cnt) d.len ≡ true = ground arith in rw (send_data_0, e) refl

  all-Sent : (k : ℕ) → k ≡ d.cnt → Sent (wrote k ∷ []) d (read d.loc d.pos d.cnt)
  unfolding send_run written bytes_of messages_of
  all-Sent k e = record {
    acts = sends (read d.loc d.pos k) ∷ watch 0 ∷ message 0 ∷ [];
    runs = ap (go_on (send_run [])) (in_buffer (wrote k)) ∙ rw (written, eq-beq e) refl;
    out = append-nil (read d.loc d.pos k) ∙ ap (read d.loc d.pos) e;
    told = refl;
  }

  abbrev left : ℕ → Dbuf
  left k = record d { pos = d.pos + k; cnt = sub32 d.cnt k }

  some-Sent :
      (k : ℕ) (ws : List Write)
      → k < d.cnt
      → d.cnt < 2 ^ 32
      → Sent ws (left k) (read d.loc (d.pos + k) (d.cnt - k))
      → Sent (wrote k ∷ ws) d (read d.loc d.pos d.cnt)
  unfolding send_run written bytes_of messages_of
  some-Sent k ws h small s = record {
    acts = sends (read d.loc d.pos k) ∷ s.acts;
    runs =
        ap (go_on (send_run ws)) (in_buffer (wrote k) ∙ part)
        ∙ ap (then_acts (sends (read d.loc d.pos k) ∷ [])) s.runs;
    out =
        ap (λ (r : List ℕ). read d.loc d.pos k ++ r) s.out
        ∙ sym (read-append d.loc d.pos k (d.cnt - k))
        ∙ ap (read d.loc d.pos) {x = k + (d.cnt - k)} {y = d.cnt} (omega arith);
    told = s.told;
  }
    where
      part : written d (wrote k) ≡ turn (left k) (sends (read d.loc d.pos k) ∷ [])
      part = rw (written, ne-beq {a = k} {b = d.cnt} (omega arith)) refl

  interrupted-Sent :
      (ws : List Write) (bytes : List ℕ) → Sent ws d bytes → Sent (interrupted ∷ ws) d bytes
  unfolding send_run written
  interrupted-Sent ws bytes s = record {
    acts = s.acts;
    runs = ap (go_on (send_run ws)) (in_buffer interrupted) ∙ ap (then_acts []) s.runs;
    out = s.out;
    told = s.told;
  }

pub send_run-Sent :
    (ws : List Write) (d : Dbuf) (n : ℕ)
    → d.cnt ≡ n
    → d.pos + n ≤ d.len
    → n < 2 ^ 32
    → Takes n ws
    → Sent ws d (read d.loc d.pos n)
send_run-Sent [] d n e inside small t = absurd t
send_run-Sent (interrupted ∷ ws) d n e inside small t =
    interrupted-Sent d (omega (arith, e)) ws (read d.loc d.pos n)
      (send_run-Sent ws d n e inside small t)
send_run-Sent (broken ∷ ws) d n e inside small t = absurd t
send_run-Sent (wrote k ∷ ws) d n e inside small (inl (q, nil)) =
    subst (λ (vs : List Write). Sent (wrote k ∷ vs) d (read d.loc d.pos n)) (sym nil)
      (subst (λ (m : ℕ). Sent (wrote k ∷ []) d (read d.loc d.pos m)) e
        (all-Sent d (omega (arith, e)) k (q ∙ sym e)))
send_run-Sent (wrote k ∷ ws) d n e inside small (inr (h, t)) =
    subst (λ (m : ℕ). Sent (wrote k ∷ ws) d (read d.loc d.pos m)) e
      (some-Sent d (omega (arith, e)) k ws (omega (arith, e)) (omega (arith, e)) (
        subst (λ (m : ℕ). Sent ws (left d (omega (arith, e)) k) (read d.loc (d.pos + k) m))
          (ap (λ (m : ℕ). m - k) (sym e))
          (send_run-Sent ws (left d (omega (arith, e)) k) (n - k) (omega (arith, e)) (omega arith)
            (omega arith) t)))
