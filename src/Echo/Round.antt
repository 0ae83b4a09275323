-- ===== src/Echo/Round.antt =====
-- A round of the echo server: a line is received and sent back.
use esma.Base.{
  ℕ, ◌+◌, ◌^◌, ◌<◌, ◌≡◌, refl, ap, sym, subst, ◌∙◌, ◌⊎◌, inl, inr, true, false, Option, some, List,
  [], ◌∷◌, ◌++◌, length, length-append, leb, Bool-cases, eq-beq, arith,
}
use esma.Base.Bytes.{Memory, read, length-read}
use esma.Dbuf.{Dbuf, clear}
use esma.Engine.Types.{pollin, pollout}
use esma.Echo.{
  Act, message, watch, sends, Turn, turn, wild, Read, got, Write, wrote, recv_enter, recv_data_0,
  written, send_enter, send_data_0,
}
use esma.Echo.Recv.{
  Received, Complete, complete, more, is_last, is_last-nonempty, recv_data_0-Reads, read-append,
}
use esma.Echo.Send.{bytes_of, messages_of, then_acts, go_on, send_run, Takes, Sent, send_run-Sent}

-- The client of one machine: these reads, then these writes; none if memory of others is touched.
unfoldable pub recv_run :
    Option Memory → List (ℕ × Read) → (Dbuf → Option (List Act)) → Dbuf → Option (List Act)
recv_run realloc [] next d = next d
recv_run realloc ((ba, answer) ∷ reads) next d =
    go_on (recv_run realloc reads next) (recv_data_0 d ba realloc answer)

unfoldable pub echo_run : Option Memory → List (ℕ × Read) → List Write → Dbuf → Option (List Act)
unfolding recv_run
echo_run realloc reads ws d =
    go_on (recv_run realloc reads (λ (e : Dbuf). go_on (send_run ws) (send_enter e))) (recv_enter d)

cleared-Received : (d : Dbuf) → Received (clear d) []
unfolding clear read
cleared-Received d = record { pos = refl; cnt = refl; fits = omega arith; held = refl }

-- A line that was received by one read is sent.
line-Sent :
    (d : Dbuf) (bytes : List ℕ) (ws : List Write)
    → Complete d [] bytes
    → length bytes < 2 ^ 32
    → Takes (length bytes) ws
    → Sent ws d bytes
line-Sent d bytes ws c small t =
    subst (Sent ws d) (ap (λ (o : ℕ). read d.loc o (length bytes)) c.pos ∙ c.held)
      (send_run-Sent ws d (length bytes) c.cnt (omega (arith, c.fits, c.pos)) small t)

line_echoed :
    (d e : Dbuf) (bytes : List ℕ) (ws : List Write) (realloc : Option Memory)
    → recv_data_0 (clear d) (length bytes) realloc (got bytes) ≡ turn e (message 0 ∷ [])
    → Sent ws e bytes
    → (acts : List Act) × (echo_run realloc ((length bytes, got bytes) ∷ []) ws d ≡ some acts)
      × (bytes_of acts ≡ bytes)
      × (messages_of acts ≡ 0 ∷ 0 ∷ [])
unfolding echo_run recv_run recv_enter send_enter bytes_of messages_of
line_echoed d e bytes ws realloc h s = (
  watch pollin ∷ message 0 ∷ watch pollout ∷ s.acts,
  ap (λ (t : Turn). then_acts (watch pollin ∷ []) (go_on after t)) h
      ∙ ap
          (λ (r : Option (List Act)).
            then_acts (watch pollin ∷ [])
              (then_acts (message 0 ∷ []) (then_acts (watch pollout ∷ []) r)))
          s.runs,
  s.out,
  ap (λ (l : List ℕ). 0 ∷ l) s.told,
)
  where
    after : Dbuf → Option (List Act)
    after x = go_on (send_run ws) (send_enter x)

impossible : true ≡ false → ⊥
impossible e = cc

-- If memory is there, a client whose line, of less than 4 GiB, comes with one read gets the same
-- bytes back, each once and in order, however the kernel divides or interrupts the writes; then the
-- machine tells itself first that the line is there and at last that it is sent, and nothing else.
pub echo_once :
    (d : Dbuf) (bytes : List ℕ) (ws : List Write) (junk : Memory)
    → d.len < 2 ^ 32
    → length bytes < 2 ^ 32
    → is_last (length bytes) bytes ≡ true
    → Takes (length bytes) ws
    → (acts : List Act) × (echo_run (some junk) ((length bytes, got bytes) ∷ []) ws d ≡ some acts)
      × (bytes_of acts ≡ bytes)
      × (messages_of acts ≡ 0 ∷ 0 ∷ [])
unfolding clear
echo_once d bytes ws junk small less line t =
    elim (recv_data_0-Reads (clear d) [] bytes (length bytes) junk (cleared-Received d) small
      (is_last-nonempty (length bytes) bytes line) (omega arith) (omega arith)) [
        | complete e last h c ↦
            line_echoed d e bytes ws (some junk) h (line-Sent e bytes ws c less t)
        | more e last h r ↦ absurd (impossible (sym line ∙ last))
      ]

behind-same_length :
    (front before back bytes : List ℕ)
    → length front ≡ length before
    → front ++ back ≡ before ++ bytes
    → back ≡ bytes
behind-same_length [] [] back bytes e h = h
behind-same_length [] (x ∷ xs) back bytes e h = absurd (omega arith)
behind-same_length (x ∷ xs) [] back bytes e h = absurd (omega arith)
behind-same_length (x ∷ xs) (y ∷ ys) back bytes e h =
    behind-same_length xs ys back bytes (omega arith) (tail_eq h)
  where
    tail_eq : x ∷ (xs ++ back) ≡ y ∷ (ys ++ bytes) → xs ++ back ≡ ys ++ bytes
    tail_eq q = cc

-- A line whose first bytes came with an earlier read is sent from where its last read began: the
-- client gets the bytes of that read and as many bytes behind the line as came before, or `write` is
-- given memory behind the buffer.
pub send_data_0-Complete :
    (d : Dbuf) (before bytes : List ℕ)
    → Complete d before bytes
    → (send_data_0 d (wrote d.cnt) ≡ wild)
      ⊎ ((stale : List ℕ) × (length stale ≡ length before)
          × (send_data_0 d (wrote d.cnt)
              ≡ turn d (sends (bytes ++ stale) ∷ watch 0 ∷ message 0 ∷ [])))
unfolding send_data_0 written
send_data_0-Complete d before bytes c = elim (Bool-cases (leb (d.pos + d.cnt) d.len)) [
  | inl e ↦ inr (
    read d.loc (d.pos + length bytes) (length before),
    length-read d.loc (d.pos + length bytes) (length before),
    rw (send_data_0, e, eq-beq {a = d.cnt} {b = d.cnt} refl)
        (ap (λ (bs : List ℕ). turn d (sends bs ∷ watch 0 ∷ message 0 ∷ [])) from_last),
  )
  | inr e ↦ inl (rw (send_data_0, e) refl)
]
  where
    from_last : read d.loc d.pos d.cnt ≡ bytes ++ read d.loc (d.pos + length bytes) (length before)
    from_last =
        ap (read d.loc d.pos) (c.cnt ∙ split)
        ∙ read-append d.loc d.pos (length bytes) (length before)
        ∙ ap (λ (bs : List ℕ). bs ++ read d.loc (d.pos + length bytes) (length before))
            (ap (λ (o : ℕ). read d.loc o (length bytes)) c.pos
              ∙ behind-same_length (read d.loc 0 (length before)) before
                  (read d.loc (length before) (length bytes)) bytes
                  (length-read d.loc 0 (length before))
                  (ap (λ (o : ℕ). read d.loc 0 (length before) ++ read d.loc o (length bytes))
                      {x = length before} {y = 0 + length before} (omega arith)
                    ∙ sym (read-append d.loc 0 (length before) (length bytes))
                    ∙ ap (read d.loc 0) (sym (length-append before bytes))
                    ∙ c.held))
      where
        split : length (before ++ bytes) ≡ length bytes + length before
        split = omega (arith, length-append before bytes)
