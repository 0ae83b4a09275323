-- ===== src/Engine/Dispatch/Trace.antt =====
-- What a message between machines does when the system's own calls succeed: the calls in order.
use esma.Base.{
  ℕ, zero, suc, ◌+◌, ◌≤◌, ◌≡◌, refl, sym, ap, ◌∙◌, Bool, true, false, some, List, [], ◌∷◌, ◌++◌,
  append-nil, append_assoc, get_elem?, length, length-append, arith,
}
use esma.Engine.Types.{State, Trans, nth, pollin}
use esma.Engine.World.{
  Call, handler, read_tick, read_sign, read_avail, arm, disarm, watch, Surroundings, World, Outcome,
  value, returns, exits, M, and_then, ◌>>=◌, ◌>>◌, deref, check, for_each,
}
use esma.Engine.Dispatch.{start_channels, stop_channels}

unfoldable pub is_handler : Call → Bool
is_handler (handler f src dst ptr) = true
is_handler (read_tick fd) = false
is_handler (read_sign fd) = false
is_handler (read_avail fd) = false
is_handler (arm fd interval_msec periodic) = false
is_handler (disarm fd) = false
is_handler (watch fd events) = false

-- The system's calls succeed, whatever the handlers answer.
abbrev pub SystemWorks : Surroundings → Type 0
SystemWorks env = (calls : List Call) (c : Call) → is_handler c ≡ false → env.answer calls c ≡ 0

abbrev pub emit : World → List Call → World
emit w cs = record w { calls = w.calls ++ cs }

-- The calls that `f` makes of the first `n` transitions of a list.
unfoldable pub each : (Trans → List Call) → ℕ → List Trans → List Call
each f zero ts = []
each f (suc n) [] = []
each f (suc n) (t ∷ ts) = f t ++ each f n ts

impossible : {n : ℕ} → suc n ≤ 0 → ⊥
impossible h = omega arith

-- `body` makes the calls `f` and goes on.
abbrev Makes : (Trans → M (Unit {0})) → (Trans → List Call) → Type 0
Makes body f = (t : Trans) (w : World) → body t w ≡ (value tt, emit w (f t))

pub emit-emit : (w : World) (a b : List Call) → emit (emit w a) b ≡ emit w (a ++ b)
emit-emit w a b = ap (λ cs. record w { calls = cs }) (append_assoc w.calls a b)

nth-append :
    (pre : List Trans) (t : Trans) (ts : List Trans)
    → get_elem? (pre ++ t ∷ ts) (length pre) ≡ some t
nth-append [] t ts = refl
nth-append (x ∷ pre) t ts = nth-append pre t ts

module _ {body : Trans → M (Unit {0})} {f : Trans → List Call} (h : Makes body f)
    (cells : List Trans) where
  abbrev rounds : ℕ → ℕ → M (Unit {0})
  rounds n i = for_each n i (λ j. deref (get_elem? cells j) >>= body)

  for_each-rest :
      (pre rest : List Trans) (i n : ℕ) (w : World)
      → cells ≡ pre ++ rest
      → i ≡ length pre
      → n ≤ length rest
      → rounds n i w ≡ (value tt, emit w (each f n rest))
  unfolding for_each each
  for_each-rest pre rest i zero w split e le =
      ap (λ cs. (value tt, record w { calls = cs })) (sym (append-nil w.calls))
  for_each-rest pre [] i (suc n) w split e le = absurd (impossible le)
  for_each-rest pre (t ∷ rest) i (suc n) w split e le =
      let found : get_elem? cells i ≡ some t = rw (split, e) (nth-append pre t rest) in
      ap (λ o. and_then ((deref o >>= body) w) (λ _. rounds n (i + 1))) found
      ∙ ap (λ r. and_then r (λ _. rounds n (i + 1))) (h t w)
      ∙ for_each-rest (pre ++ t ∷ []) rest (i + 1) n (emit w (f t))
          (split ∙ sym (append_assoc pre (t ∷ []) rest)) (omega (arith, length-append pre (t ∷ [])))
          (omega arith)
      ∙ ap (λ v. (value tt, v)) (emit-emit w (f t) (each f n rest))

  for_each-each :
      (n : ℕ) (w : World) → n ≤ length cells → rounds n 0 w ≡ (value tt, emit w (each f n cells))
  for_each-each n w le = for_each-rest [] cells 0 n w refl refl le

-- A state whose channels the dispatcher can reach: the loop over the signal channels indexes the
-- timers' array.
pub record InRange (s : State) : Type 0 where
  pub ticks : s.tick_trans.nitems ≤ length s.tick_trans.cells
  pub signs : s.sign_trans.nitems ≤ length s.sign_trans.cells
  pub signs_in_ticks : s.sign_trans.nitems ≤ length s.tick_trans.cells

-- The calls that leaving a state makes of its channels, and those that entering one makes.
unfoldable pub stops : State → List Call
stops s =
    each (λ t. disarm t.ch.fd ∷ []) s.tick_trans.nitems s.tick_trans.cells
    ++ each (λ t. watch t.ch.fd 0 ∷ []) s.sign_trans.nitems s.tick_trans.cells

unfoldable pub starts : State → List Call
starts s =
    each (λ t. arm t.ch.fd t.ch.interval_msec t.ch.periodic ∷ watch t.ch.fd pollin ∷ [])
      s.tick_trans.nitems s.tick_trans.cells
    ++ each (λ t. watch t.ch.fd pollin ∷ []) s.sign_trans.nitems s.sign_trans.cells

module _ (env : Surroundings) (works : SystemWorks env) where
  check-works :
      (c : Call) (failed : Outcome (Unit {0})) (w : World)
      → is_handler c ≡ false
      → check env c failed w ≡ (value tt, emit w (c ∷ []))
  unfolding check
  check-works c failed w h = rw (works w.calls c h)

  pub stop_channels-works :
      (s : State) (w : World) → InRange s → stop_channels env s w ≡ (value tt, emit w (stops s))
  unfolding stop_channels stops is_handler
  stop_channels-works s w v =
      ap
        (λ r. and_then r (λ _.
          for_each s.sign_trans.nitems 0
            (λ i. deref (nth s.tick_trans i) >>= (λ t. check env (watch t.ch.fd 0) (returns 1)))))
        (for_each-each (λ t w'. check-works (disarm t.ch.fd) (returns 1) w' refl) s.tick_trans.cells
          s.tick_trans.nitems w v.ticks)
      ∙ for_each-each (λ t w'. check-works (watch t.ch.fd 0) (returns 1) w' refl) s.tick_trans.cells
          s.sign_trans.nitems
          (emit w (each (λ t. disarm t.ch.fd ∷ []) s.tick_trans.nitems s.tick_trans.cells))
          v.signs_in_ticks
      ∙ ap (λ w'. (value tt, w')) (emit-emit w _ _)

  start-tick :
      Makes
        (λ t.
          check env (arm t.ch.fd t.ch.interval_msec t.ch.periodic) exits
          >> check env (watch t.ch.fd pollin) exits)
        (λ t. arm t.ch.fd t.ch.interval_msec t.ch.periodic ∷ watch t.ch.fd pollin ∷ [])
  unfolding is_handler
  start-tick t w =
      let first = arm t.ch.fd t.ch.interval_msec t.ch.periodic in
      ap (λ r. and_then r (λ _. check env (watch t.ch.fd pollin) exits))
        (check-works first exits w refl)
      ∙ check-works (watch t.ch.fd pollin) exits (emit w (first ∷ [])) refl
      ∙ ap (λ w'. (value tt, w')) (emit-emit w (first ∷ []) (watch t.ch.fd pollin ∷ []))

  pub start_channels-works :
      (s : State) (w : World) → InRange s → start_channels env s w ≡ (value tt, emit w (starts s))
  unfolding start_channels starts is_handler
  start_channels-works s w v =
      ap
        (λ r. and_then r (λ _.
          for_each s.sign_trans.nitems 0
            (λ i. deref (nth s.sign_trans i) >>= (λ t. check env (watch t.ch.fd pollin) exits))))
        (for_each-each start-tick s.tick_trans.cells s.tick_trans.nitems w v.ticks)
      ∙ for_each-each (λ t w'. check-works (watch t.ch.fd pollin) exits w' refl) s.sign_trans.cells
          s.sign_trans.nitems _ v.signs
      ∙ ap (λ w'. (value tt, w')) (emit-emit w _ _)
