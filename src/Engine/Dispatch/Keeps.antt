-- ===== src/Engine/Dispatch/Keeps.antt =====
-- What a dispatch leaves alone, whatever the surroundings answer.
use esma.Base.{
  ℕ, zero, suc, ◌+◌, ◌≡◌, inl, inr, Bool, true, false, Option, none, some, Option-cases, Bool-cases,
  ◌==◌, if◌then◌else◌, bit_and,
}
use esma.Engine.Types.{
  Machine, State, Channel, Trans, TransArray, nth, pollin, ch_tick, ch_sign, ch_data,
  listening_channel,
}
use esma.Engine.World.{
  Call, handler, read_tick, read_sign, read_avail, arm, disarm, watch, Surroundings, World, Outcome,
  value, returns, exits, crash, M, and_then, ◌>>=◌, ◌>>◌, pure, return, deref, call, check,
  for_each, set_bytes_avail, set_current, machine, state_at,
}
use esma.Engine.Dispatch.{
  ask_avail, ask_unless_listening, read_io, read_channel, start_channels, stop_channels,
  leave_state, entered, enter_state, left_state, transit, deliver,
}

-- `m` keeps a predicate of the machines, whatever its outcome.
abbrev pub Keeps : {A : Type 0} → ((ℕ → Machine) → Type 0) → M A → Type 0
Keeps P m = (w : World) → P w.machines → P (m w).1.machines

module _ (P : (ℕ → Machine) → Type 0) where
  Keeps-and_then :
      {A B : Type 0} (r : Outcome A × World) (f : A → M B)
      → P r.1.machines
      → ((a : A) → Keeps P (f a))
      → P (and_then r f).1.machines
  Keeps-and_then (value a, w) f h k = k a w h
  Keeps-and_then (returns n, w) f h k = h
  Keeps-and_then (exits, w) f h k = h
  Keeps-and_then (crash, w) f h k = h

  pub Keeps-bind :
      {A B : Type 0} (m : M A) (f : A → M B)
      → Keeps P m
      → ((a : A) → Keeps P (f a))
      → Keeps P (m >>= f)
  Keeps-bind m f h k w p = Keeps-and_then (m w) f (h w p) k

  pub Keeps-then :
      {B : Type 0} (m : M (Unit {0})) (k : M B) → Keeps P m → Keeps P k → Keeps P (m >> k)
  Keeps-then m k h h' w p = Keeps-and_then (m w) (λ _. k) (h w p) (λ _. h')

  pub Keeps-deref : {A : Type 0} (o : Option A) → Keeps P (deref o)
  Keeps-deref none w p = p
  Keeps-deref (some a) w p = p

  pub Keeps-if :
      {A : Type 0} (b : Bool) (m k : M A) → Keeps P m → Keeps P k → Keeps P (if b then m else k)
  Keeps-if true m k h h' = h
  Keeps-if false m k h h' = h'

  pub Keeps-for_each :
      (n i : ℕ) (body : ℕ → M (Unit {0}))
      → ((i : ℕ) → Keeps P (body i))
      → Keeps P (for_each n i body)
  unfolding for_each
  Keeps-for_each zero i body h w p = p
  Keeps-for_each (suc n) i body h w p =
      Keeps-and_then (body i w) (λ _. for_each n (i + 1) body) (h i w p)
        (λ _. Keeps-for_each n (i + 1) body h)

  module _ (env : Surroundings) where
    pub Keeps-call : (c : Call) → Keeps P (call env c)
    unfolding call
    Keeps-call c w p = p

    pub Keeps-check : (c : Call) (failed : Outcome (Unit {0})) → Keeps P (check env c failed)
    unfolding check
    Keeps-check c failed w p = elim (Bool-cases (env.answer w.calls c == 0)) [
      | inl e ↦ rw e p
      | inr e ↦ rw e p
    ]

    Keeps-each :
        (n : ℕ) (a : TransArray) (body : Trans → M (Unit {0}))
        → ((t : Trans) → Keeps P (body t))
        → Keeps P (for_each n 0 (λ i. deref (nth a i) >>= body))
    Keeps-each n a body h =
        Keeps-for_each n 0 _ (λ i. Keeps-bind (deref (nth a i)) body (Keeps-deref (nth a i)) h)

    pub Keeps-stop_channels : (s : State) → Keeps P (stop_channels env s)
    unfolding stop_channels
    Keeps-stop_channels s =
        Keeps-then _ _
          (Keeps-each s.tick_trans.nitems s.tick_trans _
            (λ t. Keeps-check (disarm t.ch.fd) (returns 1)))
          (Keeps-each s.sign_trans.nitems s.tick_trans _
            (λ t. Keeps-check (watch t.ch.fd 0) (returns 1)))

    pub Keeps-start_channels : (s : State) → Keeps P (start_channels env s)
    unfolding start_channels
    Keeps-start_channels s =
        Keeps-then _ _
          (Keeps-each s.tick_trans.nitems s.tick_trans _ (λ t.
            Keeps-then _ _ (Keeps-check (arm t.ch.fd t.ch.interval_msec t.ch.periodic) exits)
              (Keeps-check (watch t.ch.fd pollin) exits)))
          (Keeps-each s.sign_trans.nitems s.sign_trans _
            (λ t. Keeps-check (watch t.ch.fd pollin) exits))

    pub Keeps-leave_state :
        (s : State) (src dst : ℕ) (ptr : Option ℕ) → Keeps P (leave_state env s src dst ptr)
    unfolding leave_state
    Keeps-leave_state s src dst ptr w p = elim (Option-cases s.leave) [
      | inl e ↦ rw e p
      | inr (f, e) ↦ rw e (Keeps-call (handler f src dst ptr) w p)
    ]

    Keeps-ask_avail :
        (i fd : ℕ) → ((n : ℕ) → Keeps P (set_bytes_avail i n)) → Keeps P (ask_avail env i fd)
    unfolding ask_avail
    Keeps-ask_avail i fd set w p =
        Keeps-then (check env (read_avail fd) (returns 1))
          (set_bytes_avail i (env.avail w.calls fd)) (Keeps-check (read_avail fd) (returns 1))
          (set (env.avail w.calls fd)) w p

    Keeps-ask_unless_listening :
        (i : ℕ) (ch : Channel)
        → ((n : ℕ) → Keeps P (set_bytes_avail i n))
        → Keeps P (ask_unless_listening env i ch)
    unfolding ask_unless_listening
    Keeps-ask_unless_listening i ch set w p =
        elim (Bool-cases (bit_and ch.flags listening_channel == 0)) [
          | inl e ↦ rw e (Keeps-ask_avail i ch.fd set w p)
          | inr e ↦ rw e p
        ]

    Keeps-read_io : (i : ℕ) → ((n : ℕ) → Keeps P (set_bytes_avail i n)) → Keeps P (read_io env i)
    unfolding read_io machine
    Keeps-read_io i set w p = Keeps-ask_unless_listening i (w.machines i).io_channel set w p

    pub Keeps-read_channel :
        (i : ℕ) (ch : Channel)
        → ((n : ℕ) → Keeps P (set_bytes_avail i n))
        → Keeps P (read_channel env i ch)
    unfolding read_channel
    Keeps-read_channel i ch set w p =
        Keeps-if (ch.type == ch_tick) (check env (read_tick ch.fd) (returns 1)) _
          (Keeps-check (read_tick ch.fd) (returns 1))
          (Keeps-if (ch.type == ch_sign) (check env (read_sign ch.fd) (returns 1)) _
            (Keeps-check (read_sign ch.fd) (returns 1))
            (Keeps-if (ch.type == ch_data) (read_io env i) (pure tt) (Keeps-read_io i set)
              (λ v q. q)))
          w p

    Keeps-entered :
        (src dst : ℕ) (ptr : Option ℕ) (s : State) (err : ℕ)
        → Keeps P (entered env src dst ptr s err)
    unfolding entered
    Keeps-entered src dst ptr s err =
        Keeps-if (err == 0) (start_channels env s >> pure 0)
          (leave_state env s src dst ptr >>= (λ ignored. return err))
          (Keeps-then (start_channels env s) (pure 0) (Keeps-start_channels s) (λ v q. q))
          (Keeps-bind (leave_state env s src dst ptr) (λ ignored. return err)
            (Keeps-leave_state s src dst ptr) (λ a v q. q))

    Keeps-enter_state :
        (src dst : ℕ) (ptr : Option ℕ) (k : ℕ) (m : Machine)
        → Keeps P (enter_state env src dst ptr k m)
    unfolding enter_state
    Keeps-enter_state src dst ptr k m =
        Keeps-bind (deref (state_at m k))
          (λ s. call env (handler s.enter src dst ptr) >>= entered env src dst ptr s)
          (Keeps-deref (state_at m k))
          (λ s.
            Keeps-bind (call env (handler s.enter src dst ptr)) (entered env src dst ptr s)
              (Keeps-call (handler s.enter src dst ptr)) (Keeps-entered src dst ptr s))

    Keeps-left_state :
        (src dst : ℕ) (ptr : Option ℕ) (k left : ℕ)
        → Keeps P (set_current dst k)
        → Keeps P (left_state env src dst ptr k left)
    unfolding left_state
    Keeps-left_state src dst ptr k left set =
        Keeps-if (left == 0) (set_current dst k >>= enter_state env src dst ptr k) (return 1)
          (Keeps-bind (set_current dst k) (enter_state env src dst ptr k) set
            (Keeps-enter_state src dst ptr k))
          (λ v q. q)

    -- If the new state of the machine keeps `P`, so does the whole transition.
    pub Keeps-transit :
        (src dst : ℕ) (ptr : Option ℕ) (s : State) (k : ℕ)
        → Keeps P (set_current dst k)
        → Keeps P (transit env src dst ptr s k)
    unfolding transit
    Keeps-transit src dst ptr s k set =
        Keeps-then (stop_channels env s)
          (leave_state env s src dst ptr >>= left_state env src dst ptr k) (Keeps-stop_channels s)
          (Keeps-bind (leave_state env s src dst ptr) (left_state env src dst ptr k)
            (Keeps-leave_state s src dst ptr) (λ left. Keeps-left_state src dst ptr k left set))

    pub Keeps-deliver :
        (src dst : ℕ) (ptr : Option ℕ) (s : State) (t : Trans)
        → ((k : ℕ) → t.next_state ≡ some k → Keeps P (set_current dst k))
        → Keeps P (deliver env src dst ptr s t)
    unfolding deliver
    Keeps-deliver src dst ptr s t set w p = elim (Option-cases t.next_state) [
      | inl e ↦ rw e (
          Keeps-bind (deref t.action) _ (Keeps-deref t.action)
            (λ f. Keeps-call (handler f src dst ptr)) w p)
      | inr (k, e) ↦ rw e (Keeps-transit src dst ptr s k (set k e) w p)
    ]
