-- ===== src/Engine/Machines/Closed.antt =====
-- Where the transitions of a machine lead after its channels are registered.
use esma.Base.{
  ℕ, zero, suc, ◌+◌, ◌≡◌, refl, ap, sym, ◌∙◌, Option, List, [], ◌∷◌, ◌++◌, length, Option-cases,
  inl, inr,
}
use esma.Engine.Types.{Trans, State}
use esma.Engine.Load.Bound.{Bound, AllBound, Closed, AllClosed}
use esma.Engine.World.{Source, signals, ticks}
use esma.Engine.Machines.{
  Added, added, Ended, fine, failed, crash, Kernel, set_tick, set_sign, with_fd, register_cells,
  register_ticks, register_signs, register_state, register, with_ticks, after_signs, after_ticks,
  after_state,
}

-- A registration changes no next state.
abbrev Keeps : (Trans → Trans) → Type 0
Keeps set = (t : Trans) → (set t).next_state ≡ t.next_state

Bound-keeps : (n : ℕ) (t u : Trans) → u.next_state ≡ t.next_state → Bound n t → Bound n u
Bound-keeps n t u e b k h = b k (sym e ∙ h)

register_cells-AllBound :
    (m : ℕ) (ask : List Added → Trans → Option ℕ) (set : Trans → Trans) (source : ℕ → Source)
    (n j : ℕ) (ts : List Trans) (log : List Added)
    → Keeps set
    → AllBound m ts
    → AllBound m (register_cells ask set source n j ts log).0
unfolding register_cells with_fd
register_cells-AllBound m ask set source zero j ts log k b = b
register_cells-AllBound m ask set source (suc n) j [] log k b = tt
register_cells-AllBound m ask set source (suc n) j (t ∷ ts) log k (b, bs) =
    elim (Option-cases (ask log t)) [
      | inl e ↦ rw (register_cells, e) (Bound-keeps m t (set t) (k t) b, bs)
      | inr (fd, e) ↦
          rw (register_cells, e)
            (
              Bound-keeps m t (with_fd fd (set t)) (k t) b,
              register_cells-AllBound m ask set source n (j + 1) ts
                  (log ++ added fd (source j) ∷ []) k bs,
            )
    ]

abbrev Triple : Type 0
Triple = List Trans × List Added × Ended

after_signs-Closed :
    (m : ℕ) (s : State) (r : Triple) → Closed m s → AllBound m r.0 → Closed m (after_signs s r).0
after_signs-Closed m s (ts, log, e) c b = record {
  own = c.own;
  tick = c.tick;
  sign = b;
  on_in = c.on_in;
  on_out = c.on_out;
  on_err = c.on_err;
}

with_ticks-Closed :
    (m : ℕ) (s : State) (ts : List Trans) → Closed m s → AllBound m ts → Closed m (with_ticks s ts)
with_ticks-Closed m s ts c b = record {
  own = c.own;
  tick = b;
  sign = c.sign;
  on_in = c.on_in;
  on_out = c.on_out;
  on_err = c.on_err;
}

module _ (kernel : Kernel) (owner m : ℕ) where
  signs-AllBound :
      (i : ℕ) (s : State) (log : List Added)
      → Closed m s
      → AllBound m (register_signs kernel owner i s.sign_trans log).0
  unfolding register_signs set_sign
  signs-AllBound i s log c =
      register_cells-AllBound m (λ l t. kernel.signal l t.ch.raw_data) (set_sign owner)
        (λ j. signals i j) s.sign_trans.nitems 0 s.sign_trans.cells log (λ t. refl) c.sign

  after_ticks-Closed :
      (i : ℕ) (s : State) (r : Triple)
      → Closed m s
      → AllBound m r.0
      → Closed m (after_ticks kernel owner i s r).0
  after_ticks-Closed i s (ts, log, fine) c b =
      let c' = with_ticks-Closed m s ts c b in
      after_signs-Closed m (with_ticks s ts) (register_signs kernel owner i s.sign_trans log) c'
        (signs-AllBound i s log c)
  after_ticks-Closed i s (ts, log, failed) c b = with_ticks-Closed m s ts c b
  after_ticks-Closed i s (ts, log, crash) c b = with_ticks-Closed m s ts c b

  register_state-Closed :
      (i : ℕ) (s : State) (log : List Added)
      → Closed m s
      → Closed m (register_state kernel owner i s log).0
  unfolding register_state register_ticks set_tick
  register_state-Closed i s log c =
      after_ticks-Closed i s (register_ticks kernel owner i s.tick_trans log) c (
        register_cells-AllBound m (λ l t. kernel.timer l) (set_tick owner) (λ j. ticks i j)
          s.tick_trans.nitems 0 s.tick_trans.cells log (λ t. refl) c.tick)

  after_state-Closed :
      (rest : List Added → List State × List Added × Ended) (ss : List State)
      (r : State × List Added × Ended)
      → Closed m r.0
      → AllClosed m ss
      → ((log : List Added) → AllClosed m (rest log).0 × (length (rest log).0 ≡ length ss))
      → AllClosed m (after_state rest ss r).0 × (length (after_state rest ss r).0 ≡ suc (length ss))
  after_state-Closed rest ss (s, log, fine) c cs h = ((c, (h log).0), ap suc (h log).1)
  after_state-Closed rest ss (s, log, failed) c cs h = ((c, cs), refl)
  after_state-Closed rest ss (s, log, crash) c cs h = ((c, cs), refl)

  -- The transitions lead to the same states as before.
  pub register-Closed :
      (i : ℕ) (ss : List State) (log : List Added)
      → AllClosed m ss
      → AllClosed m (register kernel owner i ss log).0
        × (length (register kernel owner i ss log).0 ≡ length ss)
  unfolding register
  register-Closed i [] log c = (tt, refl)
  register-Closed i (s ∷ ss) log (c, cs) =
      after_state-Closed (register kernel owner (i + 1) ss) ss (register_state kernel owner i s log)
        (register_state-Closed i s log c) cs (λ l. register-Closed (i + 1) ss l cs)
