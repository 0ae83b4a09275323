-- ===== src/Engine/Dispatch/Invariant.antt =====
-- The states of the machines through a dispatch.
use native.Mathlib.Decide.{ℕ_discrete}
use esma.Base.{
  ℕ, ◌<◌, ◌≡◌, refl, sym, ap, subst, ◌∙◌, ◌≢◌, ◌⊎◌, inl, inr, Option, none, some, get_elem?, length,
  ◌==◌, ==→eq, ne-beq, Bool-cases, Option-cases,
}
use esma.Engine.Types.{Machine, State, Channel, Trans, nth, pollin, pollout, pollerr, pollhup}
use esma.Engine.World.{
  Message, between, from_os, Source, io, ticks, signals, Surroundings, World, M, deref, ◌>>=◌,
  return, machine, set_bytes_avail, set_current, state_at,
}
use esma.Engine.Dispatch.{
  channel_of, trans_of, io_trans, opt_trans, read_channel, deliver, send_between, os_trans,
  send_read, send_found, send_os, send,
}
use esma.Engine.Dispatch.Keeps.{Keeps, Keeps-then, Keeps-read_channel, Keeps-deliver}

-- The transitions that a state holds.
pub data Has (s : State) : Trans → Type 0 where
  coded : (t : Trans) (i : ℕ) → nth s.trans i ≡ some t → Has s t
  on_tick : (t : Trans) (i : ℕ) → nth s.tick_trans i ≡ some t → Has s t
  on_sign : (t : Trans) (i : ℕ) → nth s.sign_trans i ≡ some t → Has s t
  on_pollin : Has s s.data_pollin
  on_pollout : Has s s.data_pollout
  on_pollerr : Has s s.data_pollerr

record In (m : Machine) (t : Trans) : Type 0 where
  index : ℕ
  state : State
  there : state_at m index ≡ some state
  has : Has state t

-- A machine whose current state is one of its states, like the target of every transition.
pub record IsMachine (m : Machine) : Type 0 where
  pub current_in : m.current_state < length m.states
  pub closed :
      (j : ℕ) (s : State) (t : Trans) (k : ℕ)
      → state_at m j ≡ some s
      → Has s t
      → t.next_state ≡ some k
      → k < length m.states

eq_of_some : {A : Type 0} {a b : A} → some a ≡ some b → a ≡ b
eq_of_some h = cc

module _ (P : (ℕ → Machine) → Type 0) where
  Keeps-found :
      {A B : Type 0} (o : Option A) (f : A → M B)
      → ((a : A) → o ≡ some a → Keeps P (f a))
      → Keeps P (deref o >>= f)
  Keeps-found none f h w p = p
  Keeps-found (some a) f h w p = h a refl w p

  module _ (env : Surroundings) where
    Keeps-opt_trans :
        {B : Type 0} (o : Option Trans) (f : Trans → M B)
        → ((t : Trans) → o ≡ some t → Keeps P (f t))
        → Keeps P (opt_trans o (return 1) >>= f)
    Keeps-opt_trans none f h w p = p
    Keeps-opt_trans (some t) f h w p = h t refl w p

io_trans-Has : (s : State) (code : ℕ) (t : Trans) → io_trans s code ≡ some t → Has s t
unfolding io_trans
io_trans-Has s code t h = elim (Bool-cases (code == pollin)) [
  | inl e ↦ subst (Has s) (eq_of_some (rw e at h)) on_pollin
  | inr e ↦ elim (Bool-cases (code == pollout)) [
    | inl e' ↦ subst (Has s) (eq_of_some (rw (e, e') at h)) on_pollout
    | inr e' ↦ elim (Bool-cases (code == pollerr)) [
      | inl e'' ↦ subst (Has s) (eq_of_some (rw (e, e', e'') at h)) on_pollerr
      | inr e'' ↦ elim (Bool-cases (code == pollhup)) [
        | inl e3 ↦ subst (Has s) (eq_of_some (rw (e, e', e'', e3) at h)) on_pollerr
        | inr e3 ↦ cc (rw (e, e', e'', e3) at h)
      ]
    ]
  ]
]

trans_of-In : (m : Machine) (source : Source) (t : Trans) → trans_of m source ≡ some t → In m t
unfolding trans_of
trans_of-In m io t h = cc
trans_of-In m (ticks k i) t h = elim (Option-cases (state_at m k)) [
  | inl e ↦ cc (rw (trans_of, e) at h)
  | inr (s, e) ↦ record {
    index = k;
    state = s;
    there = e;
    has = on_tick t i (rw (trans_of, e) at h);
  }
]
trans_of-In m (signals k i) t h = elim (Option-cases (state_at m k)) [
  | inl e ↦ cc (rw (trans_of, e) at h)
  | inr (s, e) ↦ record {
    index = k;
    state = s;
    there = e;
    has = on_sign t i (rw (trans_of, e) at h);
  }
]

module _ (P : (ℕ → Machine) → Type 0) (env : Surroundings) (m : Machine) where
  module _ (owner : ℕ)
      (move : (t : Trans) (k : ℕ)
        → In m t
        → t.next_state ≡ some k
        → Keeps P (set_current owner k)) where
    Keeps-delivered :
        (src : ℕ) (ptr : Option ℕ) (j : ℕ) (s s' : State) (t : Trans)
        → state_at m j ≡ some s'
        → Has s' t
        → Keeps P (deliver env src owner ptr s t)
    Keeps-delivered src ptr j s s' t e h =
        Keeps-deliver P env src owner ptr s t
          (λ k. move t k (record { index = j; state = s'; there = e; has = h }))

    Keeps-send_between : (src ptr code : ℕ) → Keeps P (send_between env src owner ptr code m)
    unfolding send_between
    Keeps-send_between src ptr code =
        Keeps-found P (state_at m m.current_state)
          (λ s. deref (nth s.trans code) >>= deliver env src owner (some ptr) s)
          (λ s e.
            Keeps-found P (nth s.trans code) (deliver env src owner (some ptr) s)
              (λ t e'. Keeps-delivered src (some ptr) m.current_state s s t e (coded t code e')))

    Keeps-os_trans :
        {B : Type 0} (source : Source) (code : ℕ) (s : State) (ch : Channel) (f : Trans → M B)
        → state_at m m.current_state ≡ some s
        → ((t : Trans) → In m t → Keeps P (f t))
        → Keeps P (os_trans env m source code s ch >>= f)
    unfolding os_trans
    Keeps-os_trans source code s ch f there h = elim (Bool-cases (ch.hard == 0)) [
      | inl e ↦ rw e (
          Keeps-opt_trans P env (io_trans s code) f (λ t e'. h t (record {
            index = m.current_state;
            state = s;
            there = there;
            has = io_trans-Has s code t e';
          })))
      | inr e ↦ rw e (Keeps-found P (trans_of m source) f (λ t e'. h t (trans_of-In m source t e')))
    ]

    Keeps-send_os :
        (source : Source) (code : ℕ)
        → ((n : ℕ) → Keeps P (set_bytes_avail owner n))
        → Keeps P (send_os env owner source code m)
    unfolding send_os send_found send_read
    Keeps-send_os source code set =
        Keeps-found P (channel_of m source) (send_found env owner source code m) (λ ch _.
          Keeps-found P (state_at m m.current_state)
            (λ s. os_trans env m source code s ch >>= send_read env owner ch s)
            (λ s there. Keeps-os_trans source code s ch (send_read env owner ch s) there (λ t i.
              Keeps-then P (read_channel env owner ch) (deliver env owner owner none s t)
                (Keeps-read_channel P env owner ch set)
                (Keeps-deliver P env owner owner none s t (λ k. move t k i)))))

-- The machines keep their states, each is in one of them, and the others are as before.
record Kept (before : ℕ → Machine) (owner : ℕ) (after : ℕ → Machine) : Type 0 where
  states : (i : ℕ) → (after i).states ≡ (before i).states
  current : (i : ℕ) → (after i).current_state < length (before i).states
  others : (i : ℕ) → i ≢ owner → after i ≡ before i

module _ (before : ℕ → Machine) (owner : ℕ) where
  Kept-set_current :
      (k : ℕ) → k < length (before owner).states → Keeps (Kept before owner) (set_current owner k)
  unfolding set_current
  Kept-set_current k below w p = record {
    states = λ i. elim (Bool-cases (owner == i)) [
      | inl e ↦ rw e (ap (λ j. (w.machines j).states) (==→eq e) ∙ p.states i)
      | inr e ↦ rw e (p.states i)
    ];
    current = λ i. elim (Bool-cases (owner == i)) [
      | inl e ↦ rw e (subst (λ j. k < length (before j).states) (==→eq e) below)
      | inr e ↦ rw e (p.current i)
    ];
    others = λ i ne. rw (ne-beq (λ e. ne (sym e))) (p.others i ne);
  }

  Kept-set_bytes_avail : (n : ℕ) → Keeps (Kept before owner) (set_bytes_avail owner n)
  unfolding set_bytes_avail
  Kept-set_bytes_avail n w p = record {
    states = λ i. elim (Bool-cases (owner == i)) [
      | inl e ↦ rw e (ap (λ j. (w.machines j).states) (==→eq e) ∙ p.states i)
      | inr e ↦ rw e (p.states i)
    ];
    current = λ i. elim (Bool-cases (owner == i)) [
      | inl e ↦ rw e (
          subst (λ j. (w.machines owner).current_state < length (before j).states) (==→eq e)
            (p.current owner))
      | inr e ↦ rw e (p.current i)
    ];
    others = λ i ne. rw (ne-beq (λ e. ne (sym e))) (p.others i ne);
  }

  module _ (env : Surroundings) (v : IsMachine (before owner)) where
    Kept-move :
        (t : Trans) (k : ℕ)
        → In (before owner) t
        → t.next_state ≡ some k
        → Keeps (Kept before owner) (set_current owner k)
    Kept-move t k i e = Kept-set_current k (v.closed i.index i.state t k i.there i.has e)

Kept-refl :
    (w : World) (owner : ℕ)
    → ((i : ℕ) → IsMachine (w.machines i))
    → Kept w.machines owner w.machines
Kept-refl w owner v = record {
  states = λ i. refl;
  current = λ i. (v i).current_in;
  others = λ i ne. refl;
}

IsMachine-states :
    {m m' : Machine}
    → IsMachine m
    → m'.states ≡ m.states
    → m'.current_state < length m.states
    → IsMachine m'
IsMachine-states {m} {m'} v e below = record {
  current_in = subst (λ ss. m'.current_state < length ss) (sym e) below;
  closed = λ j s t k there has next.
      subst (λ ss. k < length ss) (sym e)
        (v.closed j s t k (ap (λ ss. get_elem? ss j) (sym e) ∙ there) has next);
}

-- The machine that a message is for.
unfoldable pub receiver : Message → ℕ
receiver (between src dst ptr code) = dst
receiver (from_os owner source code) = owner

send-Kept :
    (env : Surroundings) (msg : Message) (w : World)
    → ((i : ℕ) → IsMachine (w.machines i))
    → Kept w.machines (receiver msg) (send env msg w).1.machines
unfolding send machine receiver
send-Kept env (between src dst ptr code) w v =
    Keeps-send_between (Kept w.machines dst) env (w.machines dst) dst
      (Kept-move w.machines dst env (v dst)) src ptr code w (Kept-refl w dst v)
send-Kept env (from_os owner source code) w v =
    Keeps-send_os (Kept w.machines owner) env (w.machines owner) owner
      (Kept-move w.machines owner env (v owner)) source code (Kept-set_bytes_avail w.machines owner)
      w (Kept-refl w owner v)

-- Whatever the handlers and the system answer, and however the dispatch of a message ends (a
-- value, an error, `exit`, a crash): if every machine was in one of its states and every transition
-- leads to one, the same holds afterwards, no machine's states have changed, and no machine but
-- the receiver has changed at all.
pub send-IsMachine :
    (env : Surroundings) (msg : Message) (w : World) (i : ℕ)
    → ((j : ℕ) → IsMachine (w.machines j))
    → IsMachine ((send env msg w).1.machines i)
      × (((send env msg w).1.machines i).states ≡ (w.machines i).states)
      × ((i ≡ receiver msg) ⊎ ((send env msg w).1.machines i ≡ w.machines i))
send-IsMachine env msg w i v =
    let kept = send-Kept env msg w v in
    (
      IsMachine-states (v i) (kept.states i) (kept.current i),
      kept.states i,
      elim (ℕ_discrete i (receiver msg)) [ yes e ↦ inl e | no ne ↦ inr (kept.others i ne) ],
    )
