-- ===== src/Engine/Machines/Register.antt =====
-- What the reactor is told when the channels of a machine are registered.
use esma.Base.{
  ℕ, zero, suc, ◌+◌, ◌≤◌, ◌≡◌, refl, ap, sym, ◌∙◌, Option, some, List, [], ◌∷◌, ◌++◌, append_assoc,
  append-nil, length, arith,
}
use esma.Engine.Types.{Trans, State}
use esma.Engine.Load.Total.{Counted}
use esma.Engine.World.{Source, ticks, signals}
use esma.Engine.Machines.{
  Added, added, Ended, fine, Kernel, set_tick, set_sign, with_fd, keep, register_cells,
  register_ticks, register_signs, register_state, register, with_ticks, after_signs, after_ticks,
  after_state,
}

-- The descriptors of the counted cells of an array, from item `j` on.
unfoldable pub rows : (ℕ → Source) → ℕ → ℕ → List Trans → List Added
rows source zero j ts = []
rows source (suc n) j [] = []
rows source (suc n) j (t ∷ ts) = added t.ch.fd (source j) ∷ rows source n (j + 1) ts

-- The channels of the machine that have descriptors of their own, from state `i` on.
unfoldable pub channels : ℕ → List State → List Added
unfolding rows
channels i [] = []
channels i (s ∷ ss) =
    rows (ticks i) s.tick_trans.nitems 0 s.tick_trans.cells
    ++ (rows (signals i) s.sign_trans.nitems 0 s.sign_trans.cells ++ channels (i + 1) ss)

-- Counted cells are set and have got a descriptor, and the others are as before.
abbrev pub Each : (Trans → Trans) → ℕ → List Trans → List Trans → Type 0
Each set zero ts ts' = ts' ≡ ts
Each set (suc n) [] ts' = ⊥
Each set (suc n) (t ∷ ts) [] = ⊥
Each set (suc n) (t ∷ ts) (t' ∷ ts') = (t' ≡ with_fd t'.ch.fd (set t)) × Each set n ts ts'

record Cells (set : Trans → Trans) (source : ℕ → Source) (n j : ℕ) (ts : List Trans)
    (log : List Added) (r : List Trans × List Added × Ended) : Type 0 where
  cells : List Trans
  result : r ≡ (cells, log ++ rows source n j cells, fine)
  each : Each set n ts cells

register_cells-Cells :
    (ask : List Added → Trans → Option ℕ) (set : Trans → Trans) (source : ℕ → Source) (n j : ℕ)
    (ts : List Trans) (log : List Added)
    → ((l : List Added) (t : Trans) → (fd : ℕ) × (ask l t ≡ some fd))
    → n ≤ length ts
    → Cells set source n j ts log (register_cells ask set source n j ts log)
unfolding register_cells rows with_fd
register_cells-Cells ask set source zero j ts log given h = record {
  cells = ts;
  result = ap (λ (l : List Added). (ts, l, fine)) (sym (append-nil log));
  each = refl;
}
register_cells-Cells ask set source (suc n) j [] log given h = absurd (omega arith)
register_cells-Cells ask set source (suc n) j (t ∷ ts) log given h =
    let (fd, e) = given log t in
    let t' = with_fd fd (set t) in
    let rest =
      register_cells-Cells ask set source n (j + 1) ts (log ++ added fd (source j) ∷ []) given
        (omega arith) in
    record {
      cells = t' ∷ rest.cells;
      result =
          rw (register_cells, e)
            (ap (keep t') rest.result
              ∙ ap (λ (l : List Added). (t' ∷ rest.cells, l, fine))
                  (append_assoc log (added fd (source j) ∷ []) (rows source n (j + 1) rest.cells)));
      each = (refl, rest.each);
    }

-- What the registration makes of a state.
pub record Fitted (owner : ℕ) (s s' : State) : Type 0 where
  pub kept : s' ≡ record s {
    tick_trans = record (s.tick_trans) { cells = s'.tick_trans.cells };
    sign_trans = record (s.sign_trans) { cells = s'.sign_trans.cells };
  }
  pub on_tick : Each (set_tick owner) s.tick_trans.nitems s.tick_trans.cells s'.tick_trans.cells
  pub on_sign : Each (set_sign owner) s.sign_trans.nitems s.sign_trans.cells s'.sign_trans.cells

abbrev pub AllFitted : ℕ → List State → List State → Type 0
AllFitted owner [] ss' = ss' ≡ []
AllFitted owner (s ∷ ss) [] = ⊥
AllFitted owner (s ∷ ss) (s' ∷ ss') = Fitted owner s s' × AllFitted owner ss ss'

-- The kernel gives a descriptor whenever it is asked.
pub record Gives (kernel : Kernel) : Type 0 where
  pub timer : (l : List Added) → (fd : ℕ) × (kernel.timer l ≡ some fd)
  pub signal : (l : List Added) (n : ℕ) → (fd : ℕ) × (kernel.signal l n ≡ some fd)

module _ (kernel : Kernel) (owner : ℕ) (gives : Gives kernel) where
  abbrev own_channels : ℕ → State → List Added
  own_channels i s =
      rows (ticks i) s.tick_trans.nitems 0 s.tick_trans.cells
      ++ rows (signals i) s.sign_trans.nitems 0 s.sign_trans.cells

  register_state-Fitted :
      (i : ℕ) (s : State) (log : List Added)
      → s.tick_trans.nitems ≤ length s.tick_trans.cells
      → s.sign_trans.nitems ≤ length s.sign_trans.cells
      → (s' : State) × (register_state kernel owner i s log ≡ (s', log ++ own_channels i s', fine))
        × Fitted owner s s'
  unfolding register_state register_ticks register_signs
  register_state-Fitted i s log h k =
      let t =
        register_cells-Cells (λ l u. kernel.timer l) (set_tick owner) (ticks i) s.tick_trans.nitems
          0 s.tick_trans.cells log (λ l u. gives.timer l) h in
      let log' = log ++ rows (ticks i) s.tick_trans.nitems 0 t.cells in
      let g =
        register_cells-Cells (λ l u. kernel.signal l u.ch.raw_data) (set_sign owner) (signals i)
          s.sign_trans.nitems 0 s.sign_trans.cells log' (λ l u. gives.signal l u.ch.raw_data) k in
      let s' : State = record s {
        tick_trans = record (s.tick_trans) { cells = t.cells };
        sign_trans = record (s.sign_trans) { cells = g.cells };
      } in
      (
        s',
        ap (after_ticks kernel owner i s) t.result
            ∙ ap (after_signs (with_ticks s t.cells)) g.result
            ∙ ap (λ (l : List Added). (s', l, fine))
                (append_assoc log (rows (ticks i) s.tick_trans.nitems 0 t.cells)
                  (rows (signals i) s.sign_trans.nitems 0 g.cells)),
        record { kept = refl; on_tick = t.each; on_sign = g.each },
      )

  -- If the kernel gives a descriptor whenever it is asked, and the arrays count no more cells than
  -- they have: the registration tells the reactor of exactly those descriptors that the counted
  -- tick and signal transitions of the states then have, each once and in their order; it marks
  -- these transitions, with their owner and period, and changes nothing else.
  pub register-channels :
      (i : ℕ) (ss : List State) (log : List Added)
      → Counted ss
      → (ss' : List State) × (register kernel owner i ss log ≡ (ss', log ++ channels i ss', fine))
        × AllFitted owner ss ss'
  unfolding register channels
  register-channels i [] log c =
      ([], ap (λ (l : List Added). ([], l, fine)) (sym (append-nil log)), refl)
  register-channels i (s ∷ ss) log (h, k, c) =
      let (s', e, fitted) = register_state-Fitted i s log h k in
      let (ss', rest, all) = register-channels (i + 1) ss (log ++ own_channels i s') c in
      (
        s' ∷ ss',
        ap (after_state (register kernel owner (i + 1) ss) ss) e
            ∙ ap (keep s') rest
            ∙ ap (λ (l : List Added). (s' ∷ ss', l, fine)) (joined s' ss'),
        (fitted, all),
      )
    where
      joined :
          (t : State) (ts : List State)
          → log ++ own_channels i t ++ channels (i + 1) ts ≡ log ++ channels i (t ∷ ts)
      joined t ts =
          let tick_rows = rows (ticks i) t.tick_trans.nitems 0 t.tick_trans.cells in
          let sign_rows = rows (signals i) t.sign_trans.nitems 0 t.sign_trans.cells in
          append_assoc log (tick_rows ++ sign_rows) (channels (i + 1) ts)
          ∙ ap (λ (l : List Added). log ++ l)
              (append_assoc tick_rows sign_rows (channels (i + 1) ts))
