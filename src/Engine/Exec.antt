-- ===== src/Engine/Exec.antt =====
-- engine/esma_engine.c: esma_engine_exec. The queue is that of the messages: `posted` are all that were
-- put into it up to now, by those who were called and the threads, and `taken` is how many the loop has
-- got of them.
use esma.Base.{
  ℕ, zero, suc, ◌+◌, ◌≤◌, ◌<◌, ◌≡◌, refl, ◌∙◌, Option, none, some, List, length, get_elem?, arith,
}
use esma.Engine.Types.{Machine}
use esma.Engine.Load.Slots.{get_elem?-lt}
use esma.Engine.World.{Message, Call, Surroundings, World, Outcome, value, returns, exits, crash}
use esma.Engine.Dispatch.{send}
use esma.Engine.Dispatch.Invariant.{IsMachine, send-IsMachine}

-- How the loop ends: it returns, or the program is at an end.
pub data Loop : Type 0 where
  returned : ℕ → ℕ → World → Loop
  stopped : Outcome ℕ → World → Loop

module _ (env : Surroundings) (posted : List Call → List Message) where
  abbrev pub on_code : (World → Option Loop) → ℕ → ℕ → World → Option Loop
  on_code next taken zero w = next w
  on_code next taken (suc n) w = some (returned (suc n) taken w)

  -- `ret = esma_engine_dispatcher_send(msg); if (ret) break;`
  abbrev pub on_outcome : (World → Option Loop) → ℕ → Outcome ℕ × World → Option Loop
  on_outcome next taken (value n, w) = on_code next taken n w
  on_outcome next taken (returns n, w) = on_code next taken n w
  on_outcome next taken (exits, w) = some (stopped exits w)
  on_outcome next taken (crash, w) = some (stopped crash w)

  abbrev pub on_message : (World → Option Loop) → ℕ → World → Option Message → Option Loop
  on_message next taken w none = some (returned 0 taken w)
  on_message next taken w (some msg) = on_outcome next (taken + 1) (send env msg w)

  -- `esma_engine_exec`, with fuel for the rounds of the loop
  unfoldable pub exec : ℕ → ℕ → World → Option Loop
  exec zero taken w = none
  exec (suc fuel) taken w =
      on_message (exec fuel (taken + 1)) taken w (get_elem? (posted w.calls) taken)

  -- What holds when the loop is at an end: the machines of `before` are what they must be, and if 0
  -- is returned, all messages were taken.
  abbrev pub Sound : (ℕ → Machine) → World → Type 0
  Sound before w = (j : ℕ) → IsMachine (w.machines j) × ((w.machines j).states ≡ (before j).states)

  abbrev pub AtEnd : (ℕ → Machine) → Loop → Type 0
  AtEnd before (returned zero taken w) = Sound before w × (get_elem? (posted w.calls) taken ≡ none)
  AtEnd before (returned (suc n) taken w) = Sound before w
  AtEnd before (stopped o w) = Sound before w

  Ending : (ℕ → Machine) → Option Loop → Type 0
  Ending before r = (l : Loop) × (r ≡ some l) × AtEnd before l

  on_code-Ending :
      (before : ℕ → Machine) (next : World → Option Loop) (taken n : ℕ) (w : World)
      → ((v : World) → Sound before v → Ending before (next v))
      → Sound before w
      → Ending before (on_code next taken n w)
  unfolding Ending
  on_code-Ending before next taken zero w h s = h w s
  on_code-Ending before next taken (suc n) w h s = (returned (suc n) taken w, refl, s)

  on_outcome-Ending :
      (before : ℕ → Machine) (next : World → Option Loop) (taken : ℕ) (r : Outcome ℕ × World)
      → ((v : World) → Sound before v → Ending before (next v))
      → Sound before r.1
      → Ending before (on_outcome next taken r)
  unfolding Ending
  on_outcome-Ending before next taken (value n, w) h s = on_code-Ending before next taken n w h s
  on_outcome-Ending before next taken (returns n, w) h s = on_code-Ending before next taken n w h s
  on_outcome-Ending before next taken (exits, w) h s = (stopped exits w, refl, s)
  on_outcome-Ending before next taken (crash, w) h s = (stopped crash w, refl, s)

  send-Sound :
      (before : ℕ → Machine) (msg : Message) (w : World)
      → Sound before w
      → Sound before (send env msg w).1
  send-Sound before msg w s j =
      let (valid, same, rest) = send-IsMachine env msg w j (λ i. (s i).0) in (valid, same ∙ (s j).1)

  message-Ending :
      (bound : ℕ) (before : ℕ → Machine) (next : World → Option Loop) (taken : ℕ) (w : World)
      (o : Option Message)
      → length (posted w.calls) ≤ bound
      → get_elem? (posted w.calls) taken ≡ o
      → (taken < bound → (v : World) → Sound before v → Ending before (next v))
      → Sound before w
      → Ending before (on_message next taken w o)
  unfolding Ending
  message-Ending bound before next taken w none few e rest s = (returned 0 taken w, refl, (s, e))
  message-Ending bound before next taken w (some msg) few e rest s =
      on_outcome-Ending before next (taken + 1) (send env msg w)
        (rest (omega (arith, get_elem?-lt (posted w.calls) taken e, few)))
        (send-Sound before msg w s)

  exec-Ending :
      (bound : ℕ) (before : ℕ → Machine) (fuel taken : ℕ) (w : World)
      → ((calls : List Call) → length (posted calls) ≤ bound)
      → taken ≤ bound
      → bound < taken + fuel
      → Sound before w
      → Ending before (exec fuel taken w)
  unfolding exec
  exec-Ending bound before zero taken w few le enough s = absurd (omega arith)
  exec-Ending bound before (suc fuel) taken w few le enough s =
      message-Ending bound before (exec fuel (taken + 1)) taken w (get_elem? (posted w.calls) taken)
        (few w.calls) refl
        (λ h v t. exec-Ending bound before fuel (taken + 1) v few (omega arith) (omega arith) t) s

  -- If not more than `bound` messages are ever put into the queue, every machine is in one of its
  -- states and all transitions lead to one: the loop ends after at most that many rounds and one,
  -- whatever the handlers and the system answer (it returns, or a dispatch exits or crashes); the
  -- machines are then still so, with the same states; and if 0 is returned, the queue is empty.
  pub exec-ends :
      (bound : ℕ) (w : World)
      → ((calls : List Call) → length (posted calls) ≤ bound)
      → ((j : ℕ) → IsMachine (w.machines j))
      → (l : Loop) × (exec (bound + 1) 0 w ≡ some l) × AtEnd w.machines l
  unfolding Ending
  exec-ends bound w few valid =
      exec-Ending bound w.machines (bound + 1) 0 w few (omega arith) (omega arith)
        (λ j. (valid j, refl))
