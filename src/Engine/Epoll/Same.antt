-- ===== src/Engine/Epoll/Same.antt =====
-- The epoll reactor beside the poll reactor.
use native.Mathlib.Decide.{ℕ_discrete}
use esma.Base.{ℕ, ◌≡◌, ◌≢◌, ap, sym, subst, ◌∙◌, Option, none, some}
use esma.Engine.Reactor.{PollFd, Reactor}
use esma.Engine.Reactor.Tracks.{Tracks, Watches, Unwatched, AgreeBut, place-eq}
use esma.Engine.Epoll.{Event, Calls}

-- The set of the kernel as the descriptors and their events: one call changes one descriptor.
abbrev pub Stores : {S : Type 0} → (S → ℕ → Option Event) → S → S → ℕ → Option Event → Type 0
Stores watched s s' fd ev = (watched s' fd ≡ ev) × ((g : ℕ) → g ≢ fd → watched s' g ≡ watched s g)

-- What epoll_ctl is documented to do, for as long as the kernel has memory: it adds a descriptor that
-- it accepts (one that is open and is not a regular file or a directory) and that is not in the set,
-- and changes and deletes one that is.
pub record Documented {S : Type 0} (calls : Calls S) : Type 1 where
  pub watched : S → ℕ → Option Event
  pub Accepts : ℕ → Type 0
  pub adds :
      (s : S) (fd : ℕ) (ev : Event)
      → Accepts fd
      → watched s fd ≡ none
      → (s' : S) × (calls.ctl_add s fd ev ≡ some s') × Stores watched s s' fd (some ev)
  pub mods :
      (s : S) (fd : ℕ) (old ev : Event)
      → watched s fd ≡ some old
      → (s' : S) × (calls.ctl_mod s fd ev ≡ some s') × Stores watched s s' fd (some ev)
  pub dels :
      (s : S) (fd : ℕ) (old : Event)
      → watched s fd ≡ some old
      → (s' : S) × (calls.ctl_del s fd ≡ some s') × Stores watched s s' fd none

pub some_eq : {A : Type 0} {a b : A} → some a ≡ some b → a ≡ b
some_eq h = cc

pub no_some : {A : Type 0} {a : A} → none ≡ some a → ⊥
no_some h = cc

abbrev pub event : ℕ → ℕ → Event
event ch events = record { ch = ch; events = events }

module _ {S : Type 0} (watched : S → ℕ → Option Event) where
  -- The poll reactor and the set watch the same channels, by the same descriptors for the same events.
  pub record Same (r : Reactor) (s : S) : Type 0 where
    pub tracks : Tracks r
    pub there : (c : ℕ) (p : PollFd) → Watches r c p → watched s p.fd ≡ some (event c p.events)
    pub back :
        (fd c e : ℕ)
        → watched s fd ≡ some (event c e)
        → (p : PollFd) × Watches r c p × (p.fd ≡ fd) × (p.events ≡ e)

-- A channel is watched in one place.
pub Watches-eq :
    (r : Reactor) (c : ℕ) (p q : PollFd) → Tracks r → Watches r c p → Watches r c q → p ≡ q
Watches-eq r c p q t (i, h, e, e') (j, k, w, w') =
    sym e' ∙ ap r.event_list.item (place-eq r i j t h k (e ∙ sym w)) ∙ w'

module _ {S : Type 0} (watched : S → ℕ → Option Event) (r r' : Reactor) (s s' : S) (ch fd : ℕ)
    (same : Same watched r s) (t : Tracks r') (agree : AgreeBut ch r r')
    (apart : (c : ℕ) (p : PollFd) → c ≢ ch → Watches r c p → p.fd ≢ fd)
    (apart' : (g e : ℕ) → g ≢ fd → watched s g ≢ some (event ch e)) where
  kept :
      (g : ℕ) (ev : Event)
      → (h : (k : ℕ) → k ≢ fd → watched s' k ≡ watched s k) → g ≢ fd
      → watched s' g ≡ some ev
      → watched s g ≡ some ev
  kept g ev h ne e = sym (h g ne) ∙ e

  other-there :
      ((k : ℕ) → k ≢ fd → watched s' k ≡ watched s k)
      → (c : ℕ) (p : PollFd) → c ≢ ch
      → Watches r' c p
      → watched s' p.fd ≡ some (event c p.events)
  other-there h c p ne w =
      let w' : Watches r c p = (agree c p ne).1 w in h p.fd (apart c p ne w') ∙ same.there c p w'

  other-back :
      ((k : ℕ) → k ≢ fd → watched s' k ≡ watched s k)
      → (g c e : ℕ) → g ≢ fd
      → watched s' g ≡ some (event c e)
      → (p : PollFd) × Watches r' c p × (p.fd ≡ g) × (p.events ≡ e)
  other-back h g c e ne at =
      let was : watched s g ≡ some (event c e) = sym (h g ne) ∙ at in
      let (p, w, a, b) = same.back g c e was in
      let other : c ≢ ch = λ q. apart' g e ne (was ∙ ap (λ (x : ℕ). some (event x e)) q) in
      (p, (agree c p other).0 w, a, b)

  pub set-Same :
      (p : PollFd) (e : ℕ)
      → Watches r' ch p
      → p.fd ≡ fd
      → p.events ≡ e
      → Stores watched s s' fd (some (event ch e))
      → Same watched r' s'
  set-Same p e w a b (here, others) = record {
    tracks = t;
    there = λ c q v. elim (ℕ_discrete c ch) [
      | yes y ↦
          let v' : Watches r' ch q = subst (λ (x : ℕ). Watches r' x q) y v in
          let same_pair : p ≡ q = Watches-eq r' ch p q t w v' in
          ap (watched s') (sym (ap (λ (x : PollFd). x.fd) same_pair) ∙ a)
          ∙ here
          ∙ ap (λ (x : ℕ). some (event x e)) (sym y)
          ∙ ap (λ (x : ℕ). some (event c x)) (sym b ∙ ap (λ (x : PollFd). x.events) same_pair)
      | no n ↦ other-there others c q n v
    ];
    back = λ g c e' at. elim (ℕ_discrete g fd) [
      | yes y ↦
          let found : event ch e ≡ event c e' = some_eq (sym here ∙ ap (watched s') (sym y) ∙ at) in
          (
            p,
            subst (λ (x : ℕ). Watches r' x p) (ap (λ (x : Event). x.ch) found) w,
            a ∙ sym y,
            b ∙ ap (λ (x : Event). x.events) found,
          )
      | no n ↦ other-back others g c e' n at
    ];
  }

  pub drop-Same : Unwatched r' ch → Stores watched s s' fd none → Same watched r' s'
  drop-Same un (here, others) = record {
    tracks = t;
    there = λ c q (i, l, at, ev). elim (ℕ_discrete c ch) [
      | yes y ↦ absurd (un i l (at ∙ y))
      | no n ↦ other-there others c q n (i, l, at, ev)
    ];
    back = λ g c e' at. elim (ℕ_discrete g fd) [
      | yes y ↦ absurd (no_some (sym here ∙ ap (watched s') (sym y) ∙ at))
      | no n ↦ other-back others g c e' n at
    ];
  }
