-- ===== src/Tests/Reactor.antt =====
-- engine/modules/esma_reactor_poll.c: the reactor with two channels.
use esma.Base.{
  ℕ, zero, suc, ◌<◌, ◌≡◌, ◌≢◌, refl, Bool, true, none, some, ◌==◌, if◌then◌else◌, arith,
}
use esma.Engine.Reactor.{PollFd, zero_pollfd, PollBits, Reactor, value, mask, add, del, mod_events}
use esma.Engine.Reactor.Tracks.{Tracks, Watches, Unwatched, AgreeBut, add-Watches}
use esma.Engine.Reactor.Forgets.{del-forgets, mod_events-Watches}
use esma.Engine.Reactor.Ready.{del-add_stale}

abbrev pub bits : PollBits
bits = record { sys_in = 1; sys_out = 4; sys_err = 8; sys_hup = 16 }

abbrev pub first : PollFd
first = record { fd = 5; events = 1; revents = 0 }

abbrev pub second : PollFd
second = record { fd = 6; events = 4; revents = 0 }

-- Channels 10 and 20.
abbrev pub two : Reactor
two = record {
  event_list = record {
    item = λ i. if i == 0 then first else (if i == 1 then second else zero_pollfd);
    nitems = 2;
    capacity = 4;
  };
  channels = record {
    item = λ i. if i == 0 then 10 else (if i == 1 then 20 else 0);
    nitems = 2;
    capacity = 4;
  };
  index = λ c. if c == 10 then some 0 else (if c == 20 then some 1 else none);
}

two_back : (i : ℕ) → i < 2 → two.index (two.channels.item i) ≡ some i
two_back zero h = refl
two_back (suc zero) h = refl
two_back (suc (suc i)) h = absurd (omega arith)

pub two-Tracks : Tracks two
two-Tracks = record { same = refl; room = omega arith; room' = omega arith; back = two_back }

abbrev pub zeros : ℕ → PollFd
zeros i = zero_pollfd

add-Watches_example :
    (r : Reactor) × (add bits two 7 30 3 (some zeros) (some (λ i. 0)) ≡ value 0 r)
    × Tracks r
    × AgreeBut 30 two r
    × ((p : PollFd) × Watches r 30 p × (p.fd ≡ 7) × (◌≢◌ {A = ℕ} 3 0 → p.events ≡ mask bits 3))
add-Watches_example =
    add-Watches bits two 7 30 3 two-Tracks zeros (λ i. 0)
      (record { count = omega arith; pos = omega arith; small = omega arith })
      (record { count = omega arith; pos = omega arith; small = omega arith }) two_other
  where
    two_other : (i : ℕ) → i < 2 → two.channels.item i ≢ 30
    two_other zero h = λ e. absurd (omega (arith, e))
    two_other (suc zero) h = λ e. absurd (omega (arith, e))
    two_other (suc (suc i)) h = absurd (omega arith)

del-forgets_example :
    (r : Reactor) × (del two 10 ≡ value 0 r) × Tracks r × AgreeBut 10 two r × Unwatched r 10
del-forgets_example = del-forgets two 10 first two-Tracks (0, omega arith, refl, refl)

abbrev pub happened : ℕ → ℕ
happened i = if i == 1 then 5 else 0

abbrev pub takes : ℕ → Bool
takes j = true

del-add_stale_example :
    (r : Reactor) × (r' : Reactor) × (del two 20 ≡ value 0 r)
    × (add bits r 9 40 0 (some zeros) (some (λ i. 0)) ≡ value 0 r')
    × Watches r' 40 (record second { fd = 9 })
del-add_stale_example =
    del-add_stale bits two 20 9 40 second (some zeros) (some (λ i. 0)) two-Tracks (omega arith)
      (omega arith) (omega arith) refl refl

mod_events-Watches_example :
    (r : Reactor) × (mod_events bits two 20 1 ≡ value 0 r)
    × Tracks r
    × AgreeBut 20 two r
    × Watches r 20 (record second { events = mask bits 1 })
mod_events-Watches_example =
    mod_events-Watches bits two 20 1 second two-Tracks (1, omega arith, refl, refl)
