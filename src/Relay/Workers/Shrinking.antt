-- ===== src/Relay/Workers/Shrinking.antt =====
-- What a worker goroutine does by itself starts no worker.
use xrestream.Base.{
  ℕ, ◌≡◌, Bool-cases, Option-cases, Text, arith, false, inl, inr, lookup, nat_eq, refl, text_eq,
  true,
}
use xrestream.Relay.Workers.{
  Phase, trying, encoding, waiting, releasing, Worker, State, Outcome, succeeds, fails,
  fails_for_good, init, worker_running, advance_from, advance, after_cycle, after_failure,
  after_start, turn_from, turn, wake_from, wake, transmuxes, set_phase, set_status,
}
use xrestream.Relay.Workers.Schedules.{lookup-release_worker}

advance_from-running :
    (p : Phase) (s : State) (h : ℕ) (w : Worker) (id : Text)
    → worker_running (advance_from p s h w) id ≡ true
    → worker_running s id ≡ true
unfolding advance_from set_phase set_status worker_running
advance_from-running trying s h w id r = ground arith
advance_from-running encoding s h w id r = ground arith
advance_from-running waiting s h w id r = ground arith
advance_from-running releasing s h w id r =
    ground (arith, lookup-release_worker s w.channel.id id h)
advance_from-running _ s h w id r = r

pub worker_running-advance :
    (s : State) (h : ℕ) (id : Text)
    → worker_running (advance s h) id ≡ true
    → worker_running s id ≡ true
unfolding advance
worker_running-advance s h id = elim (Option-cases (lookup h s.tasks)) [
  | inl idle ↦ rw (idle, advance) (λ r. r)
  | inr (w, found) ↦ rw (found, advance) (advance_from-running w.phase s h w id)
]

after_cycle-running :
    (o : Outcome) (s : State) (h : ℕ) (w : Worker) (id : Text)
    → worker_running (after_cycle o s h w) id ≡ worker_running s id
unfolding after_cycle set_phase set_status worker_running
after_cycle-running succeeds s h w id = refl
after_cycle-running _ s h w id = refl

after_failure-running :
    (o : Outcome) (s : State) (h : ℕ) (w : Worker) (id : Text)
    → worker_running (after_failure o s h w) id ≡ worker_running s id
unfolding after_failure set_phase set_status worker_running
after_failure-running fails_for_good s h w id = refl
after_failure-running _ s h w id = refl

after_start-running :
    (o : Outcome) (s : State) (h : ℕ) (w : Worker) (id : Text)
    → worker_running (after_start o s h w) id ≡ worker_running s id
unfolding after_start set_phase set_status worker_running
after_start-running succeeds s h w id = refl
after_start-running fails s h w id = after_failure-running fails s h w id
after_start-running fails_for_good s h w id = after_failure-running fails_for_good s h w id

turn_from-running :
    (p : Phase) (s : State) (h : ℕ) (w : Worker) (o : Outcome) (id : Text)
    → worker_running (turn_from p s h w o) id ≡ worker_running s id
unfolding turn_from
turn_from-running trying s h w o id = elim (Bool-cases (transmuxes w)) [
  | inl e ↦ rw e (after_start-running o s h w id)
  | inr e ↦ rw e (after_cycle-running o s h w id)
]
turn_from-running encoding s h w o id = after_failure-running o s h w id
turn_from-running _ s h w o id = refl

pub worker_running-turn :
    (s : State) (h : ℕ) (o : Outcome) (id : Text)
    → worker_running (turn s h o) id ≡ worker_running s id
unfolding turn
worker_running-turn s h o id = elim (Option-cases (lookup h s.tasks)) [
  | inl idle ↦ rw (idle, turn) refl
  | inr (w, found) ↦ rw (found, turn) (turn_from-running w.phase s h w o id)
]

wake_from-running :
    (p : Phase) (s : State) (h : ℕ) (w : Worker) (id : Text)
    → worker_running (wake_from p s h w) id ≡ worker_running s id
unfolding wake_from set_phase worker_running
wake_from-running waiting s h w id = refl
wake_from-running _ s h w id = refl

pub worker_running-wake :
    (s : State) (h : ℕ) (id : Text) → worker_running (wake s h) id ≡ worker_running s id
unfolding wake
worker_running-wake s h id = elim (Option-cases (lookup h s.tasks)) [
  | inl idle ↦ rw (idle, wake) refl
  | inr (w, found) ↦ rw (found, wake) (wake_from-running w.phase s h w id)
]

pub worker_running-init : (id : Text) → worker_running init id ≡ false
unfolding worker_running init lookup
worker_running-init id = refl
