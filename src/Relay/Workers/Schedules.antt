-- ===== src/Relay/Workers/Schedules.antt =====
-- Every event keeps the registry's invariant, so it holds after any schedule.
use xrestream.Base.{
  if◌then◌else◌, ℕ, ◌&&◌, ◌==◌, ◌∷◌, ◌≡◌, ==_iff, Bool, Bool-cases, Distinct, List, Option,
  Option-cases, Text, [], ap, arith, delete-Distinct, false, inl, inr, lookup, lookup-delete,
  lookup-insert, nat_eq, none, refl, some, sym, text_eq, true,
}
use xrestream.Relay.Workers.{
  Phase, announcing, spawning, entering, trying, encoding, waiting, releasing, leaving, gone,
  Worker, State, init, release_worker, is_done, transmuxes, set_phase, set_status, advance_from,
  advance, Outcome, succeeds, fails, fails_for_good, after_cycle, after_failure, after_start,
  turn_from, turn, wake_from, wake, Event, starts, stops, stops_all, advances, turns, wakes,
  parent_ends, step, run,
}
use xrestream.Relay.Workers.Registry.{
  holds, Inv, init-Inv, start_worker-Inv, stop_worker-Inv, stop_all-Inv, set_status-Inv,
  set_phase-Inv,
}

-- The entry of `id` goes if it is the handle `h`; every other entry stays.
abbrev unless_own : Bool → ℕ → Option ℕ → Option ℕ
unless_own same h none = none
unless_own same h (some cur) = if same && cur == h then none else some cur

pub lookup-release_worker :
    (s : State) (id id' : Text) (h : ℕ)
    → lookup id' (release_worker s id h).workers ≡ unless_own (id == id') h (lookup id' s.workers)
unfolding release_worker
lookup-release_worker s id id' h = elim (Option-cases (lookup id s.workers)) [
  | inl idle ↦ rw (idle, release_worker) (ground (arith, ==_iff id id'))
  | inr (cur, found) ↦ elim (Bool-cases (cur == h)) [
    | inl own ↦ rw (found, release_worker, own) (rw lookup-delete (ground (arith, ==_iff id id')))
    | inr other ↦ rw (found, release_worker, other) (ground (arith, ==_iff id id'))
  ]
]

release_worker-Distinct :
    (s : State) (id : Text) (h : ℕ) → Distinct s.workers → Distinct (release_worker s id h).workers
unfolding release_worker
release_worker-Distinct s id h d = ground (arith, delete-Distinct id s.workers d)

pub release_worker-rest :
    (s : State) (id : Text) (h : ℕ)
    → ((release_worker s id h).tasks ≡ s.tasks)
      × ((release_worker s id h).next_handle ≡ s.next_handle)
unfolding release_worker
release_worker-rest s id h = ground arith

release-Inv :
    (s : State) (h : ℕ) (w : Worker)
    → Inv s
    → lookup h s.tasks ≡ some w
    → Inv (set_phase (release_worker s w.channel.id h) h w leaving)
unfolding set_phase
release-Inv s h w v found =
    let (tasks, next) = release_worker-rest s w.channel.id h in
    rw (tasks, next)
      (record {
        distinct = release_worker-Distinct s w.channel.id h v.distinct;
        serving = λ id' h'.
            rw (lookup-release_worker, lookup-insert)
              (ground (arith, ==_iff w.channel.id id', v.serving id' h', v.registered h w));
        registered = λ h' w'.
            rw (lookup-release_worker, lookup-insert)
              (ground
                (arith, ==_iff w.channel.id w'.channel.id, v.registered h' w', v.registered h w));
        fresh = λ h' w'. rw lookup-insert (ground (arith, v.fresh h' w', v.fresh h w found));
      })

-- A worker that still holds its registration goes on to a phase in which it does, under a test.
to_phase-Inv :
    (b : Bool) (s : State) (h : ℕ) (w : Worker) (p : Phase)
    → lookup h s.tasks ≡ some w
    → holds p ≡ holds w.phase
    → Inv s
    → Inv (if b then set_phase s h w p else s)
to_phase-Inv true s h w p found e v = set_phase-Inv s h w p v found e
to_phase-Inv false s h w p found e v = v

-- The same with the write of a status before.
written-Inv :
    (status : Text) (s : State) (h : ℕ) (w : Worker) (p : Phase)
    → lookup h s.tasks ≡ some w
    → holds p ≡ holds w.phase
    → Inv s
    → Inv (set_phase (set_status s w.channel.id status) h w p)
written-Inv status s h w p found e v =
    set_phase-Inv _ h w p (set_status-Inv s w.channel.id status v) (unfold set_status in found) e

advance_from-Inv :
    (p : Phase) (s : State) (h : ℕ) (w : Worker)
    → w.phase ≡ p
    → lookup h s.tasks ≡ some w
    → Inv s
    → Inv (advance_from p s h w)
unfolding advance_from
advance_from-Inv announcing s h w e found v =
    set_phase-Inv _ h w spawning (set_status-Inv s w.channel.id _ v) (unfold set_status in found)
      (ap holds (sym e))
advance_from-Inv spawning s h w e found v = set_phase-Inv s h w entering v found (ap holds (sym e))
advance_from-Inv entering s h w e found v =
    set_phase-Inv _ h w trying (set_status-Inv s w.channel.id _ v) (unfold set_status in found)
      (ap holds (sym e))
advance_from-Inv trying s h w e found v =
    to_phase-Inv (is_done s w && transmuxes w) s h w releasing found (ap holds (sym e)) v
advance_from-Inv encoding s h w e found v =
    to_phase-Inv (is_done s w) s h w releasing found (ap holds (sym e)) v
advance_from-Inv waiting s h w e found v =
    to_phase-Inv (is_done s w) s h w releasing found (ap holds (sym e)) v
advance_from-Inv releasing s h w e found v = release-Inv s h w v found
advance_from-Inv leaving s h w e found v =
    set_phase-Inv _ h w gone (set_status-Inv s w.channel.id _ v) (unfold set_status in found)
      (ap holds (sym e))
advance_from-Inv gone s h w e found v = v

advance-Inv : (s : State) (h : ℕ) → Inv s → Inv (advance s h)
unfolding advance
advance-Inv s h v = elim (Option-cases (lookup h s.tasks)) [
  | inl idle ↦ rw (idle, advance) v
  | inr (w, found) ↦ rw (found, advance) (advance_from-Inv w.phase s h w refl found v)
]

after_cycle-Inv :
    (o : Outcome) (s : State) (h : ℕ) (w : Worker)
    → lookup h s.tasks ≡ some w
    → holds w.phase ≡ true
    → Inv s
    → Inv (after_cycle o s h w)
unfolding after_cycle
after_cycle-Inv succeeds s h w found e v = written-Inv _ s h w waiting found (sym e) v
after_cycle-Inv _ s h w found e v = written-Inv _ s h w waiting found (sym e) v

after_failure-Inv :
    (o : Outcome) (s : State) (h : ℕ) (w : Worker)
    → lookup h s.tasks ≡ some w
    → holds w.phase ≡ true
    → Inv s
    → Inv (after_failure o s h w)
unfolding after_failure
after_failure-Inv fails_for_good s h w found e v = written-Inv _ s h w releasing found (sym e) v
after_failure-Inv _ s h w found e v = written-Inv _ s h w waiting found (sym e) v

after_start-Inv :
    (o : Outcome) (s : State) (h : ℕ) (w : Worker)
    → lookup h s.tasks ≡ some w
    → holds w.phase ≡ true
    → Inv s
    → Inv (after_start o s h w)
unfolding after_start
after_start-Inv succeeds s h w found e v = written-Inv _ s h w encoding found (sym e) v
after_start-Inv fails s h w found e v = after_failure-Inv fails s h w found e v
after_start-Inv fails_for_good s h w found e v = after_failure-Inv fails_for_good s h w found e v

turn_from-Inv :
    (p : Phase) (s : State) (h : ℕ) (w : Worker) (o : Outcome)
    → w.phase ≡ p
    → lookup h s.tasks ≡ some w
    → Inv s
    → Inv (turn_from p s h w o)
unfolding turn_from
turn_from-Inv trying s h w o e found v = elim (Bool-cases (transmuxes w)) [
  | inl t ↦ rw t (after_start-Inv o s h w found (ap holds e) v)
  | inr t ↦ rw t (after_cycle-Inv o s h w found (ap holds e) v)
]
turn_from-Inv encoding s h w o e found v = after_failure-Inv o s h w found (ap holds e) v
turn_from-Inv _ s h w o e found v = v

turn-Inv : (s : State) (h : ℕ) (o : Outcome) → Inv s → Inv (turn s h o)
unfolding turn
turn-Inv s h o v = elim (Option-cases (lookup h s.tasks)) [
  | inl idle ↦ rw (idle, turn) v
  | inr (w, found) ↦ rw (found, turn) (turn_from-Inv w.phase s h w o refl found v)
]

wake_from-Inv :
    (p : Phase) (s : State) (h : ℕ) (w : Worker)
    → w.phase ≡ p
    → lookup h s.tasks ≡ some w
    → Inv s
    → Inv (wake_from p s h w)
unfolding wake_from
wake_from-Inv waiting s h w e found v = set_phase-Inv s h w trying v found (ap holds (sym e))
wake_from-Inv _ s h w e found v = v

wake-Inv : (s : State) (h : ℕ) → Inv s → Inv (wake s h)
unfolding wake
wake-Inv s h v = elim (Option-cases (lookup h s.tasks)) [
  | inl idle ↦ rw (idle, wake) v
  | inr (w, found) ↦ rw (found, wake) (wake_from-Inv w.phase s h w refl found v)
]

step-Inv : (s : State) (e : Event) → Inv s → Inv (step s e)
unfolding step
step-Inv s (starts ch) v = start_worker-Inv s ch v
step-Inv s (stops id) v = stop_worker-Inv s id v
step-Inv s stops_all v = stop_all-Inv s v
step-Inv s (advances h) v = advance-Inv s h v
step-Inv s (turns h o) v = turn-Inv s h o v
step-Inv s (wakes h) v = wake-Inv s h v
step-Inv s parent_ends v = record {
  distinct = v.distinct;
  serving = v.serving;
  registered = v.registered;
  fresh = v.fresh;
}

run_from-Inv : (s : State) (es : List Event) → Inv s → Inv (run s es)
unfolding run
run_from-Inv s [] v = v
run_from-Inv s (e ∷ es) v = run_from-Inv (step s e) es (step-Inv s e v)

pub run-Inv : (es : List Event) → Inv (run init es)
run-Inv es = run_from-Inv init es init-Inv
