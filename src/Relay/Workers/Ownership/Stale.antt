-- ===== src/Relay/Workers/Ownership/Stale.antt =====
-- What the last status write of a stopped worker does to its successor.
use xrestream.Base.{
  ℕ, ◌∷◌, ◌≡◌, ◌≢◌, ==_iff, ==_self, List, Text, [], arith, codes, false, lookup, lookup-insert,
  lookup-insert_self, nat_eq, none, refl, some, subst, text_eq, true,
}
use xrestream.Store.{Channel}
use xrestream.Relay.Workers.{
  Phase, announcing, spawning, entering, trying, waiting, releasing, leaving, gone, Worker, State,
  Event, stops, starts, advances, init, run, step, start_worker, stop_worker, cancel_task, register,
  advance_from, advance, is_done, set_phase, set_status,
}
use xrestream.Relay.Workers.Schedules.{lookup-release_worker, release_worker-rest, run-Inv}
use xrestream.Relay.Workers.Ownership.{
  is_startable, start_worker-registers, lookup-stop_worker, stop_worker-next,
}

-- A stopped worker `h` of a channel and its registered successor `n`.
record Pair (id : Text) (n h : ℕ) (new old : Worker) (s : State) : Type 0 where
  owner : lookup id s.workers ≡ some n
  found_new : lookup n s.tasks ≡ some new
  found_old : lookup h s.tasks ≡ some old

module _ (id : Text) (n h : ℕ) (new old : Worker) (ne : n ≢ h) where
  new_starts :
      (s : State)
      → new.phase ≡ announcing
      → Pair id n h new old s
      → Pair id n h (record new { phase = spawning }) old (advance s n)
  unfolding advance advance_from set_phase set_status
  new_starts s e p =
      rw (p.found_new, advance, e)
        (record {
          owner = p.owner;
          found_new = rw lookup-insert_self refl;
          found_old = rw lookup-insert (ground (arith, ==_iff n h, p.found_old));
        })

  new_spawns :
      (s : State)
      → new.phase ≡ spawning
      → Pair id n h new old s
      → Pair id n h (record new { phase = entering }) old (advance s n)
  unfolding advance advance_from set_phase
  new_spawns s e p =
      rw (p.found_new, advance, e)
        (record {
          owner = p.owner;
          found_new = rw lookup-insert_self refl;
          found_old = rw lookup-insert (ground (arith, ==_iff n h, p.found_old));
        })

  new_enters :
      (s : State)
      → new.phase ≡ entering
      → Pair id n h new old s
      → Pair id n h (record new { phase = trying }) old (advance s n)
  unfolding advance advance_from set_phase set_status
  new_enters s e p =
      rw (p.found_new, advance, e)
        (record {
          owner = p.owner;
          found_new = rw lookup-insert_self refl;
          found_old = rw lookup-insert (ground (arith, ==_iff n h, p.found_old));
        })

  old_ends :
      (s : State)
      → old.phase ≡ waiting
      → old.cancelled ≡ true
      → Pair id n h new old s
      → Pair id n h new (record old { phase = releasing }) (advance s h)
  unfolding advance advance_from set_phase is_done
  old_ends s e c p =
      rw (p.found_old, advance, e)
        (rw c (record {
          owner = p.owner;
          found_new = rw lookup-insert (ground (arith, ==_iff h n, p.found_new));
          found_old = rw lookup-insert_self refl;
        }))

  old_releases :
      (s : State)
      → old.phase ≡ releasing
      → Pair id n h new old s
      → Pair id n h new (record old { phase = leaving }) (advance s h)
  unfolding advance advance_from set_phase
  old_releases s e p =
      rw (p.found_old, advance, e)
        (record {
          owner = rw lookup-release_worker (rw p.owner (ground (arith, ==_iff n h)));
          found_new =
              rw lookup-insert
                (ground (arith, ==_iff h n, release_worker-rest s old.channel.id h, p.found_new));
          found_old = rw lookup-insert_self refl;
        })

  old_stops :
      (s : State)
      → old.phase ≡ leaving
      → old.channel.id ≡ id
      → Pair id n h new old s
      → Pair id n h new (record old { phase = gone }) (advance s h)
        × (lookup id (advance s h).statuses ≡ some (codes "stopped"))
  unfolding advance advance_from set_phase set_status
  old_stops s e same p =
      rw (p.found_old, advance, e)
        (
          record {
            owner = p.owner;
            found_new = rw lookup-insert (ground (arith, ==_iff h n, p.found_new));
            found_old = rw lookup-insert_self refl;
          },
          rw same (rw lookup-insert_self refl),
        )

-- The worker that StartWorker registers.
abbrev pub started : Channel → Phase → Worker
started ch p = record { channel = ch; phase = p; cancelled = false }

start-Pair :
    (s : State) (ch : Channel) (h : ℕ) (old : Worker)
    → is_startable ch ≡ true
    → lookup ch.id s.workers ≡ none
    → lookup h s.tasks ≡ some old
    → s.next_handle ≢ h
    → Pair ch.id s.next_handle h (started ch announcing) old (start_worker s ch)
unfolding start_worker register
start-Pair s ch h old ok idle found ne = record {
  owner = start_worker-registers s ch ok idle;
  found_new = ground (arith, lookup-insert_self s.next_handle (started ch announcing) s.tasks);
  found_old = ground (
    arith,
    ==_iff s.next_handle h,
    lookup-insert s.next_handle h (started ch announcing) s.tasks,
  );
}

-- StopWorker cancels the registered worker.
stopped_task :
    (s : State) (id : Text) (h : ℕ) (w : Worker)
    → lookup id s.workers ≡ some h
    → lookup h s.tasks ≡ some w
    → lookup h (stop_worker s id).tasks ≡ some (record w { cancelled = true })
unfolding stop_worker cancel_task
stopped_task s id h w e found =
    rw (e, stop_worker) (rw (found, cancel_task) (rw lookup-insert_self refl))

restart-Pair :
    (es : List Event) (ch : Channel) (h : ℕ) (w : Worker)
    → is_startable ch ≡ true
    → lookup ch.id (run init es).workers ≡ some h
    → lookup h (run init es).tasks ≡ some w
    → Pair ch.id
        (run init es).next_handle
        h
        (started ch announcing)
        (record w { cancelled = true })
        (start_worker (stop_worker (run init es) ch.id) ch)
restart-Pair es ch h w ok e found =
    let s = run init es in
    let v = run-Inv es in
    let idle : lookup ch.id (stop_worker s ch.id).workers ≡ none =
      rw (lookup-stop_worker s ch.id ch.id) (rw (==_self ch.id)) in
    subst
      (λ n.
        Pair ch.id n h (started ch announcing) (record w { cancelled = true })
          (start_worker (stop_worker s ch.id) ch))
      (stop_worker-next s ch.id)
      (start-Pair (stop_worker s ch.id) ch h (record w { cancelled = true }) ok idle
        (stopped_task s ch.id h w e found)
        (rw (stop_worker-next s ch.id) (omega (arith, v.fresh h w found))))

-- What PATCH does to a channel that may run, and then the first actions of both goroutines: the
-- new one comes to its loop before the old one returns.
abbrev pub overtaken : Channel → ℕ → ℕ → List Event
overtaken ch n h =
    stops ch.id
    ∷ starts ch
    ∷ advances n
    ∷ advances n
    ∷ advances n
    ∷ advances h
    ∷ advances h
    ∷ advances h
    ∷ []

-- After any schedule in which a channel that may run has a registered worker in the select of its
-- loop, StopWorker and StartWorker, the new goroutine up to its loop and then the return of the old
-- one leave the channel with the status "stopped", while the new worker is registered, in its loop
-- and not cancelled.
pub stale_stop :
    (es : List Event) (ch : Channel) (h : ℕ) (w : Worker)
    → is_startable ch ≡ true
    → lookup ch.id (run init es).workers ≡ some h
    → lookup h (run init es).tasks ≡ some w
    → w.phase ≡ waiting
    → let n = (run init es).next_handle in
      let t = run (run init es) (overtaken ch n h) in
      (lookup ch.id t.workers ≡ some n)
      × (lookup n t.tasks ≡ some (started ch trying))
      × (lookup ch.id t.statuses ≡ some (codes "stopped"))
unfolding run step
stale_stop es ch h w ok e found waits =
    let s = run init es in
    let v = run-Inv es in
    let n = s.next_handle in
    let ne : n ≢ h = omega (arith, v.fresh h w found) in
    let old = record w { cancelled = true } in
    let mine : w.channel.id ≡ ch.id = (rw found at (v.serving ch.id h e)).0 in
    let p1 =
      new_starts ch.id n h (started ch announcing) old ne _ refl
        (restart-Pair es ch h w ok e found) in
    let p2 = new_spawns ch.id n h (started ch spawning) old ne _ refl p1 in
    let p3 = new_enters ch.id n h (started ch entering) old ne _ refl p2 in
    let p4 = old_ends ch.id n h (started ch trying) old ne _ waits refl p3 in
    let p5 =
      old_releases ch.id n h (started ch trying) (record old { phase = releasing }) ne _ refl p4 in
    let (p6, status) =
      old_stops ch.id n h (started ch trying) (record old { phase = leaving }) ne _ refl mine p5 in
    (p6.owner, p6.found_new, status)
