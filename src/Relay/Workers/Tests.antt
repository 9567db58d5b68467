-- ===== src/Relay/Workers/Tests.antt =====
-- The worker registry on concrete schedules.
use xrestream.Base.{
  ℕ, ◌&&◌, ◌==◌, ◌||◌, ◌↔◌, ◌∷◌, ◌≡◌, ◌≢◌, List, [], codes, delete, false, insert, lookup, nat_eq,
  none, refl, some, text_beq, text_eq, true,
}
use xrestream.Store.{Channel, zero_channel}
use xrestream.Relay.Workers.{
  leaving, trying, waiting, encoding, Worker, init, start_worker, register, stop_worker,
  release_worker, cancel_task, cancel_all, stop_all, worker_running, is_done, transmuxes, set_phase,
  set_status, advance_from, advance, after_cycle, after_failure, after_start, succeeds, fails,
  turn_from, turn, wake_from, wake, Event, starts, stops, stops_all, advances, turns, wakes,
  parent_ends, step, run,
}
use xrestream.Relay.Workers.Registry.{is_active}
use xrestream.Relay.Workers.Ownership.{
  registry_iff, one_worker, worker_running-start_worker, is_startable, restart_lem, stop_all_lem,
}
use xrestream.Relay.Workers.Ownership.Stale.{overtaken, stale_stop, started}

-- What a test computes with.
machine : Unit {0}
unfolding run step init start_worker register stop_worker release_worker cancel_task cancel_all
    stop_all worker_running is_done transmuxes set_phase set_status advance_from advance after_cycle
    after_failure after_start turn_from turn wake_from wake lookup insert delete text_beq
machine = tt

abbrev news : Channel
news = record zero_channel {
  id = codes "c1";
  slug = codes "news";
  mode = codes "transmux";
  status = codes "active";
}

-- The worker of handle 0 is stopped while ffmpeg runs, and a second one is started; the first has
-- only its last status write left.
abbrev restarted : List Event
restarted =
    starts news
    ∷ advances 0
    ∷ advances 0
    ∷ advances 0
    ∷ turns 0 succeeds
    ∷ stops (codes "c1")
    ∷ starts news
    ∷ advances 1
    ∷ advances 1
    ∷ advances 1
    ∷ turns 1 succeeds
    ∷ advances 0
    ∷ advances 0
    ∷ []

abbrev first_worker : Worker
first_worker = record { channel = news; phase = leaving; cancelled = true }

abbrev second_worker : Worker
second_worker = record { channel = news; phase = encoding; cancelled = false }

first_found : lookup 0 (run init restarted).tasks ≡ some first_worker
unfolding machine
first_found = refl

second_found : lookup 1 (run init restarted).tasks ≡ some second_worker
unfolding machine
second_found = refl

stopped_while_running :
    (worker_running (step (run init restarted) (advances 0)) (codes "c1") ≡ true)
    × (lookup (codes "c1") (step (run init restarted) (advances 0)).statuses
        ≡ some (codes "stopped"))
unfolding machine
stopped_while_running = (refl, refl)

error_reported :
    lookup (codes "c1") (run (run init restarted) (turns 1 fails ∷ wakes 1 ∷ [])).statuses
    ≡ some (codes "error")
unfolding machine
error_reported = refl

shut_down :
    worker_running (run (run init restarted) (parent_ends ∷ stops_all ∷ [])) (codes "c1") ≡ false
unfolding machine
shut_down = refl

registry_iff_example : (lookup (codes "c1") (run init restarted).workers ≡ some 1) ↔ (
    (w : Worker) × (lookup 1 (run init restarted).tasks ≡ some w)
    × (w.channel.id ≡ codes "c1")
    × (is_active w ≡ true))
registry_iff_example = registry_iff restarted (codes "c1") 1

one_worker_example : ◌≡◌ {A = ℕ} 1 1
one_worker_example =
    one_worker restarted 1 1 second_worker second_worker second_found second_found refl refl refl

worker_running-start_worker_example :
    worker_running (start_worker init news) (codes "c1")
    ≡ (worker_running init (codes "c1") || (news.id == codes "c1" && is_startable news))
worker_running-start_worker_example = worker_running-start_worker init news (codes "c1")

restart_lem_example :
    let s = run init restarted in
    let t = start_worker (stop_worker s news.id) news in
    (lookup news.id t.workers ≡ some s.next_handle)
    × (lookup s.next_handle s.tasks ≡ none)
    × ((h : ℕ) (w : Worker)
        → lookup h t.tasks ≡ some w
        → w.channel.id ≡ news.id
        → h ≢ s.next_handle
        → is_active w ≡ false)
unfolding text_beq
restart_lem_example = restart_lem restarted news refl

stopped_second :
    lookup 1 (stop_all (run init restarted)).tasks
    ≡ some (record second_worker { cancelled = true })
unfolding machine
stopped_second = refl

stop_all_lem_example :
    (worker_running (stop_all (run init restarted)) (codes "c1") ≡ false)
    × (is_active (record second_worker { cancelled = true }) ≡ false)
stop_all_lem_example =
    stop_all_lem restarted (codes "c1") 1 (record second_worker { cancelled = true }) stopped_second

-- The first cycle of the worker of handle 0 has failed, and it waits for its next turn.
abbrev pausing : List Event
pausing = starts news ∷ advances 0 ∷ advances 0 ∷ advances 0 ∷ turns 0 fails ∷ []

abbrev pausing_worker : Worker
pausing_worker = record { channel = news; phase = waiting; cancelled = false }

pausing_registered : lookup (codes "c1") (run init pausing).workers ≡ some 0
unfolding machine
pausing_registered = refl

pausing_found : lookup 0 (run init pausing).tasks ≡ some pausing_worker
unfolding machine
pausing_found = refl

stale_stop_example :
    let n = (run init pausing).next_handle in
    let t = run (run init pausing) (overtaken news n 0) in
    (lookup (codes "c1") t.workers ≡ some n)
    × (lookup n t.tasks ≡ some (started news trying))
    × (lookup (codes "c1") t.statuses ≡ some (codes "stopped"))
unfolding text_beq
stale_stop_example =
    stale_stop pausing news 0 pausing_worker refl pausing_registered pausing_found refl
