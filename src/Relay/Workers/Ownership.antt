-- ===== src/Relay/Workers/Ownership.antt =====
-- What the registry guarantees: which goroutine owns a channel, and that no other one disturbs it.
pub mod Stale
use xrestream.Base.{
  if◌then◌else◌, ℕ, ◌&&◌, ◌==◌, ◌||◌, ◌↔◌, ◌∙◌, ◌∷◌, ◌≡◌, ◌≢◌, ==_iff, ==_self, Bool, List, Map,
  Option-cases, Text, [], ap, arith, codes, delete, false, has_key, inl, inr, lookup, lookup-cons,
  lookup-delete, lookup-insert, lookup-insert_self, nat_eq, none, not, refl, some, text_eq, true,
}
use xrestream.Store.{Channel}
use xrestream.Relay.Workers.{
  Worker, State, init, start_worker, register, stop_worker, stop_all, worker_running, cancel_all,
  Event, run, cancel_task,
}
use xrestream.Relay.Workers.Registry.{
  is_active, Inv, start_worker-Inv, stop_worker-Inv, stop_all-Inv,
}
use xrestream.Relay.Workers.Schedules.{run-Inv}

Inv-owner_iff :
    (s : State) (id : Text) (h : ℕ)
    → Inv s
    → (lookup id s.workers ≡ some h)
      ↔ ((w : Worker) × (lookup h s.tasks ≡ some w) × (w.channel.id ≡ id) × (is_active w ≡ true))
Inv-owner_iff s id h v = (
  λ e. elim (Option-cases (lookup h s.tasks)) [
    | inl lost ↦ absurd (rw lost at (v.serving id h e))
    | inr (w, found) ↦ let k = (rw found at (v.serving id h e)) in (w, found, k.0, k.1)
  ],
  λ (w, found, same, active). rw (← same) (v.registered h w found active),
)

-- After any schedule a handle is registered for a channel exactly when it belongs to a worker of
-- that channel that is neither cancelled nor past its deregistration.
pub registry_iff :
    (es : List Event) (id : Text) (h : ℕ)
    → (lookup id (run init es).workers ≡ some h) ↔ (
        (w : Worker) × (lookup h (run init es).tasks ≡ some w)
        × (w.channel.id ≡ id)
        × (is_active w ≡ true))
registry_iff es id h = Inv-owner_iff (run init es) id h (run-Inv es)

-- After any schedule two active workers of one channel are one worker.
pub one_worker :
    (es : List Event) (h h' : ℕ) (w w' : Worker)
    → lookup h (run init es).tasks ≡ some w
    → lookup h' (run init es).tasks ≡ some w'
    → is_active w ≡ true
    → is_active w' ≡ true
    → w.channel.id ≡ w'.channel.id
    → h ≡ h'
one_worker es h h' w w' found found' active active' same =
    let v = run-Inv es in
    let e : lookup w'.channel.id (run init es).workers ≡ some h =
      rw (← same) (v.registered h w found active) in
    cc (v.registered h' w' found' active')

abbrev pub is_startable : Channel → Bool
is_startable ch =
    ch.status == codes "active" && (ch.mode == codes "ingest" || ch.mode == codes "transmux")

-- StartWorker makes a channel run exactly if it is active and in the mode ingest or transmux;
-- it never stops one, and it starts no other. How many workers run already plays no part.
pub worker_running-start_worker :
    (s : State) (ch : Channel) (id : Text)
    → worker_running (start_worker s ch) id
      ≡ (worker_running s id || (ch.id == id && is_startable ch))
unfolding worker_running start_worker register
worker_running-start_worker s ch id =
    ground (arith, ==_iff ch.id id, lookup-insert ch.id id s.next_handle s.workers)

lookup-stop_worker :
    (s : State) (id id' : Text)
    → lookup id' (stop_worker s id).workers ≡ (if id == id' then none else lookup id' s.workers)
unfolding stop_worker
lookup-stop_worker s id id' = elim (Option-cases (lookup id s.workers)) [
  | inl idle ↦ rw (idle, stop_worker) (ground (arith, ==_iff id id'))
  | inr (h, found) ↦ rw (found, stop_worker) (lookup-delete id id' s.workers)
]

-- StopWorker makes a channel not run, and leaves the other channels alone.
pub worker_running-stop_worker :
    (s : State) (id id' : Text)
    → worker_running (stop_worker s id) id' ≡ (worker_running s id' && not (id == id'))
unfolding worker_running
worker_running-stop_worker s id id' = ground (arith, lookup-stop_worker s id id')

stop_worker-next : (s : State) (id : Text) → (stop_worker s id).next_handle ≡ s.next_handle
unfolding stop_worker
stop_worker-next s id = ground arith

start_worker-registers :
    (s : State) (ch : Channel)
    → is_startable ch ≡ true
    → lookup ch.id s.workers ≡ none
    → lookup ch.id (start_worker s ch).workers ≡ some s.next_handle
unfolding start_worker register
start_worker-registers s ch ok idle =
    ground (arith, lookup-insert_self ch.id s.next_handle s.workers)

next-unused : (s : State) → Inv s → lookup s.next_handle s.tasks ≡ none
next-unused s v = elim (Option-cases (lookup s.next_handle s.tasks)) [
  | inl e ↦ e
  | inr (w, found) ↦ absurd (omega (arith, v.fresh s.next_handle w found))
]

inactive_of_other :
    (s : State) (owner h : ℕ) (w : Worker)
    → Inv s
    → lookup w.channel.id s.workers ≡ some owner
    → lookup h s.tasks ≡ some w
    → h ≢ owner
    → is_active w ≡ false
inactive_of_other s owner h w v e found ne = ground (arith, v.registered h w found)

-- StopWorker followed by StartWorker on a channel that may run registers a new handle for it, and
-- every worker of the channel but the new one is inactive.
pub restart_lem :
    (es : List Event) (ch : Channel)
    → is_startable ch ≡ true
    → let s = run init es in
      let t = start_worker (stop_worker s ch.id) ch in
      (lookup ch.id t.workers ≡ some s.next_handle)
      × (lookup s.next_handle s.tasks ≡ none)
      × ((h : ℕ) (w : Worker)
          → lookup h t.tasks ≡ some w
          → w.channel.id ≡ ch.id
          → h ≢ s.next_handle
          → is_active w ≡ false)
restart_lem es ch ok =
    let s = run init es in
    let stopped = stop_worker s ch.id in
    let v = run-Inv es in
    let idle : lookup ch.id stopped.workers ≡ none =
      rw (lookup-stop_worker s ch.id ch.id) (rw (==_self ch.id)) in
    let owned : lookup ch.id (start_worker stopped ch).workers ≡ some s.next_handle =
      start_worker-registers stopped ch ok idle ∙ ap some (stop_worker-next s ch.id) in
    (
      owned,
      next-unused s v,
      λ h w found same ne.
          inactive_of_other (start_worker stopped ch) s.next_handle h w
            (start_worker-Inv stopped ch (stop_worker-Inv s ch.id v)) (rw same owned) found ne,
    )

lookup-cancel_all :
    (rest : Map Text ℕ) (s : State) (id : Text)
    → lookup id (cancel_all rest s).workers
      ≡ (if has_key id rest then none else lookup id s.workers)
unfolding cancel_all
lookup-cancel_all [] s id = unfold lookup in refl
lookup-cancel_all ((j, h) ∷ rest) s id =
    let next = record s { workers = delete j s.workers; tasks = cancel_task h s.tasks } in
    ground
      (arith, lookup-cancel_all rest next id, lookup-cons id j h rest, lookup-delete j id s.workers)

-- After StopAll no channel has a registered worker, and every worker is cancelled or past its
-- deregistration.
pub stop_all_lem :
    (es : List Event) (id : Text) (h : ℕ) (w : Worker)
    → lookup h (stop_all (run init es)).tasks ≡ some w
    → (worker_running (stop_all (run init es)) id ≡ false) × (is_active w ≡ false)
unfolding stop_all worker_running
stop_all_lem es id h w found =
    let s = run init es in
    let none_left : (j : Text) → lookup j (cancel_all s.workers s).workers ≡ none =
      λ j. rw (lookup-cancel_all s.workers s j) (ground arith) in
    let v = stop_all-Inv s (run-Inv es) in
    (ground (arith, none_left id), ground (arith, v.registered h w found, none_left w.channel.id))
