-- ===== src/Relay/Workers.antt =====
-- The worker registry of backend/internal/relay/manager.go. Each step of a schedule is one critical
-- section under Manager.mu, or one write of a worker status, so every interleaving of callers and
-- worker goroutines is a list of events. The store of the statuses is the node's, whose writes do
-- not fail. A handle's address is its number.
pub mod Registry
pub mod Schedules
pub mod Ownership
pub mod Shrinking
mod Tests
use xrestream.Base.{
  if◌then◌else◌, ℕ, ◌&&◌, ◌+◌, ◌==◌, ◌||◌, ◌∷◌, Bool, List, Map, Text, [], codes, delete, false,
  has_key, insert, lookup, nat_eq, none, not, some, text_eq, true,
}
use xrestream.Store.{Channel}

-- Where a worker stands: in StartWorker after the lock, before the go statement, at the first line
-- of its loop, at the top of a turn of the loop, waiting for ffmpeg to end, in the select at the
-- end of a turn, in the two calls of the deferred function, and after it.
pub data Phase : Type 0 where
  announcing spawning entering trying encoding waiting releasing leaving gone : Phase

pub record Worker : Type 0 where
  pub channel : Channel
  pub phase : Phase
  pub cancelled : Bool

pub record State : Type 0 where
  pub workers : Map Text ℕ
  pub tasks : Map ℕ Worker
  pub next_handle : ℕ
  pub statuses : Map Text Text
  pub parent_done : Bool

unfoldable pub init : State
init = record { workers = []; tasks = []; next_handle = 0; statuses = []; parent_done = false }

pub set_status : State → Text → Text → State
set_status s id status = record s { statuses = insert id status s.statuses }

-- The registration that StartWorker makes under the lock.
register : State → Channel → State
register s ch = record s {
  workers = insert ch.id s.next_handle s.workers;
  tasks =
      insert s.next_handle (record { channel = ch; phase = announcing; cancelled = false }) s.tasks;
  next_handle = s.next_handle + 1;
}

unfoldable pub start_worker : State → Channel → State
unfolding register
start_worker s ch =
    if not (ch.status == codes "active")
    then s
    else if not (ch.mode == codes "ingest") && not (ch.mode == codes "transmux")
    then s
    else if has_key ch.id s.workers
    then s
    else register s ch

-- handle.cancel()
cancel_task : ℕ → Map ℕ Worker → Map ℕ Worker
cancel_task h tasks = elim (lookup h tasks) [
  | none ↦ tasks
  | some w ↦ insert h (record w { cancelled = true }) tasks
]

unfoldable pub stop_worker : State → Text → State
unfolding cancel_task
stop_worker s id = elim (lookup id s.workers) [
  | none ↦ s
  | some h ↦ record s { workers = delete id s.workers; tasks = cancel_task h s.tasks }
]

pub release_worker : State → Text → ℕ → State
release_worker s id h = elim (lookup id s.workers) [
  | none ↦ s
  | some cur ↦ if cur == h then record s { workers = delete id s.workers } else s
]

-- The loop of StopAll over the registered workers.
cancel_all : Map Text ℕ → State → State
unfolding cancel_task
cancel_all [] s = s
cancel_all ((id, h) ∷ rest) s =
    cancel_all rest (record s { workers = delete id s.workers; tasks = cancel_task h s.tasks })

pub stop_all : State → State
unfolding cancel_all
stop_all s = cancel_all s.workers s

unfoldable pub worker_running : State → Text → Bool
worker_running s id = has_key id s.workers

is_done : State → Worker → Bool
is_done s w = w.cancelled || s.parent_done

transmuxes : Worker → Bool
transmuxes w = w.channel.mode == codes "transmux"

pub set_phase : State → ℕ → Worker → Phase → State
set_phase s h w p = record s { tasks = insert h (record w { phase = p }) s.tasks }

-- The next action of the goroutine of a worker. In its loop this is the return when the context is
-- done: transmuxLoop asks at the top of a turn, after ffmpeg and in the select, workerLoop in the
-- select only.
advance_from : Phase → State → ℕ → Worker → State
unfolding set_phase set_status is_done transmuxes release_worker
advance_from announcing s h w = set_phase (set_status s w.channel.id (codes "running")) h w spawning
advance_from spawning s h w = set_phase s h w entering
advance_from entering s h w = set_phase (set_status s w.channel.id (codes "running")) h w trying
advance_from trying s h w = if is_done s w && transmuxes w then set_phase s h w releasing else s
advance_from encoding s h w = if is_done s w then set_phase s h w releasing else s
advance_from waiting s h w = if is_done s w then set_phase s h w releasing else s
advance_from releasing s h w = set_phase (release_worker s w.channel.id h) h w leaving
advance_from leaving s h w = set_phase (set_status s w.channel.id (codes "stopped")) h w gone
advance_from gone s h w = s

unfoldable pub advance : State → ℕ → State
unfolding advance_from
advance s h = elim (lookup h s.tasks) [ none ↦ s | some w ↦ advance_from w.phase s h w ]

-- How an ingest cycle, the start of ffmpeg or its run turns out; a source that fails for good is
-- given up by transmuxLoop.
pub data Outcome : Type 0 where
  succeeds fails fails_for_good : Outcome

-- workerLoop after an ingest cycle.
after_cycle : Outcome → State → ℕ → Worker → State
unfolding set_phase set_status
after_cycle succeeds s h w = set_phase (set_status s w.channel.id (codes "running")) h w waiting
after_cycle _ s h w = set_phase (set_status s w.channel.id (codes "error")) h w waiting

-- transmuxLoop after a failed start and after the end of ffmpeg.
after_failure : Outcome → State → ℕ → Worker → State
unfolding set_phase set_status
after_failure fails_for_good s h w =
    set_phase (set_status s w.channel.id (codes "error")) h w releasing
after_failure _ s h w = set_phase (set_status s w.channel.id (codes "error")) h w waiting

-- transmuxLoop after the attempt to start ffmpeg.
after_start : Outcome → State → ℕ → Worker → State
unfolding set_phase set_status after_failure
after_start succeeds s h w = set_phase (set_status s w.channel.id (codes "running")) h w encoding
after_start o s h w = after_failure o s h w

-- A part of a turn of the loop ends, with the status that it writes. That the context is done may
-- be noticed at the next question only, so it does not prevent this.
turn_from : Phase → State → ℕ → Worker → Outcome → State
unfolding after_cycle after_start after_failure transmuxes
turn_from trying s h w o = if transmuxes w then after_start o s h w else after_cycle o s h w
turn_from encoding s h w o = after_failure o s h w
turn_from _ s h w o = s

unfoldable pub turn : State → ℕ → Outcome → State
unfolding turn_from
turn s h o = elim (lookup h s.tasks) [ none ↦ s | some w ↦ turn_from w.phase s h w o ]

-- time.After fires in the select.
wake_from : Phase → State → ℕ → Worker → State
unfolding set_phase
wake_from waiting s h w = set_phase s h w trying
wake_from _ s h w = s

unfoldable pub wake : State → ℕ → State
unfolding wake_from
wake s h = elim (lookup h s.tasks) [ none ↦ s | some w ↦ wake_from w.phase s h w ]

pub data Event : Type 0 where
  starts : Channel → Event
  stops : Text → Event
  stops_all : Event
  advances : ℕ → Event
  turns : ℕ → Outcome → Event
  wakes : ℕ → Event
  parent_ends : Event

pub step : State → Event → State
step s (starts ch) = start_worker s ch
step s (stops id) = stop_worker s id
step s stops_all = stop_all s
step s (advances h) = advance s h
step s (turns h o) = turn s h o
step s (wakes h) = wake s h
step s parent_ends = record s { parent_done = true }

pub run : State → List Event → State
run s [] = s
run s (e ∷ es) = run (step s e) es
