-- ===== src/NodeAgent/Agent/History.antt =====
-- What holds on a node over any history of syncs, flushes and steps of its worker goroutines.
use xrestream.Base.{
  ℕ, ◌∙◌, ◌∷◌, ◌≡◌, ◌≢◌, ◌⊎◌, Bool, Bool-cases, List, Map, Option, Text, [], ap, arith, false,
  has_key, inl, inr, is_empty, none, refl, some, subst, sym, text_eq, true,
}
use xrestream.Base.Lists.{}
use xrestream.Store.{Channel}
use xrestream.Relay.Workers.{State, init, Outcome, worker_running, advance, turn, wake}
use xrestream.Relay.Workers.Shrinking.{
  worker_running-init, worker_running-advance, worker_running-turn, worker_running-wake,
}
use xrestream.NodeAgent.MemStore.{new_mem_store, active_worker_channels, drain_reports}
use xrestream.NodeAgent.MemStore.Channels.{
  active_worker_channels-empty, IsIndexed, replace-IsIndexed,
}
use xrestream.NodeAgent.Agent.{
  start_all, start_relay_and_http, Agent, Manager, ConfigResponse, Answer, failed, refused,
  answered, new, reconcile, refresh_r2, bootstrap, after_bootstrap, sync_config, flush_reports,
  start_relay_and_http,
}
use xrestream.NodeAgent.Agent.Sync.{
  reconcile_lem, refresh_r2-workers, sync_config-ready, sync_config-waiting,
}

-- A turn of the agent's loop, or a step of a worker goroutine. The steps that workers
-- take during a sync are counted before or after it.
pub data Turn : Type 0 where
  polls : Answer ConfigResponse → Option Text → Turn
  flushes : Answer Unit → Turn
  advances : ℕ → Turn
  turns : ℕ → Outcome → Turn
  wakes : ℕ → Turn

abbrev with_workers : Agent → (State → State) → Option Manager → Agent
with_workers a f none = a
with_workers a f (some rm) = record a { relay = some (record rm { workers = f rm.workers }) }

unfoldable pub take_turn : Agent → Turn → Agent
take_turn a (polls answer listen_error) = (sync_config a answer listen_error).0
take_turn a (flushes answer) = (flush_reports a answer).agent
take_turn a (advances h) = with_workers a (λ w. advance w h) a.relay
take_turn a (turns h o) = with_workers a (λ w. turn w h o) a.relay
take_turn a (wakes h) = with_workers a (λ w. wake w h) a.relay

unfoldable pub run_turns : Agent → List Turn → Agent
run_turns a [] = a
run_turns a (t ∷ ts) = run_turns (take_turn a t) ts

-- Every worker of the manager serves a channel that the node holds.
abbrev Stays : Map Text Channel → State → Type 0
Stays held w = (id : Text) → worker_running w id ≡ true → has_key id held ≡ true

abbrev pub Up : Bool → Map Text Channel → Option Manager → Type 0
Up ready held none = ready ≡ false
Up ready held (some rm) = Stays held rm.workers

pub record Inv (a : Agent) : Type 0 where
  pub indexed : IsIndexed a.store
  pub waiting : a.signing_ready ≡ false → a.store.by_id ≡ []
  pub up : Up a.signing_ready a.store.by_id a.relay

with_workers-Inv :
    (a : Agent) (f : State → State) (m : Option Manager)
    → ((w : State) (id : Text) → worker_running (f w) id ≡ true → worker_running w id ≡ true)
    → a.relay ≡ m
    → Inv a
    → Inv (with_workers a f m)
with_workers-Inv a f none shrinks e v = v
with_workers-Inv a f (some rm) shrinks e v =
    let old : Stays a.store.by_id rm.workers = subst (Up a.signing_ready a.store.by_id) e v.up in
    record {
      indexed = v.indexed;
      waiting = v.waiting;
      up = λ id r. old id (shrinks rm.workers id r);
    }

flush_reports-agent :
    (a : Agent) (answer : Answer Unit)
    → (flush_reports a answer).agent ≡ record a { store = (drain_reports a.store).store }
unfolding flush_reports drain_reports
flush_reports-agent a answer = ground arith

flush_reports-Inv : (a : Agent) (answer : Answer Unit) → Inv a → Inv (flush_reports a answer).agent
unfolding drain_reports
flush_reports-Inv a answer v = rw (flush_reports-agent a answer) (record {
  indexed = record { by_id = v.indexed.by_id; by_slug = v.indexed.by_slug };
  waiting = v.waiting;
  up = v.up;
})

reconcile-ready :
    (a : Agent) (chs : List Channel) → (reconcile a chs).signing_ready ≡ a.signing_ready
unfolding reconcile
reconcile-ready a chs = ground arith

reconcile-Inv :
    (a : Agent) (rm : Manager) (chs : List Channel)
    → a.relay ≡ some rm
    → a.signing_ready ≡ true
    → IsIndexed a.store
    → Stays a.store.by_id rm.workers
    → Inv (reconcile a chs)
reconcile-Inv a rm chs e ready v stays =
    let b = reconcile a chs in
    let (store, (rm2, e2, running)) = reconcile_lem a rm chs v e in
    record {
      indexed = rw store (replace-IsIndexed a.store chs);
      waiting = λ w. absurd (cc (reconcile-ready a chs));
      up =
          subst (Up b.signing_ready b.store.by_id) (sym e2)
            (λ id r. ground (arith, running id, stays id));
    }

started_empty :
    (a : Agent) → a.store.by_id ≡ [] → start_all (active_worker_channels a.store) init ≡ init
unfolding start_all
started_empty a empty = rw (active_worker_channels-empty a.store empty) refl

-- What a bootstrap leaves behind: the agent as it was, with an error, or a new manager.
abbrev Booted : Agent → Agent × Option Text → Type 0
Booted a (b, e) =
    (b.store ≡ a.store)
    × (((b ≡ a) × (e ≢ none))
        ⊎ ((rm : Manager) × (b.relay ≡ some rm)
            × (rm.workers ≡ init)
            × (e ≡ none → b.signing_ready ≡ true)))

bootstrap-Booted :
    (a : Agent) (cfg : ConfigResponse) (listen_error : Option Text)
    → a.store.by_id ≡ []
    → Booted a (bootstrap a cfg listen_error)
unfolding bootstrap start_relay_and_http
bootstrap-Booted a cfg none empty = elim (Bool-cases (is_empty cfg.signing_secret)) [
  | inl no_secret ↦ rw (no_secret, bootstrap) (refl, inl (refl, λ e. absurd (cc)))
  | inr secret ↦ rw (secret, bootstrap) (refl, inr (_, refl, started_empty a empty, λ e. refl))
]
bootstrap-Booted a cfg (some why) empty = elim (Bool-cases (is_empty cfg.signing_secret)) [
  | inl no_secret ↦ rw (no_secret, bootstrap) (refl, inl (refl, λ e. absurd (cc)))
  | inr secret ↦
      rw (secret, bootstrap) (refl, inr (_, refl, started_empty a empty, λ e. absurd (cc)))
]

init-Stays : (held : Map Text Channel) (w : State) → w ≡ init → Stays held w
init-Stays held w e id r =
    let idle : false ≡ true = (rw (e, worker_running-init id) at r) in absurd (cc)

after_bootstrap-Inv :
    (a : Agent) (chs : List Channel) (p : Agent × Option Text)
    → Booted a p
    → a.signing_ready ≡ false
    → Inv a
    → Inv (after_bootstrap chs p).0
unfolding after_bootstrap
after_bootstrap-Inv a chs (b, none) (store, inl (same, ne)) waits v = absurd (ne refl)
after_bootstrap-Inv a chs (b, none) (store, inr (rm, e, w, ready)) waits v =
    reconcile-Inv b rm chs e (ready refl) (rw store v.indexed)
      (init-Stays b.store.by_id rm.workers w)
after_bootstrap-Inv a chs (b, some why) (store, inl (same, ne)) waits v = rw same v
after_bootstrap-Inv a chs (b, some why) (store, inr (rm, e, w, ready)) waits v = record {
  indexed = rw store v.indexed;
  waiting = λ _. ap (λ s. s.by_id) store ∙ v.waiting waits;
  up = subst (Up b.signing_ready b.store.by_id) (sym e) (init-Stays b.store.by_id rm.workers w);
}

refresh_r2-ready :
    (a : Agent) (cfg : ConfigResponse) → (refresh_r2 a cfg).signing_ready ≡ a.signing_ready
unfolding refresh_r2
refresh_r2-ready a cfg = ground arith

later_sync-Inv :
    (a : Agent) (cfg : ConfigResponse) (m : Option Manager)
    → a.relay ≡ m
    → a.signing_ready ≡ true
    → Inv a
    → Inv (reconcile (refresh_r2 a cfg) cfg.channels)
later_sync-Inv a cfg none e ready v =
    let down : a.signing_ready ≡ false = subst (Up a.signing_ready a.store.by_id) e v.up in
    absurd (cc)
later_sync-Inv a cfg (some rm) e ready v =
    let stays : Stays a.store.by_id rm.workers = subst (Up a.signing_ready a.store.by_id) e v.up in
    let (kept, (rm1, e1, workers)) = refresh_r2-workers a rm cfg e in
    reconcile-Inv (refresh_r2 a cfg) rm1 cfg.channels e1 (refresh_r2-ready a cfg ∙ ready)
      (rw kept v.indexed) (rw (kept, workers) stays)

answered-Inv :
    (a : Agent) (cfg : ConfigResponse) (listen_error : Option Text)
    → Inv a
    → Inv (sync_config a (answered cfg) listen_error).0
answered-Inv a cfg listen_error v = elim (Bool-cases a.signing_ready) [
  | inl ready ↦
      rw (sync_config-ready a cfg listen_error ready) (later_sync-Inv a cfg a.relay refl ready v)
  | inr waits ↦ rw (sync_config-waiting a cfg listen_error waits) (
      after_bootstrap-Inv a cfg.channels (bootstrap a cfg listen_error)
        (bootstrap-Booted a cfg listen_error (v.waiting waits)) waits v)
]

take_turn-Inv : (a : Agent) (t : Turn) → Inv a → Inv (take_turn a t)
unfolding take_turn
take_turn-Inv a (polls (failed why) listen_error) v = unfold sync_config in v
take_turn-Inv a (polls (refused status body) listen_error) v = unfold sync_config in v
take_turn-Inv a (polls (answered cfg) listen_error) v = answered-Inv a cfg listen_error v
take_turn-Inv a (flushes answer) v = flush_reports-Inv a answer v
take_turn-Inv a (advances h) v =
    with_workers-Inv a _ a.relay (λ w. worker_running-advance w h) refl v
take_turn-Inv a (turns h o) v =
    with_workers-Inv a _ a.relay (λ w id r. sym (worker_running-turn w h o id) ∙ r) refl v
take_turn-Inv a (wakes h) v =
    with_workers-Inv a _ a.relay (λ w id r. sym (worker_running-wake w h id) ∙ r) refl v

run_turns-Inv : (a : Agent) (ts : List Turn) → Inv a → Inv (run_turns a ts)
unfolding run_turns
run_turns-Inv a [] v = v
run_turns-Inv a (t ∷ ts) v = run_turns-Inv (take_turn a t) ts (take_turn-Inv a t v)

new-Inv : (secret url : Text) → Inv (new secret url)
unfolding new new_mem_store
new-Inv secret url = record {
  indexed = record {
    by_id = record { distinct = tt; keyed = tt };
    by_slug = record { distinct = tt; keyed = tt };
  };
  waiting = λ _. refl;
  up = refl;
}

-- Over any history of a node, of syncs that fail or succeed, listeners that do not open, flushes
-- and steps of the worker goroutines, every channel with a registered worker is one that the node
-- holds.
pub workers_held :
    (secret url : Text) (ts : List Turn) (rm : Manager) (id : Text)
    → let a = run_turns (new secret url) ts in
      a.relay ≡ some rm → worker_running rm.workers id ≡ true → has_key id a.store.by_id ≡ true
workers_held secret url ts rm id e running =
    let a = run_turns (new secret url) ts in
    let stays : Stays a.store.by_id rm.workers =
      subst (Up a.signing_ready a.store.by_id) e (run_turns-Inv _ ts (new-Inv secret url)).up in
    stays id running
