-- ===== src/NodeAgent/Agent/Sync.antt =====
-- Which workers run on a node after syncConfig.
use xrestream.Base.{
  if◌then◌else◌, ◌&&◌, ◌==◌, ◌||◌, ◌∙◌, ◌∷◌, ◌≡◌, Bool, Bool-cases, List, Option, Text, [], ap,
  arith, false, inl, inr, lookup, none, not, refl, some, text_eq, true,
}
use xrestream.Store.{Channel}
use xrestream.Relay.Workers.{start_worker, stop_worker, worker_running}
use xrestream.Relay.Workers.Ownership.{
  is_startable, worker_running-start_worker, worker_running-stop_worker,
}
use xrestream.Relay.Tables.{purge_channel, set_r2_client}
use xrestream.NodeAgent.MemStore.{replace}
use xrestream.NodeAgent.MemStore.Channels.{IsIndexed, any_with, any_with-replace}
use xrestream.NodeAgent.Agent.{
  r2_signature, build_r2_client, Agent, Manager, ConfigResponse, answered, remove_all, add_all,
  reconcile, refresh_r2, swap_r2, apply_config, after_bootstrap, bootstrap, sync_config,
}

worker_running-remove_all :
    (id : Text) (chs : List Channel) (rm : Manager)
    → worker_running (remove_all chs rm).workers id
      ≡ (worker_running rm.workers id && not (any_with id (λ ch. true) chs))
unfolding remove_all
worker_running-remove_all id [] rm = ground arith
worker_running-remove_all id (ch ∷ chs) rm = ground (
  arith,
  worker_running-remove_all id chs (record {
    signer = rm.signer;
    workers = stop_worker rm.workers ch.id;
    tables = purge_channel rm.tables ch.slug;
  }),
  worker_running-stop_worker rm.workers ch.id id,
)

worker_running-add_all :
    (id : Text) (chs : List Channel) (rm : Manager)
    → worker_running (add_all chs rm).workers id
      ≡ (worker_running rm.workers id || any_with id is_startable chs)
unfolding add_all
worker_running-add_all id [] rm = ground arith
worker_running-add_all id (ch ∷ chs) rm = ground (
  arith,
  worker_running-add_all id chs rm,
  worker_running-add_all id chs (record rm { workers = start_worker rm.workers ch }),
  worker_running-start_worker rm.workers ch id,
)

-- Whether a worker is to run, from the channel that the node held for an id, the one that it holds
-- now, and whether one ran before.
abbrev pub to_run : Option Channel → Option Channel → Bool → Bool
to_run none none ran = ran
to_run none (some ch) ran = ran || is_startable ch
to_run (some old) none ran = false
to_run (some old) (some ch) ran = ran

pub reconcile_lem :
    (a : Agent) (rm : Manager) (chs : List Channel)
    → IsIndexed a.store
    → a.relay ≡ some rm
    → let b = reconcile a chs in
      (b.store ≡ (replace a.store chs).store)
      × ((rm' : Manager) × (b.relay ≡ some rm')
          × ((id : Text)
              → worker_running rm'.workers id
                ≡ to_run
                    (lookup id a.store.by_id)
                    (lookup id b.store.by_id)
                    (worker_running rm.workers id)))
unfolding reconcile
reconcile_lem a rm chs v e =
    let r = replace a.store chs in
    let removed = remove_all r.removed rm in
    rw e (
      refl,
      (
        add_all r.added removed,
        refl,
        λ id. ground (
          arith,
          worker_running-add_all id r.added removed,
          worker_running-remove_all id r.removed rm,
          (any_with-replace id is_startable a.store chs v).0,
          (any_with-replace id (λ ch. true) a.store chs v).1,
        ),
      ),
    )

pub refresh_r2-workers :
    (a : Agent) (rm : Manager) (cfg : ConfigResponse)
    → a.relay ≡ some rm
    → ((refresh_r2 a cfg).store ≡ a.store)
      × ((rm1 : Manager) × ((refresh_r2 a cfg).relay ≡ some rm1) × (rm1.workers ≡ rm.workers))
unfolding refresh_r2 swap_r2
refresh_r2-workers a rm cfg e = elim (Bool-cases (r2_signature cfg.r2 == a.r2_sig)) [
  | inl same ↦ rw (same, refresh_r2) (refl, (rm, e, refl))
  | inr new_sig ↦
      rw (new_sig, refresh_r2, e)
        (
          refl,
          (record rm { tables = set_r2_client rm.tables (build_r2_client cfg.r2) }, refl, refl),
        )
]

pub sync_config-ready :
    (a : Agent) (cfg : ConfigResponse) (listen_error : Option Text)
    → a.signing_ready ≡ true
    → sync_config a (answered cfg) listen_error ≡ (reconcile (refresh_r2 a cfg) cfg.channels, none)
unfolding sync_config apply_config
sync_config-ready a cfg listen_error ready =
    ap
      (λ b.
        if not b
        then after_bootstrap cfg.channels (bootstrap a cfg listen_error)
        else (reconcile (refresh_r2 a cfg) cfg.channels, none))
      ready

pub sync_config-waiting :
    (a : Agent) (cfg : ConfigResponse) (listen_error : Option Text)
    → a.signing_ready ≡ false
    → sync_config a (answered cfg) listen_error
      ≡ after_bootstrap cfg.channels (bootstrap a cfg listen_error)
unfolding sync_config apply_config
sync_config-waiting a cfg listen_error waits =
    ap
      (λ b.
        if not b
        then after_bootstrap cfg.channels (bootstrap a cfg listen_error)
        else (reconcile (refresh_r2 a cfg) cfg.channels, none))
      waits

-- On a node that is up, a sync that gets its answer holds the channels of the answer, and has a
-- worker run for a channel as follows: of a channel that was not held before, if it is startable
-- (or one ran already); of a channel that is held no more, never; of any other, if one ran before.
pub sync_config-running :
    (a : Agent) (rm : Manager) (cfg : ConfigResponse) (listen_error : Option Text)
    → IsIndexed a.store
    → a.signing_ready ≡ true
    → a.relay ≡ some rm
    → let (b, e) = sync_config a (answered cfg) listen_error in
      (e ≡ none)
      × (b.store ≡ (replace a.store cfg.channels).store)
      × ((rm' : Manager) × (b.relay ≡ some rm')
          × ((id : Text)
              → worker_running rm'.workers id
                ≡ to_run
                    (lookup id a.store.by_id)
                    (lookup id b.store.by_id)
                    (worker_running rm.workers id)))
sync_config-running a rm cfg listen_error v ready e =
    let (kept, (rm1, e1, workers)) = refresh_r2-workers a rm cfg e in
    let (store, (rm2, e2, running)) =
      reconcile_lem (refresh_r2 a cfg) rm1 cfg.channels (rw kept v) e1 in
    rw (sync_config-ready a cfg listen_error ready) (
      refl,
      store ∙ ap (λ s. (replace s cfg.channels).store) kept,
      (rm2, e2, λ id. cc (running id, kept, workers)),
    )
