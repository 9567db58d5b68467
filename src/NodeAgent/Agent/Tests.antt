-- ===== src/NodeAgent/Agent/Tests.antt =====
-- A node that is set up, gets a second configuration, and runs its workers.
use xrestream.Base.{
  ◌∷◌, ◌≡◌, Bool, List, Option, Text, [], arith, codes, delete, false, has_key, insert, lookup,
  none, refl, some, text_beq, text_eq, true,
}
use xrestream.Store.{Channel, zero_channel, R2Config}
use xrestream.Relay.Signer.{new_signer}
use xrestream.Relay.R2.{new_r2_client}
use xrestream.Relay.Tables.{new_tables, set_r2_client, purge_channel}
use xrestream.Relay.Workers.{init, start_worker, stop_worker, worker_running, advance}
use xrestream.NodeAgent.MemStore.{new_mem_store, replace, active_worker_channels, drain_reports}
use xrestream.NodeAgent.MemStore.Channels.{replace-IsIndexed}
use xrestream.NodeAgent.Agent.{
  Agent, Manager, ConfigResponse, failed, refused, answered, new, r2_signature, build_r2_client,
  sync_config, apply_config, flush_reports,
}
use xrestream.NodeAgent.Agent.Sync.{to_run, sync_config-running}
use xrestream.NodeAgent.Agent.History.{
  Turn, polls, flushes, advances, take_turn, run_turns, workers_held,
}
use xrestream.NodeAgent.Agent.Buckets.{Uses, sync_config-r2}

abbrev news : Channel
news = record zero_channel {
  id = codes "c1";
  slug = codes "news";
  mode = codes "transmux";
  status = codes "active";
}

abbrev sport : Channel
sport = record zero_channel {
  id = codes "c2";
  slug = codes "sport";
  mode = codes "ingest";
  status = codes "active";
}

abbrev bucket : R2Config
bucket = record {
  id = codes "r1";
  owner_id = codes "u1";
  account_id = codes "acc";
  access_key_id = codes "key";
  secret_access_key = codes "pw";
  bucket = codes "b";
  public_url = codes "https://cdn";
  created_at = 0;
  updated_at = 0;
}

abbrev first : ConfigResponse
first = record {
  signing_secret = codes "s";
  public_stream_url = [];
  r2 = none;
  channels = news ∷ [];
}

abbrev second : ConfigResponse
second = record {
  signing_secret = codes "s";
  public_stream_url = [];
  r2 = some bucket;
  channels = sport ∷ [];
}

-- The first listener does not open; the second sync is refused.
abbrev turns : List Turn
turns =
    polls (answered first) (some (codes "in use"))
    ∷ polls (refused 500 []) none
    ∷ polls (answered first) none
    ∷ advances 0
    ∷ polls (answered second) none
    ∷ flushes (failed (codes "timeout"))
    ∷ []

machine : Unit {0}
unfolding run_turns take_turn sync_config apply_config flush_reports new new_mem_store replace
    active_worker_channels drain_reports init start_worker stop_worker worker_running advance
    new_tables set_r2_client purge_channel build_r2_client new_r2_client r2_signature new_signer
    lookup insert delete text_beq
machine = tt

ran : Option Manager → Text → Bool
ran none id = false
ran (some rm) id = worker_running rm.workers id

switched :
    let a = run_turns (new [] []) turns in
    (a.signing_ready ≡ true)
    × (ran a.relay (codes "c1") ≡ false)
    × (ran a.relay (codes "c2") ≡ true)
    × (a.r2_sig ≡ codes "acc|b|key|https://cdn|pw")
unfolding machine ran
switched = (refl, refl, refl, refl)

abbrev running_node : Manager
running_node = record {
  signer = record { secret = codes "s" };
  workers = start_worker init news;
  tables = new_tables none;
}

abbrev node : Agent
node = record {
  signing_secret = codes "s";
  public_stream_url = [];
  store = (replace new_mem_store (news ∷ [])).store;
  relay = some running_node;
  http_server = true;
  signing_ready = true;
  r2_sig = [];
}

sync_config-running_example :
    let (b, e) = sync_config node (answered second) none in
    (e ≡ none)
    × (b.store ≡ (replace node.store (sport ∷ [])).store)
    × ((rm' : Manager) × (b.relay ≡ some rm')
        × ((id : Text)
            → worker_running rm'.workers id
              ≡ to_run
                  (lookup id node.store.by_id)
                  (lookup id b.store.by_id)
                  (worker_running running_node.workers id)))
sync_config-running_example =
    sync_config-running node running_node second none (replace-IsIndexed new_mem_store (news ∷ []))
      refl refl

no_bucket : Uses node none
unfolding new_tables build_r2_client r2_signature
no_bucket = (running_node, refl, refl, refl)

sync_config-r2_example : Uses (sync_config node (answered second) none).0 (some bucket)
sync_config-r2_example = sync_config-r2 node none second none refl tt (ground arith) no_bucket

up_after_one : (run_turns (new [] []) (polls (answered first) none ∷ [])).relay ≡ some running_node
unfolding machine
up_after_one = refl

news_runs : worker_running running_node.workers (codes "c1") ≡ true
unfolding machine
news_runs = refl

workers_held_example :
    has_key (codes "c1") (run_turns (new [] []) (polls (answered first) none ∷ [])).store.by_id
    ≡ true
workers_held_example =
    workers_held [] [] (polls (answered first) none ∷ []) running_node (codes "c1") up_after_one
      news_runs
