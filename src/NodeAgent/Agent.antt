-- ===== src/NodeAgent/Agent.antt =====
-- syncConfig and flushReports of backend/internal/nodeagent/agent.go. What the control plane answers
-- and whether the listener can be opened are arguments.
pub mod Sync
pub mod History
pub mod Buckets
mod Tests
use xrestream.Base.{
  if◌then◌else◌, ℕ, ◌&&◌, ◌++◌, ◌==◌, ◌||◌, ◌∷◌, Bool, List, Map, Option, Text, [], codes, false,
  is_empty, length, nat_beq, none, not, some, take, text_eq, true,
}
use xrestream.Base.Int.{ℤ, pos}
use xrestream.Base.Decimal.{print_int}
use xrestream.Store.{Channel, R2Config}
use xrestream.Relay.R2.{R2Client, new_r2_client}
use xrestream.Relay.Signer.{Signer, new_signer}
use xrestream.Relay.Tables.{Tables, new_tables, set_r2_client, purge_channel}
use xrestream.Relay.Workers.{State, init, start_worker, stop_worker}
use xrestream.NodeAgent.MemStore.{
  MemStore, StatusReport, MetricKey, new_mem_store, replace, active_worker_channels, drain_reports,
}

pub record ConfigResponse : Type 0 where
  pub signing_secret : Text
  pub public_stream_url : Text
  pub r2 : Option R2Config
  pub channels : List Channel

-- An answer to an HTTP request: an error of the client or of the decoder, or a status that is not
-- 200 with its body, or a value.
pub data Answer (A : Type 0) : Type 0 where
  failed : Text → Answer A
  refused : ℕ → Text → Answer A
  answered : A → Answer A

-- The part of relay.Manager that the agent drives.
pub record Manager : Type 0 where
  pub signer : Signer
  pub workers : State
  pub tables : Tables

pub record Agent : Type 0 where
  pub signing_secret : Text
  pub public_stream_url : Text
  pub store : MemStore
  pub relay : Option Manager
  pub http_server : Bool
  pub signing_ready : Bool
  pub r2_sig : Text

pub new : Text → Text → Agent
new signing_secret public_stream_url = record {
  signing_secret = signing_secret;
  public_stream_url = public_stream_url;
  store = new_mem_store;
  relay = none;
  http_server = false;
  signing_ready = false;
  r2_sig = [];
}

-- buildR2Client
build_from : R2Config → Option R2Client
build_from c =
    if is_empty c.account_id
      || is_empty c.access_key_id
      || is_empty c.secret_access_key
      || is_empty c.bucket
    then none
    else some (new_r2_client c.account_id c.access_key_id c.secret_access_key c.bucket c.public_url)

pub build_r2_client : Option R2Config → Option R2Client
unfolding build_from
build_r2_client none = none
build_r2_client (some c) = build_from c

pub r2_signature : Option R2Config → Text
r2_signature none = []
r2_signature (some c) =
    c.account_id
    ++ (b'|'
        ∷ (c.bucket
            ++ (b'|'
                ∷ (c.access_key_id ++ (b'|' ∷ (c.public_url ++ (b'|' ∷ c.secret_access_key)))))))

pub start_all : List Channel → State → State
start_all [] s = s
start_all (ch ∷ chs) s = start_all chs (start_worker s ch)

-- startRelayAndHTTP, with the error of net.Listen if there is one. The manager reads its channels
-- through the agent's store.
pub start_relay_and_http : Agent → Option R2Config → Option Text → Agent × Option Text
unfolding start_all build_r2_client
start_relay_and_http a r2_config listen_error =
    let rm : Manager = record {
      signer = new_signer a.signing_secret;
      workers = start_all (active_worker_channels a.store) init;
      tables = new_tables (build_r2_client r2_config);
    } in
    let started = record a { relay = some rm } in
    elim listen_error [
      | none ↦ (record started { http_server = true }, none)
      | some why ↦ (started, some why)
    ]

-- The first sync, up to the call of Replace.
pub bootstrap : Agent → ConfigResponse → Option Text → Agent × Option Text
unfolding start_relay_and_http r2_signature
bootstrap a cfg listen_error =
    if is_empty cfg.signing_secret
    then (a, some (codes "control plane returned empty signingSecret; cannot start node relay"))
    else let a1 = record a {
      signing_secret = cfg.signing_secret;
      public_stream_url =
          (if is_empty cfg.public_stream_url then a.public_stream_url else cfg.public_stream_url);
    } in
      let (a2, e) = start_relay_and_http a1 cfg.r2 listen_error in
      elim e [
        | none ↦ (record a2 { r2_sig = r2_signature cfg.r2; signing_ready = true }, none)
        | some why ↦ (a2, some (codes "start relay: " ++ why))
      ]

swap_r2 : Option R2Config → Option Manager → Option Manager
unfolding build_r2_client
swap_r2 c none = none
swap_r2 c (some rm) = some (record rm { tables = set_r2_client rm.tables (build_r2_client c) })

-- Any later sync, up to the call of Replace.
pub refresh_r2 : Agent → ConfigResponse → Agent
unfolding swap_r2 r2_signature
refresh_r2 a cfg =
    let sig = r2_signature cfg.r2 in
    if sig == a.r2_sig then a else record a { relay = swap_r2 cfg.r2 a.relay; r2_sig = sig }

-- The loop over the removed channels.
remove_all : List Channel → Manager → Manager
remove_all [] rm = rm
remove_all (ch ∷ removed) rm =
    remove_all removed (record rm {
      workers = stop_worker rm.workers ch.id;
      tables = purge_channel rm.tables ch.slug;
    })

-- The loop over the added channels.
add_all : List Channel → Manager → Manager
add_all [] rm = rm
add_all (ch ∷ added) rm =
    if ch.status == codes "active" && (ch.mode == codes "ingest" || ch.mode == codes "transmux")
    then add_all added (record rm { workers = start_worker rm.workers ch })
    else add_all added rm

pub reconcile : Agent → List Channel → Agent
unfolding remove_all add_all
reconcile a channels =
    let r = replace a.store channels in
    elim a.relay [
      | none ↦ record a { store = r.store }
      | some rm ↦ record a {
        store = r.store;
        relay = some (add_all r.added (remove_all r.removed rm));
      }
    ]

pub after_bootstrap : List Channel → Agent × Option Text → Agent × Option Text
unfolding reconcile
after_bootstrap channels (a, none) = (reconcile a channels, none)
after_bootstrap channels (a, some why) = (a, some why)

-- The steps after the answer is decoded, and the error that syncConfig returns.
apply_config : Agent → ConfigResponse → Option Text → Agent × Option Text
unfolding bootstrap after_bootstrap refresh_r2 reconcile
apply_config a cfg listen_error =
    if not a.signing_ready
    then after_bootstrap cfg.channels (bootstrap a cfg listen_error)
    else (reconcile (refresh_r2 a cfg) cfg.channels, none)

-- An error page is read up to 512 bytes.
abbrev refusal : Text → ℕ → Text → Text
refusal what status body =
    what ++ (codes " status " ++ (print_int (pos status) ++ (codes ": " ++ take 512 body)))

pub sync_config : Agent → Answer ConfigResponse → Option Text → Agent × Option Text
unfolding apply_config
sync_config a (failed why) listen_error = (a, some why)
sync_config a (refused status body) listen_error = (a, some (refusal (codes "config") status body))
sync_config a (answered cfg) listen_error = apply_config a cfg listen_error

pub record Report : Type 0 where
  pub statuses : Map Text StatusReport
  pub metrics : Map MetricKey ℕ

pub record Flushed : Type 0 where
  pub agent : Agent
  pub posted : Option Report
  pub error : Option Text

post_error : Answer Unit → Option Text
post_error (failed why) = some why
post_error (refused status body) = some (refusal (codes "report") status body)
post_error (answered _) = none

pub flush_reports : Agent → Answer Unit → Flushed
unfolding post_error
flush_reports a answer =
    let d = drain_reports a.store in
    if nat_beq (length d.statuses) 0 && nat_beq (length d.metrics) 0
    then record { agent = record a { store = d.store }; posted = none; error = none }
    else record {
      agent = record a { store = d.store };
      posted = some (record { statuses = d.statuses; metrics = d.metrics });
      error = post_error answer;
    }
