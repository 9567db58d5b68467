-- ===== src/HttpApi/NodeApi/Tests.antt =====
-- Reports and configuration requests of a node to a control plane with two users.
use xrestream.Base.{
  if◌then◌else◌, ◌==◌, ◌∷◌, ◌≡◌, All, List, [], codes, false, insert, lookup, nat_beq, nat_eq, none,
  refl, some, text_beq, text_eq, true,
}
use xrestream.Base.Int.{pos}
use xrestream.Base.Results.{ok}
use xrestream.Store.Sql.{any_where, first_where, scanned}
use xrestream.Store.Nodes.{first_node, get_node_with_key_hash}
use xrestream.Store.Database.{checks_channel, fits_integer, has_user, has_node}
use xrestream.HttpApi.Fixtures.{bcrypt, config, database, edge, news, request, server, signer}
use xrestream.Store.R2Configs.{get_r2_config}
use xrestream.NodeAgent.MemStore.{new_mem_store, replace}
use xrestream.NodeAgent.MemStore.Channels.{replace-IsIndexed}
use xrestream.NodeAgent.Agent.{Agent, Manager, answered, sync_config}
use xrestream.Relay.Workers.{worker_running}
use xrestream.HttpApi.NodeApi.{
  MetricUpdate, NodeReport, StatusUpdate, authenticate_node, handle_node_config, handle_node_report,
  or_absent,
}
use xrestream.HttpApi.NodeApi.Outages.{decode_config, outage_stops}
use xrestream.HttpApi.NodeApi.Reports.{reported_error_drops, rows_of}
use xrestream.HttpApi.Server.{Request, config_body, reply}
use xrestream.Store.Channels.{list_channels_for_node}

abbrev report : Request
report = record (request (codes "POST") (codes "/node/report")) { session = none }

abbrev failing : StatusUpdate
failing = record {
  channel_id = codes "c1";
  worker_status = codes "error";
  last_error = some (codes "timeout");
  source_status = some (pos 502);
}

abbrev running_again : StatusUpdate
running_again = record failing { last_error = none; source_status = some (pos 200) }

abbrev of_sport : StatusUpdate
of_sport = record running_again { channel_id = codes "c2"; worker_status = codes "running" }

abbrev counts : List MetricUpdate
counts = record { channel_id = codes "c1"; field = codes "worker_errors"; amount = pos 1 } ∷ []

reported_error_drops_example :
    let sent : NodeReport = record {
      statuses = running_again ∷ failing ∷ of_sport ∷ [];
      metrics = counts;
    } in
    All
      (λ ch. (ch.id == codes "c1") ≡ false)
      (rows_of (
        list_channels_for_node none
          (handle_node_report bcrypt server report (ok sent)).0.db
          (codes "n1")))
unfolding text_beq authenticate_node get_node_with_key_hash first_node scanned first_where
    checks_channel has_user has_node any_where fits_integer
reported_error_drops_example =
    reported_error_drops bcrypt server report edge.node (codes "c1") (codes "timeout") (codes "n1")
      (pos 502) (running_again ∷ []) (of_sport ∷ []) failing counts none refl refl
      (refl, refl, refl) (refl, tt) refl refl (refl, (refl, tt)) refl

abbrev asks : Request
asks = record (request (codes "GET") (codes "/node/config")) {
  session = none;
  fault = λ n. if nat_beq n 2 then some (codes "connection lost") else none;
}

abbrev up : Manager
up = record { signer = signer; workers = server.workers; tables = server.tables }

abbrev agent : Agent
agent = record {
  signing_secret = codes "s";
  public_stream_url = [];
  store = (replace new_mem_store (news ∷ [])).store;
  relay = some up;
  http_server = true;
  signing_ready = true;
  r2_sig = [];
}

outage_stops_example :
    let r2 = or_absent (get_r2_config none database (codes "u1")) in
    let (b, e) =
      sync_config agent
        (answered (decode_config (codes "s") (codes "https://tv.example") r2 none))
        none in
    (handle_node_config bcrypt config server asks ≡ (
      server,
      reply 200 (config_body edge.node (codes "s") (codes "https://tv.example") r2 none),
    ))
    × (e ≡ none)
    × (lookup (codes "c1") b.store.by_id ≡ none)
    × ((rm' : Manager) × (b.relay ≡ some rm') × (worker_running rm'.workers (codes "c1") ≡ false))
unfolding text_beq authenticate_node get_node_with_key_hash first_node scanned first_where replace
    lookup insert new_mem_store
outage_stops_example =
    outage_stops bcrypt config server asks edge.node (codes "connection lost") agent up none
      (codes "c1") news refl refl refl (replace-IsIndexed new_mem_store (news ∷ [])) refl refl refl
