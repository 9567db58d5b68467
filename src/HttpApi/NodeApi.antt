-- ===== src/HttpApi/NodeApi.antt =====
-- /node/* of backend/internal/httpapi/nodes.go: what the control plane answers to its nodes. The
-- decoded report is an argument.
pub mod Reports
mod Tests
pub mod Outages
use xrestream.Base.{
  if◌then◌else◌, ℕ, ◌*◌, ◌+◌, ◌==◌, ◌||◌, ◌∷◌, Bool, List, Option, Text, [], codes, false, is_empty,
  length, nat_beq, none, not, some, text_eq,
}
use xrestream.Base.Int.{ℤ, pos, negsuc}
use xrestream.Base.Results.{Error, Result, err, message, ok}
use xrestream.Store.{Channel, Node, R2Config, Time}
use xrestream.Store.Database.{Database, NodeRow}
use xrestream.Store.Channels.{list_channels_for_node}
use xrestream.Store.Counters.{increment_metric}
use xrestream.Store.Nodes.{get_node_with_key_hash, touch_node_heartbeat}
use xrestream.Store.R2Configs.{get_r2_config}
use xrestream.Store.Statuses.{set_source_status, set_worker_status}
use xrestream.HttpApi.Passwords.{Bcrypt}
use xrestream.HttpApi.Sessions.{bearer_token}
use xrestream.HttpApi.Server.{
  Body, Request, Response, Server, ServerConfig, bad_request, config_body, method_not_allowed,
  node_ok, reply, server_error, write_error,
}

pub record StatusUpdate : Type 0 where
  pub channel_id : Text
  pub worker_status : Text
  pub last_error : Option Text
  pub source_status : Option ℤ

pub record MetricUpdate : Type 0 where
  pub channel_id : Text
  pub field : Text
  pub amount : ℤ

pub record NodeReport : Type 0 where
  pub statuses : List StatusUpdate
  pub metrics : List MetricUpdate

push : ℕ → Option (Text × Text) → Option (Text × Text)
push a none = none
push a (some (s, t)) = some (a ∷ s, t)

-- strings.SplitN(key, ".", 2), when it gives two parts.
unfoldable pub split_key : Text → Option (Text × Text)
unfolding push
split_key [] = none
split_key (a ∷ s) = let rest = split_key s in if nat_beq a b'.' then some ([], s) else push a rest

key_matches : Bcrypt → Text → Result NodeRow → Option Node
key_matches bcrypt secret (err e) = none
key_matches bcrypt secret (ok row) =
    if bcrypt.compare_hash row.api_key_hash secret then some row.node else none

node_with_key : Bcrypt → Server → Request → Option (Text × Text) → Option Node
unfolding key_matches
node_with_key bcrypt s r none = none
node_with_key bcrypt s r (some (id, secret)) =
    if is_empty id || is_empty secret
    then none
    else key_matches bcrypt secret (get_node_with_key_hash (r.fault 0) s.db id)

unfoldable pub authenticate_node : Bcrypt → Server → Request → Option Node
unfolding split_key node_with_key bearer_token
authenticate_node bcrypt s r =
    let key = if is_empty r.node_key then bearer_token r.authorization else r.node_key in
    if is_empty key then none else node_with_key bcrypt s r (split_key key)

unfoldable pub invalid_key : Response
invalid_key = write_error 401 (codes "invalid node key")

beaten : Server → Node → Database × Result (Unit {0}) → Server × Response
beaten s n (db, err e) = (record s { db = db }, server_error e)
beaten s n (db, ok _) = (record s { db = db }, reply 200 (node_ok n.id))

pub handle_node_heartbeat : Bcrypt → Server → Request → Server × Response
unfolding authenticate_node beaten
handle_node_heartbeat bcrypt s r =
    if not (r.method == codes "POST")
    then (s, method_not_allowed)
    else elim (authenticate_node bcrypt s r) [
      | none ↦ (s, invalid_key)
      | some n ↦ beaten s n (touch_node_heartbeat (r.fault 1) s.db r.now n.id)
    ]

-- A part of the answer whose query fails is left out.
unfoldable pub or_absent : {A : Type 0} → Result A → Option A
or_absent (err e) = none
or_absent (ok a) = some a

unfoldable pub handle_node_config : Bcrypt → ServerConfig → Server → Request → Server × Response
unfolding authenticate_node or_absent
handle_node_config bcrypt cfg s r =
    if not (r.method == codes "GET")
    then (s, method_not_allowed)
    else elim (authenticate_node bcrypt s r) [
      | none ↦ (s, invalid_key)
      | some n ↦ (
        s,
        reply 200 (
            config_body n cfg.signing_secret cfg.public_stream_url
              (or_absent (get_r2_config (r.fault 1) s.db n.owner_id))
              (or_absent (list_channels_for_node (r.fault 2) s.db n.id))),
      )
    ]

apply_source : Option Text → Database → Time → Text → Option ℤ → Option Text → Database
apply_source fault db now id none last_error = db
apply_source fault db now id (some code) last_error =
    (set_source_status fault db now id code last_error).0

-- One status of a report. The two queries are given their faults.
unfoldable pub apply_status : Option Text → Option Text → Database → Time → StatusUpdate → Database
unfolding apply_source
apply_status fault fault₂ db now st =
    if is_empty st.channel_id
    then db
    else let db1 =
        if is_empty st.worker_status
        then db
        else (set_worker_status fault db now st.channel_id st.worker_status st.last_error).0 in
      apply_source fault₂ db1 now st.channel_id st.source_status st.last_error

-- The loops of handleNodeReport; each turn counts its queries, whether it makes them or not.
unfoldable pub apply_statuses :
    (ℕ → Option Text) → ℕ → Database → Time → List StatusUpdate → Database
unfolding apply_status
apply_statuses fault n db now [] = db
apply_statuses fault n db now (st ∷ sts) =
    apply_statuses fault (n + 2) (apply_status (fault n) (fault (n + 1)) db now st) now sts

is_zero : ℤ → Bool
is_zero (pos n) = nat_beq n 0
is_zero (negsuc n) = false

apply_metric : Option Text → Database → Time → MetricUpdate → Database
unfolding is_zero
apply_metric fault db now m =
    if is_empty m.channel_id || is_empty m.field || is_zero m.amount
    then db
    else increment_metric fault db now m.channel_id m.field m.amount

unfoldable pub apply_metrics :
    (ℕ → Option Text) → ℕ → Database → Time → List MetricUpdate → Database
unfolding apply_metric
apply_metrics fault n db now [] = db
apply_metrics fault n db now (m ∷ ms) =
    apply_metrics fault (n + 1) (apply_metric (fault n) db now m) now ms

-- The metrics come after the statuses: their queries are counted on from there.
unfoldable pub apply_report : Request → Database → NodeReport → Database
unfolding apply_statuses apply_metrics
apply_report r db report =
    apply_metrics r.fault (1 + 2 * length report.statuses)
      (apply_statuses r.fault 1 db r.now report.statuses) r.now report.metrics

reported : Server → Request → Node → Result NodeReport → Server × Response
unfolding apply_report
reported s r n (err e) = (s, bad_request e)
reported s r n (ok report) =
    (record s { db = apply_report r s.db report }, reply 200 (node_ok n.id))

unfoldable pub handle_node_report :
    Bcrypt → Server → Request → Result NodeReport → Server × Response
unfolding authenticate_node reported
handle_node_report bcrypt s r body =
    if not (r.method == codes "POST")
    then (s, method_not_allowed)
    else elim (authenticate_node bcrypt s r) [
      | none ↦ (s, invalid_key)
      | some n ↦ reported s r n body
    ]
