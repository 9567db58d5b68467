-- ===== src/HttpApi/Channels.antt =====
-- The channel endpoints of backend/internal/httpapi/server.go: channels, for
-- the collection. The bodies of the requests are arguments, decoded.
pub mod Tenancy
use xrestream.Base.{
  if◌then◌else◌, ℕ, ◌&&◌, ◌==◌, ◌||◌, Bool, List, Option, Text, codes, false, is_empty, none, not,
  some, text_eq, true,
}
use xrestream.Base.Int.{ℤ}
use xrestream.Base.Results.{Error, Result, err, message, ok}
use xrestream.Store.{Channel, ChannelInput, Metrics, Node, Session}
use xrestream.Store.Database.{Database}
use xrestream.Store.Channels.{
  create_channel, delete_channel, get_channel, list_channels, list_channels_for_owner,
  update_channel,
}
use xrestream.Store.Statuses.{set_worker_status}
use xrestream.Store.Counters.{metrics}
use xrestream.Store.Nodes.{get_node}
use xrestream.Relay.Signer.{Crypto, Signer}
use xrestream.Relay.Tables.{purge_channel}
use xrestream.Relay.Viewers.{live_viewers}
use xrestream.Relay.Workers.{start_worker, stop_worker, worker_running}
use xrestream.HttpApi.OriginCache.{invalidate_slug_bypass}
use xrestream.HttpApi.Inputs.{Platform, decode_channel_input}
use xrestream.Store.Statuses.{set_worker_status}
use xrestream.HttpApi.PlaylistUrls.{apply_all, apply_public_playlist_url}
use xrestream.HttpApi.Server.{
  Body, Request, Response, Server, ServerConfig, bad_request, channel_body, channels_body, flag,
  handle_store_error, method_not_allowed, metrics_body, reply, server_error, share_body, token_body,
  for_session, unless_refused, worker_body, write_error,
}
use xrestream.HttpApi.ShareLinks.{share_link}
use xrestream.HttpApi.Tokens.{mint}

-- The decoded bodies: the channel of a POST or PATCH, and ttlMinutes of share-link, 0 when it
-- cannot be read.
pub record ChannelBodies : Type 0 where
  pub input : Result ChannelInput
  pub ttl_minutes : ℤ

pub no_node : Option Text → Bool
no_node none = true
no_node (some id) = is_empty id

-- The channels that the control plane itself runs a worker for.
unfoldable pub runs_here : Channel → Bool
unfolding no_node
runs_here ch =
    no_node ch.node_id
    && (ch.mode == codes "ingest" || ch.mode == codes "transmux")
    && ch.status == codes "active"

-- StartWorker: a start that registers a worker writes the channel's status, query `n` of the request,
-- whose failure is only logged.
unfoldable pub start_here : Server → Request → ℕ → Channel → Server
start_here s r n ch =
    let workers = start_worker s.workers ch in
    if worker_running s.workers ch.id || not (worker_running workers ch.id) then s else record s {
      workers = workers;
      db = (set_worker_status (r.fault n) s.db r.now ch.id (codes "running") none).0;
    }

unfoldable pub start_if_here : Server → Request → ℕ → Channel → Server
unfolding runs_here start_here
start_if_here s r n ch = if runs_here ch then start_here s r n ch else s

unfoldable pub is_admin : Session → Bool
is_admin sess = sess.role == codes "admin"

unfoldable pub owned_by : Session → Option Text → Bool
owned_by sess none = false
owned_by sess (some id) = id == sess.user_id

module _ (cfg : ServerConfig) where
  unfoldable pub published : ℕ → Request → ℕ → Server → Channel → Server × Response
  published status r n s ch =
      let (s1, ch1) = apply_public_playlist_url cfg.public_stream_url s r n ch in
      (s1, reply status (channel_body ch1))

  listed : Request → Server → Result (List Channel) → Server × Response
  listed r s (err e) = (s, server_error e)
  listed r s (ok chs) =
      let (s1, chs1) = apply_all cfg.public_stream_url s r 1 chs in
      (s1, reply 200 (channels_body chs1))

  list_for : Server → Request → Session → Server × Response
  unfolding listed is_admin
  list_for s r sess = listed r s (
      if is_admin sess
      then list_channels (r.fault 0) s.db
      else list_channels_for_owner (r.fault 0) s.db sess.user_id)

  -- Why the node of a new channel is refused, or none.
  node_refusal : Session → Result Node → Option Response
  unfolding is_admin
  node_refusal sess (err e) = some (handle_store_error e)
  node_refusal sess (ok n) =
      if not (is_admin sess) && not (n.owner_id == sess.user_id)
      then some (write_error 403 (codes "node is not yours"))
      else none

  check_node : Server → Request → Session → Option Text → Option Response
  unfolding node_refusal is_admin
  check_node s r sess node_id =
      if no_node node_id
      then if not (is_admin sess) then some (write_error 400 (codes "nodeId is required")) else none
      else elim node_id [ none ↦ none | some id ↦ node_refusal sess (get_node (r.fault 0) s.db id) ]

  created : Request → Server → Database × Result Channel → Server × Response
  unfolding start_if_here published
  created r s (db, err e) = (record s { db = db }, server_error e)
  created r s (db, ok ch) = published 201 r 3 (start_if_here (record s { db = db }) r 2 ch) ch

module _ (p : Platform) (cfg : ServerConfig) where
  create_for : Server → Request → Session → Result ChannelInput → Server × Response
  unfolding created check_node unless_refused
  create_for s r sess (err e) = (s, bad_request e)
  create_for s r sess (ok input) = unless_refused s (check_node cfg s r sess input.node_id) (
      created cfg r s (
        create_channel p.lower (r.fault 1) s.db r.new_id r.now input cfg.public_stream_url
          sess.user_id))

  channels_of : Server → Request → ChannelBodies → Session → Server × Response
  unfolding list_for create_for
  channels_of s r b sess =
      if r.method == codes "GET"
      then list_for cfg s r sess
      else if r.method == codes "POST"
      then create_for s r sess (decode_channel_input p b.input)
      else (s, method_not_allowed)

  unfoldable pub channels : Server → Request → ChannelBodies → Server × Response
  unfolding channels_of for_session
  channels s r b = for_session s r.session (λ sess. channels_of s r b sess)
