-- ===== src/HttpApi/ChannelById.antt =====
-- The endpoints below /channels/ of backend/internal/httpapi/server.go: channelByID and
-- handleChannelRecord. The bodies of the requests are arguments, decoded.
pub mod Tenancy
pub mod Missing
use xrestream.Base.{
  if◌then◌else◌, ◌==◌, ◌∷◌, List, Option, Text, [], codes, false, is_empty, join, none, not, some,
  split, text_eq, trim_prefix, true,
}
use xrestream.Base.Int.{ℤ}
use xrestream.Base.Results.{Error, Result, err, message, ok}
use xrestream.Store.{Channel, ChannelInput, Metrics, Node, Session}
use xrestream.Store.Database.{Database}
use xrestream.Store.Channels.{
  create_channel, delete_channel, get_channel, list_channels, list_channels_for_owner,
  update_channel,
}
use xrestream.Store.Statuses.{set_worker_status}
use xrestream.Store.Counters.{metrics}
use xrestream.Store.Nodes.{get_node}
use xrestream.Relay.Signer.{Crypto, Signer}
use xrestream.Relay.Tables.{purge_channel}
use xrestream.Relay.Viewers.{live_viewers}
use xrestream.Relay.Workers.{stop_worker, worker_running}
use xrestream.HttpApi.OriginCache.{invalidate_slug_bypass}
use xrestream.HttpApi.Inputs.{Platform, decode_channel_input}
use xrestream.HttpApi.PlaylistUrls.{apply_all, apply_public_playlist_url}
use xrestream.HttpApi.Server.{
  Body, Request, Response, Server, ServerConfig, bad_request, channel_body, channels_body, flag,
  handle_store_error, method_not_allowed, metrics_body, reply, server_error, share_body, token_body,
  for_session, unless_refused, worker_body, write_error,
}
use xrestream.HttpApi.ShareLinks.{share_link}
use xrestream.HttpApi.Tokens.{mint}
use xrestream.HttpApi.Channels.{
  ChannelBodies, is_admin, owned_by, published, start_here, start_if_here,
}

-- StopWorker and PurgeChannel, for a channel.
stop_and_purge : Server → Text → Text → Server
stop_and_purge s id slug = record s {
  workers = stop_worker s.workers id;
  tables = purge_channel s.tables slug;
}

-- The routes below a channel that need its row.
pub data Route : Type 0 where
  purge_cache worker_start worker_stop worker_status share playback_token : Route

-- The answer of purge-cache; the argument is what removing the files answered.
purge_answer : Option Text → Response
purge_answer none = reply 200 (flag (codes "purged") true)
purge_answer (some why) = server_error (message why)

module _ (p : Platform) (crypto : Crypto) (signer : Signer) (cfg : ServerConfig) where
  shown : Server → Request → Result Channel → Server × Response
  unfolding published
  shown s r (err e) = (s, handle_store_error e)
  shown s r (ok ch) = published cfg 200 r 2 s ch

  -- A PATCH after the update: the bypass of the new slug is forgotten, and the worker restarted.
  patched : Request → Server → Text → Database × Result Channel → Server × Response
  unfolding start_if_here published
  patched r s id (db, err e) = (record s { db = db }, server_error e)
  patched r s id (db, ok ch) =
      published cfg 200 r 3
        (start_if_here
          (record s {
            db = db;
            origins = invalidate_slug_bypass s.origins ch.slug;
            workers = stop_worker s.workers id;
          })
          r 2 ch)
        ch

  patch : Server → Request → Text → Result ChannelInput → Server × Response
  unfolding patched
  patch s r id (err e) = (s, bad_request e)
  patch s r id (ok input) =
      patched r s id (update_channel p.lower (r.fault 1) s.db r.now id input cfg.public_stream_url)

  deleted : Server → Text → Database × Result (Unit {0}) → Server × Response
  deleted s slug (db, err e) = (record s { db = db }, server_error e)
  deleted s slug (db, ok _) = (
    record s { db = db; origins = invalidate_slug_bypass s.origins slug },
    reply 200 (flag (codes "deleted") true),
  )

  delete_found : Server → Request → Text → Result Channel → Server × Response
  unfolding deleted stop_and_purge
  delete_found s r id (err e) = (s, handle_store_error e)
  delete_found s r id (ok ch) =
      deleted (stop_and_purge s id ch.slug) ch.slug (delete_channel (r.fault 2) s.db id)

  handle_channel_record : Server → Request → ChannelBodies → Text → Server × Response
  unfolding shown patch delete_found
  handle_channel_record s r b id =
      if r.method == codes "GET"
      then shown s r (get_channel (r.fault 1) s.db id)
      else if r.method == codes "PATCH"
      then patch s r id (decode_channel_input p b.input)
      else if r.method == codes "DELETE"
      then delete_found s r id (get_channel (r.fault 1) s.db id)
      else (s, method_not_allowed)

  counted : Server → Request → Text → Result Metrics → Server × Response
  counted s r id (err e) = (s, server_error e)
  counted s r id (ok m) =
      let (viewers, live) = live_viewers s.viewers id r.now in
      (record s { viewers = viewers }, reply 200 (metrics_body m live))

  on_channel : Route → Server → Request → ChannelBodies → Text → Channel → Server × Response
  unfolding start_here stop_and_purge purge_answer
  on_channel purge_cache s r b id ch =
      (record s { tables = purge_channel s.tables ch.slug }, purge_answer (r.fault 2))
  on_channel worker_start s r b id ch =
      let s1 = start_here s r 2 ch in
      (s1, reply 200 (flag (codes "running") (worker_running s1.workers id)))
  on_channel worker_stop s r b id ch =
      let s1 = stop_and_purge s id ch.slug in
      (
        record s1 { db = (set_worker_status (r.fault 2) s.db r.now id (codes "stopped") none).0 },
        reply 200 (flag (codes "running") false),
      )
  on_channel worker_status s r b id ch =
      (s, reply 200 (worker_body (worker_running s.workers id) ch.worker_status))
  on_channel share s r b id ch = (
    s,
    reply 200 (share_body (share_link crypto signer cfg.public_stream_url ch r.now b.ttl_minutes)),
  )
  on_channel playback_token s r b id ch = (
    s,
    reply 200 (
        token_body
          (mint crypto signer cfg.playback_token_ttl_seconds cfg.public_stream_url ch r.now)),
  )

  route_found : Route → Server → Request → ChannelBodies → Text → Result Channel → Server × Response
  unfolding on_channel
  route_found route s r b id (err e) = (s, handle_store_error e)
  route_found route s r b id (ok ch) = on_channel route s r b id ch

  method_of : Route → Text
  method_of worker_status = codes "GET"
  method_of _ = codes "POST"

  route_to : Route → Server → Request → ChannelBodies → Text → Server × Response
  unfolding route_found method_of
  route_to route s r b id =
      if not (r.method == method_of route)
      then (s, method_not_allowed)
      else route_found route s r b id (get_channel (r.fault 1) s.db id)

  below_channel : Server → Request → ChannelBodies → Text → Text → Server × Response
  unfolding route_to counted
  below_channel s r b id rest =
      if rest == codes "metrics"
      then if not (r.method == codes "GET")
        then (s, method_not_allowed)
        else counted s r id (metrics (r.fault 1) s.db r.now id)
      else if rest == codes "purge-cache"
      then route_to purge_cache s r b id
      else if rest == codes "worker/start"
      then route_to worker_start s r b id
      else if rest == codes "worker/stop"
      then route_to worker_stop s r b id
      else if rest == codes "worker/status"
      then route_to worker_status s r b id
      else if rest == codes "share-link"
      then route_to share s r b id
      else if rest == codes "playback-token"
      then route_to playback_token s r b id
      else (s, write_error 404 (codes "route not found"))

  route_path : Server → Request → ChannelBodies → Text → List Text → Server × Response
  unfolding handle_channel_record below_channel
  route_path s r b id [] = handle_channel_record s r b id
  route_path s r b id (part ∷ parts) = below_channel s r b id (join (part ∷ parts) (codes "/"))

  -- Why a channel is closed to a session that is not an admin's, or none.
  owner_refusal : Session → Result Channel → Option Response
  unfolding owned_by
  owner_refusal sess (err e) = some (handle_store_error e)
  owner_refusal sess (ok ch) =
      if owned_by sess ch.owner_id then none else some (write_error 403 (codes "not your channel"))

  enforce_owner : Server → Request → Session → Text → Option Response
  unfolding owner_refusal is_admin
  enforce_owner s r sess id =
      if is_admin sess then none else owner_refusal sess (get_channel (r.fault 0) s.db id)

  by_id : Server → Request → ChannelBodies → Session → List Text → Server × Response
  unfolding enforce_owner route_path unless_refused
  by_id s r b sess [] = (s, write_error 404 (codes "channel not found"))
  by_id s r b sess (id ∷ parts) =
      if is_empty id
      then (s, write_error 404 (codes "channel not found"))
      else unless_refused s (enforce_owner s r sess id) (route_path s r b id parts)

  unfoldable pub channel_by_id : Server → Request → ChannelBodies → Server × Response
  unfolding by_id for_session
  channel_by_id s r b =
      for_session s r.session
        (λ sess. by_id s r b sess (split (trim_prefix r.path (codes "/channels/")) b'/'))
