-- ===== src/HttpApi/ChannelById/Tenancy.antt =====
-- A session that is not an admin's cannot change the channels of other owners through /channels/.
use xrestream.Base.{
  ◌==◌, ◌∙◌, ◌∷◌, ◌≡◌, List, Option, Text, [], ap, arith, codes, false, if_both, is_empty, none,
  not, refl, some, text_eq,
}
use xrestream.Base.Results.{Result, err, no_rows, ok}
use xrestream.Store.{Channel, ChannelInput, Metrics, Session}
use xrestream.Store.Sql.{first_where, scanned}
use xrestream.Store.Sql.Rows.{Disjoint-found, IsUnique}
use xrestream.Store.Database.{Database}
use xrestream.Store.Channels.{get_channel}
use xrestream.Store.Channels.Owners.{
  Names, delete_channel-owned, get_channel-Names, update_channel-Answers, update_channel-owned,
}
use xrestream.Store.Statuses.Effects.{set_worker_status-owned}
use xrestream.Relay.Signer.{Crypto, Signer}
use xrestream.HttpApi.Inputs.{Platform}
use xrestream.HttpApi.Server.{
  Request, Response, Server, ServerConfig, for_session_lem, unless_refused,
}
use xrestream.HttpApi.Channels.{ChannelBodies, channels, is_admin, owned_by}
use xrestream.HttpApi.Channels.Tenancy.{
  channels-others, KeepsOthers, of_others, published-db, start_here-others, start_if_here-others,
  IsOwn, OwnAnswer, stays,
}
use xrestream.HttpApi.ChannelById.{
  Route, by_id, below_channel, channel_by_id, counted, delete_found, deleted, enforce_owner,
  handle_channel_record, method_of, on_channel, owner_refusal, patch, patched, playback_token,
  purge_cache, route_found, route_path, route_to, share, shown, stop_and_purge, worker_start,
  worker_status, worker_stop,
}

module _ (p : Platform) (crypto : Crypto) (signer : Signer) (cfg : ServerConfig)
    (sess : Session) where
  shown-others :
      (s : Server) (r : Request) (found : Result Channel)
      → KeepsOthers sess s (shown p crypto signer cfg s r found)
  unfolding shown
  shown-others s r (err e) = record { kept = refl }
  shown-others s r (ok ch) = record { kept = ap (of_others sess) (published-db cfg 200 r 2 s ch) }

  patched-others :
      (r : Request) (s : Server) (id : Text) (result : Database × Result Channel)
      → OwnAnswer sess result
      → of_others sess (patched p crypto signer cfg r s id result).0.db ≡ of_others sess result.0
  unfolding patched
  patched-others r s id (db, err e) own = refl
  patched-others r s id (db, ok ch) own =
      ap (of_others sess) (published-db cfg 200 r 3 _ ch)
      ∙ (start_if_here-others sess _ r 2 ch own).same

  patch-others :
      (s : Server) (r : Request) (id : Text) (input : Result ChannelInput)
      → IsOwn sess s.db id
      → KeepsOthers sess s (patch p crypto signer cfg s r id input)
  unfolding patch
  patch-others s r id (err e) own = record { kept = refl }
  patch-others s r id (ok input) own = record {
    kept =
        patched-others r s id _ (
          update_channel-Answers (λ owner. not (owned_by sess owner)) p.lower _ s.db _ id input _
            own)
        ∙ update_channel-owned (λ owner. not (owned_by sess owner)) p.lower _ s.db _ id input _ own;
  }

  deleted-db :
      (s : Server) (slug : Text) (result : Database × Result (Unit {0}))
      → (deleted p crypto signer cfg s slug result).0.db ≡ result.0
  unfolding deleted
  deleted-db s slug (db, err e) = refl
  deleted-db s slug (db, ok _) = refl

  delete_found-others :
      (s : Server) (r : Request) (id : Text) (found : Result Channel)
      → IsOwn sess s.db id
      → KeepsOthers sess s (delete_found p crypto signer cfg s r id found)
  unfolding delete_found stop_and_purge
  delete_found-others s r id (err e) own = record { kept = refl }
  delete_found-others s r id (ok ch) own = record {
    kept =
        ap (of_others sess) (deleted-db (stop_and_purge s id ch.slug) _ _)
        ∙ delete_channel-owned (λ owner. not (owned_by sess owner)) _ s.db id own;
  }

  record-others :
      (s : Server) (r : Request) (b : ChannelBodies) (id : Text)
      → IsOwn sess s.db id
      → KeepsOthers sess s (handle_channel_record p crypto signer cfg s r b id)
  unfolding handle_channel_record
  record-others s r b id own =
      if_both (KeepsOthers sess s) (r.method == codes "GET") (shown-others s r _) (
        if_both (KeepsOthers sess s) (r.method == codes "PATCH") (patch-others s r id _ own) (
          if_both (KeepsOthers sess s) (r.method == codes "DELETE")
            (delete_found-others s r id _ own) (stays sess s _)))

  on_channel-others :
      (route : Route) (s : Server) (r : Request) (b : ChannelBodies) (id : Text) (ch : Channel)
      → ch.id ≡ id
      → IsOwn sess s.db id
      → KeepsOthers sess s (on_channel p crypto signer cfg route s r b id ch)
  unfolding on_channel
  on_channel-others purge_cache s r b id ch named own = record { kept = refl }
  on_channel-others worker_start s r b id ch named own = record {
    kept = (start_here-others sess s r 2 ch (rw named own)).same;
  }
  on_channel-others worker_stop s r b id ch named own = record {
    kept = set_worker_status-owned _ _ s.db _ id _ _ own;
  }
  on_channel-others worker_status s r b id ch named own = record { kept = refl }
  on_channel-others share s r b id ch named own = record { kept = refl }
  on_channel-others playback_token s r b id ch named own = record { kept = refl }

  route_found-others :
      (route : Route) (s : Server) (r : Request) (b : ChannelBodies) (id : Text)
      (found : Result Channel)
      → Names id found
      → IsOwn sess s.db id
      → KeepsOthers sess s (route_found p crypto signer cfg route s r b id found)
  unfolding route_found
  route_found-others route s r b id (err e) named own = record { kept = refl }
  route_found-others route s r b id (ok ch) named own =
      on_channel-others route s r b id ch named own

  route_to-others :
      (route : Route) (s : Server) (r : Request) (b : ChannelBodies) (id : Text)
      → IsOwn sess s.db id
      → KeepsOthers sess s (route_to p crypto signer cfg route s r b id)
  unfolding route_to
  route_to-others route s r b id own =
      if_both (KeepsOthers sess s) (not (r.method == method_of p crypto signer cfg route))
        (stays sess s _)
        (route_found-others route s r b id _ (get_channel-Names (r.fault 1) s.db id) own)

  counted-others :
      (s : Server) (r : Request) (id : Text) (found : Result Metrics)
      → KeepsOthers sess s (counted p crypto signer cfg s r id found)
  unfolding counted
  counted-others s r id (err e) = record { kept = refl }
  counted-others s r id (ok m) = record { kept = refl }

  below_channel-others :
      (s : Server) (r : Request) (b : ChannelBodies) (id rest : Text)
      → IsOwn sess s.db id
      → KeepsOthers sess s (below_channel p crypto signer cfg s r b id rest)
  unfolding below_channel
  below_channel-others s r b id rest own =
      if_both (KeepsOthers sess s) (rest == codes "metrics")
        (if_both (KeepsOthers sess s) (not (r.method == codes "GET")) (stays sess s _)
          (counted-others s r id _))
        (if_both (KeepsOthers sess s) (rest == codes "purge-cache")
          (route_to-others purge_cache s r b id own)
          (if_both (KeepsOthers sess s) (rest == codes "worker/start")
            (route_to-others worker_start s r b id own)
            (if_both (KeepsOthers sess s) (rest == codes "worker/stop")
              (route_to-others worker_stop s r b id own)
              (if_both (KeepsOthers sess s) (rest == codes "worker/status")
                (route_to-others worker_status s r b id own)
                (if_both (KeepsOthers sess s) (rest == codes "share-link")
                  (route_to-others share s r b id own)
                  (if_both (KeepsOthers sess s) (rest == codes "playback-token")
                    (route_to-others playback_token s r b id own) (stays sess s _)))))))

  route_path-others :
      (s : Server) (r : Request) (b : ChannelBodies) (id : Text) (parts : List Text)
      → IsOwn sess s.db id
      → KeepsOthers sess s (route_path p crypto signer cfg s r b id parts)
  unfolding route_path
  route_path-others s r b id [] own = record-others s r b id own
  route_path-others s r b id (part ∷ parts) own = below_channel-others s r b id _ own

  -- The check of the owner lets a session through to its own channel only.
  owner_refusal-IsOwn :
      (db : Database) (fault : Option Text) (id : Text) (found : Option Channel)
      → IsUnique (λ ch. ch.id) db.channels
      → first_where (λ ch. ch.id == id) db.channels ≡ found
      → owner_refusal p crypto signer cfg sess (scanned fault no_rows found) ≡ none
      → IsOwn sess db id
  unfolding owner_refusal scanned
  owner_refusal-IsOwn db (some why) id found u f h = cc
  owner_refusal-IsOwn db none id none u f h = cc
  owner_refusal-IsOwn db none id (some ch) u f h =
      Disjoint-found (λ c. c.id) (λ c. not (owned_by sess c.owner_id)) id ch db.channels u f
        (ground arith)

  checked-others :
      (s : Server) (r : Request) (b : ChannelBodies) (id : Text) (parts : List Text)
      (refusal : Option Response)
      → (refusal ≡ none → IsOwn sess s.db id)
      → KeepsOthers sess s
          (unless_refused s refusal (route_path p crypto signer cfg s r b id parts))
  unfolding unless_refused
  checked-others s r b id parts none own = route_path-others s r b id parts (own refl)
  checked-others s r b id parts (some refusal) own = stays sess s refusal

  enforce_owner-IsOwn :
      (s : Server) (r : Request) (id : Text)
      → is_admin sess ≡ false
      → IsUnique (λ ch. ch.id) s.db.channels
      → enforce_owner p crypto signer cfg s r sess id ≡ none
      → IsOwn sess s.db id
  unfolding enforce_owner get_channel
  enforce_owner-IsOwn s r id n u h = owner_refusal-IsOwn s.db (r.fault 0) id _ u refl (rw n at h)

  by_id-others :
      (s : Server) (r : Request) (b : ChannelBodies) (parts : List Text)
      → is_admin sess ≡ false
      → IsUnique (λ ch. ch.id) s.db.channels
      → KeepsOthers sess s (by_id p crypto signer cfg s r b sess parts)
  unfolding by_id
  by_id-others s r b [] n u = stays sess s _
  by_id-others s r b (id ∷ parts) n u =
      if_both (KeepsOthers sess s) (is_empty id) (stays sess s _)
        (checked-others s r b id parts _ (enforce_owner-IsOwn s r id n u))

  -- A request below /channels/ by a session that is not an admin's.
  pub channel_by_id-others :
      (s : Server) (r : Request) (b : ChannelBodies)
      → r.session ≡ some sess
      → is_admin sess ≡ false
      → IsUnique (λ ch. ch.id) s.db.channels
      → KeepsOthers sess s (channel_by_id p crypto signer cfg s r b)
  unfolding channel_by_id
  channel_by_id-others s r b h n u =
      for_session_lem (KeepsOthers sess s) s r.session sess _ h (by_id-others s r b _ n u)

  -- No request to /channels or below it by a session that is not an admin's changes, adds or removes
  -- a channel that the session's user does not own, when the session has a user id and no two
  -- channels have the same id.
  pub others_kept :
      (s : Server) (r : Request) (b : ChannelBodies)
      → r.session ≡ some sess
      → is_admin sess ≡ false
      → is_empty sess.user_id ≡ false
      → IsUnique (λ ch. ch.id) s.db.channels
      → KeepsOthers sess s (channels p cfg s r b)
        × KeepsOthers sess s (channel_by_id p crypto signer cfg s r b)
  others_kept s r b h n u d =
      (channels-others p cfg s r b sess h u, channel_by_id-others s r b h n d)
