-- ===== src/HttpApi/PlaylistUrls.antt =====
-- applyPublicPlaylistURL and nodeHost of backend/internal/httpapi/server.go.
pub mod Kept
use xrestream.Base.{
  if◌then◌else◌, ℕ, ◌++◌, ◌+◌, ◌∷◌, List, Option, Text, [], codes, insert, is_empty, lookup, ltb,
  none, some, text_eq,
}
use xrestream.Base.Trims.{trim_slashes}
use xrestream.Base.Results.{Result, err, ok}
use xrestream.Store.{Channel, Node, Time}
use xrestream.Store.Nodes.{get_node}
use xrestream.HttpApi.Server.{NodeHostEntry, Request, Server}

fresh_host : Time → Option NodeHostEntry → Option Text
fresh_host now none = none
fresh_host now (some e) = if ltb now (e.at + 30000000000) then some e.host else none

remember : Server → Time → Text → Result Node → Server × Text
remember s now node_id (err e) = (s, [])
remember s now node_id (ok n) = (
  record s { node_hosts = insert node_id (record { host = n.host; at = now }) s.node_hosts },
  n.host,
)

-- nodeHost; its query is the request's n-th.
pub node_host : Server → Request → ℕ → Text → Server × Text
unfolding fresh_host remember
node_host s r n node_id =
    if is_empty node_id then (s, []) else elim (fresh_host r.now (lookup node_id s.node_hosts)) [
      | some host ↦ (s, host)
      | none ↦ remember s r.now node_id (get_node (r.fault n) s.db node_id)
    ]

-- "%s/proxy/%s/index.m3u8", unless the base is empty.
with_url : Text → Channel → Channel
with_url base ch = if is_empty base then ch else record ch {
  playlist_url = some (base ++ (codes "/proxy/" ++ (ch.slug ++ codes "/index.m3u8")));
}

on_host : Text → Channel → Server × Text → Server × Channel
unfolding with_url
on_host base ch (s, host) = (s, with_url (if is_empty host then base else trim_slashes host) ch)

publish_on : Text → Server → Request → ℕ → Channel → Option Text → Server × Channel
unfolding with_url on_host node_host
publish_on base s r n ch none = (s, with_url base ch)
publish_on base s r n ch (some node_id) = on_host base ch (node_host s r n node_id)

unfoldable pub apply_public_playlist_url : Text → Server → Request → ℕ → Channel → Server × Channel
unfolding publish_on
apply_public_playlist_url public_stream_url s r n ch =
    if is_empty ch.slug
    then (s, ch)
    else publish_on (trim_slashes public_stream_url) s r n ch ch.node_id

-- The loop over the listed channels.
unfoldable pub apply_all : Text → Server → Request → ℕ → List Channel → Server × List Channel
unfolding apply_public_playlist_url
apply_all url s r n [] = (s, [])
apply_all url s r n (ch ∷ chs) =
    let (s1, ch1) = apply_public_playlist_url url s r n ch in
    let (s2, rest) = apply_all url s1 r (n + 1) chs in (s2, ch1 ∷ rest)
