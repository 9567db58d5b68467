-- ===== src/HttpApi/OriginCache.antt =====
-- originCache of backend/internal/httpapi/auth.go: the enabled origins, and the channels that are
-- exempt from them, remembered for a short time. A set is the list of its elements. Each method is
-- one critical section; `fault` is that of its query, if it makes one.
use xrestream.Base.{
  if◌then◌else◌, ◌+◌, Bool, List, Map, Option, Text, [], delete, false, insert, is_empty, lookup,
  ltb, map, none, some, text_eq,
}
use xrestream.Base.Results.{Result, err, ok}
use xrestream.Store.{Channel, Time}
use xrestream.Store.Database.{Database}
use xrestream.Store.Channels.{get_channel_by_slug}
use xrestream.Store.Origins.{
  list_enabled_origins, list_enabled_origins_for_channel, list_enabled_origins_for_owner,
}

pub record OwnerOriginEntry : Type 0 where
  pub set : List Text
  pub expires : Time

pub record SlugBypassEntry : Type 0 where
  pub bypass : Bool
  pub expires : Time

pub record OriginCache : Type 0 where
  pub set : List Text
  pub expires : Time
  pub owners : Map Text OwnerOriginEntry
  pub channels : Map Text OwnerOriginEntry
  pub slug_bypass : Map Text SlugBypassEntry

pub new_origin_cache : OriginCache
new_origin_cache = record { set = []; expires = 0; owners = []; channels = []; slug_bypass = [] }

-- ownerTTL and channelTTL, and the lifetime of the global set.
abbrev pub owner_ttl : Time
owner_ttl = 30000000000

abbrev pub bypass_ttl : Time
bypass_ttl = 15000000000

unfoldable pub invalidate : OriginCache → OriginCache
invalidate c = record c { expires = 0; owners = []; channels = [] }

pub invalidate_slug_bypass : OriginCache → Text → OriginCache
invalidate_slug_bypass c slug =
    if is_empty slug
    then record c { slug_bypass = [] }
    else record c { slug_bypass = delete slug c.slug_bypass }

pub bypass_of : Result Channel → Bool
bypass_of (err e) = false
bypass_of (ok ch) = ch.allowed_origins_bypass

-- The value of an entry that has not expired.
pub fresh_set : Time → Option OwnerOriginEntry → Option (List Text)
fresh_set now none = none
fresh_set now (some e) = if ltb now e.expires then some e.set else none

pub fresh_bypass : Time → Option SlugBypassEntry → Option Bool
fresh_bypass now none = none
fresh_bypass now (some e) = if ltb now e.expires then some e.bypass else none

unfoldable pub channel_bypass :
    OriginCache → Option Text → Database → Time → Text → OriginCache × Bool
unfolding bypass_of fresh_bypass
channel_bypass c fault db now slug =
    if is_empty slug then (c, false) else elim (fresh_bypass now (lookup slug c.slug_bypass)) [
      | some b ↦ (c, b)
      | none ↦
          let b = bypass_of (get_channel_by_slug fault db slug) in
          (
            record c {
              slug_bypass =
                  insert slug (record { bypass = b; expires = now + bypass_ttl }) c.slug_bypass;
            },
            b,
          )
    ]

module _ (lower : Text → Text) where
  -- The set of the lower-cased origins; the empty one when the query fails.
  pub set_of : Result (List Text) → List Text
  set_of (err e) = []
  set_of (ok origins) = map lower origins

  kept_or_set : List Text → Result (List Text) → List Text
  kept_or_set old (err e) = old
  kept_or_set old (ok origins) = map lower origins

  -- originCache.get: an error keeps the old set.
  pub get : OriginCache → Option Text → Database → Time → OriginCache × List Text
  unfolding kept_or_set
  get c fault db now =
      if ltb now c.expires
      then (c, c.set)
      else let set = kept_or_set c.set (list_enabled_origins fault db) in
        (record c { set = set; expires = now + owner_ttl }, set)

  unfoldable pub get_for_owner :
      OriginCache → Option Text → Database → Time → Text → OriginCache × List Text
  unfolding set_of fresh_set
  get_for_owner c fault db now owner_id =
      if is_empty owner_id then (c, []) else elim (fresh_set now (lookup owner_id c.owners)) [
        | some set ↦ (c, set)
        | none ↦
            let set = set_of (list_enabled_origins_for_owner fault db owner_id) in
            (
              record c {
                owners = insert owner_id (record { set = set; expires = now + owner_ttl }) c.owners;
              },
              set,
            )
      ]

  -- The remembered set of a channel, or what the query answers.
  pub kept_channel :
      OriginCache → Time → Text → Option (List Text) → Result (List Text) → OriginCache × List Text
  unfolding set_of
  kept_channel c now channel_id (some set) answer = (c, set)
  kept_channel c now channel_id none answer =
      let set = set_of answer in
      (
        record c {
          channels = insert channel_id (record { set = set; expires = now + owner_ttl }) c.channels;
        },
        set,
      )

  unfoldable pub get_for_channel :
      OriginCache → Option Text → Database → Time → Text → Text → OriginCache × List Text
  unfolding kept_channel fresh_set get_for_owner
  get_for_channel c fault db now channel_id owner_id =
      if is_empty channel_id
      then get_for_owner c fault db now owner_id
      else kept_channel c now channel_id (fresh_set now (lookup channel_id c.channels))
          (list_enabled_origins_for_channel fault db channel_id owner_id)
