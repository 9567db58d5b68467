-- ===== src/HttpApi/Gates.antt =====
-- The referer gates of backend/internal/httpapi/server.go: originOf, refererAllowed,
-- refererGateForScope and refererGateForSlug. url.Parse is outside the program; of its result the
-- scheme and the host are read.
pub mod Isolation
use xrestream.Base.{
  if◌then◌else◌, ℕ, ◌&&◌, ◌++◌, ◌==◌, ◌||◌, ◌∷◌, Bool, List, Option, Text, [], codes, false,
  is_empty, none, not, some, text_eq, true,
}
use xrestream.Base.Results.{Result, err, ok}
use xrestream.Store.{Channel, Session, Time}
use xrestream.Store.Database.{Database}
use xrestream.Store.Channels.{get_channel_by_slug}
use xrestream.HttpApi.OriginCache.{OriginCache, channel_bypass, get, get_for_channel, get_for_owner}
use xrestream.HttpApi.Server.{Response, write_error}

holds : Text → List Text → Bool
holds o [] = false
holds o (p ∷ set) = if p == o then true else holds o set

-- The channel id and the owner id of a slug; two empty texts when it cannot be resolved.
unfoldable pub scope_of : Result Channel → Text × Text
scope_of (err e) = ([], [])
scope_of (ok ch) = (ch.id, elim ch.owner_id [ none ↦ [] | some owner_id ↦ owner_id ])

-- The same of a slug; none is asked of the empty one.
unfoldable pub scope_of_slug : Option Text → Database → Text → Text × Text
unfolding scope_of
scope_of_slug fault db slug =
    if is_empty slug then ([], []) else scope_of (get_channel_by_slug fault db slug)

module _ (parse : Text → Option (Text × Text)) (lower : Text → Text)
    (public_stream_url : Text) where
  origin_text : Option (Text × Text) → Text
  origin_text none = []
  origin_text (some (scheme, host)) =
      if is_empty scheme || is_empty host then [] else lower (scheme ++ (codes "://" ++ host))

  pub origin_of : Text → Text
  unfolding origin_text
  origin_of raw = if is_empty raw then [] else origin_text (parse raw)

  -- The test of refererAllowed against the set; an empty set lets everyone through.
  admits : Text → List Text → Bool
  unfolding origin_of holds
  admits referer [] = true
  admits referer (o ∷ set) =
      let ro = origin_of referer in
      let own = origin_of public_stream_url in
      if is_empty ro
      then false
      else if holds ro (o ∷ set)
      then true
      else not (is_empty own) && ro == own

  -- The set that the scope chooses.
  enabled_for : OriginCache → Option Text → Database → Time → Text → Text → OriginCache × List Text
  unfolding get_for_channel get_for_owner
  enabled_for c fault db now channel_id owner_id =
      if not (is_empty channel_id)
      then get_for_channel lower c fault db now channel_id owner_id
      else if not (is_empty owner_id)
      then get_for_owner lower c fault db now owner_id
      else get lower c fault db now

  verdict : Text → OriginCache × List Text → OriginCache × Option Response
  unfolding admits
  verdict referer (c, set) =
      (c, if admits referer set then none else some (write_error 403 (codes "referer not allowed")))

  -- refererGateForScope: the refusal that it writes, or none.
  pub referer_gate_for_scope :
      OriginCache
      → Option Session
      → Option Text
      → Database
      → Time
      → Text
      → Text × Text
      → OriginCache × Option Response
  unfolding verdict enabled_for
  referer_gate_for_scope c (some sess) fault db now referer scope = (c, none)
  referer_gate_for_scope c none fault db now referer scope =
      verdict referer (enabled_for c fault db now scope.0 scope.1)

  -- After the question for the bypass; the queries are the request's second and third.
  gate_unless :
      (ℕ → Option Text)
      → Database
      → Time
      → Text
      → Text
      → OriginCache × Bool
      → OriginCache × Option Response
  unfolding referer_gate_for_scope scope_of_slug
  gate_unless fault db now referer slug (c, true) = (c, none)
  gate_unless fault db now referer slug (c, false) =
      referer_gate_for_scope c none (fault 2) db now referer (scope_of_slug (fault 1) db slug)

  pub referer_gate_for_slug :
      OriginCache
      → Option Session
      → (ℕ → Option Text)
      → Database
      → Time
      → Text
      → Text
      → OriginCache × Option Response
  unfolding gate_unless channel_bypass
  referer_gate_for_slug c (some sess) fault db now referer slug = (c, none)
  referer_gate_for_slug c none fault db now referer slug =
      gate_unless fault db now referer slug (channel_bypass c (fault 0) db now slug)
