-- ===== src/HttpApi/Gates/Isolation.antt =====
-- The origins that the gate of a channel looks at.
use xrestream.Base.{
  ℕ, ◌==◌, ◌∷◌, ◌≡◌, Bool, List, Option, Text, [], ap, arith, false, is_empty, lookup, map, none,
  refl, some, text_eq, true,
}
use xrestream.Store.{AllowedOrigin, Session, Time}
use xrestream.Store.Sql.{all_where, answered}
use xrestream.Store.Database.{Database}
use xrestream.Store.Channels.{get_channel_by_slug, is_null, owner_arg, refers_to}
use xrestream.Store.Origins.{
  same_owner, clean_origin, list_enabled_origins_for_channel, serves_channel,
}
use xrestream.HttpApi.OriginCache.{
  OriginCache, channel_bypass, fresh_set, get_for_channel, kept_channel,
}
use xrestream.HttpApi.Gates.{
  enabled_for, gate_unless, scope_of_slug, referer_gate_for_scope, referer_gate_for_slug, verdict,
}

-- The database with other origins.
abbrev pub with_origins : Database → List AllowedOrigin → Database
with_origins db origins = record db { allowed_origins = origins }

listed-same :
    (fault : Option Text) (db : Database) (origins : List AllowedOrigin) (id owner_id : Text)
    → all_where (serves_channel id owner_id) db.allowed_origins
      ≡ all_where (serves_channel id owner_id) origins
    → list_enabled_origins_for_channel fault db id owner_id
      ≡ list_enabled_origins_for_channel fault (with_origins db origins) id owner_id
unfolding list_enabled_origins_for_channel
listed-same fault db origins id owner_id e =
    ap (λ rows. answered fault (map (λ o. clean_origin o.origin) rows)) e

-- The rows that the query for the channel and the owner of the scope finds are the same.
abbrev SameOrigins : Database → List AllowedOrigin → Text × Text → Type 0
SameOrigins db origins scope =
    all_where (serves_channel scope.0 scope.1) db.allowed_origins
    ≡ all_where (serves_channel scope.0 scope.1) origins

slug-same :
    (fault : Option Text) (db : Database) (origins : List AllowedOrigin) (slug : Text)
    → scope_of_slug fault db slug ≡ scope_of_slug fault (with_origins db origins) slug
unfolding get_channel_by_slug scope_of_slug
slug-same fault db origins slug = refl

-- The rows that are about the channel of a scope: those scoped to it, whoever owns them, and those
-- scoped to no channel that have the same owner as the channel, or none as it has none.
abbrev pub concerns : Text × Text → AllowedOrigin → Bool
concerns (id, owner_id) o = elim o.channel_id [
  | some channel_id ↦ channel_id == id
  | none ↦ elim o.owner_id [ some other ↦ other == owner_id | none ↦ is_empty owner_id ]
]

serves_channel-concerns :
    (scope : Text × Text) (o : AllowedOrigin)
    → serves_channel scope.0 scope.1 o ≡ true
    → concerns scope o ≡ true
unfolding serves_channel refers_to is_null owner_arg same_owner
serves_channel-concerns scope o h = ground arith

module _ {A : Type 0} (p q : A → Bool) where
  all_where-wider :
      ((row : A) → q row ≡ true → p row ≡ true)
      → (rows : List A) → all_where q rows ≡ all_where q (all_where p rows)
  unfolding all_where
  all_where-wider wider [] = refl
  all_where-wider wider (row ∷ rows) = ground (arith, wider row, all_where-wider wider rows)

module _ (parse : Text → Option (Text × Text)) (lower : Text → Text) (public_stream_url : Text)
    (db : Database) (origins : List AllowedOrigin) (now : Time) (referer : Text) where
  enabled_for-same :
      (c : OriginCache) (fault : Option Text) (scope : Text × Text)
      → is_empty scope.0 ≡ false
      → SameOrigins db origins scope
      → enabled_for parse lower public_stream_url c fault db now scope.0 scope.1
        ≡ enabled_for parse lower public_stream_url c fault
            (with_origins db origins)
            now
            scope.0
            scope.1
  unfolding enabled_for get_for_channel
  enabled_for-same c fault scope some_id e = rw some_id (
      ap (kept_channel lower c now scope.0 (fresh_set now (lookup scope.0 c.channels)))
        (listed-same fault db origins scope.0 scope.1 e))

  answer-same :
      (fault : ℕ → Option Text) (slug : Text)
      → is_empty (scope_of_slug (fault 1) db slug).0 ≡ false
      → SameOrigins db origins (scope_of_slug (fault 1) db slug)
      → (asked : OriginCache × Bool)
      → gate_unless parse lower public_stream_url fault db now referer slug asked
        ≡ gate_unless parse lower public_stream_url fault
            (with_origins db origins)
            now
            referer
            slug
            asked
  unfolding gate_unless referer_gate_for_scope get_channel_by_slug
  answer-same fault slug some_id e (c, true) = refl
  answer-same fault slug some_id e (c, false) = rw (← slug-same (fault 1) db origins slug) (
      ap (verdict parse lower public_stream_url referer)
        (enabled_for-same c (fault 2) (scope_of_slug (fault 1) db slug) some_id e))

  gate-same :
      (c : OriginCache) (session : Option Session) (fault : ℕ → Option Text) (slug : Text)
      → is_empty (scope_of_slug (fault 1) db slug).0 ≡ false
      → SameOrigins db origins (scope_of_slug (fault 1) db slug)
      → referer_gate_for_slug parse lower public_stream_url c session fault db now referer slug
        ≡ referer_gate_for_slug parse lower public_stream_url c session fault
            (with_origins db origins)
            now
            referer
            slug
  unfolding referer_gate_for_slug channel_bypass get_channel_by_slug
  gate-same c (some sess) fault slug some_id e = refl
  gate-same c none fault slug some_id e =
      answer-same fault slug some_id e (channel_bypass c (fault 0) db now slug)

module _ (parse : Text → Option (Text × Text)) (lower : Text → Text) (public_stream_url : Text)
    (db : Database) (now : Time) (referer : Text) where
  -- When the slug resolves to a channel with an id, the gate of the slug answers the same and leaves
  -- the same cache as over a database without the origins that do not concern the channel: those
  -- scoped to another channel, and those scoped to no channel whose owner is not the channel's.
  pub gate_isolated :
      (c : OriginCache) (session : Option Session) (fault : ℕ → Option Text) (slug : Text)
      → is_empty (scope_of_slug (fault 1) db slug).0 ≡ false
      → referer_gate_for_slug parse lower public_stream_url c session fault db now referer slug
        ≡ referer_gate_for_slug parse lower public_stream_url c session fault
            (with_origins db
              (all_where (concerns (scope_of_slug (fault 1) db slug)) db.allowed_origins))
            now
            referer
            slug
  gate_isolated c session fault slug some_id =
      let scope = scope_of_slug (fault 1) db slug in
      gate-same parse lower public_stream_url db (all_where (concerns scope) db.allowed_origins) now
        referer c session fault slug some_id
        (all_where-wider (concerns scope) (serves_channel scope.0 scope.1)
          (serves_channel-concerns scope) db.allowed_origins)
