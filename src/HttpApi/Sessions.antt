-- ===== src/HttpApi/Sessions.antt =====
-- The sessions of backend/internal/httpapi: authCache of backend/internal/httpapi/auth.go, and
-- bearerToken and currentSession of backend/internal/httpapi/server.go. The clock, the Authorization
-- header and what LookupSession answers, if it is asked, are arguments.
pub mod Freshness
mod Tests
use xrestream.Base.{
  if◌then◌else◌, ◌&&◌, ◌+◌, ◌==◌, Map, Option, Text, [], codes, delete, drop, has_prefix, insert,
  is_empty, lookup, ltb, none, not, some, text_eq, trim_space,
}
use xrestream.Store.{Session, Time}

pub record AuthCacheEntry : Type 0 where
  pub session : Session
  pub until : Time

abbrev pub AuthCache : Type 0
AuthCache = Map Text AuthCacheEntry

-- authCache.get
pub get : AuthCache → Text → Time → AuthCache × Option Session
get c token now = elim (lookup token c) [
  | none ↦ (delete token c, none)
  | some e ↦ if ltb e.until now then (delete token c, none) else (c, some e.session)
]

-- 30 * time.Second
abbrev pub cache_time : Time
cache_time = 30000000000

-- authCache.put
pub put : AuthCache → Text → Session → Time → AuthCache
put c token sess now = insert token (record { session = sess; until = now + cache_time }) c

-- authCache.drop
unfoldable pub drop_token : AuthCache → Text → AuthCache
drop_token c token = delete token c

unfoldable pub bearer_token : Text → Text
bearer_token h = if not (has_prefix h (codes "Bearer ")) then [] else trim_space (drop 7 h)

abbrev pub service_session : Text → Time → Session
service_session token now = record {
  token = token;
  user_id = [];
  username = codes "service";
  role = codes "admin";
  expires_at = now + 3600000000000;
}

-- After a miss of the cache: the answer of the database is remembered.
looked_up : AuthCache → Text → Time → Option Session → AuthCache × Option Session
unfolding put
looked_up c token now none = (c, none)
looked_up c token now (some sess) = (put c token sess now, some sess)

cached : Text → Time → Option Session → AuthCache × Option Session → AuthCache × Option Session
unfolding looked_up
cached token now answer (c, some sess) = (c, some sess)
cached token now answer (c, none) = looked_up c token now answer

pub current_session : Text → AuthCache → Text → Time → Option Session → AuthCache × Option Session
unfolding bearer_token cached get
current_session admin_token c header now answer =
    let token = bearer_token header in
    if is_empty token
    then (c, none)
    else if not (is_empty admin_token) && token == admin_token
    then (c, some (service_session token now))
    else cached token now answer (get c token now)
