-- ===== src/HttpApi/Sessions/Tests.antt =====
-- A session that is asked for twice within thirty seconds, and once later.
use xrestream.Base.{
  ◌∷◌, ◌≡◌, ◌≢◌, ◌≤◌, ◌⊎◌, List, Text, [], codes, delete, has_prefix, insert, lookup, none, refl,
  some, text_beq, text_eq, trim_space,
}
use xrestream.Store.{Session, Time}
use xrestream.HttpApi.Sessions.{
  get, put, drop_token, bearer_token, service_session, looked_up, cached, current_session,
}
use xrestream.HttpApi.Sessions.Freshness.{
  Event, requests, drops, run, step, Confirmed, current_session_fresh,
}

abbrev anna : Session
anna = record {
  token = codes "t1";
  user_id = codes "u1";
  username = codes "anna";
  role = codes "user";
  expires_at = 90000000000;
}

abbrev header : Text
header = codes "Bearer t1"

abbrev first : List Event
first = requests header 10000000000 (some anna) ∷ []

machine : Unit {0}
unfolding run step current_session cached looked_up get put drop_token bearer_token lookup insert
    delete text_beq has_prefix trim_space
machine = tt

from_cache : (current_session [] (run [] first) header 40000000000 none).1 ≡ some anna
unfolding machine
from_cache = refl

too_late : (current_session [] (run [] first) header 40000000001 none).1 ≡ none
unfolding machine
too_late = refl

logged_out :
    (current_session [] (run [] (drops (codes "t1") ∷ first)) header 20000000000 none).1 ≡ none
unfolding machine
logged_out = refl

current_session_fresh_example :
    (bearer_token header ≢ [])
    × (((bearer_token header ≡ []) × (anna ≡ service_session (bearer_token header) 40000000000))
        ⊎ ((none ≡ some anna)
            ⊎ ((until : Time) × Confirmed (bearer_token header) anna until first
                × (40000000000 ≤ until))))
current_session_fresh_example =
    current_session_fresh [] first header 40000000000 none anna from_cache
