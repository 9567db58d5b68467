-- ===== src/Store/Logins.antt =====
-- The sessions of backend/internal/store/auth.go.
pub mod Revoked
pub mod Opened
use xrestream.Base.{
  if◌then◌else◌, ◌++◌, ◌==◌, ◌||◌, ◌∷◌, Option, Text, [], ltb, none, not, some, text_eq,
}
use xrestream.Base.Results.{Result, err, message, not_found, ok, violation}
use xrestream.Store.Models.{Session, Time}
use xrestream.Store.Sql.{any_where, delete_where, first_where, update_where}
use xrestream.Store.Database.{Database, SessionRow, UserRow, has_user}

unfoldable pub create_session :
    Option Text → Database → Time → Text → Text → Time → Database × Result (Unit {0})
create_session (some why) db now user_id token expires_at = (db, err (message why))
create_session none db now user_id token expires_at =
    if any_where (λ row. row.token == token) db.sessions || not (has_user db user_id)
    then (db, err violation)
    else (
      record db {
        sessions =
            db.sessions
            ++ (record {
              token = token;
              user_id = user_id;
              expires_at = expires_at;
              last_used_at = now;
            }
                ∷ []);
      },
      ok tt,
    )

-- The join of a session with its user.
unfoldable pub joined : SessionRow → Option UserRow → Option Session
joined row none = none
joined row (some u) =
    if u.user.enabled
    then some (record {
      token = row.token;
      user_id = row.user_id;
      username = u.user.username;
      role = u.user.role;
      expires_at = row.expires_at;
    })
    else none

unfoldable pub session_of : Database → Time → Option SessionRow → Option Session
unfolding joined
session_of db now none = none
session_of db now (some row) =
    if ltb now row.expires_at
    then joined row (first_where (λ u. u.user.id == row.user_id) db.users)
    else none

unfoldable pub live_session : Database → Time → Text → Option Session
unfolding session_of
live_session db now token = session_of db now (first_where (λ row. row.token == token) db.sessions)

-- The update of last_used_at, whose error is dropped.
used : Option Text → Database → Time → Text → Database
used (some why) db now token = db
used none db now token = record db {
  sessions =
      update_where (λ row. row.token == token) (λ row. record row { last_used_at = now })
        db.sessions;
}

looked_up : Option Text → Database → Time → Text → Option Session → Database × Result Session
unfolding used
looked_up fault₂ db now token none = (db, err not_found)
looked_up fault₂ db now token (some sess) = (used fault₂ db now token, ok sess)

unfoldable pub lookup_session :
    Option Text → Option Text → Database → Time → Text → Database × Result Session
unfolding looked_up
lookup_session (some why) fault₂ db now token = (db, err (message why))
lookup_session none fault₂ db now token = looked_up fault₂ db now token (live_session db now token)

unfoldable pub delete_session : Option Text → Database → Text → Database × Result (Unit {0})
delete_session (some why) db token = (db, err (message why))
delete_session none db token =
    (record db { sessions = delete_where (λ row. row.token == token) db.sessions }, ok tt)

pub purge_expired_sessions : Option Text → Database → Time → Database
purge_expired_sessions (some why) db now = db
purge_expired_sessions none db now = record db {
  sessions = delete_where (λ row. ltb row.expires_at now) db.sessions;
}
