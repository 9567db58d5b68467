-- ===== src/Store/Logins/Opened.antt =====
-- A session that is created is found by LookupSession until it expires.
use xrestream.Base.{
  if◌then◌else◌, ◌++◌, ◌==◌, ◌∙◌, ◌∷◌, ◌≡◌, ◌⊎◌, ==_self, Option, Text, [], ap, false, inl, inr,
  ltb, none, refl, some, text_eq, true,
}
use xrestream.Store.Models.{Session, Time}
use xrestream.Store.Sql.{any_where, first_where}
use xrestream.Store.Sql.Finding.{first_where-append, first_where-update_where}
use xrestream.Store.Database.{Database, SessionRow, UserRow}
use xrestream.Store.Logins.{joined, live_session, session_of}
use xrestream.Store.Users.{change_user, touch_user_login}

-- The user's row, with or without the time of the login.
touched-found :
    (fault : Option Text) (db : Database) (now : Time) (id : Text) (row : UserRow)
    → first_where (λ u. u.user.id == id) db.users ≡ some row
    → let users = (touch_user_login fault db now id).users in
      (first_where (λ u. u.user.id == id) users ≡ some row)
      ⊎ (first_where (λ u. u.user.id == id) users
          ≡ some (record row { user = record row.user { last_login_at = some now } }))
unfolding touch_user_login change_user
touched-found (some why) db now id row f = inl f
touched-found none db now id row f =
    first_where-update_where (λ u. u.user.id) (λ u. u.user.id == id)
      (λ u. record u { user = record u.user { last_login_at = some now } }) id row db.users
      (λ u. refl) f

touch_user_login-sessions :
    (fault : Option Text) (db : Database) (now : Time) (id : Text)
    → (touch_user_login fault db now id).sessions ≡ db.sessions
unfolding touch_user_login change_user
touch_user_login-sessions (some why) db now id = refl
touch_user_login-sessions none db now id = refl

-- The session of a login.
unfoldable pub session_for : Text → UserRow → Time → Session
session_for token row expires_at = record {
  token = token;
  user_id = row.user.id;
  username = row.user.username;
  role = row.user.role;
  expires_at = expires_at;
}

unfoldable pub row_for : Text → UserRow → Time → Time → SessionRow
row_for token row expires_at opened = record {
  token = token;
  user_id = row.user.id;
  expires_at = expires_at;
  last_used_at = opened;
}

joined-found :
    (token : Text) (row : UserRow) (expires_at opened : Time) (found : Option UserRow)
    → row.user.enabled ≡ true
    → (found ≡ some row)
      ⊎ (found ≡ some (record row { user = record row.user { last_login_at = some opened } }))
    → joined (row_for token row expires_at opened) found ≡ some (session_for token row expires_at)
unfolding joined session_for row_for
joined-found token row expires_at opened found on (inl f) =
    ap (joined (row_for token row expires_at opened)) f
    ∙ ap (λ b. if b then some (session_for token row expires_at) else none) on
joined-found token row expires_at opened found on (inr f) =
    ap (joined (row_for token row expires_at opened)) f
    ∙ ap (λ b. if b then some (session_for token row expires_at) else none) on

-- The session that is added is live before it expires.
pub live_session-opened :
    (fault : Option Text) (db : Database) (opened now expires_at : Time) (token : Text)
    (row : UserRow)
    → first_where (λ u. u.user.id == row.user.id) db.users ≡ some row
    → row.user.enabled ≡ true
    → any_where (λ s. s.token == token) db.sessions ≡ false
    → ltb now expires_at ≡ true
    → live_session
        (touch_user_login fault
          (record db {
            sessions =
                db.sessions
                ++ (record {
                  token = token;
                  user_id = row.user.id;
                  expires_at = expires_at;
                  last_used_at = opened;
                }
                    ∷ []);
          })
          opened
          row.user.id)
        now
        token
      ≡ some (session_for token row expires_at)
unfolding live_session session_of row_for
live_session-opened fault db opened now expires_at token row there on fresh early =
    let after = record db {
      sessions = db.sessions ++ (row_for token row expires_at opened ∷ []);
    } in
    let touched = touch_user_login fault after opened row.user.id in
    ap (λ rows. session_of touched now (first_where (λ (r : SessionRow). r.token == token) rows))
      (touch_user_login-sessions fault after opened row.user.id)
    ∙ ap (session_of touched now) (
        first_where-append (λ (r : SessionRow). r.token == token)
          (row_for token row expires_at opened) db.sessions fresh (==_self token))
    ∙ ap
        (λ b.
          if b
          then joined (row_for token row expires_at opened)
              (first_where (λ u. u.user.id == row.user.id) touched.users)
          else none)
        early
    ∙ joined-found token row expires_at opened _ on
        (touched-found fault after opened row.user.id row there)
