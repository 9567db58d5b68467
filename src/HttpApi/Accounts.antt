-- ===== src/HttpApi/Accounts.antt =====
-- login, logout and signup of backend/internal/httpapi/server.go. The new session token is an
-- argument, and so are the decoded bodies.
pub mod Sessions
use xrestream.Base.{
  if◌then◌else◌, ◌&&◌, ◌+◌, ◌==◌, Text, codes, false, is_empty, length, ltb, none, not, some,
  text_eq, trim_space, true,
}
use xrestream.Base.Results.{Error, Result, err, message, ok}
use xrestream.Store.{Time, User}
use xrestream.Store.Database.{Database, UserRow}
use xrestream.Store.Logins.{create_session, delete_session}
use xrestream.Store.Users.{create_user, get_user_by_username, touch_user_login}
use xrestream.HttpApi.Passwords.{Bcrypt, hash_password, verify_password}
use xrestream.HttpApi.Sessions.{bearer_token, drop_token}
use xrestream.HttpApi.Server.{
  Request, Response, Server, ServerConfig, bad_request, flag, login_body, method_not_allowed, reply,
  server_error, signup_body, write_error,
}

pub record LoginBody : Type 0 where
  pub username : Text
  pub password : Text
  pub token : Text

pub record SignupBody : Type 0 where
  pub username : Text
  pub password : Text

-- sessionTTL: seven days.
abbrev pub session_ttl : Time
session_ttl = 604800000000000

unfoldable pub invalid_login : Response
invalid_login = write_error 401 (codes "invalid username or password")

logged_in : Server → Request → UserRow → Text → Database × Result (Unit {0}) → Server × Response
logged_in s r row token (db, err e) = (record s { db = db }, server_error e)
logged_in s r row token (db, ok _) = (
  record s { db = touch_user_login (r.fault 2) db r.now row.user.id },
  reply 200 (login_body token row.user.username row.user.role (some (r.now + session_ttl))),
)

check_password : Bcrypt → Server → Request → Text → Text → Result UserRow → Server × Response
unfolding logged_in verify_password
check_password bcrypt s r password token (err e) = (s, invalid_login)
check_password bcrypt s r password token (ok row) =
    if not (verify_password bcrypt row.password_hash password)
    then (s, invalid_login)
    else if not row.user.enabled
    then (s, write_error 403 (codes "account is awaiting admin approval"))
    else logged_in s r row token
        (create_session (r.fault 1) s.db r.now row.user.id token (r.now + session_ttl))

login_with :
    (Text → Text)
    → Bcrypt
    → ServerConfig
    → Server
    → Request
    → Text
    → Result LoginBody
    → Server × Response
unfolding check_password
login_with lower bcrypt cfg s r token (err e) = (s, bad_request e)
login_with lower bcrypt cfg s r token (ok b) =
    if not (is_empty b.token) && not (is_empty cfg.admin_token) && b.token == cfg.admin_token
    then (s, reply 200 (login_body cfg.admin_token (codes "service") (codes "admin") none))
    else check_password bcrypt s r b.password token
        (get_user_by_username lower (r.fault 0) s.db b.username)

unfoldable pub login :
    (Text → Text)
    → Bcrypt
    → ServerConfig
    → Server
    → Request
    → Text
    → Result LoginBody
    → Server × Response
unfolding login_with
login lower bcrypt cfg s r token body =
    if not (r.method == codes "POST")
    then (s, method_not_allowed)
    else login_with lower bcrypt cfg s r token body

unfoldable pub logout : Server → Request → Server × Response
unfolding bearer_token drop_token
logout s r =
    let token = bearer_token r.authorization in
    if not (r.method == codes "POST")
    then (s, method_not_allowed)
    else if is_empty token
    then (s, reply 200 (flag (codes "ok") true))
    else (
      record s { db = (delete_session (r.fault 0) s.db token).0; auth = drop_token s.auth token },
      reply 200 (flag (codes "ok") true),
    )

signed_up : Server → Database × Result User → Server × Response
signed_up s (db, err e) = (record s { db = db }, write_error 409 (codes "username already exists"))
signed_up s (db, ok u) = (record s { db = db }, reply 202 (signup_body u.username u.role u.enabled))

create_pending : Server → Request → Text → Result Text → Server × Response
unfolding signed_up
create_pending s r username (err e) = (s, bad_request e)
create_pending s r username (ok hash) =
    signed_up s (create_user (r.fault 0) s.db r.new_id r.now username hash (codes "viewer") false)

signup_with : Bcrypt → Server → Request → Result SignupBody → Server × Response
unfolding create_pending hash_password
signup_with bcrypt s r (err e) = (s, bad_request e)
signup_with bcrypt s r (ok b) =
    if ltb (length (trim_space b.username)) 3
    then (s, write_error 400 (codes "username must be at least 3 characters"))
    else if ltb (length b.password) 8
    then (s, write_error 400 (codes "password must be at least 8 characters"))
    else create_pending s r (trim_space b.username) (hash_password bcrypt b.password)

unfoldable pub signup :
    Bcrypt → ServerConfig → Server → Request → Result SignupBody → Server × Response
unfolding signup_with
signup bcrypt cfg s r body =
    if not (r.method == codes "POST")
    then (s, method_not_allowed)
    else if not cfg.allow_signup
    then (s, write_error 403 (codes "signup disabled"))
    else signup_with bcrypt s r body
