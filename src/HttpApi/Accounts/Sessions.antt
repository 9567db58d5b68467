-- ===== src/HttpApi/Accounts/Sessions.antt =====
-- From a login to the session that later requests find.
use xrestream.Base.{
  ◌&&◌, ◌++◌, ◌+◌, ◌==◌, ◌||◌, ◌∙◌, ◌∷◌, ◌≡◌, Bool-cases, Option, Text, [], ap, arith, codes, false,
  if_both, if_cases, inl, inr, is_empty, ltb, nat_beq, none, not, refl, some, subst, sym, text_eq,
  trim_space, true,
}
use xrestream.Base.Results.{Error, Result, err, ok}
use xrestream.Store.{Time}
use xrestream.Store.Sql.{any_where, first_where, scanned}
use xrestream.Store.Sql.Rows.{IsUnique}
use xrestream.Store.Sql.Finding.{first_where-key}
use xrestream.Store.Database.{Database, UserRow, has_user}
use xrestream.Store.Logins.{create_session, live_session}
use xrestream.Store.Logins.Opened.{live_session-opened, row_for, session_for}
use xrestream.Store.Users.{get_user_by_username, touch_user_login}
use xrestream.HttpApi.Passwords.{Bcrypt, verify_password}
use xrestream.HttpApi.Server.{
  Request, Response, Server, ServerConfig, bad_request, login_body, method_not_allowed, reply,
  server_error, write_error,
}
use xrestream.HttpApi.Accounts.{
  LoginBody, check_password, invalid_login, logged_in, login, login_with, session_ttl,
}

scanned-ok :
    {A : Type 0} (missing : Error) (found : Option A) (row : A)
    → scanned none missing found ≡ ok row
    → found ≡ some row
unfolding scanned
scanned-ok missing none row e = cc
scanned-ok missing (some a) row e = cc

-- What a successful answer promises.
record Opens (t : Time) (token name role : Text) (expires_at : Time) (result : Server × Response)
    : Type 0 where
  opened :
      result.1 ≡ reply 200 (login_body token name role (some expires_at))
      → (row : UserRow) × (row.user.username ≡ name)
        × (row.user.role ≡ role)
        × (live_session result.0.db t token ≡ some (session_for token row expires_at))

module _ (t : Time) (given name role : Text) (expires_at : Time)
    (early : ltb t expires_at ≡ true) where
  abbrev P : Server × Response → Type 0
  P result = Opens t given name role expires_at result

  refused :
      (s : Server) (response : Response) → nat_beq response.status 200 ≡ false → P (s, response)
  refused s response n = record {
    opened = λ e. absurd (ground (arith, n, ap (λ (q : Response). q.status) e));
  }

  -- The fields of the answer.
  answer_fields :
      (token : Text) (row : UserRow) (expires : Time)
      → reply 200 (login_body token row.user.username row.user.role (some expires))
        ≡ reply 200 (login_body given name role (some expires_at))
      → (token ≡ given)
        × (row.user.username ≡ name)
        × (row.user.role ≡ role)
        × (expires ≡ expires_at)
  answer_fields token row expires e = (cc, cc, cc, cc)

  session_opened :
      (fault : Option Text) (db : Database) (now expires : Time) (token : Text) (row : UserRow)
      → first_where (λ u. u.user.id == row.user.id) db.users ≡ some row
      → row.user.enabled ≡ true
      → any_where (λ row. row.token == token) db.sessions ≡ false
      → token ≡ given
      → expires ≡ expires_at
      → live_session
          (touch_user_login fault
            (record db { sessions = db.sessions ++ (row_for token row expires now ∷ []) })
            now
            row.user.id)
          t
          given
        ≡ some (session_for given row expires_at)
  unfolding row_for
  session_opened fault db now expires token row there on fresh tok exp =
      subst
        (λ k.
          live_session
            (touch_user_login fault
              (record db { sessions = db.sessions ++ (row_for token row expires now ∷ []) }) now
              row.user.id)
            t k
          ≡ some (session_for k row expires_at))
        tok
        (live_session-opened fault db now t expires token row there on fresh
            (subst (λ x. ltb t x ≡ true) (sym exp) early)
          ∙ ap (λ x. some (session_for token row x)) exp)

  logged_in-opens :
      (s : Server) (r : Request) (row : UserRow) (token : Text) (fault : Option Text)
      → first_where (λ u. u.user.id == row.user.id) s.db.users ≡ some row
      → row.user.enabled ≡ true
      → P (
          logged_in s r row token
            (create_session fault s.db r.now row.user.id token (r.now + session_ttl)))
  unfolding logged_in create_session server_error row_for
  logged_in-opens s r row token (some why) there on = refused _ _ refl
  logged_in-opens s r row token none there on =
      elim (Bool-cases
        (any_where (λ row. row.token == token) s.db.sessions || not (has_user s.db row.user.id))) [
          | inl clash ↦ rw clash (refused _ _ refl)
          | inr free ↦ rw free (record {
            opened = λ e.
                let (tok, named, roled, exp) = answer_fields token row (r.now + session_ttl) e in
                (
                  row,
                  named,
                  roled,
                  session_opened (r.fault 2) s.db r.now _ token row there on (ground arith) tok exp,
                );
          })
        ]

  check_password-opens :
      (bcrypt : Bcrypt) (s : Server) (r : Request) (password token : Text) (found : Result UserRow)
      → ((row : UserRow)
          → found ≡ ok row
          → first_where (λ u. u.user.id == row.user.id) s.db.users ≡ some row)
      → P (check_password bcrypt s r password token found)
  unfolding check_password invalid_login write_error
  check_password-opens bcrypt s r password token (err e) there = refused _ _ refl
  check_password-opens bcrypt s r password token (ok row) there =
      if_both P (not (verify_password bcrypt row.password_hash password)) (refused _ _ refl) (
        if_cases P (not row.user.enabled) (λ off. refused _ _ refl)
          (λ on. logged_in-opens s r row token (r.fault 1) (there row refl) (ground arith)))

  by_name :
      (lower : Text → Text) (fault : Option Text) (db : Database) (username : Text) (row : UserRow)
      → IsUnique (λ u. u.user.id) db.users
      → get_user_by_username lower fault db username ≡ ok row
      → first_where (λ u. u.user.id == row.user.id) db.users ≡ some row
  unfolding get_user_by_username scanned
  by_name lower (some why) db username row u f = cc
  by_name lower none db username row u f =
      first_where-key (λ u. u.user.id) (λ u. lower u.user.username == lower (trim_space username))
        row db.users u (scanned-ok _ _ row f)

  login_with-opens :
      (lower : Text → Text) (bcrypt : Bcrypt) (cfg : ServerConfig) (s : Server) (r : Request)
      (token : Text) (body : Result LoginBody)
      → IsUnique (λ u. u.user.id) s.db.users
      → P (login_with lower bcrypt cfg s r token body)
  unfolding login_with bad_request
  login_with-opens lower bcrypt cfg s r token (err e) u = refused _ _ refl
  login_with-opens lower bcrypt cfg s r token (ok b) u =
      if_both P
        (not (is_empty b.token) && not (is_empty cfg.admin_token) && b.token == cfg.admin_token)
        (record { opened = λ e. absurd (cc) })
        (check_password-opens bcrypt s r b.password token _
          (λ row f. by_name lower (r.fault 0) s.db b.username row u f))

-- When a login answers with a token that expires, a request with that token finds, at any time before,
-- a live session in the database with the username and the role of the answer, if no two users have
-- the same id.
pub login_opens_session :
    (lower : Text → Text) (bcrypt : Bcrypt) (cfg : ServerConfig) (s : Server) (r : Request)
    (drawn : Text) (body : Result LoginBody) (token name role : Text) (expires_at t : Time)
    → IsUnique (λ u. u.user.id) s.db.users
    → ltb t expires_at ≡ true
    → (login lower bcrypt cfg s r drawn body).1
      ≡ reply 200 (login_body token name role (some expires_at))
    → (row : UserRow) × (row.user.username ≡ name)
      × (row.user.role ≡ role)
      × (live_session (login lower bcrypt cfg s r drawn body).0.db t token
          ≡ some (session_for token row expires_at))
unfolding login method_not_allowed
login_opens_session lower bcrypt cfg s r drawn body token name role expires_at t u early e =
    (if_both (P t token name role expires_at early) (not (r.method == codes "POST"))
        (refused t token name role expires_at early s _ refl)
        (login_with-opens t token name role expires_at early lower bcrypt cfg s r drawn body
          u)).opened
      e
