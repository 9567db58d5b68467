-- ===== src/HttpApi/Users/Roles.antt =====
-- Who may create users.
use xrestream.Base.{
  ◌++◌, ◌==◌, ◌||◌, ◌∷◌, ◌≡◌, ==_iff, Bool, Text, [], ap, codes, false, is_empty, none, refl, some,
  text_beq, text_eq, trim_space, true,
}
use xrestream.Base.Results.{ok}
use xrestream.Store.{Session, Time}
use xrestream.Store.Sql.{any_where}
use xrestream.Store.Database.{Database, UserRow}
use xrestream.Store.Users.{create_user, default_role, is_role}
use xrestream.HttpApi.Answers.{changed, require_admin}
use xrestream.HttpApi.Passwords.{Bcrypt, hash_password}
use xrestream.HttpApi.Server.{Request, Server, reply, user_body}
use xrestream.HttpApi.Users.{create_account, create_hashed, handle_users, or_enabled}

-- The row of a new admin.
unfoldable pub new_admin : Text → Time → Text → Text → UserRow
new_admin id now username hash = record {
  user = record {
    id = id;
    username = trim_space username;
    role = codes "admin";
    enabled = true;
    created_at = now;
    updated_at = now;
    last_login_at = none;
  };
  password_hash = hash;
}

-- Another row has the id or the username.
unfoldable pub clashes : UserRow → UserRow → Bool
clashes new row = row.user.id == new.user.id || row.user.username == new.user.username

create_user-admin :
    (db : Database) (id : Text) (now : Time) (username hash : Text)
    → any_where (clashes (new_admin id now username hash)) db.users ≡ false
    → create_user none db id now username hash (codes "admin") true ≡ (
      record db { users = db.users ++ (new_admin id now username hash ∷ []) },
      ok (new_admin id now username hash).user,
    )
unfolding create_user new_admin clashes default_role is_role text_beq
create_user-admin db id now username hash free = rw free refl

not_get : (m : Text) → (m == codes "POST") ≡ true → (m == codes "GET") ≡ false
unfolding text_beq
not_get m h = ap (λ (k : Text). k == codes "GET") ((==_iff m (codes "POST")).0 h)

-- Any session, a viewer's too, creates an enabled admin by a POST to /admin/users, when the body names
-- no role and does not disable the account, the password can be hashed, neither the id nor the
-- username is taken and the query does not fail.
pub any_session_creates_admin :
    (bcrypt : Bcrypt) (s : Server) (r : Request) (sess : Session) (username password hash : Text)
    → r.session ≡ some sess
    → (r.method == codes "POST") ≡ true
    → is_empty (trim_space username) ≡ false
    → hash_password bcrypt password ≡ ok hash
    → r.fault 0 ≡ none
    → any_where (clashes (new_admin r.new_id r.now (trim_space username) hash)) s.db.users ≡ false
    → handle_users bcrypt s r
        (ok (record { username = username; password = password; role = []; enabled = none }))
      ≡ (
        record s {
          db = record s.db {
            users = s.db.users ++ (new_admin r.new_id r.now (trim_space username) hash ∷ []);
          };
        },
        reply 201 (user_body (new_admin r.new_id r.now (trim_space username) hash).user),
      )
unfolding handle_users create_account create_hashed or_enabled changed require_admin is_role
    text_beq
any_session_creates_admin bcrypt s r sess username password hash h method named hashed f free =
    rw
      (
        ap require_admin h,
        not_get r.method method,
        method,
        named,
        hashed,
        f,
        create_user-admin s.db r.new_id r.now (trim_space username) hash free,
      )
      refl
