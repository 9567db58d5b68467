-- ===== src/Store/Users.antt =====
-- The users of backend/internal/store/auth.go.
use xrestream.Base.{
  if◌then◌else◌, ℕ, ◌&&◌, ◌++◌, ◌==◌, ◌||◌, ◌∷◌, Bool, List, Option, Text, [], codes, false,
  is_empty, length, map, none, not, some, text_eq, trim_space,
}
use xrestream.Base.Results.{Result, err, message, not_found, ok, violation}
use xrestream.Store.Models.{Channel, Time, User}
use xrestream.Store.Sql.{
  answered, any_where, delete_where, first_where, order_asc, scanned, update_where,
}
use xrestream.Store.Database.{Database, UserRow, has_user}
use xrestream.Store.Channels.{refers_to}

unfoldable pub list_users : Option Text → Database → Result (List User)
list_users fault db =
    answered fault (order_asc (λ u. u.created_at) (map (λ row. row.user) db.users))

unfoldable pub count_users : Option Text → Database → Result ℕ
count_users fault db = answered fault (length db.users)

first_user : Text → List UserRow → Option UserRow
first_user id rows = first_where (λ row. row.user.id == id) rows

pub user_of : Option UserRow → Option User
user_of none = none
user_of (some row) = some row.user

unfoldable pub get_user : Option Text → Database → Text → Result User
unfolding first_user user_of
get_user fault db id = scanned fault not_found (user_of (first_user id db.users))

-- `lower` is the database's lower(...). Usernames are unique only as they are spelled: when two
-- differ in case alone, the query gives either.
unfoldable pub get_user_by_username : (Text → Text) → Option Text → Database → Text → Result UserRow
get_user_by_username lower fault db username =
    scanned fault not_found
      (first_where (λ row. lower row.user.username == lower (trim_space username)) db.users)

unfoldable pub default_role : Text → Text
default_role role = if is_empty role then codes "admin" else role

unfoldable pub is_role : Text → Bool
is_role role = role == codes "admin" || role == codes "viewer"

unfoldable pub create_user :
    Option Text → Database → Text → Time → Text → Text → Text → Bool → Database × Result User
unfolding default_role is_role
create_user (some why) db new_id now username password_hash role enabled = (db, err (message why))
create_user none db new_id now username password_hash role enabled =
    let u : User = record {
      id = new_id;
      username = trim_space username;
      role = default_role role;
      enabled = enabled;
      created_at = now;
      updated_at = now;
      last_login_at = none;
    } in
    if any_where (λ row. row.user.id == new_id || row.user.username == u.username) db.users
      || not (is_role u.role)
    then (db, err violation)
    else (
      record db { users = db.users ++ (record { user = u; password_hash = password_hash } ∷ []) },
      ok u,
    )

unfoldable pub change_user : Database → Text → (UserRow → UserRow) → Database
change_user db id change = record db {
  users = update_where (λ row. row.user.id == id) change db.users;
}

unfoldable pub with_role : Time → Text → Bool → User → User
unfolding default_role
with_role now role enabled u = record u {
  role = default_role role;
  enabled = enabled;
  updated_at = now;
}

update_found : Database → Time → Text → Text → Bool → Option UserRow → Database × Result User
unfolding change_user with_role default_role is_role
update_found db now id role enabled none = (db, err not_found)
update_found db now id role enabled (some row) =
    if not (is_role (default_role role)) then (db, err violation) else (
      change_user db id (λ r. record r { user = with_role now role enabled r.user }),
      ok (with_role now role enabled row.user),
    )

unfoldable pub update_user :
    Option Text → Database → Time → Text → Text → Bool → Database × Result User
unfolding update_found first_user
update_user (some why) db now id role enabled = (db, err (message why))
update_user none db now id role enabled =
    update_found db now id role enabled (first_user id db.users)

unfoldable pub delete_user_sessions : Option Text → Database → Text → Database × Result (Unit {0})
delete_user_sessions (some why) db user_id = (db, err (message why))
delete_user_sessions none db user_id =
    (record db { sessions = delete_where (λ row. row.user_id == user_id) db.sessions }, ok tt)

-- The second fault is that of the delete of the sessions, whose error is dropped.
unfoldable pub set_user_password :
    Option Text → Option Text → Database → Time → Text → Text → Database × Result (Unit {0})
unfolding change_user delete_user_sessions
set_user_password (some why) fault₂ db now id password_hash = (db, err (message why))
set_user_password none fault₂ db now id password_hash =
    if not (has_user db id) then (db, err not_found) else (
      (delete_user_sessions fault₂
          (change_user db id (λ row. record row {
            user = record row.user { updated_at = now };
            password_hash = password_hash;
          }))
          id).0,
      ok tt,
    )

-- The sessions, nodes, configurations and origins of the user go with it; its channels stay, without
-- an owner, and those pinned to its nodes without a node.
owned_node : Database → Text → Text → Bool
owned_node db user_id node_id =
    any_where (λ row. row.node.id == node_id && row.node.owner_id == user_id) db.nodes

on_owned_node : Database → Text → Option Text → Bool
unfolding owned_node
on_owned_node db user_id none = false
on_owned_node db user_id (some node_id) = owned_node db user_id node_id

disown : Database → Text → Channel → Channel
unfolding on_owned_node refers_to
disown db user_id ch = record ch {
  owner_id = if refers_to user_id ch.owner_id then none else ch.owner_id;
  node_id = if on_owned_node db user_id ch.node_id then none else ch.node_id;
}

unfoldable pub delete_user : Option Text → Database → Text → Database × Result (Unit {0})
unfolding disown refers_to
delete_user (some why) db id = (db, err (message why))
delete_user none db id = if not (has_user db id) then (db, err not_found) else (
  record db {
    users = delete_where (λ row. row.user.id == id) db.users;
    sessions = delete_where (λ row. row.user_id == id) db.sessions;
    nodes = delete_where (λ row. row.node.owner_id == id) db.nodes;
    r2_configs = delete_where (λ c. c.owner_id == id) db.r2_configs;
    allowed_origins = delete_where (λ o. refers_to id o.owner_id) db.allowed_origins;
    channels = map (disown db id) db.channels;
  },
  ok tt,
)

unfoldable pub touch_user_login : Option Text → Database → Time → Text → Database
unfolding change_user
touch_user_login (some why) db now id = db
touch_user_login none db now id =
    change_user db id (λ row. record row { user = record row.user { last_login_at = some now } })
