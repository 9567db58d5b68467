-- ===== src/HttpApi/Users.antt =====
-- /admin/users of backend/internal/httpapi/admin.go. The bodies of the requests are arguments,
-- decoded.
pub mod Roles
use xrestream.Base.{
  if◌then◌else◌, ◌&&◌, ◌==◌, ◌||◌, ◌∷◌, Bool, List, Option, Text, [], codes, is_empty, none, not,
  some, split, text_eq, trim_prefix, trim_space, true,
}
use xrestream.Base.Results.{Error, Result, err, message, ok}
use xrestream.Store.{AllowedOrigin, Node, Session, User}
use xrestream.Store.Database.{Database}
use xrestream.Store.Nodes.{list_nodes}
use xrestream.Store.Origins.{
  create_allowed_origin_scoped, delete_allowed_origin, list_allowed_origins, update_allowed_origin,
}
use xrestream.Store.Users.{
  create_user, delete_user, delete_user_sessions, get_user, list_users, set_user_password,
  update_user,
}
use xrestream.HttpApi.OriginCache.{invalidate}
use xrestream.HttpApi.Server.{
  Body, Request, Response, Server, bad_request, flag, handle_store_error, method_not_allowed,
  nodes_body, origin_body, origins_body, reply, server_error, user_body, users_body, write_error,
}
use xrestream.HttpApi.Answers.{admin_required, changed, changed_origins, require_admin, shown}
use xrestream.HttpApi.Passwords.{Bcrypt, hash_password, verify_password}

pub record NewUserBody : Type 0 where
  pub username : Text
  pub password : Text
  pub role : Text
  pub enabled : Option Bool

pub record UserPatch : Type 0 where
  pub role : Text
  pub enabled : Bool

pub record UserBodies : Type 0 where
  pub patch : Result UserPatch
  pub password : Result Text

unfoldable pub is_role : Text → Bool
is_role role = role == codes "admin" || role == codes "viewer"

or_enabled : Option Bool → Bool
or_enabled none = true
or_enabled (some enabled) = enabled

create_hashed : Server → Request → NewUserBody → Text → Result Text → Server × Response
unfolding changed or_enabled
create_hashed s r b role (err e) = (s, bad_request e)
create_hashed s r b role (ok hash) = changed s 201 server_error user_body (
    create_user (r.fault 0) s.db r.new_id r.now (trim_space b.username) hash role
      (or_enabled b.enabled))

create_account : Bcrypt → Server → Request → Result NewUserBody → Server × Response
unfolding create_hashed is_role hash_password
create_account bcrypt s r (err e) = (s, bad_request e)
create_account bcrypt s r (ok b) =
    let role = if is_empty b.role then codes "admin" else b.role in
    if is_empty (trim_space b.username)
    then (s, bad_request (message (codes "username is required")))
    else if not (is_role role)
    then (s, bad_request (message (codes "role must be admin or viewer")))
    else create_hashed s r b role (hash_password bcrypt b.password)

unfoldable pub handle_users : Bcrypt → Server → Request → Result NewUserBody → Server × Response
unfolding shown create_account
handle_users bcrypt s r body =
    if not (require_admin r.session)
    then (s, admin_required)
    else if r.method == codes "GET"
    then shown s server_error users_body (list_users (r.fault 0) s.db)
    else if r.method == codes "POST"
    then create_account bcrypt s r body
    else (s, method_not_allowed)

patched : Server → Request → Text → Bool → Database × Result User → Server × Response
patched s r id enabled (db, err e) = (record s { db = db }, handle_store_error e)
patched s r id enabled (db, ok u) = (
  record s { db = if enabled then db else (delete_user_sessions (r.fault 1) db id).0 },
  reply 200 (user_body u),
)

patch_user : Server → Request → Text → Result UserPatch → Server × Response
unfolding patched is_role
patch_user s r id (err e) = (s, bad_request e)
patch_user s r id (ok b) =
    if not (is_empty b.role) && not (is_role b.role)
    then (s, bad_request (message (codes "role must be admin or viewer")))
    else patched s r id b.enabled (update_user (r.fault 0) s.db r.now id b.role b.enabled)

-- The zero value of a session has an empty user id.
user_id_of : Option Session → Text
user_id_of none = []
user_id_of (some sess) = sess.user_id

handle_user_record : Server → Request → Text → Result UserPatch → Server × Response
unfolding shown patch_user changed user_id_of
handle_user_record s r id body =
    if r.method == codes "GET"
    then shown s handle_store_error user_body (get_user (r.fault 0) s.db id)
    else if r.method == codes "PATCH"
    then patch_user s r id body
    else if r.method == codes "DELETE"
    then if user_id_of r.session == id
      then (s, write_error 400 (codes "cannot delete your own account"))
      else changed s 200 handle_store_error (λ done. flag (codes "deleted") true)
          (delete_user (r.fault 0) s.db id)
    else (s, method_not_allowed)

set_hashed : Server → Request → Text → Result Text → Server × Response
unfolding changed
set_hashed s r id (err e) = (s, bad_request e)
set_hashed s r id (ok hash) =
    changed s 200 handle_store_error (λ done. flag (codes "ok") true)
      (set_user_password (r.fault 0) (r.fault 1) s.db r.now id hash)

handle_user_password : Bcrypt → Server → Request → Text → Result Text → Server × Response
unfolding set_hashed hash_password
handle_user_password bcrypt s r id (err e) =
    if not (r.method == codes "POST") then (s, method_not_allowed) else (s, bad_request e)
handle_user_password bcrypt s r id (ok password) =
    if not (r.method == codes "POST")
    then (s, method_not_allowed)
    else set_hashed s r id (hash_password bcrypt password)

user_route : Bcrypt → Server → Request → UserBodies → List Text → Server × Response
unfolding handle_user_record handle_user_password
user_route bcrypt s r b [] = (s, write_error 404 (codes "not found"))
user_route bcrypt s r b (id ∷ []) =
    if is_empty id
    then (s, write_error 404 (codes "not found"))
    else handle_user_record s r id b.patch
user_route bcrypt s r b (id ∷ part ∷ []) =
    if is_empty id || not (part == codes "password")
    then (s, write_error 404 (codes "not found"))
    else handle_user_password bcrypt s r id b.password
user_route bcrypt s r b (id ∷ part ∷ part₂ ∷ parts) = (s, write_error 404 (codes "not found"))

pub handle_user_by_id : Bcrypt → Server → Request → UserBodies → Server × Response
unfolding user_route
handle_user_by_id bcrypt s r b =
    if not (require_admin r.session)
    then (s, admin_required)
    else user_route bcrypt s r b (split (trim_prefix r.path (codes "/admin/users/")) b'/')
