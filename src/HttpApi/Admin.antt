-- ===== src/HttpApi/Admin.antt =====
-- /admin/origins and /admin/nodes of backend/internal/httpapi/admin.go. The bodies of the requests
-- are arguments, decoded.
use xrestream.Base.{
  if◌then◌else◌, ◌==◌, Bool, Text, [], codes, is_empty, not, text_eq, trim_prefix, trim_space, true,
}
use xrestream.Base.Results.{Result, err, message, ok}
use xrestream.Store.Nodes.{list_nodes}
use xrestream.Store.Origins.{
  create_allowed_origin_scoped, delete_allowed_origin, list_allowed_origins, update_allowed_origin,
}
use xrestream.HttpApi.Server.{
  Request, Response, Server, bad_request, flag, handle_store_error, method_not_allowed, nodes_body,
  origin_body, origins_body, server_error, write_error,
}
use xrestream.HttpApi.Answers.{admin_required, changed_origins, require_admin, shown}

pub record OriginBody : Type 0 where
  pub origin : Text
  pub label : Text
  pub channel_id : Text

pub record OriginPatch : Type 0 where
  pub label : Text
  pub enabled : Bool

create_origin : Server → Request → Result OriginBody → Server × Response
unfolding changed_origins
create_origin s r (err e) = (s, bad_request e)
create_origin s r (ok b) =
    if is_empty (trim_space b.origin)
    then (s, bad_request (message (codes "origin is required")))
    else changed_origins s 201 server_error origin_body (
        create_allowed_origin_scoped (r.fault 0) s.db r.new_id r.now [] (trim_space b.channel_id)
          (trim_space b.origin) b.label)

pub handle_origins : Server → Request → Result OriginBody → Server × Response
unfolding shown create_origin
handle_origins s r body =
    if not (require_admin r.session)
    then (s, admin_required)
    else if r.method == codes "GET"
    then shown s server_error origins_body (list_allowed_origins (r.fault 0) s.db)
    else if r.method == codes "POST"
    then create_origin s r body
    else (s, method_not_allowed)

patch_origin : Server → Request → Text → Result OriginPatch → Server × Response
unfolding changed_origins
patch_origin s r id (err e) = (s, bad_request e)
patch_origin s r id (ok b) =
    changed_origins s 200 handle_store_error origin_body
      (update_allowed_origin (r.fault 0) s.db id b.label b.enabled)

pub handle_origin_by_id : Server → Request → Result OriginPatch → Server × Response
unfolding changed_origins patch_origin
handle_origin_by_id s r body =
    let id = trim_prefix r.path (codes "/admin/origins/") in
    if not (require_admin r.session)
    then (s, admin_required)
    else if is_empty id
    then (s, write_error 404 (codes "not found"))
    else if r.method == codes "PATCH"
    then patch_origin s r id body
    else if r.method == codes "DELETE"
    then changed_origins s 200 handle_store_error (λ done. flag (codes "deleted") true)
        (delete_allowed_origin (r.fault 0) s.db id)
    else (s, method_not_allowed)

pub handle_admin_nodes : Server → Request → Server × Response
unfolding shown
handle_admin_nodes s r =
    if not (require_admin r.session)
    then (s, admin_required)
    else if not (r.method == codes "GET")
    then (s, method_not_allowed)
    else shown s server_error nodes_body (list_nodes (r.fault 0) s.db [])
