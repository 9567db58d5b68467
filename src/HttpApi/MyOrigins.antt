-- ===== src/HttpApi/MyOrigins.antt =====
-- /me/origins of backend/internal/httpapi/nodes.go. The decoded bodies are arguments.
pub mod Tenancy
use xrestream.Base.{
  if◌then◌else◌, ◌==◌, Option, Text, codes, is_empty, none, some, text_eq, trim_prefix, trim_space,
  true,
}
use xrestream.Base.Results.{Error, Result, err, message, ok}
use xrestream.Store.{Channel, Session}
use xrestream.Store.Channels.{get_channel}
use xrestream.Store.Origins.{
  create_allowed_origin_scoped, delete_allowed_origin_for_owner, list_allowed_origins_for_owner,
  update_allowed_origin_for_owner,
}
use xrestream.HttpApi.Admin.{OriginBody, OriginPatch}
use xrestream.HttpApi.Answers.{changed_origins, shown}
use xrestream.HttpApi.Channels.{owned_by}
use xrestream.HttpApi.Server.{
  Body, Request, Response, Server, bad_request, flag, handle_store_error, method_not_allowed,
  origin_body, origins_body, reply, server_error, for_session, unless_refused, write_error,
}

-- Why the channel of a scoped origin is refused, or none.
channel_refusal : Session → Result Channel → Option Response
unfolding owned_by
channel_refusal sess (err e) = some (handle_store_error e)
channel_refusal sess (ok ch) =
    if owned_by sess ch.owner_id
    then none
    else some (write_error 403 (codes "channel does not belong to you"))

check_scope : Server → Request → Session → Text → Option Response
unfolding channel_refusal
check_scope s r sess channel_id =
    if is_empty channel_id
    then none
    else channel_refusal sess (get_channel (r.fault 0) s.db channel_id)

create_own : Server → Request → Session → Result OriginBody → Server × Response
unfolding check_scope changed_origins unless_refused
create_own s r sess (err e) = (s, bad_request e)
create_own s r sess (ok b) =
    if is_empty (trim_space b.origin)
    then (s, bad_request (message (codes "origin is required")))
    else unless_refused s (check_scope s r sess (trim_space b.channel_id)) (
        changed_origins s 201 server_error origin_body (
          create_allowed_origin_scoped (r.fault 1) s.db r.new_id r.now sess.user_id
            (trim_space b.channel_id) b.origin b.label))

my_origins : Server → Request → Result OriginBody → Session → Server × Response
unfolding shown create_own
my_origins s r body sess =
    if is_empty sess.user_id
    then (s, write_error 403 (codes "service token cannot own origins"))
    else if r.method == codes "GET"
    then shown s server_error origins_body
        (list_allowed_origins_for_owner (r.fault 0) s.db sess.user_id)
    else if r.method == codes "POST"
    then create_own s r sess body
    else (s, method_not_allowed)

unfoldable pub handle_my_origins : Server → Request → Result OriginBody → Server × Response
unfolding my_origins for_session
handle_my_origins s r body = for_session s r.session (λ sess. my_origins s r body sess)

patch_own : Server → Request → Session → Text → Result OriginPatch → Server × Response
unfolding changed_origins
patch_own s r sess id (err e) = (s, bad_request e)
patch_own s r sess id (ok b) =
    changed_origins s 200 handle_store_error origin_body
      (update_allowed_origin_for_owner (r.fault 0) s.db sess.user_id id b.label b.enabled)

my_origin : Server → Request → Result OriginPatch → Text → Session → Server × Response
unfolding changed_origins patch_own
my_origin s r body id sess =
    if is_empty sess.user_id
    then (s, write_error 403 (codes "service token cannot own origins"))
    else if is_empty id
    then (s, write_error 404 (codes "not found"))
    else if r.method == codes "PATCH"
    then patch_own s r sess id body
    else if r.method == codes "DELETE"
    then changed_origins s 200 handle_store_error (λ done. flag (codes "deleted") true)
        (delete_allowed_origin_for_owner (r.fault 0) s.db sess.user_id id)
    else (s, method_not_allowed)

unfoldable pub handle_my_origin_by_id : Server → Request → Result OriginPatch → Server × Response
unfolding my_origin for_session
handle_my_origin_by_id s r body =
    for_session s r.session
      (λ sess. my_origin s r body (trim_prefix r.path (codes "/me/origins/")) sess)
