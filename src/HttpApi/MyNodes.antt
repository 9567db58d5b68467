-- ===== src/HttpApi/MyNodes.antt =====
-- /me/nodes of backend/internal/httpapi/nodes.go. The secret and its hash that generateNodeAPIKey
-- draws are an argument, and so are the decoded bodies and the query parameter `all`.
pub mod Missing
use xrestream.Base.{
  if◌then◌else◌, ◌&&◌, ◌++◌, ◌==◌, ◌∷◌, Text, [], codes, is_empty, not, text_eq, trim_prefix,
  trim_space, true,
}
use xrestream.Base.Results.{Error, Result, err, message, ok}
use xrestream.Store.{Node, Session}
use xrestream.Store.Database.{Database}
use xrestream.Store.Nodes.{create_node, delete_node, get_node, list_nodes, update_node}
use xrestream.HttpApi.Answers.{changed, shown}
use xrestream.HttpApi.Channels.{is_admin}
use xrestream.HttpApi.Server.{
  Body, Request, Response, Server, bad_request, flag, handle_store_error, method_not_allowed,
  node_body, node_created, nodes_body, reply, server_error, for_session, write_error,
}

pub record NodeBody : Type 0 where
  pub name : Text
  pub host : Text

-- The plain secret and its hash.
pub record ApiKey : Type 0 where
  pub plain : Text
  pub hash : Text

-- The key that is shown once: the id and the secret.
unfoldable pub api_key : Text → Node → Text
api_key plain n = n.id ++ (b'.' ∷ plain)

create_keyed : Server → Request → Session → NodeBody → Result ApiKey → Server × Response
unfolding changed
create_keyed s r sess b (err e) = (s, server_error e)
create_keyed s r sess b (ok key) =
    changed s 201 server_error (λ n. node_created n (api_key key.plain n))
      (create_node (r.fault 0) s.db r.new_id r.now sess.user_id b.name b.host key.hash)

create_from : Server → Request → Session → Result ApiKey → Result NodeBody → Server × Response
unfolding create_keyed
create_from s r sess key (err e) = (s, bad_request e)
create_from s r sess key (ok b) =
    if is_empty (trim_space b.name)
    then (s, bad_request (message (codes "name is required")))
    else create_keyed s r sess b key

my_nodes : Server → Request → Text → Result ApiKey → Result NodeBody → Session → Server × Response
unfolding shown create_from is_admin
my_nodes s r all key body sess =
    if r.method == codes "GET"
    then shown s server_error nodes_body (
        list_nodes (r.fault 0) s.db
          (if is_admin sess && all == codes "1" then [] else sess.user_id))
    else if r.method == codes "POST"
    then if is_empty sess.user_id
      then (s, write_error 403 (codes "service token cannot own nodes"))
      else create_from s r sess key body
    else (s, method_not_allowed)

unfoldable pub handle_my_nodes :
    Server → Request → Text → Result ApiKey → Result NodeBody → Server × Response
unfolding my_nodes for_session
handle_my_nodes s r all key body = for_session s r.session (λ sess. my_nodes s r all key body sess)

patch_node : Server → Request → Text → Result NodeBody → Server × Response
unfolding changed
patch_node s r id (err e) = (s, bad_request e)
patch_node s r id (ok b) =
    changed s 200 handle_store_error node_body (update_node (r.fault 1) s.db r.now id b.name b.host)

node_found : Server → Request → Text → Result NodeBody → Session → Result Node → Server × Response
unfolding patch_node changed is_admin
node_found s r id body sess (err e) = (s, handle_store_error e)
node_found s r id body sess (ok n) =
    if not (is_admin sess) && not (n.owner_id == sess.user_id)
    then (s, write_error 403 (codes "not your node"))
    else if r.method == codes "GET"
    then (s, reply 200 (node_body n))
    else if r.method == codes "PATCH"
    then patch_node s r id body
    else if r.method == codes "DELETE"
    then changed s 200 handle_store_error (λ done. flag (codes "deleted") true)
        (delete_node (r.fault 1) s.db id)
    else (s, method_not_allowed)

my_node : Server → Request → Text → Result NodeBody → Session → Server × Response
unfolding node_found
my_node s r id body sess =
    if is_empty id
    then (s, write_error 404 (codes "not found"))
    else node_found s r id body sess (get_node (r.fault 0) s.db id)

unfoldable pub handle_my_node_by_id : Server → Request → Result NodeBody → Server × Response
unfolding my_node for_session
handle_my_node_by_id s r body =
    for_session s r.session
      (λ sess. my_node s r (trim_prefix r.path (codes "/me/nodes/")) body sess)
