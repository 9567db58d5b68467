-- ===== src/HttpApi/MyNodes/Missing.antt =====
-- How the handlers answer for a row that is not in the database.
use xrestream.Base.{
  ◌==◌, ◌∷◌, ◌≡◌, List, Text, ap, codes, false, is_empty, none, refl, some, split, subst, sym,
  text_eq, trim_prefix,
}
use xrestream.Base.Results.{Result, err, not_found}
use xrestream.Store.{Session}
use xrestream.Store.Sql.{any_where, scanned}
use xrestream.Store.Sql.Rows.{first_where-missing}
use xrestream.HttpApi.ChannelById.Missing.{channel_by_id-missing}
use xrestream.Store.Database.{Database, has_node}
use xrestream.Store.Nodes.{get_node, first_node, node_of}
use xrestream.Relay.Signer.{Crypto, Signer}
use xrestream.HttpApi.Inputs.{Platform}
use xrestream.HttpApi.Channels.{ChannelBodies, is_admin}
use xrestream.HttpApi.ChannelById.{channel_by_id}
use xrestream.HttpApi.MyNodes.{NodeBody, handle_my_node_by_id, my_node, node_found}
use xrestream.HttpApi.Server.{
  Request, Server, ServerConfig, error_text, for_session_lem, handle_store_error, reply,
  store_error,
}

get_node-missing :
    (db : Database) (id : Text) → has_node db id ≡ false → get_node none db id ≡ err not_found
unfolding get_node first_node node_of scanned has_node
get_node-missing db id h =
    ap (λ found. scanned none not_found (node_of found))
      (first_where-missing (λ row. row.node.id == id) db.nodes h)

my_node-missing :
    (s : Server) (r : Request) (id : Text) (body : Result NodeBody) (sess : Session)
    → is_empty id ≡ false
    → get_node (r.fault 0) s.db id ≡ err not_found
    → my_node s r id body sess ≡ (s, reply 500 (store_error not_found))
unfolding my_node node_found handle_store_error
my_node-missing s r id body sess e h = rw (e, h) refl

-- A session that is not an admin's gets 404 for any request below a channel that is not there, and
-- 500 for any request for a node that is not there, when the query for it does not fail.
pub missing_rows :
    (p : Platform) (crypto : Crypto) (signer : Signer) (cfg : ServerConfig) (s : Server)
    (r q : Request) (sess : Session) (b : ChannelBodies) (body : Result NodeBody) (id : Text)
    (parts : List Text)
    → r.session ≡ some sess
    → q.session ≡ some sess
    → is_admin sess ≡ false
    → r.fault 0 ≡ none
    → q.fault 0 ≡ none
    → split (trim_prefix r.path (codes "/channels/")) b'/' ≡ id ∷ parts
    → is_empty id ≡ false
    → any_where (λ ch. ch.id == id) s.db.channels ≡ false
    → is_empty (trim_prefix q.path (codes "/me/nodes/")) ≡ false
    → has_node s.db (trim_prefix q.path (codes "/me/nodes/")) ≡ false
    → (channel_by_id p crypto signer cfg s r b ≡ (s, reply 404 (error_text (codes "not found"))))
      × (handle_my_node_by_id s q body ≡ (s, reply 500 (store_error not_found)))
unfolding handle_my_node_by_id
missing_rows p crypto signer cfg s r q sess b body id parts hr hq n fr fq path e none_there eq
      no_node =
    (
      channel_by_id-missing p crypto signer cfg s r sess b id parts hr n fr path e none_there,
      for_session_lem (λ result. result ≡ (s, reply 500 (store_error not_found))) s q.session sess _
          hq
          (my_node-missing s q _ body sess eq (
            subst
              (λ fault.
                get_node fault s.db (trim_prefix q.path (codes "/me/nodes/")) ≡ err not_found)
              (sym fq) (get_node-missing s.db _ no_node))),
    )
