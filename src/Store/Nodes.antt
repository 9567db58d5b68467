-- ===== src/Store/Nodes.antt =====
-- The nodes of backend/internal/store/nodes.go.
use xrestream.Base.{
  if◌then◌else◌, ℕ, ◌&&◌, ◌*◌, ◌++◌, ◌-◌, ◌==◌, ◌||◌, ◌∷◌, Bool, List, Option, Text, [], codes,
  is_empty, ltb, map, none, not, some, text_eq, trim_space, true,
}
use xrestream.Base.Results.{Result, err, message, not_found, ok, violation}
use xrestream.Store.Models.{Channel, Node, Time}
use xrestream.Store.Sql.{
  all_where, answered, delete_where, first_where, order_desc, scanned, update_where,
}
use xrestream.Store.Database.{Database, NodeRow, has_node, has_user}
use xrestream.Store.Channels.{refers_to}

unfoldable pub list_nodes : Option Text → Database → Text → Result (List Node)
list_nodes fault db owner_id = answered fault (
    order_desc (λ n. n.created_at)
      (map (λ row. row.node)
        (if is_empty owner_id
          then db.nodes
          else all_where (λ row. row.node.owner_id == owner_id) db.nodes)))

unfoldable pub first_node : Text → List NodeRow → Option NodeRow
first_node id rows = first_where (λ row. row.node.id == id) rows

unfoldable pub get_node_with_key_hash : Option Text → Database → Text → Result NodeRow
unfolding first_node
get_node_with_key_hash fault db id = scanned fault not_found (first_node id db.nodes)

unfoldable pub node_of : Option NodeRow → Option Node
node_of none = none
node_of (some row) = some row.node

unfoldable pub get_node : Option Text → Database → Text → Result Node
unfolding first_node node_of
get_node fault db id = scanned fault not_found (node_of (first_node id db.nodes))

unfoldable pub create_node :
    Option Text → Database → Text → Time → Text → Text → Text → Text → Database × Result Node
create_node (some why) db new_id now owner_id name host api_key_hash = (db, err (message why))
create_node none db new_id now owner_id name host api_key_hash =
    let n : Node = record {
      id = new_id;
      owner_id = owner_id;
      name = trim_space name;
      host = trim_space host;
      status = codes "pending";
      last_seen_at = none;
      created_at = now;
      updated_at = now;
    } in
    if has_node db new_id || not (has_user db owner_id) then (db, err violation) else (
      record db { nodes = db.nodes ++ (record { node = n; api_key_hash = api_key_hash } ∷ []) },
      ok n,
    )

-- An update of the node with the id.
change_node : Database → Text → (Node → Node) → Database
change_node db id change = record db {
  nodes =
      update_where (λ row. row.node.id == id) (λ row. record row { node = change row.node })
        db.nodes;
}

renamed : Time → Text → Text → Node → Node
renamed now name host n = record n {
  name = trim_space name;
  host = trim_space host;
  updated_at = now;
}

update_found : Database → Time → Text → Text → Text → Option NodeRow → Database × Result Node
unfolding change_node renamed
update_found db now id name host none = (db, err not_found)
update_found db now id name host (some row) =
    (change_node db id (renamed now name host), ok (renamed now name host row.node))

unfoldable pub update_node :
    Option Text → Database → Time → Text → Text → Text → Database × Result Node
unfolding update_found first_node
update_node (some why) db now id name host = (db, err (message why))
update_node none db now id name host = update_found db now id name host (first_node id db.nodes)

-- `on delete set null`: a channel of the node keeps its row.
unpin : Text → Channel → Channel
unpin id ch = record ch { node_id = none }

-- The deletes and the heartbeat tell a missing row by RowsAffected.
unfoldable pub delete_node : Option Text → Database → Text → Database × Result (Unit {0})
unfolding unpin refers_to
delete_node (some why) db id = (db, err (message why))
delete_node none db id = if not (has_node db id) then (db, err not_found) else (
  record db {
    nodes = delete_where (λ row. row.node.id == id) db.nodes;
    channels = update_where (λ ch. refers_to id ch.node_id) (unpin id) db.channels;
  },
  ok tt,
)

seen : Time → Node → Node
seen now n = record n { status = codes "online"; last_seen_at = some now; updated_at = now }

unfoldable pub touch_node_heartbeat :
    Option Text → Database → Time → Text → Database × Result (Unit {0})
unfolding seen change_node
touch_node_heartbeat (some why) db now id = (db, err (message why))
touch_node_heartbeat none db now id =
    if not (has_node db id) then (db, err not_found) else (change_node db id (seen now), ok tt)

seen_before : Time → Option Time → Bool
seen_before limit none = true
seen_before limit (some last) = ltb last limit

-- `cutoff` is in whole seconds.
stale : Time → ℕ → NodeRow → Bool
unfolding seen_before
stale now cutoff row =
    row.node.status == codes "online"
    && seen_before (now - cutoff * 1000000000) row.node.last_seen_at

gone_offline : Time → NodeRow → NodeRow
gone_offline now row = record row {
  node = record row.node { status = codes "offline"; updated_at = now };
}

pub mark_stale_nodes_offline : Option Text → Database → Time → ℕ → Database
unfolding stale gone_offline
mark_stale_nodes_offline (some why) db now cutoff = db
mark_stale_nodes_offline none db now cutoff = record db {
  nodes = update_where (stale now cutoff) (gone_offline now) db.nodes;
}
