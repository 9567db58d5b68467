-- ===== src/HttpApi/NodeApi/Outages.antt =====
-- A configuration whose channels could not be read, from the control plane's answer to the workers
-- of the node.
use xrestream.Base.{
  ◌==◌, ◌∙◌, ◌≡◌, List, Option, Text, [], ap, codes, false, lookup, none, refl, some, text_eq, true,
}
use xrestream.Store.{Channel, Node, R2Config}
use xrestream.Store.Sql.{answered as query_answer}
use xrestream.Store.Channels.{list_channels_for_node}
use xrestream.Store.R2Configs.{get_r2_config}
use xrestream.Relay.Workers.{worker_running}
use xrestream.NodeAgent.MemStore.{MemStore, replace}
use xrestream.NodeAgent.MemStore.Channels.{IsIndexed}
use xrestream.NodeAgent.Agent.{Agent, ConfigResponse, Manager, answered, sync_config}
use xrestream.NodeAgent.Agent.Sync.{sync_config-running, to_run}
use xrestream.HttpApi.Passwords.{Bcrypt}
use xrestream.HttpApi.Server.{Request, Server, ServerConfig, config_body, reply}
use xrestream.HttpApi.NodeApi.{authenticate_node, handle_node_config, or_absent}

-- What the node's decoder makes of the answer: an absent list is an empty one.
pub or_empty : Option (List Channel) → List Channel
or_empty none = []
or_empty (some chs) = chs

pub decode_config : Text → Text → Option R2Config → Option (List Channel) → ConfigResponse
unfolding or_empty
decode_config signing_secret public_stream_url r2 channels = record {
  signing_secret = signing_secret;
  public_stream_url = public_stream_url;
  r2 = r2;
  channels = or_empty channels;
}

failed_list :
    (bcrypt : Bcrypt) (cfg : ServerConfig) (s : Server) (r : Request) (n : Node) (why : Text)
    → (r.method == codes "GET") ≡ true
    → authenticate_node bcrypt s r ≡ some n
    → r.fault 2 ≡ some why
    → handle_node_config bcrypt cfg s r ≡ (
      s,
      reply 200 (
          config_body n cfg.signing_secret cfg.public_stream_url
            (or_absent (get_r2_config (r.fault 1) s.db n.owner_id))
            none),
    )
unfolding handle_node_config list_channels_for_node query_answer or_absent
failed_list bcrypt cfg s r n why method known f = rw (method, known, f) refl

-- When the query for a node's channels fails, the control plane still answers 200, and a node that is
-- up takes that answer for a configuration without channels: it reports no error, forgets each channel
-- that it held, and stops the channel's worker.
pub outage_stops :
    (bcrypt : Bcrypt) (cfg : ServerConfig) (s : Server) (r : Request) (n : Node) (why : Text)
    (a : Agent) (rm : Manager) (listen_error : Option Text) (id : Text) (ch : Channel)
    → (r.method == codes "GET") ≡ true
    → authenticate_node bcrypt s r ≡ some n
    → r.fault 2 ≡ some why
    → IsIndexed a.store
    → a.signing_ready ≡ true
    → a.relay ≡ some rm
    → lookup id a.store.by_id ≡ some ch
    → let r2 = or_absent (get_r2_config (r.fault 1) s.db n.owner_id) in
      let (b, e) =
        sync_config a
          (answered (decode_config cfg.signing_secret cfg.public_stream_url r2 none))
          listen_error in
      (handle_node_config bcrypt cfg s r
        ≡ (s, reply 200 (config_body n cfg.signing_secret cfg.public_stream_url r2 none)))
      × (e ≡ none)
      × (lookup id b.store.by_id ≡ none)
      × ((rm' : Manager) × (b.relay ≡ some rm') × (worker_running rm'.workers id ≡ false))
unfolding replace decode_config or_empty lookup
outage_stops bcrypt cfg s r n why a rm listen_error id ch method known f v ready up held =
    let r2 = or_absent (get_r2_config (r.fault 1) s.db n.owner_id) in
    let cfg1 = decode_config cfg.signing_secret cfg.public_stream_url r2 none in
    let (silent, store, (rm', relay, running)) =
      sync_config-running a rm cfg1 listen_error v ready up in
    let gone = ap (λ (st : MemStore). lookup id st.by_id) store in
    (
      failed_list bcrypt cfg s r n why method known f,
      silent,
      gone,
      (
        rm',
        relay,
        running id
            ∙ ap
                (λ o.
                  to_run o (lookup id (sync_config a (answered cfg1) listen_error).0.store.by_id)
                    (worker_running rm.workers id))
                held
            ∙ ap (λ o. to_run (some ch) o (worker_running rm.workers id)) gone,
      ),
    )
