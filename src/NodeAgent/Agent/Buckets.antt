-- ===== src/NodeAgent/Agent/Buckets.antt =====
-- Which R2 client a node uses: syncConfig tells configurations apart by their signature.
use xrestream.Base.{
  ◌++◌, ◌==◌, ◌∙◌, ◌∷◌, ◌≡◌, ◌≢◌, ==_iff, Bool-cases, List, Option, Text, [], arith, inl, inr, none,
  refl, some, sym, text_eq, true,
}
use xrestream.Store.{Channel, R2Config}
use xrestream.Relay.Tables.{set_r2_client, purge_channel}
use xrestream.Base.Separators.{Without, split_first}
use xrestream.Relay.Workers.{start_worker}
use xrestream.NodeAgent.MemStore.{replace}
use xrestream.NodeAgent.Agent.{
  build_from, Agent, Manager, ConfigResponse, answered, remove_all, add_all, reconcile, refresh_r2,
  swap_r2, r2_signature, build_r2_client, sync_config,
}
use xrestream.NodeAgent.Agent.Sync.{sync_config-ready}

-- No field before the last one has the separator of the signature.
abbrev pub IsPlain : Option R2Config → Type 0
IsPlain none = Unit
IsPlain (some c) =
    Without b'|' c.account_id
    × Without b'|' c.bucket
    × Without b'|' c.access_key_id
    × Without b'|' c.public_url

signature_of_some : (c : R2Config) → r2_signature (some c) ≢ []
unfolding r2_signature
signature_of_some c e = no_bar c.account_id _ e
  where
    no_bar : (s t : Text) → s ++ b'|' ∷ t ≢ []
    no_bar [] t e = absurd (cc)
    no_bar (a ∷ s) t e = absurd (cc)

build_r2_client-same :
    (c d : Option R2Config)
    → IsPlain c
    → IsPlain d
    → r2_signature c ≡ r2_signature d
    → build_r2_client c ≡ build_r2_client d
unfolding r2_signature build_r2_client build_from
build_r2_client-same none none p q e = refl
build_r2_client-same none (some d) p q e = absurd (signature_of_some d (sym e))
build_r2_client-same (some c) none p q e = absurd (signature_of_some c e)
build_r2_client-same (some c) (some d) (a, b, k, u) (a', b', k', u') e =
    let (account, e1) = split_first b'|' c.account_id d.account_id _ _ a a' e in
    let (bucket, e2) = split_first b'|' c.bucket d.bucket _ _ b b' e1 in
    let (key, e3) = split_first b'|' c.access_key_id d.access_key_id _ _ k k' e2 in
    let (url, secret) = split_first b'|' c.public_url d.public_url _ _ u u' e3 in
    rw (build_from, account, bucket, key, url, secret) refl

remove_all-r2 : (chs : List Channel) (rm : Manager) → (remove_all chs rm).tables.r2 ≡ rm.tables.r2
unfolding remove_all purge_channel
remove_all-r2 [] rm = refl
remove_all-r2 (ch ∷ chs) rm = remove_all-r2 chs _

add_all-r2 : (chs : List Channel) (rm : Manager) → (add_all chs rm).tables.r2 ≡ rm.tables.r2
unfolding add_all
add_all-r2 [] rm = refl
add_all-r2 (ch ∷ chs) rm =
    ground (
      arith,
      add_all-r2 chs rm,
      add_all-r2 chs (record rm { workers = start_worker rm.workers ch }),
    )

-- The manager uses the client that the configuration describes, and the agent has noted its
-- signature.
abbrev pub Uses : Agent → Option R2Config → Type 0
Uses a c =
    (rm : Manager) × (a.relay ≡ some rm)
    × (a.r2_sig ≡ r2_signature c)
    × (rm.tables.r2 ≡ build_r2_client c)

reconcile-Uses :
    (a : Agent) (c : Option R2Config) (chs : List Channel) → Uses a c → Uses (reconcile a chs) c
unfolding reconcile
reconcile-Uses a c chs (rm, e, sig, client) =
    let r = replace a.store chs in
    let removed = remove_all r.removed rm in
    rw (e, reconcile)
      (
        add_all r.added removed,
        refl,
        sig,
        add_all-r2 r.added removed ∙ (remove_all-r2 r.removed rm ∙ client),
      )

refresh_r2-Uses :
    (a : Agent) (c : Option R2Config) (cfg : ConfigResponse)
    → IsPlain c
    → IsPlain cfg.r2
    → Uses a c
    → Uses (refresh_r2 a cfg) cfg.r2
unfolding refresh_r2 swap_r2 set_r2_client
refresh_r2-Uses a c cfg p q (rm, e, sig, client) =
    elim (Bool-cases (r2_signature cfg.r2 == a.r2_sig)) [
      | inl same ↦
          let old = (==_iff (r2_signature cfg.r2) a.r2_sig).0 same in
          rw (same, refresh_r2)
            (rm, e, sym old, client ∙ build_r2_client-same c cfg.r2 p q (sym sig ∙ sym old))
      | inr changed ↦ rw (changed, refresh_r2, e) (_, refl, refl, refl)
    ]

-- If a node that is up uses the R2 client of one configuration, then after a sync that gets its
-- answer it uses the client of the answer's configuration, where no account, bucket, access key or
-- public address has the separator "|" of the signature.
pub sync_config-r2 :
    (a : Agent) (c : Option R2Config) (cfg : ConfigResponse) (listen_error : Option Text)
    → a.signing_ready ≡ true
    → IsPlain c
    → IsPlain cfg.r2
    → Uses a c
    → Uses (sync_config a (answered cfg) listen_error).0 cfg.r2
sync_config-r2 a c cfg listen_error ready p q u =
    rw (sync_config-ready a cfg listen_error ready)
      (reconcile-Uses (refresh_r2 a cfg) cfg.r2 cfg.channels (refresh_r2-Uses a c cfg p q u))
