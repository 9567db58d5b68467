-- ===== src/HttpApi/NodeApi/Reports.antt =====
-- What a node's report does to the channels that the node is told to serve.
use xrestream.Base.{
  ℕ, ◌*◌, ◌++◌, ◌+◌, ◌==◌, ◌||◌, ◌∙◌, ◌∷◌, ◌≡◌, All, All-mono, Bool-cases, List, Option, Text, [],
  arith, codes, false, if_both, inl, inr, is_empty, length, none, refl, some, subst, text_eq, true,
}
use xrestream.Base.Int.{ℤ}
use xrestream.Base.Results.{Result, err, ok}
use xrestream.Store.{Channel, Node, Time}
use xrestream.Store.Sql.{answered}
use xrestream.Store.Sql.Rows.{all_where-excludes, order_asc-All}
use xrestream.Store.Database.{Database, fits_integer}
use xrestream.Store.Channels.{list_channels_for_node}
use xrestream.Store.Statuses.{
  set_source_status, set_worker_status, with_source_status, with_worker_status,
}
use xrestream.Store.Statuses.Checks.{
  Checked, IsInactive, set_source_status-Checked, set_source_status-IsInactive,
  set_worker_status-Checked, update_checked-IsInactive,
}
use xrestream.HttpApi.Passwords.{Bcrypt}
use xrestream.HttpApi.Server.{Request, Server}
use xrestream.Store.Counters.Kept.{SameChannels, increment_metric-same}
use xrestream.HttpApi.NodeApi.{
  MetricUpdate, NodeReport, StatusUpdate, apply_metric, is_zero, apply_metrics, apply_report,
  apply_source, apply_status, apply_statuses, authenticate_node, handle_node_report, reported,
}

-- The rows of an answer; none when it is an error.
unfoldable pub rows_of : Result (List Channel) → List Channel
rows_of (err e) = []
rows_of (ok chs) = chs

listed-without :
    (fault : Option Text) (db : Database) (node_id id : Text)
    → All (IsInactive id) db.channels
    → All (λ ch. (ch.id == id) ≡ false) (rows_of (list_channels_for_node fault db node_id))
unfolding list_channels_for_node answered rows_of
listed-without (some why) db node_id id h = tt
listed-without none db node_id id h =
    order_asc-All (λ ch. (ch.id == id) ≡ false) (λ ch. ch.created_at) _
      (all_where-excludes _ (λ ch. ch.id == id) db.channels
        (All-mono (λ ch n. ground arith) db.channels h))

module _ (now : Time) (id : Text) where
  -- What the turns of the report's loop keep: every row meets its constraints.
  apply_source-Checked :
      (fault : Option Text) (db : Database) (other : Text) (code : Option ℤ) (why : Option Text)
      → Checked db db.channels
      → let after = apply_source fault db now other code why in Checked after after.channels
  unfolding apply_source
  apply_source-Checked fault db other none why c = c
  apply_source-Checked fault db other (some code) why c =
      set_source_status-Checked fault db now other code why c

  apply_status-Checked :
      (fault fault₂ : Option Text) (db : Database) (st : StatusUpdate)
      → Checked db db.channels
      → let after = apply_status fault fault₂ db now st in Checked after after.channels
  unfolding apply_status
  apply_status-Checked fault fault₂ db st c = elim (Bool-cases (is_empty st.channel_id)) [
    | inl e ↦ rw e c
    | inr e ↦ rw e (elim (Bool-cases (is_empty st.worker_status)) [
      | inl w ↦ rw w (apply_source-Checked fault₂ db st.channel_id st.source_status st.last_error c)
      | inr w ↦ rw w (
          apply_source-Checked fault₂ _ st.channel_id st.source_status st.last_error
            (set_worker_status-Checked fault db now st.channel_id st.worker_status st.last_error c))
    ])
  ]

  apply_source-IsInactive :
      (fault : Option Text) (db : Database) (other : Text) (code : Option ℤ) (why : Option Text)
      → (other == id) ≡ false
      → All (IsInactive id) db.channels
      → All (IsInactive id) (apply_source fault db now other code why).channels
  unfolding apply_source set_source_status with_source_status
  apply_source-IsInactive fault db other none why ne h = h
  apply_source-IsInactive fault db other (some code) why ne h =
      update_checked-IsInactive id other (with_source_status now code why) fault db ne (λ ch. refl)
        h

  apply_status-IsInactive :
      (fault fault₂ : Option Text) (db : Database) (st : StatusUpdate)
      → (st.channel_id == id) ≡ false
      → All (IsInactive id) db.channels
      → All (IsInactive id) (apply_status fault fault₂ db now st).channels
  unfolding apply_status set_worker_status with_worker_status
  apply_status-IsInactive fault fault₂ db st ne h = elim (Bool-cases (is_empty st.channel_id)) [
    | inl e ↦ rw e h
    | inr e ↦ rw e (elim (Bool-cases (is_empty st.worker_status)) [
      | inl w ↦
          rw w (apply_source-IsInactive fault₂ db st.channel_id st.source_status st.last_error ne h)
      | inr w ↦ rw w (
          apply_source-IsInactive fault₂ _ st.channel_id st.source_status st.last_error ne (
            update_checked-IsInactive id st.channel_id
              (with_worker_status now st.worker_status st.last_error) fault db ne (λ ch. refl) h))
    ])
  ]

  apply_statuses-IsInactive :
      (fault : ℕ → Option Text) (n : ℕ) (db : Database) (sts : List StatusUpdate)
      → All (λ st. (st.channel_id == id) ≡ false) sts
      → All (IsInactive id) db.channels
      → All (IsInactive id) (apply_statuses fault n db now sts).channels
  unfolding apply_statuses
  apply_statuses-IsInactive fault n db [] ne h = h
  apply_statuses-IsInactive fault n db (st ∷ sts) (here, ne) h =
      apply_statuses-IsInactive fault (n + 2) _ sts ne
        (apply_status-IsInactive (fault n) (fault (n + 1)) db st here h)

  apply_metrics-same :
      (fault : ℕ → Option Text) (n : ℕ) (db : Database) (ms : List MetricUpdate)
      → (apply_metrics fault n db now ms).channels ≡ db.channels
  unfolding apply_metrics apply_metric
  apply_metrics-same fault n db [] = refl
  apply_metrics-same fault n db (m ∷ ms) =
      apply_metrics-same fault (n + 1) _ ms
      ∙ (if_both (SameChannels db) (is_empty m.channel_id || is_empty m.field || is_zero m.amount)
          (record { same = refl })
          (increment_metric-same (fault n) db now m.channel_id m.field m.amount)).same

  module _ (st : StatusUpdate) (code : ℤ) (why : Text) where
    status-IsInactive :
        (fault : Option Text) (db : Database)
        → (st.channel_id ≡ id) × (st.source_status ≡ some code) × (st.last_error ≡ some why)
        → is_empty id ≡ false
        → Checked db db.channels
        → fits_integer code ≡ true
        → All (IsInactive id) (apply_status fault none db now st).channels
    unfolding apply_status apply_source
    status-IsInactive fault db (same, source, last) e c fits =
        rw (same, source, last, e)
          (elim (Bool-cases (is_empty st.worker_status)) [
            | inl w ↦ rw w (set_source_status-IsInactive db now id code why c fits)
            | inr w ↦ rw w (
                set_source_status-IsInactive
                  (set_worker_status fault db now id st.worker_status (some why)).0 now id code why
                  (set_worker_status-Checked fault db now id st.worker_status (some why) c) fits)
          ])

    statuses-IsInactive :
        (fault : ℕ → Option Text) (n : ℕ) (db : Database) (before after : List StatusUpdate)
        → (st.channel_id ≡ id) × (st.source_status ≡ some code) × (st.last_error ≡ some why)
        → All (λ later. (later.channel_id == id) ≡ false) after
        → fault (n + 2 * length before + 1) ≡ none
        → is_empty id ≡ false
        → Checked db db.channels
        → fits_integer code ≡ true
        → All (IsInactive id) (apply_statuses fault n db now (before ++ (st ∷ after))).channels
    unfolding apply_statuses
    statuses-IsInactive fault n db [] after told ne f e c fits =
        let stored : fault (n + 1) ≡ none = subst (λ k. fault k ≡ none) (omega arith) f in
        apply_statuses-IsInactive fault (n + 2) _ after ne
          (rw stored (status-IsInactive (fault n) db told e c fits))
    statuses-IsInactive fault n db (first ∷ before) after told ne f e c fits =
        statuses-IsInactive fault (n + 2) _ before after told ne
          (subst (λ k. fault k ≡ none) (omega arith) f) e
          (apply_status-Checked (fault n) (fault (n + 1)) db first c) fits

-- When a node's report has, among any others, a status with a source status and an error for a
-- channel, and no later status of the report is for this channel, then the channel is on no list of
-- channels that any node is given afterwards, if the query that stores this source status does not fail
-- and the rows meet the constraints of their table.
pub reported_error_drops :
    (bcrypt : Bcrypt) (s : Server) (r : Request) (n : Node) (id why node_id : Text) (code : ℤ)
    (before after : List StatusUpdate) (st : StatusUpdate) (metrics : List MetricUpdate)
    (fault : Option Text)
    → (r.method == codes "POST") ≡ true
    → authenticate_node bcrypt s r ≡ some n
    → (st.channel_id ≡ id) × (st.source_status ≡ some code) × (st.last_error ≡ some why)
    → All (λ later. (later.channel_id == id) ≡ false) after
    → r.fault (1 + 2 * length before + 1) ≡ none
    → is_empty id ≡ false
    → Checked s.db s.db.channels
    → fits_integer code ≡ true
    → let report : NodeReport = record { statuses = before ++ (st ∷ after); metrics = metrics } in
      All
        (λ ch. (ch.id == id) ≡ false)
        (rows_of
          (list_channels_for_node fault (handle_node_report bcrypt s r (ok report)).0.db node_id))
unfolding handle_node_report reported apply_report
reported_error_drops bcrypt s r n id why node_id code before after st metrics fault method known
      told ne f e c fits =
    rw (method, known)
      (listed-without fault _ node_id id (
        rw (apply_metrics-same r.now id r.fault _ _ metrics) (
          statuses-IsInactive r.now id st code why r.fault 1 s.db before after told ne f e c fits)))
