-- ===== src/NodeAgent/MemStore.antt =====
-- backend/internal/nodeagent/memstore.go. Each method holds the store's mutex from start to end,
-- so it is one function from state to state.
pub mod Channels
pub mod Reports
mod Tests
use xrestream.Base.{
  if◌then◌else◌, ℕ, ◌%◌, ◌&&◌, ◌+◌, ◌==◌, ◌^◌, ◌||◌, ◌↔◌, ◌∷◌, ◌≡◌, ==_iff, Bool, Eq, List, Map,
  Option, Text, [], arith, false, has_key, insert, is_empty, lookup, lookup_or, nat_beq, none, some,
  text_eq, true,
}
use xrestream.Base.Int.{ℤ}
use xrestream.Store.{Channel}

pub record StatusReport : Type 0 where
  pub worker_status : Text
  pub last_error : Option Text
  pub source_status : Option ℤ
  pub dirty : Bool

-- statusReport{}
abbrev pub zero_report : StatusReport
zero_report = record { worker_status = []; last_error = none; source_status = none; dirty = false }

pub record MetricKey : Type 0 where
  pub channel_id : Text
  pub field : Text

pub metric_key_beq : MetricKey → MetricKey → Bool
metric_key_beq a b = a.channel_id == b.channel_id && a.field == b.field

pub metric_key_beq_iff : (a b : MetricKey) → (metric_key_beq a b ≡ true) ↔ (a ≡ b)
unfolding metric_key_beq
metric_key_beq_iff a b = ground (arith, ==_iff a.channel_id b.channel_id, ==_iff a.field b.field)

instance abbrev pub metric_key_eq : Eq MetricKey
metric_key_eq = record { compares = metric_key_beq; correct = metric_key_beq_iff }

pub record MemStore : Type 0 where
  pub by_slug : Map Text Channel
  pub by_id : Map Text Channel
  pub statuses : Map Text StatusReport
  pub metrics : Map MetricKey ℕ

unfoldable pub new_mem_store : MemStore
new_mem_store = record { by_slug = []; by_id = []; statuses = []; metrics = [] }

-- The first loop of Replace: the new maps by id and by slug.
pub index_by_id : List Channel → Map Text Channel → Map Text Channel
index_by_id [] m = m
index_by_id (ch ∷ chs) m = index_by_id chs (insert ch.id ch m)

pub index_by_slug : List Channel → Map Text Channel → Map Text Channel
index_by_slug [] m = m
index_by_slug (ch ∷ chs) m = index_by_slug chs (insert ch.slug ch m)

-- The other two loops of Replace: the entries of one map whose key another map lacks.
pub missing_from : Map Text Channel → Map Text Channel → List Channel
missing_from other [] = []
missing_from other ((id, ch) ∷ m) =
    if has_key id other then missing_from other m else ch ∷ missing_from other m

pub record Replaced : Type 0 where
  pub store : MemStore
  pub added : List Channel
  pub removed : List Channel

unfoldable pub replace : MemStore → List Channel → Replaced
unfolding index_by_id index_by_slug missing_from
replace s channels =
    let next = index_by_id channels [] in
    let next_by_slug = index_by_slug channels [] in
    record {
      store = record s { by_id = next; by_slug = next_by_slug };
      added = missing_from s.by_id next;
      removed = missing_from next s.by_id;
    }

values : Map Text Channel → List Channel
values [] = []
values ((id, ch) ∷ m) = ch ∷ values m

pub all : MemStore → List Channel
unfolding values
all s = values s.by_id

-- errNotFound is the only error.
unfoldable pub get_channel_by_slug : MemStore → Text → Option Channel
get_channel_by_slug s slug = lookup slug s.by_slug

unfoldable pub active_worker_channels : MemStore → List Channel
unfolding all
active_worker_channels s = all s

pub set_worker_status : MemStore → Text → Text → Option Text → MemStore
set_worker_status s id worker_status last_error =
    let rep = lookup_or id zero_report s.statuses in
    record s {
      statuses =
          insert id
            (record rep { worker_status = worker_status; last_error = last_error; dirty = true })
            s.statuses;
    }

pub keep_or_set : Option Text → Option Text → Option Text
keep_or_set old none = old
keep_or_set old (some message) = some message

pub set_source_status : MemStore → Text → ℤ → Option Text → MemStore
unfolding keep_or_set
set_source_status s id status_code err_message =
    let rep = lookup_or id zero_report s.statuses in
    record s {
      statuses =
          insert id
            (record rep {
              source_status = some status_code;
              last_error = keep_or_set rep.last_error err_message;
              dirty = true;
            })
            s.statuses;
    }

-- A no-op on a node.
pub touch_request : MemStore → Text → MemStore
touch_request s id = s

-- An amount is an int64, by its 64 bits.
pub increment_metric : MemStore → Text → Text → ℕ → MemStore
increment_metric s channel_id field amount =
    if is_empty channel_id || is_empty field || nat_beq amount 0
    then s
    else let key : MetricKey = record { channel_id = channel_id; field = field } in
      record s { metrics = insert key ((lookup_or key 0 s.metrics + amount) % 2 ^ 64) s.metrics }

dirty_only : Map Text StatusReport → Map Text StatusReport
dirty_only [] = []
dirty_only ((id, rep) ∷ m) = if rep.dirty then (id, rep) ∷ dirty_only m else dirty_only m

pub record Drained : Type 0 where
  pub store : MemStore
  pub statuses : Map Text StatusReport
  pub metrics : Map MetricKey ℕ

unfoldable pub drain_reports : MemStore → Drained
unfolding dirty_only
drain_reports s = record {
  store = record s { statuses = []; metrics = [] };
  statuses = dirty_only s.statuses;
  metrics = s.metrics;
}
