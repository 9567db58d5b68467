-- ===== src/NodeAgent/MemStore/Reports.antt =====
-- The report queue of memstore.go: nothing that was queued is lost or counted twice by a drain.
use Prim.Native.Nat.{ℕ}
use xrestream.Base.{
  if◌then◌else◌, ◌%◌, ◌+◌, ◌==◌, ◌^◌, ◌||◌, ◌∙◌, ◌∷◌, ◌≡◌, ==_iff, All, List, Map, Option, Text, [],
  ap, arith, insert, is_empty, lookup, lookup-insert, lookup_or, none, refl, some, text_eq, true,
}
use xrestream.Base.Int.{ℤ}
use xrestream.Store.{Channel}
use xrestream.NodeAgent.MemStore.{
  MemStore, StatusReport, MetricKey, zero_report, metric_key_eq, new_mem_store, replace,
  set_worker_status, set_source_status, keep_or_set, increment_metric, dirty_only, drain_reports,
  touch_request,
}

-- The calls that change the store. A drain sends its batch away.
pub data Call : Type 0 where
  replaces : List Channel → Call
  sets_worker : Text → Text → Option Text → Call
  sets_source : Text → ℤ → Option Text → Call
  touches : Text → Call
  increments : Text → Text → ℕ → Call
  drains : Call

pub record Batch : Type 0 where
  pub statuses : Map Text StatusReport
  pub metrics : Map MetricKey ℕ

pub record Progress : Type 0 where
  pub store : MemStore
  pub sent : List Batch

unfoldable pub start : Progress
unfolding new_mem_store
start = record { store = new_mem_store; sent = [] }

unfoldable pub step : Progress → Call → Progress
step p (replaces chs) = record p { store = (replace p.store chs).store }
step p (sets_worker id status err) = record p { store = set_worker_status p.store id status err }
step p (sets_source id code err) = record p { store = set_source_status p.store id code err }
step p (touches id) = record p { store = touch_request p.store id }
step p (increments id field n) = record p { store = increment_metric p.store id field n }
step p drains =
    let d = drain_reports p.store in
    record {
      store = d.store;
      sent = record { statuses = d.statuses; metrics = d.metrics } ∷ p.sent;
    }

unfoldable pub run : Progress → List Call → Progress
run p [] = p
run p (c ∷ cs) = run (step p c) cs

-- What the batches hold for a metric, added up.
abbrev pub sent_amount : MetricKey → List Batch → ℕ
sent_amount key [] = 0
sent_amount key (b ∷ bs) = lookup_or key 0 b.metrics + sent_amount key bs

-- What the calls add to a metric; a call with an empty id or field adds nothing.
abbrev pub asked : MetricKey → Call → ℕ
asked key (increments id field n) =
    if is_empty id || is_empty field
    then 0
    else if key == record { channel_id = id; field = field }
    then n
    else 0
asked key (replaces _) = 0
asked key (sets_worker _ _ _) = 0
asked key (sets_source _ _ _) = 0
asked key (touches _) = 0
asked key drains = 0

abbrev pub asked_total : MetricKey → List Call → ℕ
asked_total key [] = 0
asked_total key (c ∷ cs) = asked key c + asked_total key cs

abbrev held : MetricKey → Progress → ℕ
held key p = sent_amount key p.sent + lookup_or key 0 p.store.metrics

step-held :
    (key : MetricKey) (p : Progress) (c : Call)
    → held key (step p c) % 2 ^ 64 ≡ (held key p + asked key c) % 2 ^ 64
unfolding step replace set_worker_status set_source_status touch_request increment_metric
    drain_reports lookup
step-held key p (increments id field n) =
    let k : MetricKey = record { channel_id = id; field = field } in
    let old = lookup_or k 0 p.store.metrics in
    ground
      (arith, lookup-insert k key ((old + n) % 2 ^ 64) p.store.metrics, ==_iff k key, ==_iff key k)
step-held key p drains = omega arith
step-held key p _ = omega arith

run-held :
    (key : MetricKey) (p : Progress) (cs : List Call)
    → held key (run p cs) % 2 ^ 64 ≡ (held key p + asked_total key cs) % 2 ^ 64
unfolding run
run-held key p [] = omega arith
run-held key p (c ∷ cs) = omega (arith, run-held key (step p c) cs, step-held key p c)

-- Over any calls from a new store, what the drained batches hold for a metric and what is still
-- queued add up, as 64-bit numbers, to all that was asked for that metric.
pub metrics_conserved :
    (key : MetricKey) (cs : List Call)
    → (sent_amount key (run start cs).sent + lookup_or key 0 (run start cs).store.metrics) % 2 ^ 64
      ≡ asked_total key cs % 2 ^ 64
unfolding start lookup
metrics_conserved key cs = omega (arith, run-held key start cs)

abbrev pub or_zero : Option StatusReport → StatusReport
or_zero none = zero_report
or_zero (some rep) = rep

-- What the status calls since the last drain say of one channel, one call after the other.
abbrev pub merged : Text → Option StatusReport → Call → Option StatusReport
merged id found (sets_worker j status err) =
    if j == id
    then some (record (or_zero found) { worker_status = status; last_error = err; dirty = true })
    else found
merged id found (sets_source j code err) =
    if j == id
    then some (record (or_zero found) {
      source_status = some code;
      last_error = keep_or_set (or_zero found).last_error err;
      dirty = true;
    })
    else found
merged id found drains = none
merged id found _ = found

abbrev pub merged_all : Text → Option StatusReport → List Call → Option StatusReport
merged_all id found [] = found
merged_all id found (c ∷ cs) = merged_all id (merged id found c) cs

step-merged :
    (id : Text) (p : Progress) (c : Call)
    → lookup id (step p c).store.statuses ≡ merged id (lookup id p.store.statuses) c
unfolding step replace set_worker_status set_source_status touch_request increment_metric
    drain_reports
step-merged id p (sets_worker j status err) = rw lookup-insert (ground (arith, ==_iff j id))
step-merged id p (sets_source j code err) = rw lookup-insert (ground (arith, ==_iff j id))
step-merged id p (increments j field n) = ground arith
step-merged id p drains = unfold lookup in refl
step-merged id p _ = refl

run-merged :
    (id : Text) (p : Progress) (cs : List Call)
    → lookup id (run p cs).store.statuses ≡ merged_all id (lookup id p.store.statuses) cs
unfolding run
run-merged id p [] = refl
run-merged id p (c ∷ cs) =
    run-merged id (step p c) cs ∙ ap (λ found. merged_all id found cs) (step-merged id p c)

abbrev AreDirty : Map Text StatusReport → Type 0
AreDirty = All (λ entry. entry.1.dirty ≡ true)

insert-AreDirty :
    (id : Text) (rep : StatusReport) (m : Map Text StatusReport)
    → rep.dirty ≡ true
    → AreDirty m
    → AreDirty (insert id rep m)
unfolding insert
insert-AreDirty id rep [] e h = (e, tt)
insert-AreDirty id rep ((j, r) ∷ m) e h = ground (arith, insert-AreDirty id rep m e h.1)

step-AreDirty :
    (p : Progress) (c : Call) → AreDirty p.store.statuses → AreDirty (step p c).store.statuses
unfolding step replace set_worker_status set_source_status touch_request increment_metric
    drain_reports
step-AreDirty p (sets_worker j status err) h = insert-AreDirty j _ p.store.statuses refl h
step-AreDirty p (sets_source j code err) h = insert-AreDirty j _ p.store.statuses refl h
step-AreDirty p (increments id field n) h = ground arith
step-AreDirty p drains h = tt
step-AreDirty p _ h = h

run-AreDirty :
    (p : Progress) (cs : List Call) → AreDirty p.store.statuses → AreDirty (run p cs).store.statuses
unfolding run
run-AreDirty p [] h = h
run-AreDirty p (c ∷ cs) h = run-AreDirty (step p c) cs (step-AreDirty p c h)

dirty_only-all : (m : Map Text StatusReport) → AreDirty m → dirty_only m ≡ m
unfolding dirty_only
dirty_only-all [] h = refl
dirty_only-all ((id, rep) ∷ m) h = rw (h.0, dirty_only-all m h.1)

-- Over any calls from a new store, a drain hands over for each channel exactly the calls' account
-- of it since the last drain: the last worker status and error, the last source status, an error
-- kept where a source status brought none, and no report where there was no status call.
pub drain-merged :
    (id : Text) (cs : List Call)
    → lookup id (drain_reports (run start cs).store).statuses ≡ merged_all id none cs
unfolding start drain_reports lookup
drain-merged id cs =
    ap (lookup id) (dirty_only-all (run start cs).store.statuses (run-AreDirty start cs tt))
    ∙ run-merged id start cs
