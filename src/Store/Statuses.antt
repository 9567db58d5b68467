-- ===== src/Store/Statuses.antt =====
-- What backend/internal/store/store.go writes to a channel while it is served: SetWorkerStatus,
-- SetSourceStatus and TouchRequest.
pub mod Effects
pub mod Checks
use xrestream.Base.{if◌then◌else◌, ◌&&◌, ◌==◌, Option, Text, codes, none, not, some, text_eq}
use xrestream.Base.Int.{ℤ}
use xrestream.Base.Results.{Result, err, message, ok, violation}
use xrestream.Store.Models.{Channel, Time}
use xrestream.Store.Sql.{any_where, update_where}
use xrestream.Store.Database.{Database, checks_channel}

-- An update of the channel with the id; when its new row would violate a constraint nothing changes.
unfoldable pub update_checked :
    Option Text → Database → Text → (Channel → Channel) → Database × Result (Unit {0})
update_checked (some why) db id change = (db, err (message why))
update_checked none db id change =
    if any_where (λ ch. ch.id == id && not (checks_channel db (change ch))) db.channels
    then (db, err violation)
    else (record db { channels = update_where (λ ch. ch.id == id) change db.channels }, ok tt)

unfoldable pub with_worker_status : Time → Text → Option Text → Channel → Channel
with_worker_status now worker_status last_error ch = record ch {
  worker_status = worker_status;
  last_error = last_error;
  worker_started_at = if worker_status == codes "running" then some now else ch.worker_started_at;
  updated_at = now;
}

unfoldable pub with_source_status : Time → ℤ → Option Text → Channel → Channel
with_source_status now status_code err_message ch = record ch {
  status = elim err_message [ none ↦ codes "active" | some why ↦ codes "source_error" ];
  last_source_fetch_at = some now;
  last_source_status = some status_code;
  last_error = err_message;
  updated_at = now;
}

unfoldable pub set_worker_status :
    Option Text → Database → Time → Text → Text → Option Text → Database × Result (Unit {0})
unfolding update_checked with_worker_status
set_worker_status fault db now id worker_status last_error =
    update_checked fault db id (with_worker_status now worker_status last_error)

unfoldable pub set_source_status :
    Option Text → Database → Time → Text → ℤ → Option Text → Database × Result (Unit {0})
unfolding update_checked with_source_status
set_source_status fault db now id status_code err_message =
    update_checked fault db id (with_source_status now status_code err_message)

-- The error is dropped.
unfoldable pub touch_request : Option Text → Database → Time → Text → Database
unfolding update_checked
touch_request fault db now id =
    (update_checked fault db id (λ ch. record ch { last_request_at = some now })).0
