-- ===== src/Store/Counters/Kept.antt =====
-- IncrementMetric leaves the channels as they are.
use xrestream.Base.{◌≡◌, Option, Text, arith, none, refl, some}
use xrestream.Base.Int.{ℤ}
use xrestream.Store.Models.{Time}
use xrestream.Store.Database.{Database}
use xrestream.Store.Counters.{
  MetricField, count_in, increment_metric, metric_field, upsert_count, window_of,
}

-- The two databases have the same channels.
pub record SameChannels (db after : Database) : Type 0 where
  pub same : after.channels ≡ db.channels

upsert_count-same :
    (db : Database) (id : Text) (window : Time) (field : MetricField) (amount : ℤ)
    → SameChannels db (upsert_count db id window field amount)
unfolding upsert_count
upsert_count-same db id window field amount = record { same = ground arith }

count_in-same :
    (fault : Option Text) (db : Database) (id : Text) (window : Time) (amount : ℤ)
    (field : Option MetricField)
    → SameChannels db (count_in fault db id window amount field)
unfolding count_in
count_in-same fault db id window amount none = record { same = refl }
count_in-same none db id window amount (some field) = upsert_count-same db id window field amount
count_in-same (some why) db id window amount (some field) = record { same = refl }

pub increment_metric-same :
    (fault : Option Text) (db : Database) (now : Time) (id field : Text) (amount : ℤ)
    → SameChannels db (increment_metric fault db now id field amount)
unfolding increment_metric
increment_metric-same fault db now id field amount =
    count_in-same fault db id (window_of now) amount (metric_field field)
