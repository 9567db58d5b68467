-- ===== src/Store/Counters.antt =====
-- IncrementMetric and Metrics of backend/internal/store/store.go. The error of IncrementMetric is
-- dropped by the program.
pub mod Kept
use xrestream.Base.{
  if◌then◌else◌, ◌%◌, ◌&&◌, ◌++◌, ◌+◌, ◌-◌, ◌==◌, ◌||◌, ◌∷◌, Bool, List, Option, Text, [], codes,
  ltb, nat_eq, none, not, some, text_eq,
}
use xrestream.Base.Int.{ℤ, pos, negsuc, leb_ℤ, ◌+ℤ◌}
use xrestream.Base.Results.{Result}
use xrestream.Store.Models.{Metrics, Time}
use xrestream.Store.Sql.{any_where, answered, update_where}
use xrestream.Store.Database.{Database, MetricsRow, fits_integer}

pub data MetricField : Type 0 where
  playlist_requests : MetricField
  segment_requests : MetricField
  upstream_requests : MetricField
  cache_hits : MetricField
  cache_misses : MetricField
  bytes_sent : MetricField
  bytes_upstream : MetricField
  worker_errors : MetricField

-- The names that IncrementMetric allows.
pub metric_field : Text → Option MetricField
metric_field field =
    if field == codes "playlist_requests"
    then some playlist_requests
    else if field == codes "segment_requests"
    then some segment_requests
    else if field == codes "upstream_requests"
    then some upstream_requests
    else if field == codes "cache_hits"
    then some cache_hits
    else if field == codes "cache_misses"
    then some cache_misses
    else if field == codes "bytes_sent"
    then some bytes_sent
    else if field == codes "bytes_upstream"
    then some bytes_upstream
    else if field == codes "worker_errors"
    then some worker_errors
    else none

abbrev pub zero_metrics : Metrics
zero_metrics = record {
  playlist_requests = pos 0;
  segment_requests = pos 0;
  upstream_requests = pos 0;
  cache_hits = pos 0;
  cache_misses = pos 0;
  bytes_sent = pos 0;
  bytes_upstream = pos 0;
  worker_errors = pos 0;
}

unfoldable pub count_of : MetricField → Metrics → ℤ
count_of playlist_requests m = m.playlist_requests
count_of segment_requests m = m.segment_requests
count_of upstream_requests m = m.upstream_requests
count_of cache_hits m = m.cache_hits
count_of cache_misses m = m.cache_misses
count_of bytes_sent m = m.bytes_sent
count_of bytes_upstream m = m.bytes_upstream
count_of worker_errors m = m.worker_errors

unfoldable pub with_count : MetricField → ℤ → Metrics → Metrics
with_count playlist_requests n m = record m { playlist_requests = n }
with_count segment_requests n m = record m { segment_requests = n }
with_count upstream_requests n m = record m { upstream_requests = n }
with_count cache_hits n m = record m { cache_hits = n }
with_count cache_misses n m = record m { cache_misses = n }
with_count bytes_sent n m = record m { bytes_sent = n }
with_count bytes_upstream n m = record m { bytes_upstream = n }
with_count worker_errors n m = record m { worker_errors = n }

fits_bigint : ℤ → Bool
fits_bigint n = leb_ℤ (negsuc 9223372036854775807) n && leb_ℤ n (pos 9223372036854775807)

-- The range of the field's column.
fits_column : MetricField → ℤ → Bool
unfolding fits_bigint fits_integer
fits_column bytes_sent n = fits_bigint n
fits_column bytes_upstream n = fits_bigint n
fits_column _ n = fits_integer n

-- time.Now().UTC().Truncate(time.Minute)
pub window_of : Time → Time
window_of now = now - now % 60000000000

in_window : Text → Time → MetricsRow → Bool
in_window channel_id window row = row.channel_id == channel_id && row.window_start == window

add_count : MetricField → ℤ → MetricsRow → MetricsRow
unfolding count_of with_count
add_count field amount row = record row {
  counts = with_count field (count_of field row.counts +ℤ amount) row.counts;
}

-- The insert with its `on conflict` clause; a value out of the column's range is refused, and so
-- is a channel that is not there.
upsert_count : Database → Text → Time → MetricField → ℤ → Database
unfolding add_count fits_column in_window count_of with_count
upsert_count db channel_id window field amount =
    if not (any_where (λ ch. ch.id == channel_id) db.channels) || not (fits_column field amount)
    then db
    else if any_where (in_window channel_id window) db.channel_metrics
    then if any_where
        (λ row.
          in_window channel_id window row
          && not (fits_column field (count_of field row.counts +ℤ amount)))
        db.channel_metrics
      then db
      else record db {
        channel_metrics =
            update_where (in_window channel_id window) (add_count field amount) db.channel_metrics;
      }
    else record db {
      channel_metrics =
          db.channel_metrics
          ++ (record {
            channel_id = channel_id;
            window_start = window;
            counts = with_count field amount zero_metrics;
          }
              ∷ []);
    }

count_in : Option Text → Database → Text → Time → ℤ → Option MetricField → Database
unfolding upsert_count
count_in fault db channel_id window amount none = db
count_in none db channel_id window amount (some field) =
    upsert_count db channel_id window field amount
count_in (some why) db channel_id window amount (some field) = db

unfoldable pub increment_metric : Option Text → Database → Time → Text → Text → ℤ → Database
unfolding metric_field window_of count_in
increment_metric fault db now channel_id field amount =
    count_in fault db channel_id (window_of now) amount (metric_field field)

-- sum(field), of the rows of a channel and the last hour.
sum_of : Text → Time → MetricField → List MetricsRow → ℤ
unfolding count_of
sum_of channel_id now field [] = pos 0
sum_of channel_id now field (row ∷ rows) =
    if row.channel_id == channel_id && ltb now (row.window_start + 3600000000000)
    then count_of field row.counts +ℤ sum_of channel_id now field rows
    else sum_of channel_id now field rows

unfoldable pub metrics : Option Text → Database → Time → Text → Result Metrics
unfolding sum_of
metrics fault db now channel_id = answered fault (record {
  playlist_requests = sum_of channel_id now playlist_requests db.channel_metrics;
  segment_requests = sum_of channel_id now segment_requests db.channel_metrics;
  upstream_requests = sum_of channel_id now upstream_requests db.channel_metrics;
  cache_hits = sum_of channel_id now cache_hits db.channel_metrics;
  cache_misses = sum_of channel_id now cache_misses db.channel_metrics;
  bytes_sent = sum_of channel_id now bytes_sent db.channel_metrics;
  bytes_upstream = sum_of channel_id now bytes_upstream db.channel_metrics;
  worker_errors = sum_of channel_id now worker_errors db.channel_metrics;
})
