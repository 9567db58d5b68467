-- ===== src/Store/Database.antt =====
-- The tables of the PostgreSQL database, as Store.Migrate of backend/internal/store/store.go
-- declares them. An id (a uuid) is its canonical text.
use xrestream.Base.{◌&&◌, ◌==◌, ◌||◌, Bool, List, Option, Text, codes, none, some, text_eq, true}
use xrestream.Base.Int.{ℤ, pos, negsuc, leb_ℤ}
use xrestream.Store.Models.{AllowedOrigin, Channel, Metrics, Node, R2Config, Time, User}
use xrestream.Store.Sql.{any_where}

pub record UserRow : Type 0 where
  pub user : User
  pub password_hash : Text

pub record SessionRow : Type 0 where
  pub token : Text
  pub user_id : Text
  pub expires_at : Time
  pub last_used_at : Time

pub record NodeRow : Type 0 where
  pub node : Node
  pub api_key_hash : Text

pub record MetricsRow : Type 0 where
  pub channel_id : Text
  pub window_start : Time
  pub counts : Metrics

pub record Database : Type 0 where
  pub channels : List Channel
  pub channel_metrics : List MetricsRow
  pub allowed_origins : List AllowedOrigin
  pub users : List UserRow
  pub sessions : List SessionRow
  pub nodes : List NodeRow
  pub r2_configs : List R2Config

-- The range of an `integer` column.
unfoldable pub fits_integer : ℤ → Bool
fits_integer n = leb_ℤ (negsuc 2147483647) n && leb_ℤ n (pos 2147483647)

unfoldable pub fits_option : Option ℤ → Bool
unfolding fits_integer
fits_option none = true
fits_option (some n) = fits_integer n

unfoldable pub is_mode : Text → Bool
is_mode mode = mode == codes "ingest" || mode == codes "proxy" || mode == codes "transmux"

unfoldable pub is_status : Text → Bool
is_status status =
    status == codes "active" || status == codes "disabled" || status == codes "source_error"

unfoldable pub is_worker_status : Text → Bool
is_worker_status status =
    status == codes "running" || status == codes "stopped" || status == codes "error"

unfoldable pub has_user : Database → Text → Bool
has_user db id = any_where (λ row. row.user.id == id) db.users

unfoldable pub has_node : Database → Text → Bool
has_node db id = any_where (λ row. row.node.id == id) db.nodes

-- A foreign key that may be null.
unfoldable pub refers : (Text → Bool) → Option Text → Bool
refers has none = true
refers has (some id) = has id

-- What the constraints of the table ask of one row of it.
unfoldable pub checks_channel : Database → Channel → Bool
unfolding fits_integer fits_option is_mode is_status is_worker_status has_user has_node refers
checks_channel db ch =
    is_mode ch.mode
    && is_status ch.status
    && is_worker_status ch.worker_status
    && fits_integer ch.playlist_ttl_seconds
    && fits_integer ch.segment_ttl_seconds
    && fits_integer ch.ingest_poll_seconds
    && fits_integer ch.sync_delay_seconds
    && fits_option ch.last_source_status
    && refers (has_user db) ch.owner_id
    && refers (has_node db) ch.node_id
