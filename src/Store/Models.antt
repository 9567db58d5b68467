-- ===== src/Store/Models.antt =====
-- backend/internal/store/models.go. A pointer that may be nil is an `Option`.
use xrestream.Base.{ℕ, Bool, Option, Text, [], false, none}
use xrestream.Base.Int.{ℤ, pos}

-- A time.Time is the number of nanoseconds since the Unix epoch.
abbrev pub Time : Type 0
Time = ℕ

pub record Channel : Type 0 where
  pub id : Text
  pub name : Text
  pub slug : Text
  pub input_url : Text
  pub mode : Text
  pub status : Text
  pub worker_status : Text
  pub playback_token : Option Text
  pub playlist_url : Option Text
  pub playlist_ttl_seconds : ℤ
  pub segment_ttl_seconds : ℤ
  pub ingest_poll_seconds : ℤ
  pub cache_enabled : Bool
  pub sync_enabled : Bool
  pub sync_delay_seconds : ℤ
  pub playback_token_required : Bool
  pub allowed_origins_bypass : Bool
  pub http_referer : Text
  pub http_user_agent : Text
  pub http_origin : Text
  pub owner_id : Option Text
  pub node_id : Option Text
  pub last_request_at : Option Time
  pub last_source_fetch_at : Option Time
  pub last_source_status : Option ℤ
  pub last_error : Option Text
  pub worker_started_at : Option Time
  pub created_at : Time
  pub updated_at : Time

-- Channel{}
abbrev pub zero_channel : Channel
zero_channel = record {
  id = [];
  name = [];
  slug = [];
  input_url = [];
  mode = [];
  status = [];
  worker_status = [];
  playback_token = none;
  playlist_url = none;
  playlist_ttl_seconds = pos 0;
  segment_ttl_seconds = pos 0;
  ingest_poll_seconds = pos 0;
  cache_enabled = false;
  sync_enabled = false;
  sync_delay_seconds = pos 0;
  playback_token_required = false;
  allowed_origins_bypass = false;
  http_referer = [];
  http_user_agent = [];
  http_origin = [];
  owner_id = none;
  node_id = none;
  last_request_at = none;
  last_source_fetch_at = none;
  last_source_status = none;
  last_error = none;
  worker_started_at = none;
  created_at = 0;
  updated_at = 0;
}

pub record R2Config : Type 0 where
  pub id : Text
  pub owner_id : Text
  pub account_id : Text
  pub access_key_id : Text
  pub secret_access_key : Text
  pub bucket : Text
  pub public_url : Text
  pub created_at : Time
  pub updated_at : Time

pub record ChannelInput : Type 0 where
  pub name : Text
  pub slug : Text
  pub input_url : Text
  pub mode : Text
  pub status : Text
  pub playlist_ttl_seconds : ℤ
  pub segment_ttl_seconds : ℤ
  pub ingest_poll_seconds : ℤ
  pub cache_enabled : Option Bool
  pub sync_enabled : Option Bool
  pub sync_delay_seconds : ℤ
  pub playback_token_required : Option Bool
  pub allowed_origins_bypass : Option Bool
  pub http_referer : Text
  pub http_user_agent : Text
  pub http_origin : Text
  pub node_id : Option Text

pub record Metrics : Type 0 where
  pub playlist_requests : ℤ
  pub segment_requests : ℤ
  pub upstream_requests : ℤ
  pub cache_hits : ℤ
  pub cache_misses : ℤ
  pub bytes_sent : ℤ
  pub bytes_upstream : ℤ
  pub worker_errors : ℤ

pub record AllowedOrigin : Type 0 where
  pub id : Text
  pub owner_id : Option Text
  pub channel_id : Option Text
  pub origin : Text
  pub label : Text
  pub enabled : Bool
  pub created_at : Time

pub record User : Type 0 where
  pub id : Text
  pub username : Text
  pub role : Text
  pub enabled : Bool
  pub created_at : Time
  pub updated_at : Time
  pub last_login_at : Option Time

pub record Node : Type 0 where
  pub id : Text
  pub owner_id : Text
  pub name : Text
  pub host : Text
  pub status : Text
  pub last_seen_at : Option Time
  pub created_at : Time
  pub updated_at : Time

pub record Session : Type 0 where
  pub token : Text
  pub user_id : Text
  pub username : Text
  pub role : Text
  pub expires_at : Time
