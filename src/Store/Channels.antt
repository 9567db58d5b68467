-- ===== src/Store/Channels.antt =====
-- The channels of backend/internal/store/store.go.
pub mod Owners
use xrestream.Base.{
  if◌then◌else◌, ◌&&◌, ◌++◌, ◌==◌, ◌||◌, ◌∷◌, Bool, List, Option, Text, [], codes, false, is_empty,
  none, not, some, text_eq, trim_space, true,
}
use xrestream.Base.Int.{ℤ, pos, leb_ℤ}
use xrestream.Base.Results.{Error, Result, err, message, no_rows, ok, violation}
use xrestream.Base.Trims.{trim_blanks, trim_slashes}
use xrestream.Store.Models.{Channel, ChannelInput, Time, zero_channel}
use xrestream.Store.Sql.{
  all_where, answered, any_where, delete_where, first_where, order_asc, order_desc, scanned,
  update_where,
}
use xrestream.Store.Database.{Database, checks_channel}

unfoldable pub is_null : Option Text → Bool
is_null none = true
is_null (some x) = false

unfoldable pub refers_to : Text → Option Text → Bool
refers_to id none = false
refers_to id (some x) = x == id

unfoldable pub list_channels : Option Text → Database → Result (List Channel)
list_channels fault db = answered fault (order_desc (λ ch. ch.created_at) db.channels)

unfoldable pub list_channels_for_owner : Option Text → Database → Text → Result (List Channel)
unfolding refers_to
list_channels_for_owner fault db owner_id = answered fault (
    order_desc (λ ch. ch.created_at) (all_where (λ ch. refers_to owner_id ch.owner_id) db.channels))

unfoldable pub list_channels_for_node : Option Text → Database → Text → Result (List Channel)
unfolding refers_to
list_channels_for_node fault db node_id = answered fault (
    order_asc (λ ch. ch.created_at)
      (all_where (λ ch. refers_to node_id ch.node_id && ch.status == codes "active") db.channels))

unfoldable pub active_worker_channels : Option Text → Database → Result (List Channel)
unfolding is_null
active_worker_channels fault db = answered fault (
    order_asc (λ ch. ch.created_at)
      (all_where
        (λ ch.
          (ch.mode == codes "ingest" || ch.mode == codes "transmux")
          && ch.status == codes "active"
          && is_null ch.node_id)
        db.channels))

unfoldable pub get_channel : Option Text → Database → Text → Result Channel
get_channel fault db id = scanned fault no_rows (first_where (λ ch. ch.id == id) db.channels)

unfoldable pub get_channel_by_slug : Option Text → Database → Text → Result Channel
get_channel_by_slug fault db slug =
    scanned fault no_rows (first_where (λ ch. ch.slug == slug) db.channels)

unfoldable pub default_text : Text → Text → Text
default_text default given = if is_empty given then default else given

unfoldable pub default_seconds : ℤ → ℤ → ℤ
default_seconds default given = if leb_ℤ given (pos 0) then default else given

default_bool : Bool → Option Bool → Bool
default_bool default none = default
default_bool default (some given) = given

-- An empty id is passed as null.
unfoldable pub owner_arg : Text → Option Text
owner_arg owner_id = if is_empty owner_id then none else some owner_id

module _ (lower : Text → Text) where
  -- normalizeInput; `lower` is strings.ToLower.
  unfoldable pub normalize_input : ChannelInput → ChannelInput
  unfolding default_text default_seconds default_bool
  normalize_input input = record {
    name = trim_space input.name;
    slug = trim_blanks (lower input.slug);
    input_url = trim_space input.input_url;
    mode = default_text (codes "ingest") input.mode;
    status = default_text (codes "active") input.status;
    playlist_ttl_seconds = default_seconds (pos 2) input.playlist_ttl_seconds;
    segment_ttl_seconds = default_seconds (pos 120) input.segment_ttl_seconds;
    ingest_poll_seconds = default_seconds (pos 2) input.ingest_poll_seconds;
    cache_enabled = some (default_bool true input.cache_enabled);
    sync_enabled = some (default_bool false input.sync_enabled);
    sync_delay_seconds = default_seconds (pos 8) input.sync_delay_seconds;
    playback_token_required = some (default_bool true input.playback_token_required);
    allowed_origins_bypass = some (default_bool false input.allowed_origins_bypass);
    http_referer = trim_space input.http_referer;
    http_user_agent = trim_space input.http_user_agent;
    http_origin = trim_space input.http_origin;
    node_id = input.node_id;
  }

  -- The columns that both statements write, from the normalized input; the pointers to Booleans are
  -- not nil then.
  unfoldable pub written : ChannelInput → Text → Channel → Channel
  unfolding default_bool
  written input public_stream_url ch = record ch {
    name = input.name;
    slug = input.slug;
    input_url = input.input_url;
    mode = input.mode;
    status = input.status;
    playlist_url = some (
        trim_slashes public_stream_url ++ (codes "/proxy/" ++ (input.slug ++ codes "/index.m3u8")));
    playlist_ttl_seconds = input.playlist_ttl_seconds;
    segment_ttl_seconds = input.segment_ttl_seconds;
    ingest_poll_seconds = input.ingest_poll_seconds;
    cache_enabled = default_bool false input.cache_enabled;
    sync_enabled = default_bool false input.sync_enabled;
    sync_delay_seconds = input.sync_delay_seconds;
    http_referer = input.http_referer;
    http_user_agent = input.http_user_agent;
    http_origin = input.http_origin;
    node_id = input.node_id;
    playback_token_required = default_bool false input.playback_token_required;
    allowed_origins_bypass = default_bool false input.allowed_origins_bypass;
  }

  -- The row that the insert makes: a fresh id and the defaults of the columns it does not name.
  unfoldable pub inserted : Text → Time → ChannelInput → Text → Text → Channel
  unfolding normalize_input written owner_arg
  inserted new_id now input public_stream_url owner_id =
      written (normalize_input input) public_stream_url (record zero_channel {
        id = new_id;
        worker_status = codes "stopped";
        owner_id = owner_arg owner_id;
        created_at = now;
        updated_at = now;
      })

  unfoldable pub create_channel :
      Option Text → Database → Text → Time → ChannelInput → Text → Text → Database × Result Channel
  unfolding inserted
  create_channel (some why) db new_id now input public_stream_url owner_id = (db, err (message why))
  create_channel none db new_id now input public_stream_url owner_id =
      let ch = inserted new_id now input public_stream_url owner_id in
      if any_where (λ other. other.id == new_id || other.slug == ch.slug) db.channels
        || not (checks_channel db ch)
      then (db, err violation)
      else (record db { channels = db.channels ++ (ch ∷ []) }, ok ch)

  unfoldable pub updated : Time → ChannelInput → Text → Channel → Channel
  unfolding normalize_input written
  updated now input public_stream_url ch =
      record (written (normalize_input input) public_stream_url ch) { updated_at = now }

  unfoldable pub update_found :
      Database → Text → Time → ChannelInput → Text → Option Channel → Database × Result Channel
  unfolding updated
  update_found db id now input public_stream_url none = (db, err no_rows)
  update_found db id now input public_stream_url (some ch) =
      let row = updated now input public_stream_url ch in
      if any_where (λ other. not (other.id == id) && other.slug == row.slug) db.channels
        || not (checks_channel db row)
      then (db, err violation)
      else (
        record db {
          channels =
              update_where (λ c. c.id == id) (updated now input public_stream_url) db.channels;
        },
        ok row,
      )

  unfoldable pub update_channel :
      Option Text → Database → Time → Text → ChannelInput → Text → Database × Result Channel
  unfolding update_found
  update_channel (some why) db now id input public_stream_url = (db, err (message why))
  update_channel none db now id input public_stream_url =
      update_found db id now input public_stream_url (first_where (λ ch. ch.id == id) db.channels)

-- An Exec that returns only its error.
unfoldable pub executed : Option Text → Database → Database → Database × Result (Unit {0})
executed none before after = (after, ok tt)
executed (some why) before after = (before, err (message why))

-- The metrics and the scoped origins of the channel go with it.
unfoldable pub delete_channel : Option Text → Database → Text → Database × Result (Unit {0})
unfolding refers_to executed
delete_channel fault db id = executed fault db (record db {
  channels = delete_where (λ ch. ch.id == id) db.channels;
  channel_metrics = delete_where (λ row. row.channel_id == id) db.channel_metrics;
  allowed_origins = delete_where (λ o. refers_to id o.channel_id) db.allowed_origins;
})
