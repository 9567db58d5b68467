-- ===== src/Store/Origins.antt =====
-- The allowed origins of backend/internal/store/auth.go.
pub mod Owners
use xrestream.Base.{
  if◌then◌else◌, ◌&&◌, ◌++◌, ◌==◌, ◌||◌, ◌∷◌, Bool, List, Option, Text, [], codes, false, is_empty,
  map, none, not, some, text_eq, trim_space, true,
}
use xrestream.Base.Results.{Result, err, message, not_found, ok, violation}
use xrestream.Base.Trims.{trim_slashes}
use xrestream.Store.Models.{AllowedOrigin, Time}
use xrestream.Store.Sql.{
  all_where, answered, any_where, delete_where, first_where, order_asc, scanned, update_where,
}
use xrestream.Store.Database.{Database, has_user, refers}
use xrestream.Store.Channels.{is_null, owner_arg, refers_to}

unfoldable pub list_allowed_origins : Option Text → Database → Result (List AllowedOrigin)
list_allowed_origins fault db = answered fault (order_asc (λ o. o.created_at) db.allowed_origins)

unfoldable pub list_allowed_origins_for_owner :
    Option Text → Database → Text → Result (List AllowedOrigin)
unfolding refers_to
list_allowed_origins_for_owner fault db owner_id = answered fault (
    order_asc (λ o. o.created_at)
      (all_where (λ o. refers_to owner_id o.owner_id) db.allowed_origins))

unfoldable pub clean_origin : Text → Text
clean_origin origin = trim_slashes (trim_space origin)

unfoldable pub list_enabled_origins : Option Text → Database → Result (List Text)
unfolding clean_origin
list_enabled_origins fault db =
    answered fault
      (map (λ o. clean_origin o.origin) (all_where (λ o. o.enabled) db.allowed_origins))

unfoldable pub list_enabled_origins_for_owner : Option Text → Database → Text → Result (List Text)
unfolding clean_origin refers_to
list_enabled_origins_for_owner fault db owner_id = answered fault (
    map (λ o. clean_origin o.origin)
      (all_where (λ o. o.enabled && refers_to owner_id o.owner_id) db.allowed_origins))

-- `is not distinct from`
unfoldable pub same_owner : Option Text → Option Text → Bool
same_owner none none = true
same_owner none (some b) = false
same_owner (some a) none = false
same_owner (some a) (some b) = a == b

unfoldable pub serves_channel : Text → Text → AllowedOrigin → Bool
unfolding refers_to is_null owner_arg same_owner
serves_channel channel_id owner_id o =
    o.enabled
    && (refers_to channel_id o.channel_id
        || (is_null o.channel_id && same_owner o.owner_id (owner_arg owner_id)))

unfoldable pub list_enabled_origins_for_channel :
    Option Text → Database → Text → Text → Result (List Text)
unfolding clean_origin serves_channel
list_enabled_origins_for_channel fault db channel_id owner_id = answered fault (
    map (λ o. clean_origin o.origin)
      (all_where (serves_channel channel_id owner_id) db.allowed_origins))

-- The unique index on the owner and the origin; a null owner counts as one owner.
taken : Option Text → Text → AllowedOrigin → Bool
unfolding same_owner
taken owner_id origin o = same_owner o.owner_id owner_id && o.origin == origin

has_channel : Database → Text → Bool
has_channel db id = any_where (λ ch. ch.id == id) db.channels

-- What the constraints of the table refuse.
refused_origin : Database → AllowedOrigin → Bool
unfolding taken has_channel has_user refers
refused_origin db o =
    any_where (λ other. other.id == o.id || taken o.owner_id o.origin other) db.allowed_origins
    || not (refers (has_user db) o.owner_id)
    || not (refers (has_channel db) o.channel_id)

insert_origin : Database → AllowedOrigin → Database × Result AllowedOrigin
unfolding refused_origin
insert_origin db o =
    if refused_origin db o
    then (db, err violation)
    else (record db { allowed_origins = db.allowed_origins ++ (o ∷ []) }, ok o)

-- The insert, unless the query fails.
insert_unless : Option Text → Database → AllowedOrigin → Database × Result AllowedOrigin
unfolding insert_origin
insert_unless none db o = insert_origin db o
insert_unless (some why) db o = (db, err (message why))

unfoldable pub create_allowed_origin_scoped :
    Option Text
    → Database
    → Text
    → Time
    → Text
    → Text
    → Text
    → Text
    → Database × Result AllowedOrigin
unfolding insert_unless clean_origin owner_arg
create_allowed_origin_scoped fault db new_id now owner_id channel_id origin label =
    if is_empty (clean_origin origin)
    then (db, err (message (codes "origin is required")))
    else insert_unless fault db (record {
      id = new_id;
      owner_id = owner_arg owner_id;
      channel_id = owner_arg channel_id;
      origin = clean_origin origin;
      label = trim_space label;
      enabled = true;
      created_at = now;
    })

pub create_allowed_origin :
    Option Text → Database → Text → Time → Text → Text → Text → Database × Result AllowedOrigin
unfolding create_allowed_origin_scoped
create_allowed_origin fault db new_id now owner_id origin label =
    create_allowed_origin_scoped fault db new_id now owner_id [] origin label

relabelled : Text → Bool → AllowedOrigin → AllowedOrigin
relabelled label enabled o = record o { label = trim_space label; enabled = enabled }

update_found :
    Database
    → (AllowedOrigin → Bool)
    → Text
    → Bool
    → Option AllowedOrigin
    → Database × Result AllowedOrigin
unfolding relabelled
update_found db chosen label enabled none = (db, err not_found)
update_found db chosen label enabled (some o) = (
  record db { allowed_origins = update_where chosen (relabelled label enabled) db.allowed_origins },
  ok (relabelled label enabled o),
)

update_where_chosen :
    Option Text → Database → (AllowedOrigin → Bool) → Text → Bool → Database × Result AllowedOrigin
unfolding update_found
update_where_chosen (some why) db chosen label enabled = (db, err (message why))
update_where_chosen none db chosen label enabled =
    update_found db chosen label enabled (first_where chosen db.allowed_origins)

unfoldable pub owned_origin : Text → Text → AllowedOrigin → Bool
unfolding refers_to
owned_origin owner_id id o = o.id == id && refers_to owner_id o.owner_id

unfoldable pub update_allowed_origin :
    Option Text → Database → Text → Text → Bool → Database × Result AllowedOrigin
unfolding update_where_chosen
update_allowed_origin fault db id label enabled =
    update_where_chosen fault db (λ o. o.id == id) label enabled

unfoldable pub update_allowed_origin_for_owner :
    Option Text → Database → Text → Text → Text → Bool → Database × Result AllowedOrigin
unfolding update_where_chosen owned_origin
update_allowed_origin_for_owner fault db owner_id id label enabled =
    update_where_chosen fault db (owned_origin owner_id id) label enabled

delete_where_chosen : Option Text → Database → (AllowedOrigin → Bool) → Database × Result (Unit {0})
delete_where_chosen (some why) db chosen = (db, err (message why))
delete_where_chosen none db chosen =
    if not (any_where chosen db.allowed_origins)
    then (db, err not_found)
    else (record db { allowed_origins = delete_where chosen db.allowed_origins }, ok tt)

unfoldable pub delete_allowed_origin : Option Text → Database → Text → Database × Result (Unit {0})
unfolding delete_where_chosen
delete_allowed_origin fault db id = delete_where_chosen fault db (λ o. o.id == id)

unfoldable pub delete_allowed_origin_for_owner :
    Option Text → Database → Text → Text → Database × Result (Unit {0})
unfolding delete_where_chosen owned_origin
delete_allowed_origin_for_owner fault db owner_id id =
    delete_where_chosen fault db (owned_origin owner_id id)
