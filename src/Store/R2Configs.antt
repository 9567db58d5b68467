-- ===== src/Store/R2Configs.antt =====
-- The R2 configurations of backend/internal/store/nodes.go: at most one for an owner.
use xrestream.Base.{
  if◌then◌else◌, ◌++◌, ◌==◌, ◌||◌, ◌∷◌, List, Option, Text, [], none, not, some, text_eq,
  trim_space,
}
use xrestream.Base.Results.{Result, err, message, not_found, ok, violation}
use xrestream.Base.Trims.{trim_slashes}
use xrestream.Store.Models.{R2Config, Time}
use xrestream.Store.Sql.{any_where, delete_where, first_where, scanned, update_where}
use xrestream.Store.Database.{Database, has_user}

first_config : Text → List R2Config → Option R2Config
first_config owner_id rows = first_where (λ c. c.owner_id == owner_id) rows

unfoldable pub get_r2_config : Option Text → Database → Text → Result R2Config
unfolding first_config
get_r2_config fault db owner_id = scanned fault not_found (first_config owner_id db.r2_configs)

-- The columns of an upsert, as a request gives them.
pub record R2Values : Type 0 where
  pub account_id : Text
  pub access_key_id : Text
  pub secret_access_key : Text
  pub bucket : Text
  pub public_url : Text

assigned : Time → R2Values → R2Config → R2Config
assigned now values c = record c {
  account_id = trim_space values.account_id;
  access_key_id = trim_space values.access_key_id;
  secret_access_key = values.secret_access_key;
  bucket = trim_space values.bucket;
  public_url = trim_slashes (trim_space values.public_url);
  updated_at = now;
}

upsert_found :
    Database → Text → Time → Text → R2Values → Option R2Config → Database × Result R2Config
unfolding assigned
upsert_found db new_id now owner_id values (some c) = (
  record db {
    r2_configs = update_where (λ row. row.owner_id == owner_id) (assigned now values) db.r2_configs;
  },
  ok (assigned now values c),
)
upsert_found db new_id now owner_id values none =
    let c = assigned now values (record {
      id = new_id;
      owner_id = owner_id;
      account_id = [];
      access_key_id = [];
      secret_access_key = [];
      bucket = [];
      public_url = [];
      created_at = now;
      updated_at = now;
    }) in
    if not (has_user db owner_id) || any_where (λ row. row.id == new_id) db.r2_configs
    then (db, err violation)
    else (record db { r2_configs = db.r2_configs ++ (c ∷ []) }, ok c)

unfoldable pub upsert_r2_config :
    Option Text → Database → Text → Time → Text → R2Values → Database × Result R2Config
unfolding upsert_found first_config
upsert_r2_config (some why) db new_id now owner_id values = (db, err (message why))
upsert_r2_config none db new_id now owner_id values =
    upsert_found db new_id now owner_id values (first_config owner_id db.r2_configs)

unfoldable pub delete_r2_config : Option Text → Database → Text → Database × Result (Unit {0})
delete_r2_config (some why) db owner_id = (db, err (message why))
delete_r2_config none db owner_id =
    if not (any_where (λ c. c.owner_id == owner_id) db.r2_configs) then (db, err not_found) else (
      record db { r2_configs = delete_where (λ c. c.owner_id == owner_id) db.r2_configs },
      ok tt,
    )
