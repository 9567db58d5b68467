-- ===== src/Relay/Tables.antt =====
-- The tables of backend/internal/relay/manager.go that say where an asset comes from and which
-- assets are uploaded: RegisterAsset, assetSource, SetR2Client and PurgeChannel. What PurgeChannel
-- removes outside the process is noted in the order of the calls, which do not change the tables;
-- its goroutine is taken to read the R2 client when it is started.
pub mod Assets
mod Tests
use xrestream.Base.{
  if◌then◌else◌, ◌++◌, ◌∷◌, Bool, List, Map, Option, Text, [], codes, delete, has_key, has_prefix,
  insert, lookup_or, none, some, text_eq,
}
use xrestream.Base.Urls.{path_escape}
use xrestream.Store.{Time}
use xrestream.Relay.R2.{R2Client, public_url}
use xrestream.Relay.Signer.{Crypto, Signer, ref, sign}

pub record CachedPlaylist : Type 0 where
  pub body : Text
  pub expires_at : Time

pub data Removal : Type 0 where
  deletes_folder : R2Client → Text → Removal
  removes_transmux_dir : Text → Removal
  removes_cache_dir : Text → Removal

pub record Tables : Type 0 where
  pub playlists : Map Text CachedPlaylist
  pub transmux : Map Text CachedPlaylist
  pub assets : Map Text (Map Text Text)
  pub r2 : Option R2Client
  pub r2_ready : Map Text Bool
  pub removals : List Removal

unfoldable pub new_tables : Option R2Client → Tables
new_tables r2 = record {
  playlists = [];
  transmux = [];
  assets = [];
  r2 = r2;
  r2_ready = [];
  removals = [];
}

unfoldable pub set_r2_client : Tables → Option R2Client → Tables
set_r2_client t r2 = record t { r2 = r2; r2_ready = [] }

-- slug + ":" + ref
abbrev pub ready_key : Text → Text → Text
ready_key slug asset_ref = slug ++ (b':' ∷ asset_ref)

module _ (crypto : Crypto) (signer : Signer) where
  asset_path : Text → Text → Text
  asset_path slug source_url =
      let asset_ref = ref crypto signer source_url in
      codes "/proxy/"
      ++ (path_escape slug
          ++ (codes "/asset?ref="
              ++ (asset_ref ++ (codes "&sig=" ++ sign crypto signer asset_ref))))

  -- The reference and the address of an asset, and the tables after it is noted.
  pub register_asset : Tables → Text → Text → Tables × Text × Text
  unfolding asset_path
  register_asset t slug source_url =
      let asset_ref = ref crypto signer source_url in
      let of_slug = insert asset_ref source_url (lookup_or slug [] t.assets) in
      (
        record t { assets = insert slug of_slug t.assets },
        asset_ref,
        elim t.r2 [
          | none ↦ asset_path slug source_url
          | some r2 ↦
              if has_key (ready_key slug asset_ref) t.r2_ready
              then public_url r2 slug asset_ref
              else asset_path slug source_url
        ],
      )

-- The zero value "" for an asset that is not noted.
pub asset_source : Tables → Text → Text → Text
asset_source t slug asset_ref = lookup_or asset_ref [] (lookup_or slug [] t.assets)

-- The Range over r2Ready.
drop_ready : Text → Map Text Bool → Map Text Bool
drop_ready prefix [] = []
drop_ready prefix ((key, b) ∷ m) =
    if has_prefix key prefix then drop_ready prefix m else (key, b) ∷ drop_ready prefix m

folder_removal : Option R2Client → Text → List Removal
folder_removal none slug = []
folder_removal (some r2) slug = deletes_folder r2 slug ∷ []

unfoldable pub purge_channel : Tables → Text → Tables
unfolding drop_ready folder_removal
purge_channel t slug = record t {
  playlists = delete slug t.playlists;
  transmux = delete slug t.transmux;
  assets = delete slug t.assets;
  r2_ready = drop_ready (slug ++ codes ":") t.r2_ready;
  removals =
      t.removals
      ++ (folder_removal t.r2 slug ++ (removes_transmux_dir slug ∷ removes_cache_dir slug ∷ []));
}
