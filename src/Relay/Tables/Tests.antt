-- ===== src/Relay/Tables/Tests.antt =====
-- The asset tables with one upload.
use xrestream.Base.{
  if◌then◌else◌, ◌&&◌, ◌++◌, ◌==◌, ◌∷◌, ◌≡◌, ◌≢◌, Text, [], codes, false, has_prefix, lookup, none,
  refl, some, text_beq, text_eq, true,
}
use xrestream.Base.Urls.{path_escape}
use xrestream.Base.Trims.{trim_slashes}
use xrestream.Relay.R2.{R2Client, new_r2_client, public_url}
use xrestream.Relay.Signer.{Crypto, Signer, ref, sign}
use xrestream.Relay.Tables.{
  Tables, new_tables, register_asset, asset_source, purge_channel, ready_key, asset_path,
}
use xrestream.Relay.Tables.Assets.{asset_source-register_asset, purge_channel_lem}

abbrev crypto : Crypto
crypto = record { sha256_hex = λ m. codes "h" ++ m; hmac_hex = λ k m. k ++ m }

abbrev signer : Signer
signer = record { secret = codes "key" }

abbrev bucket : R2Client
bucket = new_r2_client (codes "acc") (codes "id") (codes "pw") (codes "b") (codes "https://cdn/")

uploaded : Tables
unfolding new_tables
uploaded = record (new_tables (some bucket)) { r2_ready = (codes "news:ha", true) ∷ [] }

given_addresses :
    let (first, given, address) =
      register_asset crypto signer uploaded (codes "news") (codes "a") in
    let (second, given', address') =
      register_asset crypto signer first (codes "news") (codes "b") in
    (given ≡ codes "ha")
    × (address ≡ codes "https://cdn/news/ha")
    × (given' ≡ codes "hb")
    × (address' ≡ codes "/proxy/news/asset?ref=hb&sig=keyhb")
unfolding uploaded new_tables register_asset asset_path ref sign lookup text_beq public_url
    new_r2_client trim_slashes path_escape
given_addresses = (refl, refl, refl, refl)

asset_source-register_asset_example :
    let (t', given, address) = register_asset crypto signer uploaded (codes "news") (codes "a") in
    asset_source t' (codes "news") (codes "ha") ≡ (
      if codes "news" == codes "news" && given == codes "ha"
      then codes "a"
      else asset_source uploaded (codes "news") (codes "ha"))
asset_source-register_asset_example =
    asset_source-register_asset crypto signer uploaded (codes "news") (codes "a") (codes "news")
      (codes "ha")

purge_channel_lem_example :
    let p = purge_channel uploaded (codes "news") in
    (lookup (codes "news") p.playlists ≡ none)
    × (lookup (codes "news") p.transmux ≡ none)
    × (asset_source p (codes "news") (codes "ha") ≡ [])
    × (lookup (ready_key (codes "news") (codes "ha")) p.r2_ready ≡ none)
    × ((other : Text)
        → codes "news" ≢ other
        → asset_source p other (codes "ha") ≡ asset_source uploaded other (codes "ha"))
    × ((key : Text)
        → has_prefix key (codes "news" ++ codes ":") ≡ false
        → lookup key p.r2_ready ≡ lookup key uploaded.r2_ready)
purge_channel_lem_example = purge_channel_lem uploaded (codes "news") (codes "ha")
