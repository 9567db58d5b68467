-- ===== src/Relay/Tables/Assets.antt =====
-- What the asset tables answer after an asset is noted and after a channel is purged.
use xrestream.Base.{
  if◌then◌else◌, ◌&&◌, ◌++◌, ◌==◌, ◌∷◌, ◌≡◌, ◌≢◌, ==_iff, Bool, Map, Text, [], arith, codes, false,
  has_prefix, has_prefix-append, insert, lookup, lookup-delete, lookup-insert, lookup_or, none,
  subst, text_eq, true,
}
use mathlib.Core.List.{append_assoc}
use xrestream.Relay.Signer.{Crypto, Signer, ref}
use xrestream.Relay.Tables.{
  Tables, register_asset, asset_source, drop_ready, purge_channel, ready_key,
}

-- After RegisterAsset the reference that it gave leads to the asset's source under the channel's
-- slug, and every other reference and slug lead where they led before.
pub asset_source-register_asset :
    (crypto : Crypto) (signer : Signer) (t : Tables) (slug source_url slug' asset_ref : Text)
    → let (t', given, address) = register_asset crypto signer t slug source_url in
      asset_source t' slug' asset_ref
      ≡ (if slug == slug' && given == asset_ref then source_url else asset_source t slug' asset_ref)
unfolding register_asset asset_source
asset_source-register_asset crypto signer t slug source_url slug' asset_ref =
    let given = ref crypto signer source_url in
    let old = lookup_or slug [] t.assets in
    ground (
      arith,
      ==_iff slug slug',
      lookup-insert given asset_ref source_url old,
      lookup-insert slug slug' (insert given source_url old) t.assets,
    )

lookup-drop_ready :
    (prefix key : Text) (m : Map Text Bool)
    → lookup key (drop_ready prefix m) ≡ (if has_prefix key prefix then none else lookup key m)
unfolding drop_ready lookup
lookup-drop_ready prefix key [] = ground arith
lookup-drop_ready prefix key ((k, b) ∷ m) =
    ground (arith, ==_iff k key, lookup-drop_ready prefix key m)

ready_key-prefix :
    (slug asset_ref : Text) → has_prefix (ready_key slug asset_ref) (slug ++ codes ":") ≡ true
ready_key-prefix slug asset_ref =
    subst (λ s. has_prefix s (slug ++ codes ":") ≡ true) (append_assoc slug (codes ":") asset_ref)
      (has_prefix-append (slug ++ codes ":") asset_ref)

-- After PurgeChannel no playlist and no asset of the slug is left and none of its assets counts as
-- uploaded. The assets of the other slugs stay, and so does the mark of every asset whose key does
-- not begin with the slug and a colon.
pub purge_channel_lem :
    (t : Tables) (slug asset_ref : Text)
    → let p = purge_channel t slug in
      (lookup slug p.playlists ≡ none)
      × (lookup slug p.transmux ≡ none)
      × (asset_source p slug asset_ref ≡ [])
      × (lookup (ready_key slug asset_ref) p.r2_ready ≡ none)
      × ((other : Text)
          → slug ≢ other
          → asset_source p other asset_ref ≡ asset_source t other asset_ref)
      × ((key : Text)
          → has_prefix key (slug ++ codes ":") ≡ false
          → lookup key p.r2_ready ≡ lookup key t.r2_ready)
unfolding purge_channel asset_source
purge_channel_lem t slug asset_ref = (
  ground (arith, ==_iff slug slug, lookup-delete slug slug t.playlists),
  ground (arith, ==_iff slug slug, lookup-delete slug slug t.transmux),
  unfold lookup in ground (arith, ==_iff slug slug, lookup-delete slug slug t.assets),
  ground (
    arith,
    lookup-drop_ready (slug ++ codes ":") (ready_key slug asset_ref) t.r2_ready,
    ready_key-prefix slug asset_ref,
  ),
  λ other ne. ground (arith, ==_iff slug other, lookup-delete slug other t.assets),
  λ key h. ground (arith, lookup-drop_ready (slug ++ codes ":") key t.r2_ready),
)
