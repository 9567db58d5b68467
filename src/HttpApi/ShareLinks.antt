-- ===== src/HttpApi/ShareLinks.antt =====
-- handleShareLink of backend/internal/httpapi/server.go.
use xrestream.Base.{if◌then◌else◌, ◌++◌, Text, codes, text_eq}
use xrestream.Base.Int.{ℤ, pos, ◌+ℤ◌, ◌*ℤ◌, leb_ℤ, ltb_ℤ, wrap64}
use xrestream.Base.Decimal.{print_int}
use xrestream.Base.Trims.{trim_slashes}
use xrestream.Base.Urls.{path_escape}
use xrestream.Relay.Signer.{Crypto, Signer, sign_playback}
use xrestream.Store.{Channel, Time}
use xrestream.HttpApi.Tokens.{unix_of}
use xrestream.HttpApi.Server.{ShareLink}

-- The minutes that the link lasts: four hours when none are given, thirty days at most.
pub share_minutes : ℤ → ℤ
share_minutes given =
    if leb_ℤ given (pos 0) then pos 240 else if ltb_ℤ (pos 43200) given then pos 43200 else given

-- time.Now().Add(time.Duration(minutes) * time.Minute).Unix()
pub share_expiry : Time → ℤ → ℤ
share_expiry now minutes = unix_of (pos now +ℤ wrap64 (minutes *ℤ pos 60000000000))

module _ (crypto : Crypto) (signer : Signer) where
  -- The answer for a channel that is found.
  pub share_link : Text → Channel → Time → ℤ → ShareLink
  unfolding share_minutes share_expiry
  share_link public_stream_url ch now given =
      let exp = share_expiry now (share_minutes given) in
      let base = trim_slashes public_stream_url in
      let query =
        codes "?exp="
        ++ (print_int exp ++ (codes "&sig=" ++ sign_playback crypto signer ch.slug exp)) in
      record {
        playlist_url =
            base ++ (codes "/share/" ++ (path_escape ch.slug ++ (codes "/index.m3u8" ++ query)));
        embed_url = base ++ (codes "/embed/" ++ (path_escape ch.slug ++ query));
        exp = exp;
      }
