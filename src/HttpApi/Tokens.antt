-- ===== src/HttpApi/Tokens.antt =====
-- Playback tokens on the control plane: handlePlaybackToken, which mints them, and
-- requirePlaybackToken, which checks them, of backend/internal/httpapi/server.go. The session, the
-- channel that the database finds and the clock are arguments.
pub mod Minting
mod Tests
use xrestream.Base.{
  if◌then◌else◌, ℕ, ◌++◌, ◌/◌, ◌||◌, Option, Text, [], codes, is_empty, none, not, some, text_eq,
}
use xrestream.Base.Int.{ℤ, pos, negsuc, ◌+ℤ◌, ◌*ℤ◌, leb_ℤ, ltb_ℤ, wrap64}
use xrestream.Base.Decimal.{parse_int64, print_int}
use xrestream.Base.Urls.{path_escape, query_escape}
use xrestream.Base.Trims.{trim_slashes}
use xrestream.Relay.Signer.{Crypto, Signer, sign_playback, verify_playback}
use xrestream.Store.{Channel, Session, Time}

-- Time.Unix of a time that is a number of nanoseconds.
abbrev pub unix_of : ℤ → ℤ
unix_of (pos n) = pos (n / 1000000000)
unix_of (negsuc n) = negsuc (n / 1000000000)

pub effective_ttl : ℤ → ℤ
effective_ttl ttl = if leb_ℤ ttl (pos 0) then pos 900 else ttl

-- time.Now().Add(time.Duration(ttl) * time.Second).Unix()
pub expiry : Time → ℤ → ℤ
expiry now ttl = unix_of (pos now +ℤ wrap64 (ttl *ℤ pos 1000000000))

pub record Minted : Type 0 where
  pub playback_url : Text
  pub exp : ℤ
  pub sig : Text
  pub ttl_seconds : ℤ

module _ (crypto : Crypto) (signer : Signer) where
  -- The response of handlePlaybackToken to an admin's POST for a channel that is found.
  pub mint : ℤ → Text → Channel → Time → Minted
  unfolding effective_ttl expiry
  mint configured_ttl public_stream_url channel now =
      let ttl = effective_ttl configured_ttl in
      let exp = expiry now ttl in
      let sig = sign_playback crypto signer channel.slug exp in
      record {
        playback_url =
            trim_slashes public_stream_url
            ++ (codes "/proxy/"
                ++ (path_escape channel.slug
                    ++ (codes "/index.m3u8?exp="
                        ++ (print_int exp ++ (codes "&sig=" ++ query_escape sig)))));
        exp = exp;
        sig = sig;
        ttl_seconds = ttl;
      }

-- The result (exp, sig, true), or the status and message that writeError has written.
pub data Access : Type 0 where
  granted : ℤ → Text → Access
  refused : ℕ → Text → Access

module _ (crypto : Crypto) (signer : Signer) where
  check_signature : Text → Text → Time → Option ℤ → Access
  check_signature slug sig now none = refused 403 (codes "invalid playback token")
  check_signature slug sig now (some exp) =
      if ltb_ℤ exp (unix_of (pos now))
      then refused 403 (codes "playback token expired")
      else if not (verify_playback crypto signer slug sig exp)
      then refused 403 (codes "invalid playback token")
      else granted exp sig

  check_query : (Text → Text) → Text → Time → Access
  unfolding check_signature
  check_query query slug now =
      if is_empty (query (codes "exp")) || is_empty (query (codes "sig"))
      then refused 403 (codes "playback token required")
      else check_signature slug (query (codes "sig")) now (parse_int64 (query (codes "exp")))

  check_channel : Option Channel → (Text → Text) → Text → Time → Access
  unfolding check_query
  check_channel none query slug now = check_query query slug now
  check_channel (some ch) query slug now =
      if not ch.playback_token_required then granted (pos 0) [] else check_query query slug now

  pub require_playback_token :
      Option Session → Option Channel → (Text → Text) → Text → Time → Access
  unfolding check_channel
  require_playback_token (some sess) found query slug now = granted (pos 0) []
  require_playback_token none found query slug now = check_channel found query slug now
