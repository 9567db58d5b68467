-- ===== src/Relay/Signer.antt =====
-- backend/internal/relay/signer.go. SHA-256 and HMAC, each with its hexadecimal form, are taken
-- from Go's crypto packages as functions; hmac.Equal is equality of bytes.
pub mod Messages
mod Tests
use xrestream.Base.{◌++◌, ◌==◌, ◌∷◌, Bool, Text, codes, text_eq}
use xrestream.Base.Int.{ℤ}
use xrestream.Base.Decimal.{print_int}

pub record Crypto : Type 0 where
  -- hex.EncodeToString of sha256.Sum256
  pub sha256_hex : Text → Text
  -- hex.EncodeToString of the HMAC-SHA-256 of a message under a key
  pub hmac_hex : Text → Text → Text

pub record Signer : Type 0 where
  pub secret : Text

unfoldable pub new_signer : Text → Signer
new_signer secret = record { secret = secret }

module _ (crypto : Crypto) where
  unfoldable pub ref : Signer → Text → Text
  ref s value = crypto.sha256_hex value

  unfoldable pub sign : Signer → Text → Text
  sign s message = crypto.hmac_hex s.secret message

  unfoldable pub verify : Signer → Text → Text → Bool
  unfolding sign
  verify s message signature = sign s message == signature

-- fmt.Sprintf("play|%s|%d", slug, expUnix)
unfoldable pub play_message : Text → ℤ → Text
play_message slug exp = codes "play|" ++ (slug ++ (b'|' ∷ print_int exp))

module _ (crypto : Crypto) where
  unfoldable pub sign_playback : Signer → Text → ℤ → Text
  unfolding play_message sign
  sign_playback s slug exp = sign crypto s (play_message slug exp)

  unfoldable pub verify_playback : Signer → Text → Text → ℤ → Bool
  unfolding play_message verify
  verify_playback s slug signature exp = verify crypto s (play_message slug exp) signature
