-- ===== src/NodeAgent/Token/Tests.antt =====
-- Playback tokens on a node: an open channel, a fresh token, and a token that has expired.
use xrestream.Base.{
  if◌then◌else◌, ◌++◌, ◌==◌, ◌↔◌, ◌∷◌, ◌≡◌, ◌⊎◌, Text, [], codes, lookup, refl, text_beq, text_eq,
  true,
}
use xrestream.Base.Int.{pos}
use xrestream.Base.Decimal.{parse_int64, print_int}
use xrestream.Store.{Channel, zero_channel}
use xrestream.Relay.Signer.{Crypto, Signer, sign, play_message, verify, verify_playback}
use xrestream.NodeAgent.MemStore.{MemStore, get_channel_by_slug}
use xrestream.NodeAgent.Token.{granted, refused, check_token, check_query, require_playback_token}
use xrestream.NodeAgent.Token.Grants.{IsOpen, HasToken, require_playback_token_iff}

-- A stand-in for the MAC that can be computed here.
abbrev crypto : Crypto
crypto = record { sha256_hex = λ m. m; hmac_hex = λ k m. k ++ m }

abbrev signer : Signer
signer = record { secret = codes "key" }

abbrev guarded : Channel
guarded = record zero_channel {
  id = codes "c1";
  slug = codes "news";
  playback_token_required = true;
}

abbrev open_channel : Channel
open_channel = record zero_channel { id = codes "c2"; slug = codes "free" }

abbrev store : MemStore
store = record {
  by_slug = (codes "news", guarded) ∷ (codes "free", open_channel) ∷ [];
  by_id = (codes "c1", guarded) ∷ (codes "c2", open_channel) ∷ [];
  statuses = [];
  metrics = [];
}

abbrev token : Text
token = codes "keyplay|news|1700000000"

abbrev query : Text → Text
query name = if name == codes "exp" then codes "1700000000" else token

machine : Unit {0}
unfolding require_playback_token check_query check_token get_channel_by_slug verify_playback verify
    sign play_message lookup text_beq parse_int64 print_int
machine = tt

fresh :
    require_playback_token crypto signer store query (codes "news") 1700000000000000000
    ≡ granted (pos 1700000000) token
unfolding machine
fresh = refl

expired :
    require_playback_token crypto signer store query (codes "news") 1700000001000000000
    ≡ refused 403 (codes "playback token expired")
unfolding machine
expired = refl

other_channel :
    require_playback_token crypto signer store query (codes "sport") 1700000000000000000
    ≡ refused 403 (codes "invalid playback token")
unfolding machine
other_channel = refl

free :
    require_playback_token crypto signer store query (codes "free") 1700000001000000000
    ≡ granted (pos 0) []
unfolding machine
free = refl

require_playback_token_iff_example :
    (require_playback_token crypto signer store query (codes "news") 1700000000000000000
      ≡ granted (pos 1700000000) token)
    ↔ ((IsOpen store (codes "news") × (pos 1700000000 ≡ pos 0) × (token ≡ []))
        ⊎ ((¬ IsOpen store (codes "news"))
            × HasToken crypto signer query
                (codes "news")
                1700000000000000000
                (pos 1700000000)
                token))
require_playback_token_iff_example =
    require_playback_token_iff crypto signer store query (codes "news") 1700000000000000000
      (pos 1700000000) token
