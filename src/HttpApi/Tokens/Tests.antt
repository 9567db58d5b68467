-- ===== src/HttpApi/Tokens/Tests.antt =====
-- A token for one channel, minted on the control plane and shown to it and to a node.
use xrestream.Base.{
  if◌then◌else◌, ◌++◌, ◌+◌, ◌/◌, ◌==◌, ◌↔◌, ◌∷◌, ◌≡◌, ◌≢◌, ◌≤◌, Text, [], arith, codes, lookup,
  none, refl, some, text_beq, text_eq, true,
}
use xrestream.Base.Int.{pos, wrap64, ◌+ℤ◌, ◌*ℤ◌}
use xrestream.Base.Decimal.{print_int, parse_int64}
use xrestream.Base.Urls.{path_escape, query_escape}
use xrestream.Store.{Channel, zero_channel}
use xrestream.Base.Trims.{trim_slashes}
use xrestream.Relay.Signer.{
  Crypto, Signer, sign, sign_playback, verify, verify_playback, play_message,
}
use xrestream.NodeAgent.MemStore.{MemStore, get_channel_by_slug}
use xrestream.NodeAgent.Token as Node
use xrestream.HttpApi.Tokens.{
  effective_ttl, expiry, Minted, mint, granted, refused, check_signature, check_query,
  check_channel, require_playback_token,
}
use xrestream.HttpApi.Tokens.Minting.{lifetime, Presents, minted_accepted_iff}

abbrev crypto : Crypto
crypto = record { sha256_hex = λ m. m; hmac_hex = λ k m. b'f' ∷ (k ++ m) }

abbrev signer : Signer
signer = record { secret = codes "key" }

abbrev news : Channel
news = record zero_channel { id = codes "c1"; slug = codes "news"; playback_token_required = true }

abbrev store : MemStore
store = record {
  by_slug = (codes "news", news) ∷ [];
  by_id = (codes "c1", news) ∷ [];
  statuses = [];
  metrics = [];
}

minted : Minted
minted = mint crypto signer (pos 60) (codes "https://tv.example/") news 1700000000123456789

query : Text → Text
query name = if name == codes "exp" then print_int minted.exp else minted.sig

machine : Unit {0}
unfolding minted mint effective_ttl expiry ◌+ℤ◌ ◌*ℤ◌ wrap64 sign_playback sign play_message
    print_int path_escape query_escape trim_slashes query require_playback_token check_channel
    check_query check_signature verify_playback verify parse_int64 text_beq lookup
    get_channel_by_slug
machine = tt

address :
    minted.playback_url
    ≡ codes
        "https://tv.example/proxy/news/index.m3u8?exp=1700000060&sig=fkeyplay%7Cnews%7C1700000060"
unfolding machine
address = refl

in_time :
    require_playback_token crypto signer none (some news) query (codes "news") 1700000060999999999
    ≡ granted (pos 1700000060) (codes "fkeyplay|news|1700000060")
unfolding machine
in_time = refl

too_late :
    require_playback_token crypto signer none (some news) query (codes "news") 1700000061000000000
    ≡ refused 403 (codes "playback token expired")
unfolding machine
too_late = refl

mac_shown : (key m : Text) → crypto.hmac_hex key m ≢ []
mac_shown key m e = absurd (cc)

news_held : get_channel_by_slug store (codes "news") ≡ some news
unfolding machine
news_held = refl

presented : Presents query minted
unfolding query text_beq
presented = (refl, refl)

minted_accepted_iff_example :
    ((require_playback_token crypto signer none (some news) query news.slug 1700000030000000000
        ≡ granted minted.exp minted.sig)
      ↔ (1700000030000000000 / 1000000000 ≤ 1700000000123456789 / 1000000000 + lifetime 60))
    × ((Node.require_playback_token crypto signer store query news.slug 1700000030000000000
          ≡ Node.granted minted.exp minted.sig)
        ↔ (1700000030000000000 / 1000000000 ≤ 1700000000123456789 / 1000000000 + lifetime 60))
unfolding minted
minted_accepted_iff_example =
    minted_accepted_iff crypto signer 60 (codes "https://tv.example/") news store
      1700000000123456789 1700000030000000000 query (omega arith) (omega arith) mac_shown refl
      news_held presented
