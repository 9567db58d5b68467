-- ===== src/Relay/Signer/Tests.antt =====
-- Playback messages with a separator in the slug, and a MAC that can be computed here.
use xrestream.Base.{◌++◌, ◌≡◌, ◌≢◌, arith, codes, refl, text_beq, true}
use xrestream.Base.Int.{pos, negsuc}
use xrestream.Base.Decimal.{print_int}
use xrestream.Relay.Signer.{
  Crypto, Signer, sign, verify, play_message, sign_playback, verify_playback,
}
use xrestream.Relay.Signer.Messages.{play_message_injective, sign_playback_binds}

abbrev crypto : Crypto
crypto = record { sha256_hex = λ m. m; hmac_hex = λ k m. k ++ m }

abbrev signer : Signer
signer = record { secret = codes "key" }

piped : play_message (codes "a|1") (pos 2) ≡ codes "play|a|1|2"
unfolding play_message print_int
piped = refl

accepted : verify_playback crypto signer (codes "news") (codes "keyplay|news|-5") (negsuc 4) ≡ true
unfolding verify_playback verify sign play_message print_int text_beq
accepted = refl

play_message_injective_example : (codes "a|1" ≡ codes "a|1") × (pos 2 ≡ pos 2)
play_message_injective_example =
    play_message_injective (codes "a|1") (codes "a|1") (pos 2) (pos 2) (ground arith) (ground arith)
      refl

mac_apart :
    play_message (codes "news") (pos 5) ≢ play_message (codes "news") (pos 5)
    → crypto.hmac_hex signer.secret (play_message (codes "news") (pos 5))
      ≢ crypto.hmac_hex signer.secret (play_message (codes "news") (pos 5))
mac_apart ne = absurd (ne refl)

news_accepted :
    verify_playback crypto signer
      (codes "news")
      (sign_playback crypto signer (codes "news") (pos 5))
      (pos 5)
    ≡ true
unfolding verify_playback verify sign_playback sign play_message print_int text_beq
news_accepted = refl

sign_playback_binds_example : (codes "news" ≡ codes "news") × (pos 5 ≡ pos 5)
sign_playback_binds_example =
    sign_playback_binds crypto signer (codes "news") (codes "news") (pos 5) (pos 5) (ground arith)
      (ground arith) mac_apart news_accepted
