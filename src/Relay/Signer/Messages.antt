-- ===== src/Relay/Signer/Messages.antt =====
-- The message behind a playback signature says which slug and which time are signed.
use xrestream.Base.{
  ◌==◌, ◌↔◌, ◌∷◌, ◌≡◌, ◌≢◌, ==_iff, Bool-cases, Text, [], arith, inl, inr, sym, text_eq, true,
}
use xrestream.Base.Int.{ℤ, IsInt64}
use xrestream.Base.Decimal.{print_int, parse-print, Plain, print_int-Plain}
use xrestream.Base.Separators.{Without, split_last}
use xrestream.Relay.Signer.{Crypto, Signer, play_message, sign_playback, verify_playback}

Without-of_Plain : (s : Text) → Plain s → Without b'|' s
Without-of_Plain [] p = tt
Without-of_Plain (c ∷ s) p = (omega arith, Without-of_Plain s p.1)

-- Two playback messages are equal only for the same slug and the same time, also where a slug
-- holds the separator.
pub play_message_injective :
    (slug slug' : Text) (exp exp' : ℤ)
    → IsInt64 exp
    → IsInt64 exp'
    → play_message slug exp ≡ play_message slug' exp'
    → (slug ≡ slug') × (exp ≡ exp')
unfolding play_message
play_message_injective slug slug' exp exp' r r' e =
    let (same_slug, same_print) =
      split_last b'|' slug slug' (print_int exp) (print_int exp')
        (Without-of_Plain (print_int exp) (print_int-Plain exp))
        (Without-of_Plain (print_int exp') (print_int-Plain exp')) (cc) in
    (same_slug, cc (parse-print exp r, parse-print exp' r', same_print))

pub verify_playback_iff :
    (crypto : Crypto) (s : Signer) (slug sig : Text) (exp : ℤ)
    → (verify_playback crypto s slug sig exp ≡ true) ↔ (sign_playback crypto s slug exp ≡ sig)
unfolding verify_playback sign_playback
verify_playback_iff crypto s slug sig exp = ==_iff _ sig

-- A signature for one slug and time is accepted for no other, if the two messages, where they
-- differ, have different MACs.
pub sign_playback_binds :
    (crypto : Crypto) (s : Signer) (slug slug' : Text) (exp exp' : ℤ)
    → IsInt64 exp
    → IsInt64 exp'
    → (play_message slug exp ≢ play_message slug' exp'
        → crypto.hmac_hex s.secret (play_message slug exp)
          ≢ crypto.hmac_hex s.secret (play_message slug' exp'))
    → verify_playback crypto s slug' (sign_playback crypto s slug exp) exp' ≡ true
    → (slug ≡ slug') × (exp ≡ exp')
sign_playback_binds crypto s slug slug' exp exp' r r' apart ok =
    let same_mac = (verify_playback_iff crypto s slug' _ exp').0 ok in
    play_message_injective slug slug' exp exp' r r'
      (elim (Bool-cases (play_message slug exp == play_message slug' exp')) [
        | inl same ↦ (==_iff _ _).0 same
        | inr other ↦ absurd (
            apart
              (λ e. ground (arith, (==_iff (play_message slug exp) (play_message slug' exp')).1 e))
              (unfold sign_playback in sym same_mac))
      ])
