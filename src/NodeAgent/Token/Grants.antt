-- ===== src/NodeAgent/Token/Grants.antt =====
-- Who gets past requirePlaybackToken on a node.
use xrestream.Base.{
  ◌↔◌, ◌≡◌, ◌≢◌, ◌⊎◌, Bool-cases, Option-cases, Text, [], arith, codes, false, inl, inr, some,
  text_eq,
}
use xrestream.Base.Int.{ℤ, pos, ◌≤ℤ◌}
use xrestream.Base.Decimal.{parse_int64}
use xrestream.Store.{Channel, Time}
use xrestream.Relay.Signer.{Crypto, Signer, sign_playback}
use xrestream.Relay.Signer.Messages.{verify_playback_iff}
use xrestream.NodeAgent.MemStore.{MemStore, get_channel_by_slug}
use xrestream.NodeAgent.Token.{granted, unix, check_token, check_query, require_playback_token}

-- The channel is held by the node and needs no token.
abbrev pub IsOpen : MemStore → Text → Type 0
IsOpen store slug =
    (ch : Channel) × (get_channel_by_slug store slug ≡ some ch)
    × (ch.playback_token_required ≡ false)

-- The request carries a time that has not passed, and the signature of the slug and that time.
abbrev pub HasToken : Crypto → Signer → (Text → Text) → Text → Time → ℤ → Text → Type 0
HasToken crypto signer query slug now exp sig =
    (query (codes "exp") ≢ [])
    × (query (codes "sig") ≡ sig)
    × (sig ≢ [])
    × (parse_int64 (query (codes "exp")) ≡ some exp)
    × (unix now ≤ℤ exp)
    × (sig ≡ sign_playback crypto signer slug exp)

module _ (crypto : Crypto) (signer : Signer) where
  check_query_iff :
      (query : Text → Text) (slug : Text) (now : Time) (exp : ℤ) (sig : Text)
      → (check_query crypto signer query slug now ≡ granted exp sig)
        ↔ HasToken crypto signer query slug now exp sig
  unfolding check_query check_token
  check_query_iff query slug now exp sig = (
    λ e. ground (arith, verify_playback_iff crypto signer slug sig exp),
    λ h. ground (arith, verify_playback_iff crypto signer slug sig exp),
  )

  -- A channel that is open gets the empty token; any other is asked for one.
  IsOpen-cases :
      (store : MemStore) (query : Text → Text) (slug : Text) (now : Time)
      → (IsOpen store slug
          × (require_playback_token crypto signer store query slug now ≡ granted (pos 0) []))
        ⊎ ((¬ IsOpen store slug)
            × (require_playback_token crypto signer store query slug now
                ≡ check_query crypto signer query slug now))
  unfolding require_playback_token
  IsOpen-cases store query slug now = elim (Option-cases (get_channel_by_slug store slug)) [
    | inl unknown ↦ inr (λ (ch, found, _). cc, rw (unknown, require_playback_token))
    | inr (ch, found) ↦ elim (Bool-cases ch.playback_token_required) [
      | inl asked ↦
          inr (λ (ch', found', free). ground arith, rw (found, require_playback_token, asked))
      | inr free ↦ inl ((ch, found, free), rw (found, require_playback_token, free))
    ]
  ]

  -- Access is granted exactly to a channel that needs no token, with the values 0 and "", and to
  -- a request that carries a valid token of the slug, with that token's values.
  pub require_playback_token_iff :
      (store : MemStore) (query : Text → Text) (slug : Text) (now : Time) (exp : ℤ) (sig : Text)
      → (require_playback_token crypto signer store query slug now ≡ granted exp sig) ↔ (
          (IsOpen store slug × (exp ≡ pos 0) × (sig ≡ []))
          ⊎ ((¬ IsOpen store slug) × HasToken crypto signer query slug now exp sig))
  require_playback_token_iff store query slug now exp sig =
      elim (IsOpen-cases store query slug now) [
        | inl (open_channel, e) ↦ rw e (
          λ g. inl (open_channel, cc, cc),
          λ h. elim h [
            | inl (_, zero_exp, no_sig) ↦ cc
            | inr (closed, _) ↦ absurd (closed open_channel)
          ],
        )
        | inr (closed, e) ↦ rw e (
          λ g. inr (closed, (check_query_iff query slug now exp sig).0 g),
          λ h. elim h [
            | inl (open_channel, _, _) ↦ absurd (closed open_channel)
            | inr (_, token) ↦ (check_query_iff query slug now exp sig).1 token
          ],
        )
      ]
