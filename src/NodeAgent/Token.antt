-- ===== src/NodeAgent/Token.antt =====
-- requirePlaybackToken of backend/internal/nodeagent/httpserver.go. The request's query and the
-- clock are arguments.
pub mod Grants
mod Tests
use xrestream.Base.{
  if◌then◌else◌, ℕ, ◌/◌, ◌||◌, Option, Text, [], codes, is_empty, none, not, some, text_eq,
}
use xrestream.Base.Int.{ℤ, pos, ltb_ℤ}
use xrestream.Base.Decimal.{parse_int64}
use xrestream.Store.{Channel, Time}
use xrestream.Relay.Signer.{Crypto, Signer, verify_playback}
use xrestream.NodeAgent.MemStore.{MemStore, get_channel_by_slug}

-- The result (exp, sig, true), or the status and message that http.Error has written.
pub data Access : Type 0 where
  granted : ℤ → Text → Access
  refused : ℕ → Text → Access

abbrev pub status_forbidden : ℕ
status_forbidden = 403

abbrev pub unix : Time → ℤ
unix now = pos (now / 1000000000)

module _ (crypto : Crypto) (signer : Signer) where
  -- From the parse of exp on.
  check_token : Text → Text → Time → Option ℤ → Access
  check_token slug sig now none = refused status_forbidden (codes "invalid playback token")
  check_token slug sig now (some exp) =
      if ltb_ℤ exp (unix now)
      then refused status_forbidden (codes "playback token expired")
      else if not (verify_playback crypto signer slug sig exp)
      then refused status_forbidden (codes "invalid playback token")
      else granted exp sig

  check_query : (Text → Text) → Text → Time → Access
  unfolding check_token
  check_query query slug now =
      let exp_str = query (codes "exp") in
      let sig = query (codes "sig") in
      if is_empty exp_str || is_empty sig
      then refused status_forbidden (codes "playback token required")
      else check_token slug sig now (parse_int64 exp_str)

  pub require_playback_token : MemStore → (Text → Text) → Text → Time → Access
  unfolding check_query
  require_playback_token store query slug now = elim (get_channel_by_slug store slug) [
    | none ↦ check_query query slug now
    | some ch ↦
        if not ch.playback_token_required then granted (pos 0) [] else check_query query slug now
  ]
