-- ===== src/HttpApi/Inputs/Accepted.antt =====
-- The channel inputs that pass validateChannelInput, after normalizeInput.
use xrestream.Base.{
  ℕ, ◌&&◌, ◌+◌, ◌≡◌, Bool, Text, arith, codes, false, is_empty, none, not, refl, text_beq, text_eq,
  trim_space, true,
}
use xrestream.Base.Int.{ℤ, pos, negsuc, ◌≤ℤ◌}
use xrestream.Store.{ChannelInput}
use xrestream.Store.Database.{is_mode, is_status}
use xrestream.Store.Channels.{default_seconds, default_text, normalize_input}
use xrestream.HttpApi.Inputs.{Platform, refuse, validate_channel_input}

default_seconds-positive : (d : ℕ) (given : ℤ) → pos 1 ≤ℤ default_seconds (pos (d + 1)) given
unfolding default_seconds
default_seconds-positive d (pos n) = ground arith
default_seconds-positive d (negsuc n) = ground arith

default_text-valid :
    (valid : Text → Bool) (d given : Text)
    → valid d ≡ true
    → not (is_empty given) && not (valid given) ≡ false
    → valid (default_text d given) ≡ true
unfolding default_text
default_text-valid valid d given v h = ground arith

module _ (p : Platform) where
  checked_texts :
      (input : ChannelInput)
      → validate_channel_input p input ≡ none
      → (is_empty (trim_space input.name) ≡ false)
        × (not (is_empty input.mode) && not (is_mode input.mode) ≡ false)
        × (not (is_empty input.status) && not (is_status input.status) ≡ false)
  unfolding validate_channel_input refuse
  checked_texts input h = ground arith

  -- An input that validateChannelInput accepts has, once normalized, a name, a mode and a status that
  -- the table's check constraints allow, and periods and lifetimes of at least one second.
  pub normalize_input-accepted :
      (input : ChannelInput)
      → validate_channel_input p input ≡ none
      → (is_empty (normalize_input p.lower input).name ≡ false)
        × (is_mode (normalize_input p.lower input).mode ≡ true)
        × (is_status (normalize_input p.lower input).status ≡ true)
        × pos 1 ≤ℤ (normalize_input p.lower input).playlist_ttl_seconds
        × pos 1 ≤ℤ (normalize_input p.lower input).segment_ttl_seconds
        × pos 1 ≤ℤ (normalize_input p.lower input).ingest_poll_seconds
        × pos 1 ≤ℤ (normalize_input p.lower input).sync_delay_seconds
  unfolding normalize_input is_mode is_status text_beq
  normalize_input-accepted input h =
      let (name, mode, status) = checked_texts input h in
      (
        name,
        default_text-valid is_mode (codes "ingest") input.mode refl mode,
        default_text-valid is_status (codes "active") input.status refl status,
        default_seconds-positive 1 input.playlist_ttl_seconds,
        default_seconds-positive 119 input.segment_ttl_seconds,
        default_seconds-positive 1 input.ingest_poll_seconds,
        default_seconds-positive 7 input.sync_delay_seconds,
      )
