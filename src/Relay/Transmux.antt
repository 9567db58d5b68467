-- ===== src/Relay/Transmux.antt =====
-- readTransmuxPlaylist of backend/internal/relay/manager.go: the playlist that ffmpeg writes, turned
-- into the one that the players get. The segment directory, the clock and the set of uploaded
-- segments are the environment.
pub mod Lines
pub mod Window
pub mod Numbering
mod Tests
use xrestream.Base.{
  if◌then◌else◌, ℕ, ◌&&◌, ◌*◌, ◌++◌, ◌+◌, ◌/◌, ◌==◌, ◌||◌, ◌∷◌, Bool, List, Option, Text, [], codes,
  false, has_prefix, is_empty, join, ltb, none, not, some, split, text_eq, trim_prefix, trim_space,
  true,
}
use xrestream.Base.Int.{ℤ, pos, negsuc, ◌+ℤ◌, ◌*ℤ◌, ltb_ℤ, leb_ℤ, wrap64, pos_part, neg_part, sub_ℕ}
use xrestream.Base.Decimal.{scan_int64, print_int}
use xrestream.Base.Results.{Result, ok, err, message}
use xrestream.Store.{Channel, Time}
use xrestream.Relay.R2.{R2Client, public_url}

-- What os.ReadFile gives for index.m3u8.
pub data FileRead : Type 0 where
  contents : Text → FileRead
  missing : FileRead
  unreadable : Text → FileRead

pub record Env : Type 0 where
  pub now : Time
  pub index : FileRead
  -- the time at which a file of the directory was last written
  pub mod_time : Text → Option Time
  pub r2 : Option R2Client
  -- r2Ready
  pub r2_ready : Text → Bool

abbrev pub second : ℕ
second = 1000000000

-- delay := time.Duration(n) * time.Second, and eight seconds if that is not positive
sync_delay : ℤ → ℤ
sync_delay n =
    let delay = wrap64 (n *ℤ pos second) in if leb_ℤ delay (pos 0) then pos (8 * second) else delay

negate : ℤ → ℤ
negate a = sub_ℕ (neg_part a) (pos_part a)

-- time.Now().Truncate(time.Second).Add(-delay)
pub cutoff : Time → ℤ → ℤ
unfolding sync_delay negate
cutoff now n = pos (now / second * second) +ℤ negate (sync_delay n)

-- A segment that sync mode keeps: it is there, and not written after the cutoff.
pub is_old : Env → Channel → Text → Bool
is_old env ch name = elim (env.mod_time name) [
  | none ↦ false
  | some t ↦ not (ltb_ℤ (cutoff env.now ch.sync_delay_seconds) (pos t))
]

pub keeps : Env → Channel → Text → Bool
keeps env ch name = not ch.sync_enabled || is_old env ch name

abbrev segment_path : Text → Text
segment_path name = codes "segment/" ++ name

-- The address that the playlist gives for a segment.
pub segment_url : Env → Channel → Text → Text
segment_url env ch name = elim env.r2 [
  | none ↦ segment_path name
  | some r2 ↦
      if ch.sync_enabled && env.r2_ready (ch.slug ++ (b':' ∷ name))
      then public_url r2 ch.slug name
      else segment_path name
]

-- The variables of the loop over the lines. There are fewer than 2^63 lines, so the count of
-- dropped segments does not wrap.
pub record Scan : Type 0 where
  pub out : List Text
  pub pending : List Text
  pub media_sequence : ℤ
  pub dropped : ℕ
  pub start_injected : Bool

pub initial : Scan
initial = record {
  out = [];
  pending = [];
  media_sequence = negsuc 0;
  dropped = 0;
  start_injected = false;
}

abbrev pub sequence_tag : Text
sequence_tag = codes "#EXT-X-MEDIA-SEQUENCE:"

abbrev pub is_nil : List Text → Bool
is_nil [] = true
is_nil (x ∷ xs) = false

-- A line that is no tag, no comment and not blank.
pub is_uri : Text → Bool
is_uri line = not (is_empty (trim_space line) || has_prefix (trim_space line) (codes "#"))

pub all_output_are_headers : List Text → Bool
all_output_are_headers [] = true
all_output_are_headers (line ∷ lines) =
    if is_empty (trim_space line)
    then all_output_are_headers lines
    else if not (has_prefix (trim_space line) (codes "#"))
    then false
    else all_output_are_headers lines

abbrev or_else : ℤ → Option ℤ → ℤ
or_else old none = old
or_else old (some v) = v

-- fmt.Sscanf(trimmed, "#EXT-X-MEDIA-SEQUENCE:%d", &mediaSequence)
pub read_sequence : Text → Option ℤ
read_sequence trimmed = scan_int64 (trim_space (trim_prefix trimmed sequence_tag))

pub scan_segment : Env → Channel → Scan → Text → Scan
scan_segment env ch s name =
    if keeps env ch name
    then record s { out = s.out ++ (s.pending ++ (segment_url env ch name ∷ [])); pending = [] }
    else record s {
      dropped = (if is_nil s.out || all_output_are_headers s.out then s.dropped + 1 else s.dropped);
      pending = [];
    }

abbrev pub injected : List Text
injected = codes "#EXTM3U" ∷ codes "#EXT-X-START:TIME-OFFSET=-6,PRECISE=YES" ∷ []

pub scan_line : Env → Channel → Scan → Text → Scan
scan_line env ch s line =
    let trimmed = trim_space line in
    if not s.start_injected && trimmed == codes "#EXTM3U"
    then record s { out = s.out ++ injected; start_injected = true }
    else if has_prefix trimmed sequence_tag
    then record s {
      media_sequence = or_else s.media_sequence (read_sequence trimmed);
      out = s.out ++ (line ∷ []);
    }
    else if has_prefix trimmed (codes "#EXTINF:")
    then record s { pending = s.pending ++ (line ∷ []) }
    else if is_empty trimmed || has_prefix trimmed (codes "#")
    then (if is_nil s.pending
        then record s { out = s.out ++ (line ∷ []) }
        else record s { pending = s.pending ++ (line ∷ []) })
    else scan_segment env ch s trimmed

pub scan_lines : Env → Channel → Scan → List Text → Scan
scan_lines env ch s [] = s
scan_lines env ch s (line ∷ lines) = scan_lines env ch (scan_line env ch s line) lines

-- The loop that puts the new number into the first sequence line.
pub set_sequence : ℤ → List Text → List Text
set_sequence v [] = []
set_sequence v (line ∷ lines) =
    if has_prefix (trim_space line) sequence_tag
    then (sequence_tag ++ print_int v) ∷ lines
    else line ∷ set_sequence v lines

pub output : Channel → Scan → List Text
output ch s =
    if ch.sync_enabled && leb_ℤ (pos 0) s.media_sequence && ltb 0 s.dropped
    then set_sequence (wrap64 (s.media_sequence +ℤ pos s.dropped)) s.out
    else s.out

pub playlist_lines : Env → Channel → List Text → List Text
unfolding output initial
playlist_lines env ch lines = output ch (scan_lines env ch initial lines)

pub read_transmux_playlist : Env → Channel → Result Text
read_transmux_playlist env ch = elim env.index [
  | contents data_read ↦ ok (join (playlist_lines env ch (split data_read 10)) (10 ∷ []))
  | missing ↦ err (message (codes "transmux playlist is not ready yet"))
  | unreadable why ↦ err (message why)
]
