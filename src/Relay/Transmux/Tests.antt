-- ===== src/Relay/Transmux/Tests.antt =====
-- A playlist of three segments: in sync mode the first one has been cleared away and the last one
-- is too new.
use xrestream.Base.{
  if◌then◌else◌, ◌+◌, ◌<◌, ◌==◌, ◌^◌, ◌∷◌, ◌≡◌, List, Option, Text, [], arith, codes, false,
  has_prefix, join, none, refl, some, split, text_beq, text_eq, trim_prefix, trim_space, true,
}
use xrestream.Base.Int.{pos, ◌+ℤ◌, ◌*ℤ◌, wrap64}
use xrestream.Base.Decimal.{scan_int64, print_int}
use xrestream.Base.Results.{ok}
use xrestream.Store.{Channel, zero_channel, Time}
use xrestream.Relay.Transmux.{
  Env, contents, sync_delay, negate, cutoff, is_old, keeps, segment_url, is_uri,
  all_output_are_headers, read_sequence, scan_segment, scan_line, scan_lines, set_sequence, initial,
  output, playlist_lines, read_transmux_playlist,
}
use xrestream.Relay.Transmux.Lines.{uri_lines, segments, kept, leading}
use xrestream.Relay.Transmux.Window.{HasAddress, at_time, playlist_uris, read-same_second}
use xrestream.Relay.Transmux.Numbering.{numbers, playlist_number}

abbrev synced : Channel
synced = record zero_channel {
  slug = codes "news";
  sync_enabled = true;
  sync_delay_seconds = pos 10;
}

abbrev index_lines : List Text
index_lines =
    codes "#EXTM3U"
    ∷ codes "#EXT-X-MEDIA-SEQUENCE:7"
    ∷ codes "#EXTINF:2.0,"
    ∷ codes "seg7.ts"
    ∷ codes "#EXTINF:2.0,"
    ∷ codes "seg8.ts"
    ∷ codes "#EXTINF:2.0,"
    ∷ codes "seg9.ts"
    ∷ []

abbrev index_file : Text
index_file = join index_lines (10 ∷ [])

abbrev written : Text → Option Time
written name =
    if name == codes "seg8.ts"
    then some 80000000000
    else if name == codes "seg9.ts"
    then some 95000000000
    else none

abbrev dir : Env
dir = record {
  now = 100500000000;
  index = contents index_file;
  mod_time = written;
  r2 = none;
  r2_ready = λ key. false;
}

no_bucket : HasAddress dir
no_bucket r2 e = absurd (cc)

machine : Unit {0}
unfolding read_transmux_playlist playlist_lines output initial scan_lines scan_line scan_segment
    keeps is_old cutoff sync_delay negate segment_url all_output_are_headers read_sequence
    scan_int64 set_sequence is_uri ◌+ℤ◌ ◌*ℤ◌ split join has_prefix trim_prefix trim_space text_beq
    print_int wrap64
machine = tt

file_lines : split index_file 10 ≡ index_lines
unfolding machine
file_lines = refl

served :
    playlist_lines dir synced index_lines
    ≡ codes "#EXTM3U"
      ∷ codes "#EXT-X-START:TIME-OFFSET=-6,PRECISE=YES"
      ∷ codes "#EXT-X-MEDIA-SEQUENCE:8"
      ∷ codes "#EXTINF:2.0,"
      ∷ codes "segment/seg8.ts"
      ∷ []
unfolding machine
served = refl

playlist_uris_example :
    let lines = playlist_lines dir synced (split index_file 10) in
    (read_transmux_playlist dir synced ≡ ok (join lines (10 ∷ [])))
    × (uri_lines lines ≡ kept dir synced (segments (split index_file 10)))
playlist_uris_example = playlist_uris dir synced index_file no_bucket refl

one_number : numbers index_lines ≡ some (pos 7) ∷ []
unfolding machine
one_number = refl

one_dropped : leading dir synced (segments index_lines) ≡ 1
unfolding machine
one_dropped = refl

no_overflow : 7 + leading dir synced (segments index_lines) < 2 ^ 63
no_overflow = rw one_dropped (omega arith)

playlist_number_example :
    numbers (playlist_lines dir synced index_lines)
    ≡ some (pos (7 + leading dir synced (segments index_lines))) ∷ []
playlist_number_example = playlist_number dir synced index_lines 7 no_bucket one_number no_overflow

read-same_second_example :
    read_transmux_playlist (at_time dir 100000000001) synced
    ≡ read_transmux_playlist (at_time dir 100999999999) synced
read-same_second_example = read-same_second dir synced 100000000001 100999999999 refl
