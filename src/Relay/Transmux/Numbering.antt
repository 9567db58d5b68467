-- ===== src/Relay/Transmux/Numbering.antt =====
-- The media sequence number of the playlist that readTransmuxPlaylist returns.
use mathlib.Core.List.{append-nil, append_assoc}
use xrestream.Base.{
  if◌then◌else◌, ℕ, ◌++◌, ◌+◌, ◌<◌, ◌==◌, ◌^◌, ◌∙◌, ◌∷◌, ◌≡◌, ==_iff, Bool, List, Option, Text, [],
  ap, arith, codes, false, has_prefix, has_prefix-append, has_prefix-head, refl, some, text_eq,
  trim_prefix-append, trim_space, true,
}
use xrestream.Base.Int.{ℤ, pos, negsuc, ◌+ℤ◌, wrap64, wrap64_pos}
use xrestream.Base.Decimal.{print_int, scan-print_pos, trim-print_pos}
use xrestream.Store.{Channel}
use xrestream.Relay.Transmux.{
  injected, Env, Scan, keeps, segment_url, is_uri, scan_segment, or_else, read_sequence, scan_line,
  scan_lines, sequence_tag, set_sequence, initial, output, playlist_lines,
}
use xrestream.Relay.Transmux.Lines.{segments, leading, AreUris}
use xrestream.Relay.Transmux.Window.{scan_lines-uris, HasAddress, AreUris-of_address}

-- A line that states the media sequence number.
abbrev pub is_sequence : Text → Bool
is_sequence line = has_prefix (trim_space line) sequence_tag

-- What the sequence lines of a playlist state.
abbrev pub numbers : List Text → List (Option ℤ)
numbers [] = []
numbers (line ∷ lines) =
    if is_sequence line then read_sequence (trim_space line) ∷ numbers lines else numbers lines

numbers-append : (xs ys : List Text) → numbers (xs ++ ys) ≡ numbers xs ++ numbers ys
numbers-append [] ys = refl
numbers-append (x ∷ xs) ys = ground (arith, numbers-append xs ys)

numbers-add : (xs ys : List Text) → numbers ys ≡ [] → numbers (xs ++ ys) ≡ numbers xs
numbers-add xs ys e = rw (numbers-append xs ys, e) (append-nil (numbers xs))

injected-numbers : numbers injected ≡ []
unfolding trim_space has_prefix
injected-numbers = refl

uri_is_no_sequence : (line : Text) → is_uri line ≡ true → is_sequence line ≡ false
unfolding is_uri
uri_is_no_sequence line h =
    ground (arith, has_prefix-head (trim_space line) (codes "EXT-X-MEDIA-SEQUENCE:") b'#')

start_is_no_sequence :
    (t : Text) → (t == codes "#EXTM3U") ≡ true → has_prefix t sequence_tag ≡ false
unfolding has_prefix
start_is_no_sequence t h = rw ((==_iff t (codes "#EXTM3U")).0 h)

-- The number after the sequence lines of `lines`, from the number before them.
abbrev last_number : ℤ → List (Option ℤ) → ℤ
last_number old [] = old
last_number old (n ∷ ns) = last_number (or_else old n) ns

scan_line-numbers :
    (env : Env) (ch : Channel) (s : Scan) (line : Text)
    → AreUris env ch
    → numbers s.pending ≡ []
    → let t = scan_line env ch s line in
      (numbers t.out ≡ numbers s.out ++ numbers (line ∷ []))
      × (numbers t.pending ≡ [])
      × (t.media_sequence ≡ last_number s.media_sequence (numbers (line ∷ [])))
unfolding scan_line scan_segment
scan_line-numbers env ch s line h e =
    let name = trim_space line in
    let url = segment_url env ch name in
    ground (
      arith,
      h name,
      uri_is_no_sequence url,
      start_is_no_sequence name,
      append-nil (numbers s.out),
      numbers-add s.out injected injected-numbers,
      numbers-append s.out (line ∷ []),
      numbers-append s.pending (line ∷ []),
      numbers-append s.out (s.pending ++ (url ∷ [])),
      numbers-append s.pending (url ∷ []),
    )

scan_lines-numbers :
    (env : Env) (ch : Channel) (s : Scan) (lines : List Text)
    → AreUris env ch
    → numbers s.pending ≡ []
    → let t = scan_lines env ch s lines in
      (numbers t.out ≡ numbers s.out ++ numbers lines)
      × (t.media_sequence ≡ last_number s.media_sequence (numbers lines))
unfolding scan_lines
scan_lines-numbers env ch s [] h e = ground (arith, append-nil (numbers s.out))
scan_lines-numbers env ch s (line ∷ lines) h e =
    let t = scan_line env ch s line in
    let (out, pending, last) = scan_line-numbers env ch s line h e in
    let rest = scan_lines-numbers env ch t lines h pending in
    ground (
      arith,
      append-nil (numbers s.out),
      append_assoc (numbers s.out) (numbers (line ∷ [])) (numbers lines),
    )

-- A printed sequence line is read back.
read_sequence-print :
    (n : ℕ)
    → n < 2 ^ 63
    → let line = sequence_tag ++ print_int (pos n) in
      (is_sequence line ≡ true) × (read_sequence (trim_space line) ≡ some (pos n))
unfolding read_sequence
read_sequence-print n h =
    let (alone, behind) = trim-print_pos b'#' (codes "EXT-X-MEDIA-SEQUENCE:") n (omega arith) in
    (
      rw behind (has_prefix-append sequence_tag (print_int (pos n))),
      rw (behind, trim_prefix-append sequence_tag (print_int (pos n)), alone) (scan-print_pos n h),
    )

set_sequence-numbers :
    (n : ℕ) (old : Option ℤ) (rest : List (Option ℤ)) (ls : List Text)
    → n < 2 ^ 63
    → numbers ls ≡ old ∷ rest
    → numbers (set_sequence (pos n) ls) ≡ some (pos n) ∷ rest
unfolding set_sequence
set_sequence-numbers n old rest [] h e = absurd (cc)
set_sequence-numbers n old rest (l ∷ ls) h e =
    ground (arith, set_sequence-numbers n old rest ls h, read_sequence-print n h)

add-pos : (v d : ℕ) → pos v +ℤ pos d ≡ pos (v + d)
unfolding ◌+ℤ◌
add-pos v d = ground arith

output-numbers :
    (ch : Channel) (s : Scan) (v : ℕ)
    → numbers s.out ≡ some (pos v) ∷ []
    → s.media_sequence ≡ pos v
    → v + s.dropped < 2 ^ 63
    → (ch.sync_enabled ≡ false → s.dropped ≡ 0)
    → numbers (output ch s) ≡ some (pos (v + s.dropped)) ∷ []
unfolding output
output-numbers ch s v e last bound off =
    let total = v + s.dropped in
    let sum : wrap64 (s.media_sequence +ℤ pos s.dropped) ≡ pos total =
      ap (λ m. wrap64 (m +ℤ pos s.dropped)) last
      ∙ ap wrap64 (add-pos v s.dropped)
      ∙ wrap64_pos total bound in
    ground (arith, sum, set_sequence-numbers total (some (pos v)) [] s.out bound e)

leading_of_async :
    (env : Env) (ch : Channel) (names : List Text)
    → ch.sync_enabled ≡ false
    → leading env ch names ≡ 0
unfolding keeps
leading_of_async env ch [] off = refl
leading_of_async env ch (name ∷ names) off = ground arith

-- If ffmpeg's playlist states its media sequence number once, as `v`, then so does the playlist
-- that players get, as `v` plus the number of segments that are dropped before the first one that
-- is kept. So the first listed segment keeps the number that it has in ffmpeg's playlist. The
-- sum is an int64, and R2's public address, if there is one, is one of the usual form.
pub playlist_number :
    (env : Env) (ch : Channel) (lines : List Text) (v : ℕ)
    → HasAddress env
    → numbers lines ≡ some (pos v) ∷ []
    → v + leading env ch (segments lines) < 2 ^ 63
    → numbers (playlist_lines env ch lines) ≡ some (pos (v + leading env ch (segments lines))) ∷ []
unfolding playlist_lines initial
playlist_number env ch lines v h e bound =
    let uris = AreUris-of_address env ch h in
    let (out, last) = scan_lines-numbers env ch initial lines uris refl in
    let dropped = (scan_lines-uris env ch initial lines uris refl).1 in
    let t = scan_lines env ch initial lines in
    let count : t.dropped ≡ leading env ch (segments lines) = ground arith in
    rw (← count) (
      output-numbers ch t v (out ∙ e) (last ∙ ap (last_number (negsuc 0)) e) (rw count bound)
        (λ off. count ∙ leading_of_async env ch (segments lines) off))
