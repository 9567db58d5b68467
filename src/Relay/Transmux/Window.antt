-- ===== src/Relay/Transmux/Window.antt =====
-- Which segments readTransmuxPlaylist lists.
use mathlib.Core.List.{append-nil, append_assoc}
use xrestream.Base.{
  if◌then◌else◌, ℕ, ◌++◌, ◌+◌, ◌/◌, ◌||◌, ◌∙◌, ◌∷◌, ◌≡◌, ◌≢◌, Bool-cases, List, Option-cases, Text,
  Visible, [], ap, arith, codes, false, fun_ext, has_prefix, has_prefix-head,
  has_prefix_of_starts_with, inl, inr, is_empty, join, not, refl, some, split, starts_with, text_eq,
  trim_space, trim_space-Visible, true,
}
use xrestream.Base.Int.{ℤ, pos, ◌+ℤ◌, wrap64}
use xrestream.Base.Decimal.{print_int}
use xrestream.Base.Results.{ok, err, message}
use xrestream.Store.{Channel}
use xrestream.Relay.R2.{R2Client, public_url}
use xrestream.Relay.Transmux.{
  Env, Scan, contents, missing, unreadable, second, cutoff, is_old, keeps, segment_url, is_uri,
  is_nil, scan_segment, scan_line, scan_lines, sequence_tag, set_sequence, initial, output,
  playlist_lines, read_transmux_playlist,
}
use xrestream.Relay.Transmux.Lines.{
  uri_lines, segments, kept, leading, AreUris, scan_line_of_uri, scan_line_of_tag,
  scan_segment-uris,
}

is_nil-append : (xs : List Text) (x : Text) → is_nil (xs ++ x ∷ []) ≡ false
is_nil-append [] x = refl
is_nil-append (y ∷ xs) x = refl

pub scan_lines-uris :
    (env : Env) (ch : Channel) (s : Scan) (lines : List Text)
    → AreUris env ch
    → uri_lines s.pending ≡ []
    → let t = scan_lines env ch s lines in
      (uri_lines t.out ≡ uri_lines s.out ++ kept env ch (segments lines))
      × (t.dropped ≡ (
          if is_nil (uri_lines s.out)
          then s.dropped + leading env ch (segments lines)
          else s.dropped))
unfolding scan_lines
scan_lines-uris env ch s [] h e = ground (arith, append-nil (uri_lines s.out))
scan_lines-uris env ch s (line ∷ lines) h e = elim (Bool-cases (is_uri line)) [
  | inl uri ↦
      let name = trim_space line in
      let t = scan_segment env ch s name in
      let (uris, pending, dropped) = scan_segment-uris env ch s name h e in
      let rest = scan_lines-uris env ch t lines h pending in
      let same = ap (λ u. scan_lines env ch u lines) (scan_line_of_uri env ch s line uri) in
      ground (
        arith,
        same,
        append_assoc (uri_lines s.out) (kept env ch (name ∷ [])) (kept env ch (segments lines)),
        is_nil-append (uri_lines s.out) (segment_url env ch name),
        append-nil (uri_lines s.out),
      )
  | inr tag ↦
      let t = scan_line env ch s line in
      let (uris, pending, dropped) = scan_line_of_tag env ch s line tag e in
      let rest = scan_lines-uris env ch t lines h pending in ground arith
]

-- A public address as an R2 configuration gives it: empty, or with a first byte that prints and is
-- not '#'.
abbrev pub IsAddress : Text → Type 0
IsAddress [] = Unit
IsAddress (a ∷ s) = Visible a × (a ≢ b'#')

is_uri_of_Visible : (a : ℕ) (s : Text) → Visible a → a ≢ b'#' → is_uri (a ∷ s) ≡ true
unfolding is_uri
is_uri_of_Visible a s v ne = starts_uri a (trim_space (a ∷ s)) (trim_space-Visible a s v) ne
  where
    starts_uri :
        (a : ℕ) (t : Text)
        → starts_with a t ≡ true
        → a ≢ b'#'
        → not (is_empty t || has_prefix t (codes "#")) ≡ true
    starts_uri a [] h ne = absurd (cc)
    starts_uri a (b ∷ t) h ne = unfold has_prefix in ground arith

is_uri-public_url :
    (r2 : R2Client) (slug name : Text)
    → IsAddress r2.public_base
    → is_uri (public_url r2 slug name) ≡ true
unfolding public_url
is_uri-public_url r2 slug name h = from_base r2.public_base h
  where
    from_base :
        (base : Text) → IsAddress base → is_uri (base ++ (b'/' ∷ (slug ++ (b'/' ∷ name)))) ≡ true
    from_base [] h = is_uri_of_Visible b'/' _ (omega arith) (omega arith)
    from_base (a ∷ base) h = is_uri_of_Visible a _ h.0 h.1

abbrev pub HasAddress : Env → Type 0
HasAddress env = (r2 : R2Client) → env.r2 ≡ some r2 → IsAddress r2.public_base

pub AreUris-of_address : (env : Env) (ch : Channel) → HasAddress env → AreUris env ch
unfolding segment_url
AreUris-of_address env ch h name =
    let local : is_uri (codes "segment/" ++ name) ≡ true =
      is_uri_of_Visible b's' _ (omega arith) (omega arith) in
    elim (Option-cases env.r2) [
      | inl e ↦ rw (e, segment_url) local
      | inr (r2, e) ↦
          let uploaded = is_uri-public_url r2 ch.slug name (h r2 e) in
          rw (e, segment_url) (ground arith)
    ]

set_sequence-uris : (v : ℤ) (ls : List Text) → uri_lines (set_sequence v ls) ≡ uri_lines ls
unfolding set_sequence is_uri
set_sequence-uris v [] = refl
set_sequence-uris v (l ∷ ls) = ground (
  arith,
  set_sequence-uris v ls,
  has_prefix-head (trim_space l) (codes "EXT-X-MEDIA-SEQUENCE:") b'#',
  has_prefix_of_starts_with (trim_space (sequence_tag ++ print_int v)) b'#',
  trim_space-Visible b'#' (codes "EXT-X-MEDIA-SEQUENCE:" ++ print_int v) (omega arith),
)

output-uris : (ch : Channel) (s : Scan) → uri_lines (output ch s) ≡ uri_lines s.out
unfolding output
output-uris ch s =
    ground (arith, set_sequence-uris (wrap64 (s.media_sequence +ℤ pos s.dropped)) s.out)

-- The playlist lists the addresses of exactly the segments of ffmpeg's playlist that are kept, in
-- order: all of them without sync mode, and in sync mode those whose file is there and was not
-- written after the cutoff. R2's public address, if there is one, is one of the usual form.
pub playlist_uris :
    (env : Env) (ch : Channel) (data_read : Text)
    → HasAddress env
    → env.index ≡ contents data_read
    → let lines = playlist_lines env ch (split data_read 10) in
      (read_transmux_playlist env ch ≡ ok (join lines (10 ∷ [])))
      × (uri_lines lines ≡ kept env ch (segments (split data_read 10)))
unfolding read_transmux_playlist playlist_lines initial
playlist_uris env ch data_read h e =
    let all = split data_read 10 in
    (
      rw e,
      output-uris ch (scan_lines env ch initial all)
          ∙ (scan_lines-uris env ch initial all (AreUris-of_address env ch h) refl).0,
    )

cutoff-second : (t t' : ℕ) (n : ℤ) → t / second ≡ t' / second → cutoff t n ≡ cutoff t' n
unfolding cutoff
cutoff-second t t' n e = rw e

-- The environment at another time.
abbrev pub at_time : Env → ℕ → Env
at_time env t = record env { now = t }

module _ (env : Env) (ch : Channel) (t t' : ℕ) (same : t / second ≡ t' / second) where
  keeps-second : (name : Text) → keeps (at_time env t) ch name ≡ keeps (at_time env t') ch name
  unfolding keeps is_old
  keeps-second name = ground (arith, cutoff-second t t' ch.sync_delay_seconds same)

  scan_segment-second :
      (s : Scan) (name : Text)
      → scan_segment (at_time env t) ch s name ≡ scan_segment (at_time env t') ch s name
  unfolding scan_segment segment_url
  scan_segment-second s name = ground (arith, keeps-second name)

  scan_line-second :
      (s : Scan) (line : Text)
      → scan_line (at_time env t) ch s line ≡ scan_line (at_time env t') ch s line
  unfolding scan_line
  scan_line-second s line = rw (scan_segment-second s (trim_space line))

  scan_lines-second :
      (s : Scan) (lines : List Text)
      → scan_lines (at_time env t) ch s lines ≡ scan_lines (at_time env t') ch s lines
  unfolding scan_lines
  scan_lines-second s [] = refl
  scan_lines-second s (line ∷ lines) =
      scan_lines-second (scan_line (at_time env t) ch s line) lines
      ∙ ap (λ u. scan_lines (at_time env t') ch u lines) (scan_line-second s line)

-- Two viewers who ask within the same second of the clock get the same playlist, if the directory
-- and the set of uploaded segments did not change in between.
pub read-same_second :
    (env : Env) (ch : Channel) (t t' : ℕ)
    → t / second ≡ t' / second
    → read_transmux_playlist (at_time env t) ch ≡ read_transmux_playlist (at_time env t') ch
unfolding read_transmux_playlist playlist_lines
read-same_second env ch t t' same =
    ap
      (λ (final : List Text → Scan). elim env.index [
        | contents data_read ↦ ok (join (output ch (final (split data_read 10))) (10 ∷ []))
        | missing ↦ err (message (codes "transmux playlist is not ready yet"))
        | unreadable why ↦ err (message why)
      ])
      (fun_ext (scan_lines-second env ch t t' same initial))
