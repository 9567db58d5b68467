-- ===== src/Relay/Transmux/Lines.antt =====
-- The URI lines of a playlist, and what one round of the loop does to them.
use xrestream.Base.{
  if◌then◌else◌, ℕ, ◌++◌, ◌+◌, ◌==◌, ◌∷◌, ◌≡◌, ==_iff, List, Text, [], arith, codes, false,
  has_prefix, has_prefix-head, refl, suc, text_eq, trim_space, true,
}
use mathlib.Core.List.{append-nil}
use xrestream.Store.{Channel}
use xrestream.Relay.Transmux.{
  injected, Env, Scan, keeps, segment_url, is_uri, all_output_are_headers, is_nil, scan_segment,
  scan_line,
}

abbrev pub uri_lines : List Text → List Text
uri_lines [] = []
uri_lines (line ∷ lines) = if is_uri line then line ∷ uri_lines lines else uri_lines lines

-- The segment names that a playlist lists.
abbrev pub segments : List Text → List Text
segments [] = []
segments (line ∷ lines) = if is_uri line then trim_space line ∷ segments lines else segments lines

abbrev pub kept : Env → Channel → List Text → List Text
kept env ch [] = []
kept env ch (name ∷ names) =
    if keeps env ch name then segment_url env ch name ∷ kept env ch names else kept env ch names

-- How many segments are dropped before the first one that is kept.
abbrev pub leading : Env → Channel → List Text → ℕ
leading env ch [] = 0
leading env ch (name ∷ names) = if keeps env ch name then 0 else suc (leading env ch names)

pub uri_lines-append : (xs ys : List Text) → uri_lines (xs ++ ys) ≡ uri_lines xs ++ uri_lines ys
uri_lines-append [] ys = refl
uri_lines-append (x ∷ xs) ys = ground (arith, uri_lines-append xs ys)

-- The code's own test for "no segment so far".
headers_iff : (ls : List Text) → all_output_are_headers ls ≡ is_nil (uri_lines ls)
unfolding all_output_are_headers is_uri
headers_iff [] = refl
headers_iff (l ∷ ls) = ground (arith, headers_iff ls)

-- The addresses that the playlist gives are URI lines.
abbrev pub AreUris : Env → Channel → Type 0
AreUris env ch = (name : Text) → is_uri (segment_url env ch name) ≡ true

pub start_is_tag : (t : Text) → (t == codes "#EXTM3U") ≡ true → has_prefix t (codes "#") ≡ true
unfolding has_prefix
start_is_tag t h = rw ((==_iff t (codes "#EXTM3U")).0 h)

-- A URI line goes to the last branch of the loop.
pub scan_line_of_uri :
    (env : Env) (ch : Channel) (s : Scan) (line : Text)
    → is_uri line ≡ true
    → scan_line env ch s line ≡ scan_segment env ch s (trim_space line)
unfolding scan_line is_uri
scan_line_of_uri env ch s line h =
    let t = trim_space line in
    ground (
      arith,
      start_is_tag t,
      has_prefix-head t (codes "EXT-X-MEDIA-SEQUENCE:") b'#',
      has_prefix-head t (codes "EXTINF:") b'#',
    )

pub injected-uris : uri_lines injected ≡ []
unfolding is_uri trim_space has_prefix
injected-uris = refl

pub uri_lines-add : (xs ys : List Text) → uri_lines ys ≡ [] → uri_lines (xs ++ ys) ≡ uri_lines xs
uri_lines-add xs ys e = rw (uri_lines-append xs ys, e) (append-nil (uri_lines xs))

-- Any other line adds no segment.
pub scan_line_of_tag :
    (env : Env) (ch : Channel) (s : Scan) (line : Text)
    → is_uri line ≡ false
    → uri_lines s.pending ≡ []
    → let t = scan_line env ch s line in
      (uri_lines t.out ≡ uri_lines s.out) × (uri_lines t.pending ≡ []) × (t.dropped ≡ s.dropped)
unfolding scan_line is_uri
scan_line_of_tag env ch s line h e = ground (
  arith,
  uri_lines-add s.out injected injected-uris,
  uri_lines-add s.out (line ∷ []),
  uri_lines-add s.pending (line ∷ []),
)

pub scan_segment-uris :
    (env : Env) (ch : Channel) (s : Scan) (name : Text)
    → AreUris env ch
    → uri_lines s.pending ≡ []
    → let t = scan_segment env ch s name in
      (uri_lines t.out ≡ uri_lines s.out ++ kept env ch (name ∷ []))
      × (uri_lines t.pending ≡ [])
      × (t.dropped ≡ (
          if is_nil (uri_lines s.out) then s.dropped + leading env ch (name ∷ []) else s.dropped))
unfolding scan_segment
scan_segment-uris env ch s name h e =
    let url = segment_url env ch name in
    ground (
      arith,
      h name,
      headers_iff s.out,
      append-nil (uri_lines s.out),
      uri_lines-append s.out (s.pending ++ (url ∷ [])),
      uri_lines-append s.pending (url ∷ []),
    )
