-- ===== src/Relay/Viewers/Live.antt =====
-- LiveViewers counts the addresses seen within the last minute.
use xrestream.Base.{
  if◌then◌else◌, ◌&&◌, ◌-◌, ◌==◌, ◌||◌, ◌∙◌, ◌∷◌, ◌≡◌, ◌≤◌, ==_iff, ==_self, Distinct, List, Map,
  Option, Option-cases, Text, [], ap, arith, inl, inr, insert, insert-Distinct, is_empty, length,
  lookup, lookup-delete, lookup-insert, lookup_or, ltb, none, refl, some, sym, text_eq,
}
use xrestream.Store.{Time}
use xrestream.Relay.Viewers.{Viewers, record_viewer, window, sweep, close_bucket, live_viewers}

pub data Event : Type 0 where
  hit : Text → Text → Time → Event
  count : Text → Time → Event

unfoldable pub step : Viewers → Event → Viewers
step v (hit channel_id ip now) = record_viewer v channel_id ip now
step v (count channel_id now) = (live_viewers v channel_id now).0

unfoldable pub run : Viewers → List Event → Viewers
run v [] = v
run v (e ∷ es) = run (step v e) es

-- The last time at which an address asked for a channel; empty ids and addresses are not recorded.
abbrev pub seen : Text → Text → Option Time → Event → Option Time
seen channel_id ip old (hit c i t) =
    if is_empty c || is_empty i then old else if c == channel_id && i == ip then some t else old
seen channel_id ip old (count c t) = old

abbrev pub last_seen : Text → Text → Option Time → List Event → Option Time
last_seen channel_id ip old [] = old
last_seen channel_id ip old (e ∷ es) = last_seen channel_id ip (seen channel_id ip old e) es

-- A time is recent if it is not more than a minute ago.
abbrev pub recent : Time → Option Time → Option Time
recent now none = none
recent now (some t) = if ltb t (now - window) then none else some t

-- Nobody counted later than `now`.
abbrev pub CountedBy : Time → List Event → Type 0
CountedBy now [] = Unit
CountedBy now (hit c i t ∷ es) = CountedBy now es
CountedBy now (count c t ∷ es) = (t ≤ now) × CountedBy now es

abbrev pub bucket_of : Text → Viewers → Map Text Time
bucket_of channel_id v = lookup_or channel_id [] v

lookup-sweep :
    (ip : Text) (cutoff : Time) (b : Map Text Time)
    → Distinct b
    → lookup ip (sweep cutoff b)
      ≡ (elim (lookup ip b) [ none ↦ none | some t ↦ if ltb t cutoff then none else some t ])
unfolding sweep lookup
lookup-sweep ip cutoff [] d = refl
lookup-sweep ip cutoff ((i, t) ∷ b) d =
    ground (arith, ==_iff i ip, d.0, lookup-sweep ip cutoff b d.1)

sweep-Distinct : (cutoff : Time) (b : Map Text Time) → Distinct b → Distinct (sweep cutoff b)
unfolding sweep
sweep-Distinct cutoff [] d = tt
sweep-Distinct cutoff ((i, t) ∷ b) d =
    ground (arith, d.0, lookup-sweep i cutoff b d.1, sweep-Distinct cutoff b d.1)

close_bucket-bucket :
    (v : Viewers) (c channel_id : Text) (b : Map Text Time)
    → (bucket_of channel_id (close_bucket v c b).0
        ≡ (if c == channel_id then b else bucket_of channel_id v))
      × ((close_bucket v c b).1 ≡ length b)
unfolding close_bucket
close_bucket-bucket v c channel_id [] =
    ground (arith, lookup-delete c channel_id v, ==_iff c channel_id)
close_bucket-bucket v c channel_id (entry ∷ b) =
    ground (arith, lookup-insert c channel_id (entry ∷ b) v, ==_iff c channel_id)

-- What a call of LiveViewers leaves in a bucket, and the count.
live_viewers-bucket :
    (v : Viewers) (c channel_id : Text) (now : Time)
    → (bucket_of channel_id (live_viewers v c now).0 ≡ (
        if c == channel_id
        then sweep (now - window) (bucket_of channel_id v)
        else bucket_of channel_id v))
      × ((live_viewers v c now).1 ≡ length (sweep (now - window) (bucket_of c v)))
unfolding live_viewers
live_viewers-bucket v c channel_id now = elim (Option-cases (lookup c v)) [
  | inl unknown ↦ rw (unknown, live_viewers) (unfold sweep in ground (arith, ==_iff c channel_id))
  | inr (b, found) ↦
      let (bucket, size) = close_bucket-bucket v c channel_id (sweep (now - window) b) in
      rw (found, live_viewers) (ground (arith, ==_iff c channel_id))
]

record_viewer-bucket :
    (v : Viewers) (c channel_id ip : Text) (t : Time)
    → bucket_of channel_id (record_viewer v c ip t) ≡ (
        if is_empty c || is_empty ip
        then bucket_of channel_id v
        else if c == channel_id
        then insert ip t (bucket_of channel_id v)
        else bucket_of channel_id v)
unfolding record_viewer
record_viewer-bucket v c channel_id ip t =
    ground (arith, ==_iff c channel_id, lookup-insert c channel_id (insert ip t (bucket_of c v)) v)

-- The state after some events, against the last time seen: they agree as far as a later minute
-- can tell.
pub record Agrees (now : Time) (channel_id : Text) (v : Viewers) (old : Text → Option Time)
    : Type 0 where
  pub distinct : Distinct (bucket_of channel_id v)
  pub same : (ip : Text) → recent now (lookup ip (bucket_of channel_id v)) ≡ recent now (old ip)

step-Agrees :
    (now : Time) (channel_id : Text) (v : Viewers) (old : Text → Option Time) (e : Event)
    → CountedBy now (e ∷ [])
    → Agrees now channel_id v old
    → Agrees now channel_id (step v e) (λ ip. seen channel_id ip (old ip) e)
unfolding step
step-Agrees now channel_id v old (hit c i t) k a =
    let e = record_viewer-bucket v c channel_id i t in
    let b = bucket_of channel_id v in
    record {
      distinct = ground (arith, e, a.distinct, insert-Distinct i t b a.distinct);
      same = λ ip. ground (arith, e, a.same ip, lookup-insert i ip t b);
    }
step-Agrees now channel_id v old (count c t) k a =
    let e = (live_viewers-bucket v c channel_id t).0 in
    let b = bucket_of channel_id v in
    record {
      distinct = ground (arith, e, a.distinct, sweep-Distinct (t - window) b a.distinct);
      same = λ ip. ground (arith, e, a.same ip, lookup-sweep ip (t - window) b a.distinct);
    }

run-Agrees :
    (now : Time) (channel_id : Text) (v : Viewers) (old : Text → Option Time) (es : List Event)
    → CountedBy now es
    → Agrees now channel_id v old
    → Agrees now channel_id (run v es) (λ ip. last_seen channel_id ip (old ip) es)
unfolding run
run-Agrees now channel_id v old [] k a = a
run-Agrees now channel_id v old (hit c i t ∷ es) k a =
    run-Agrees now channel_id (step v (hit c i t)) (λ ip. seen channel_id ip (old ip) (hit c i t))
      es k (step-Agrees now channel_id v old (hit c i t) tt a)
run-Agrees now channel_id v old (count c t ∷ es) k a =
    run-Agrees now channel_id (step v (count c t)) old es k.1
      (step-Agrees now channel_id v old (count c t) (k.0, tt) a)

-- After any requests and counts, no count later than `now`, LiveViewers at `now` leaves in the
-- channel's bucket each address exactly once whose last request is not more than a minute ago,
-- with the time of that request, and returns the size of the bucket.
pub live_viewers_lem :
    (es : List Event) (channel_id : Text) (now : Time)
    → CountedBy now es
    → let (v, n) = live_viewers (run [] es) channel_id now in
      let b = bucket_of channel_id v in
      Distinct b
      × (n ≡ length b)
      × ((ip : Text) → lookup ip b ≡ recent now (last_seen channel_id ip none es))
live_viewers_lem es channel_id now k =
    let start : Agrees now channel_id [] (λ ip. none) =
      unfold lookup in record { distinct = tt; same = λ ip. refl } in
    let a = run-Agrees now channel_id [] (λ ip. none) es k start in
    let (left, size) = live_viewers-bucket (run [] es) channel_id channel_id now in
    let b = bucket_of channel_id (run [] es) in
    let swept : bucket_of channel_id (live_viewers (run [] es) channel_id now).0
        ≡ sweep (now - window) b =
      ground (arith, ==_self channel_id) in
    (
      rw swept (sweep-Distinct (now - window) b a.distinct),
      size ∙ ap length (sym swept),
      λ ip. rw swept (lookup-sweep ip (now - window) b a.distinct ∙ ground (arith, a.same ip)),
    )
