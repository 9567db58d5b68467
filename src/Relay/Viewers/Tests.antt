-- ===== src/Relay/Viewers/Tests.antt =====
-- Viewers of two channels, one of whom has left.
use xrestream.Base.{
  ◌∷◌, ◌≡◌, Distinct, List, Text, [], arith, codes, delete, insert, length, lookup, none, refl,
  text_beq, text_eq,
}
use xrestream.Relay.Viewers.{record_viewer, sweep, close_bucket, live_viewers}
use xrestream.Relay.Viewers.Live.{
  Event, hit, count, step, run, last_seen, recent, bucket_of, live_viewers_lem,
}

abbrev requests : List Event
requests =
    hit (codes "c1") (codes "10.0.0.1") 1000000000
    ∷ hit (codes "c1") (codes "10.0.0.2") 2000000000
    ∷ hit (codes "c2") (codes "10.0.0.1") 3000000000
    ∷ hit (codes "c1") [] 4000000000
    ∷ count (codes "c1") 5000000000
    ∷ hit (codes "c1") (codes "10.0.0.2") 50000000000
    ∷ []

one_left : (live_viewers (run [] requests) (codes "c1") 62000000000).1 ≡ 1
unfolding run step record_viewer live_viewers sweep close_bucket lookup insert delete text_beq
one_left = refl

live_viewers_lem_example :
    let (v, n) = live_viewers (run [] requests) (codes "c1") 62000000000 in
    let b = bucket_of (codes "c1") v in
    Distinct b
    × (n ≡ length b)
    × ((ip : Text) → lookup ip b ≡ recent 62000000000 (last_seen (codes "c1") ip none requests))
live_viewers_lem_example = live_viewers_lem requests (codes "c1") 62000000000 (omega arith, tt)
