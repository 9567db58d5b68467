-- ===== src/Relay/Viewers.antt =====
-- RecordViewer and LiveViewers of backend/internal/relay/manager.go. The clock is an argument.
pub mod Live
mod Tests
use xrestream.Base.{
  if◌then◌else◌, ℕ, ◌-◌, ◌||◌, ◌∷◌, Map, Text, [], delete, insert, is_empty, length, lookup,
  lookup_or, ltb, none, some, text_eq,
}
use xrestream.Store.{Time}

-- channel id -> ip -> last seen
abbrev pub Viewers : Type 0
Viewers = Map Text (Map Text Time)

pub record_viewer : Viewers → Text → Text → Time → Viewers
record_viewer v channel_id ip now =
    if is_empty channel_id || is_empty ip
    then v
    else insert channel_id (insert ip now (lookup_or channel_id [] v)) v

-- 60 * time.Second
abbrev pub window : Time
window = 60000000000

-- The loop that deletes the entries from before the cutoff.
pub sweep : Time → Map Text Time → Map Text Time
sweep cutoff [] = []
sweep cutoff ((ip, t) ∷ bucket) =
    if ltb t cutoff then sweep cutoff bucket else (ip, t) ∷ sweep cutoff bucket

close_bucket : Viewers → Text → Map Text Time → Viewers × ℕ
close_bucket v channel_id [] = (delete channel_id v, 0)
close_bucket v channel_id (entry ∷ bucket) =
    (insert channel_id (entry ∷ bucket) v, length (entry ∷ bucket))

pub live_viewers : Viewers → Text → Time → Viewers × ℕ
unfolding sweep close_bucket
live_viewers v channel_id now = elim (lookup channel_id v) [
  | none ↦ (v, 0)
  | some bucket ↦ close_bucket v channel_id (sweep (now - window) bucket)
]
