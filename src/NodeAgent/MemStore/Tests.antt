-- ===== src/NodeAgent/MemStore/Tests.antt =====
-- The node's channel store on concrete calls.
use xrestream.Base.{
  ◌%◌, ◌+◌, ◌^◌, ◌↔◌, ◌∷◌, ◌≡◌, In, List, [], codes, insert, lookup, lookup_or, none, refl, some,
  text_beq, text_eq,
}
use xrestream.Base.Int.{pos}
use xrestream.Store.{Channel, zero_channel}
use xrestream.NodeAgent.MemStore.{
  MemStore, MetricKey, metric_key_eq, metric_key_beq, new_mem_store, index_by_id, index_by_slug,
  missing_from, replace, get_channel_by_slug, active_worker_channels, set_worker_status,
  set_source_status, increment_metric, dirty_only, drain_reports,
}
use xrestream.NodeAgent.MemStore.Channels.{
  find_last, IsIndexed, replace-IsIndexed, replace_lem, replace-diff_iff,
}
use xrestream.NodeAgent.MemStore.Reports.{
  Call, sets_worker, sets_source, increments, drains, run, start, sent_amount, step, asked_total,
  merged_all, metrics_conserved, drain-merged,
}

abbrev news : Channel
news = record zero_channel { id = codes "c1"; slug = codes "news"; status = codes "active" }

abbrev sport : Channel
sport = record zero_channel { id = codes "c2"; slug = codes "sport" }

held : MemStore
unfolding new_mem_store
held = (replace new_mem_store (news ∷ [])).store

memory : Unit {0}
unfolding replace index_by_id index_by_slug missing_from new_mem_store held get_channel_by_slug
    set_worker_status set_source_status increment_metric dirty_only drain_reports
    active_worker_channels lookup insert text_beq metric_key_beq
memory = tt

swapped :
    ((replace held (sport ∷ [])).added ≡ sport ∷ [])
    × ((replace held (sport ∷ [])).removed ≡ news ∷ [])
    × (active_worker_channels (replace held (sport ∷ news ∷ [])).store ≡ sport ∷ news ∷ [])
unfolding memory
swapped = (refl, refl, refl)

held-IsIndexed : IsIndexed held
unfolding held
held-IsIndexed = replace-IsIndexed new_mem_store (news ∷ [])

replace_lem_example :
    let t = (replace held (sport ∷ news ∷ [])).store in
    (lookup (codes "sport") t.by_id
      ≡ find_last (λ ch. ch.id) (codes "sport") (sport ∷ news ∷ []) none)
    × (get_channel_by_slug t (codes "sport")
        ≡ find_last (λ ch. ch.slug) (codes "sport") (sport ∷ news ∷ []) none)
    × (t.statuses ≡ held.statuses)
    × (t.metrics ≡ held.metrics)
replace_lem_example = replace_lem held (sport ∷ news ∷ []) (codes "sport")

replace-diff_iff_example :
    let r = replace held (sport ∷ []) in
    (In sport r.added
      ↔ ((lookup sport.id r.store.by_id ≡ some sport) × (lookup sport.id held.by_id ≡ none)))
    × (In sport r.removed
        ↔ ((lookup sport.id held.by_id ≡ some sport) × (lookup sport.id r.store.by_id ≡ none)))
replace-diff_iff_example = replace-diff_iff held (sport ∷ []) sport held-IsIndexed

abbrev hits : MetricKey
hits = record { channel_id = codes "c1"; field = codes "cache_hits" }

abbrev calls : List Call
calls =
    increments (codes "c1") (codes "cache_hits") 2
    ∷ sets_worker (codes "c1") (codes "error") (some (codes "timeout"))
    ∷ drains
    ∷ sets_worker (codes "c1") (codes "running") none
    ∷ sets_source (codes "c1") (pos 200) none
    ∷ increments (codes "c1") (codes "cache_hits") 3
    ∷ []

split_over_batches :
    (sent_amount hits (run start calls).sent ≡ 2)
    × (lookup hits (run start calls).store.metrics ≡ some 3)
unfolding memory start step run
split_over_batches = (refl, refl)

metrics_conserved_example :
    (sent_amount hits (run start calls).sent + lookup_or hits 0 (run start calls).store.metrics)
      % 2 ^ 64
    ≡ asked_total hits calls % 2 ^ 64
metrics_conserved_example = metrics_conserved hits calls

drain-merged_example :
    lookup (codes "c1") (drain_reports (run start calls).store).statuses
    ≡ merged_all (codes "c1") none calls
drain-merged_example = drain-merged (codes "c1") calls
