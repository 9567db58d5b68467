-- ===== src/NodeAgent/MemStore/Channels.antt =====
-- The channel maps of memstore.go: what Replace leaves in them and what it reports.
use xrestream.Base.{
  if◌then◌else◌, ◌&&◌, ◌==◌, ◌||◌, ◌↔◌, ◌∙◌, ◌∷◌, ◌≡◌, ==_iff, All, Bool, Distinct, In, List, Map,
  Option, Text, [], ap, arith, false, has_key, insert, insert-Distinct, lookup, lookup-insert, none,
  not, refl, some, text_eq,
}
use xrestream.Store.{Channel}
use xrestream.NodeAgent.MemStore.{
  MemStore, active_worker_channels, all, values, index_by_id, index_by_slug, missing_from, replace,
  get_channel_by_slug,
}

-- The last channel of a list that has the given text in the given field.
abbrev pub find_last : (Channel → Text) → Text → List Channel → Option Channel → Option Channel
find_last field key [] found = found
find_last field key (ch ∷ chs) found =
    find_last field key chs (if field ch == key then some ch else found)

-- Every entry stands under its channel's own key, and no key stands twice.
pub record IsKeyedBy (field : Channel → Text) (m : Map Text Channel) : Type 0 where
  pub distinct : Distinct m
  pub keyed : All (λ entry. field entry.1 ≡ entry.0) m

pub record IsIndexed (s : MemStore) : Type 0 where
  pub by_id : IsKeyedBy (λ ch. ch.id) s.by_id
  pub by_slug : IsKeyedBy (λ ch. ch.slug) s.by_slug

insert-All :
    (field : Channel → Text) (ch : Channel) (m : Map Text Channel)
    → All (λ entry. field entry.1 ≡ entry.0) m
    → All (λ entry. field entry.1 ≡ entry.0) (insert (field ch) ch m)
unfolding insert
insert-All field ch [] h = (refl, tt)
insert-All field ch ((k, c) ∷ m) h = ground (arith, insert-All field ch m h.1)

insert-IsKeyedBy :
    (field : Channel → Text) (ch : Channel) (m : Map Text Channel)
    → IsKeyedBy field m
    → IsKeyedBy field (insert (field ch) ch m)
insert-IsKeyedBy field ch m h = record {
  distinct = insert-Distinct (field ch) ch m h.distinct;
  keyed = insert-All field ch m h.keyed;
}

index_by_id-IsKeyedBy :
    (chs : List Channel) (m : Map Text Channel)
    → IsKeyedBy (λ ch. ch.id) m
    → IsKeyedBy (λ ch. ch.id) (index_by_id chs m)
unfolding index_by_id
index_by_id-IsKeyedBy [] m h = h
index_by_id-IsKeyedBy (ch ∷ chs) m h =
    index_by_id-IsKeyedBy chs _ (insert-IsKeyedBy (λ c. c.id) ch m h)

index_by_slug-IsKeyedBy :
    (chs : List Channel) (m : Map Text Channel)
    → IsKeyedBy (λ ch. ch.slug) m
    → IsKeyedBy (λ ch. ch.slug) (index_by_slug chs m)
unfolding index_by_slug
index_by_slug-IsKeyedBy [] m h = h
index_by_slug-IsKeyedBy (ch ∷ chs) m h =
    index_by_slug-IsKeyedBy chs _ (insert-IsKeyedBy (λ c. c.slug) ch m h)

empty-IsKeyedBy : (field : Channel → Text) → IsKeyedBy field []
empty-IsKeyedBy field = record { distinct = tt; keyed = tt }

-- Replace leaves both maps well-formed, whatever channels the control plane sends.
pub replace-IsIndexed : (s : MemStore) (chs : List Channel) → IsIndexed (replace s chs).store
unfolding replace
replace-IsIndexed s chs = record {
  by_id = index_by_id-IsKeyedBy chs [] (empty-IsKeyedBy _);
  by_slug = index_by_slug-IsKeyedBy chs [] (empty-IsKeyedBy _);
}

lookup-index_by_id :
    (id : Text) (chs : List Channel) (m : Map Text Channel)
    → lookup id (index_by_id chs m) ≡ find_last (λ ch. ch.id) id chs (lookup id m)
unfolding index_by_id
lookup-index_by_id id [] m = refl
lookup-index_by_id id (ch ∷ chs) m =
    lookup-index_by_id id chs (insert ch.id ch m)
    ∙ ap (find_last (λ c. c.id) id chs) (lookup-insert ch.id id ch m)

lookup-index_by_slug :
    (slug : Text) (chs : List Channel) (m : Map Text Channel)
    → lookup slug (index_by_slug chs m) ≡ find_last (λ ch. ch.slug) slug chs (lookup slug m)
unfolding index_by_slug
lookup-index_by_slug slug [] m = refl
lookup-index_by_slug slug (ch ∷ chs) m =
    lookup-index_by_slug slug chs (insert ch.slug ch m)
    ∙ ap (find_last (λ c. c.slug) slug chs) (lookup-insert ch.slug slug ch m)

missing_from_sound :
    (other m : Map Text Channel) (ch : Channel)
    → IsKeyedBy (λ c. c.id) m
    → In ch (missing_from other m)
    → (lookup ch.id m ≡ some ch) × (lookup ch.id other ≡ none)
unfolding missing_from lookup
missing_from_sound other [] ch h i = elim i [ ]
missing_from_sound other ((k, c) ∷ m) ch h i =
    let rest : IsKeyedBy (λ c. c.id) m = record { distinct = h.distinct.1; keyed = h.keyed.1 } in
    ground (arith, ==_iff k ch.id, h.distinct.0, h.keyed.0, missing_from_sound other m ch rest)

missing_from_complete :
    (other m : Map Text Channel) (ch : Channel)
    → lookup ch.id m ≡ some ch
    → lookup ch.id other ≡ none
    → In ch (missing_from other m)
unfolding missing_from lookup
missing_from_complete other [] ch p q = absurd (cc)
missing_from_complete other ((k, c) ∷ m) ch p q =
    ground (arith, ==_iff k ch.id, missing_from_complete other m ch)

-- Whether a list has a channel with the given id that passes a test.
abbrev pub any_with : Text → (Channel → Bool) → List Channel → Bool
any_with id q [] = false
any_with id q (ch ∷ chs) = (ch.id == id && q ch) || any_with id q chs

-- The same of the channel that a map holds for the id.
abbrev pub passes : (Channel → Bool) → Option Channel → Bool
passes q none = false
passes q (some ch) = q ch

any_with-missing_from :
    (id : Text) (q : Channel → Bool) (other m : Map Text Channel)
    → IsKeyedBy (λ c. c.id) m
    → any_with id q (missing_from other m) ≡ (passes q (lookup id m) && not (has_key id other))
unfolding missing_from lookup
any_with-missing_from id q other [] h = refl
any_with-missing_from id q other ((k, c) ∷ m) h =
    let rest : IsKeyedBy (λ c. c.id) m = record { distinct = h.distinct.1; keyed = h.keyed.1 } in
    ground (arith, ==_iff k id, h.distinct.0, h.keyed.0, any_with-missing_from id q other m rest)

pub any_with-replace :
    (id : Text) (q : Channel → Bool) (s : MemStore) (chs : List Channel)
    → IsIndexed s
    → let r = replace s chs in
      (any_with id q r.added ≡ (passes q (lookup id r.store.by_id) && not (has_key id s.by_id)))
      × (any_with id q r.removed ≡ (passes q (lookup id s.by_id) && not (has_key id r.store.by_id)))
unfolding replace
any_with-replace id q s chs v =
    let next = index_by_id chs [] in
    (
      any_with-missing_from id q s.by_id next
          (index_by_id-IsKeyedBy chs [] (empty-IsKeyedBy (λ c. c.id))),
      any_with-missing_from id q next s.by_id v.by_id,
    )

-- After Replace a lookup by id or by slug answers the last channel sent with that id or slug, and
-- fails if there is none; the queued reports stay.
pub replace_lem :
    (s : MemStore) (chs : List Channel) (key : Text)
    → let t = (replace s chs).store in
      (lookup key t.by_id ≡ find_last (λ ch. ch.id) key chs none)
      × (get_channel_by_slug t key ≡ find_last (λ ch. ch.slug) key chs none)
      × (t.statuses ≡ s.statuses)
      × (t.metrics ≡ s.metrics)
unfolding replace get_channel_by_slug lookup
replace_lem s chs key = (lookup-index_by_id key chs [], lookup-index_by_slug key chs [], refl, refl)

-- In a well-formed store Replace reports as added exactly the channels now held whose id was not
-- held before, and as removed exactly the channels held before whose id is not held now.
pub replace-diff_iff :
    (s : MemStore) (chs : List Channel) (ch : Channel)
    → IsIndexed s
    → let r = replace s chs in
      (In ch r.added ↔ ((lookup ch.id r.store.by_id ≡ some ch) × (lookup ch.id s.by_id ≡ none)))
      × (In ch r.removed ↔ ((lookup ch.id s.by_id ≡ some ch) × (lookup ch.id r.store.by_id ≡ none)))
unfolding replace
replace-diff_iff s chs ch v =
    let next = index_by_id chs [] in
    let next_keyed = index_by_id-IsKeyedBy chs [] (empty-IsKeyedBy (λ c. c.id)) in
    (
      (
        missing_from_sound s.by_id next ch next_keyed,
        λ h. missing_from_complete s.by_id next ch h.0 h.1,
      ),
      (
        missing_from_sound next s.by_id ch v.by_id,
        λ h. missing_from_complete next s.by_id ch h.0 h.1,
      ),
    )

pub active_worker_channels-empty : (s : MemStore) → s.by_id ≡ [] → active_worker_channels s ≡ []
unfolding active_worker_channels all values
active_worker_channels-empty s e = rw e refl
