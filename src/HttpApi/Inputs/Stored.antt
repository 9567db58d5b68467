-- ===== src/HttpApi/Inputs/Stored.antt =====
-- How the channel inputs that pass validateChannelInput reach the table: CreateChannel of
-- backend/internal/store/store.go, and the queries that read the row back.
use xrestream.Base.{
  ◌++◌, ◌==◌, ◌||◌, ◌∷◌, ◌≡◌, ==_self, Text, [], ap, codes, false, none, refl, text_beq, text_eq,
  true,
}
use xrestream.Base.Results.{no_rows, ok}
use xrestream.Store.{Channel, ChannelInput, Time}
use xrestream.Store.Sql.{any_where, scanned}
use xrestream.Store.Sql.Finding.{first_where-append, neither_left, neither_right}
use xrestream.Store.Database.{
  Database, checks_channel, fits_integer, fits_option, has_node, has_user, is_worker_status, refers,
}
use xrestream.Store.Channels.{
  create_channel, get_channel, get_channel_by_slug, inserted, normalize_input, owner_arg, written,
}
use xrestream.HttpApi.Inputs.{Platform, validate_channel_input}
use xrestream.HttpApi.Inputs.Accepted.{normalize_input-accepted}

-- The numbers of an input fit their columns, and the user and the node that it refers to are there.
pub record Fits (db : Database) (input : ChannelInput) (owner_id : Text) : Type 0 where
  pub playlist_ttl : fits_integer input.playlist_ttl_seconds ≡ true
  pub segment_ttl : fits_integer input.segment_ttl_seconds ≡ true
  pub poll : fits_integer input.ingest_poll_seconds ≡ true
  pub delay : fits_integer input.sync_delay_seconds ≡ true
  pub owner : refers (has_user db) (owner_arg owner_id) ≡ true
  pub node : refers (has_node db) input.node_id ≡ true

-- The table with one row more.
abbrev pub with_row : Database → Channel → Database
with_row db ch = record db { channels = db.channels ++ (ch ∷ []) }

module _ (p : Platform) (db : Database) (new_id : Text) (now : Time) (input : ChannelInput)
    (url owner_id : Text) where
  abbrev pub row : Channel
  row = inserted p.lower new_id now input url owner_id

  row-checked :
      validate_channel_input p input ≡ none
      → Fits db (normalize_input p.lower input) owner_id
      → checks_channel db row ≡ true
  unfolding inserted written checks_channel fits_option is_worker_status text_beq
  row-checked v f =
      let (_, mode, status, _, _, _, _) = normalize_input-accepted p input v in
      rw (mode, status, f.playlist_ttl, f.segment_ttl, f.poll, f.delay, f.owner, f.node) refl

  -- The row that an input asks for, as the queries read it.
  pub record Holds (after : Database) (ch : Channel) : Type 0 where
    pub by_id : get_channel none after new_id ≡ ok ch
    pub by_slug : get_channel_by_slug none after (normalize_input p.lower input).slug ≡ ok ch
    pub name : ch.name ≡ (normalize_input p.lower input).name
    pub input_url : ch.input_url ≡ (normalize_input p.lower input).input_url
    pub mode : ch.mode ≡ (normalize_input p.lower input).mode
    pub status : ch.status ≡ (normalize_input p.lower input).status
    pub playlist_ttl :
        ch.playlist_ttl_seconds ≡ (normalize_input p.lower input).playlist_ttl_seconds
    pub node : ch.node_id ≡ input.node_id
    pub owner : ch.owner_id ≡ owner_arg owner_id
    pub worker : ch.worker_status ≡ codes "stopped"

  created_row :
      validate_channel_input p input ≡ none
      → Fits db (normalize_input p.lower input) owner_id
      → any_where
          (λ other. other.id == new_id || other.slug == (normalize_input p.lower input).slug)
          db.channels
        ≡ false
      → create_channel p.lower none db new_id now input url owner_id ≡ (with_row db row, ok row)
  unfolding create_channel inserted written
  created_row v f n = rw (n, row-checked v f) refl

  row-Holds :
      any_where
          (λ other. other.id == new_id || other.slug == (normalize_input p.lower input).slug)
          db.channels
        ≡ false
      → Holds (with_row db row) row
  unfolding get_channel get_channel_by_slug scanned inserted written
  row-Holds n = record {
    by_id = ap (scanned none no_rows) (
        first_where-append (λ ch. ch.id == new_id) row db.channels
          (neither_left (λ ch. ch.id == new_id)
            (λ ch. ch.slug == (normalize_input p.lower input).slug) db.channels n)
          (==_self new_id));
    by_slug = ap (scanned none no_rows) (
        first_where-append (λ ch. ch.slug == (normalize_input p.lower input).slug) row db.channels
          (neither_right (λ ch. ch.id == new_id)
            (λ ch. ch.slug == (normalize_input p.lower input).slug) db.channels n)
          (==_self (normalize_input p.lower input).slug));
    name = refl;
    input_url = refl;
    mode = refl;
    status = refl;
    playlist_ttl = refl;
    node = refl;
    owner = refl;
    worker = refl;
  }

  -- CreateChannel accepts every input that validateChannelInput accepts, when its query does not
  -- fail, no channel has the new id or the normalized slug, the numbers fit their columns, and the
  -- owner and the node are there or not named: its answer is a stopped channel with the normalized
  -- name, URL, mode, status and playlist lifetime and the node and the owner asked for, and the
  -- queries by the id and by the slug then find it.
  pub accepted_input_stored :
      validate_channel_input p input ≡ none
      → Fits db (normalize_input p.lower input) owner_id
      → any_where
          (λ other. other.id == new_id || other.slug == (normalize_input p.lower input).slug)
          db.channels
        ≡ false
      → let (after, answer) = create_channel p.lower none db new_id now input url owner_id in
        (ch : Channel) × (answer ≡ ok ch) × Holds after ch
  accepted_input_stored v f n = rw (created_row v f n) (row, refl, row-Holds n)
