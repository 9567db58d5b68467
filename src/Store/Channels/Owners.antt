-- ===== src/Store/Channels/Owners.antt =====
-- What the writes of a channel leave as it was: the rows of other owners.
use xrestream.Base.{
  ◌&&◌, ◌==◌, ◌||◌, ◌≡◌, ==_iff, Bool, List, Option, Text, arith, false, if_both, if_cases, none,
  not, refl, some, text_eq,
}
use xrestream.Base.Results.{Result, err, no_rows, ok}
use xrestream.Store.Models.{Channel, ChannelInput, Time}
use xrestream.Store.Sql.{all_where, any_where, first_where, scanned}
use xrestream.Store.Sql.Rows.{
  Disjoint, Disjoint-append, Disjoint-missing, Disjoint-update_where, all_where-append,
  all_where-delete_where, all_where-update_where,
}
use xrestream.Store.Sql.Finding.{first_where-passes, neither_left}
use xrestream.Store.Database.{Database, checks_channel}
use xrestream.Store.Channels.{
  create_channel, delete_channel, executed, get_channel, inserted, owner_arg, update_channel,
  update_found, updated, written,
}

-- A channel that was found by its id.
abbrev pub Names : Text → Result Channel → Type 0
Names id (err e) = Unit
Names id (ok ch) = ch.id ≡ id

scanned-Names :
    (fault : Option Text) (id : Text) (rows : List Channel) (found : Option Channel)
    → first_where (λ ch. ch.id == id) rows ≡ found
    → Names id (scanned fault no_rows found)
unfolding scanned
scanned-Names (some why) id rows found e = tt
scanned-Names none id rows none e = tt
scanned-Names none id rows (some ch) e =
    (==_iff ch.id id).0 (first_where-passes (λ ch. ch.id == id) ch rows e)

pub get_channel-Names :
    (fault : Option Text) (db : Database) (id : Text) → Names id (get_channel fault db id)
unfolding get_channel
get_channel-Names fault db id = scanned-Names fault id db.channels _ refl

module _ (of_owner : Option Text → Bool) where
  -- The rows whose owner passes the test.
  abbrev pub owned : Database → List Channel
  owned db = all_where (λ ch. of_owner ch.owner_id) db.channels

  abbrev pub OthersHave : Database → Text → Type 0
  OthersHave db id = Disjoint (λ ch. ch.id == id) (λ ch. of_owner ch.owner_id) db.channels

  -- The channels of those owners are as they were.
  abbrev pub Keeps : {A : Type 0} → Database → Database × A → Type 0
  Keeps db result = owned result.0 ≡ owned db

  pub delete_channel-owned :
      (fault : Option Text) (db : Database) (id : Text)
      → OthersHave db id
      → owned (delete_channel fault db id).0 ≡ owned db
  unfolding delete_channel executed
  delete_channel-owned none db id d = all_where-delete_where _ _ db.channels d
  delete_channel-owned (some why) db id d = refl

  -- A channel that a write answers is none of the rows of those owners.
  abbrev pub Answers : Database × Result Channel → Type 0
  Answers (db, err e) = Unit
  Answers (db, ok ch) = OthersHave db ch.id

  module _ (lower : Text → Text) where
    update_found-owned :
        (db : Database) (now : Time) (id : Text) (input : ChannelInput) (url : Text)
        (found : Option Channel)
        → OthersHave db id
        → owned (update_found lower db id now input url found).0 ≡ owned db
    unfolding update_found updated written
    update_found-owned db now id input url none d = refl
    update_found-owned db now id input url (some ch) d =
        if_both (Keeps {A = Result Channel} db) _ refl (
          all_where-update_where _ _ (updated lower now input url) db.channels (λ row other. other)
            d)

    pub update_channel-owned :
        (fault : Option Text) (db : Database) (now : Time) (id : Text) (input : ChannelInput)
        (url : Text)
        → OthersHave db id
        → owned (update_channel lower fault db now id input url).0 ≡ owned db
    unfolding update_channel update_found
    update_channel-owned (some why) db now id input url d = refl
    update_channel-owned none db now id input url d = update_found-owned db now id input url _ d

    pub create_channel-owned :
        (fault : Option Text) (db : Database) (new_id : Text) (now : Time) (input : ChannelInput)
        (url owner_id : Text)
        → of_owner (owner_arg owner_id) ≡ false
        → owned (create_channel lower fault db new_id now input url owner_id).0 ≡ owned db
    unfolding create_channel inserted written
    create_channel-owned (some why) db new_id now input url owner_id other = refl
    create_channel-owned none db new_id now input url owner_id other =
        if_both (Keeps {A = Result Channel} db) _ refl (all_where-append _ db.channels _ other)

    pub create_channel-Answers :
        (fault : Option Text) (db : Database) (new_id : Text) (now : Time) (input : ChannelInput)
        (url owner_id : Text)
        → of_owner (owner_arg owner_id) ≡ false
        → Answers (create_channel lower fault db new_id now input url owner_id)
    unfolding create_channel inserted written
    create_channel-Answers (some why) db new_id now input url owner_id other = tt
    create_channel-Answers none db new_id now input url owner_id other =
        let ch = inserted lower new_id now input url owner_id in
        if_cases Answers
          (any_where (λ row. row.id == new_id || row.slug == ch.slug) db.channels
            || not (checks_channel db ch))
          (λ e. tt)
          (λ e.
            Disjoint-append (λ row. row.id == new_id) (λ row. of_owner row.owner_id) ch db.channels
              (Disjoint-missing (λ row. row.id) (λ row. of_owner row.owner_id) new_id db.channels
                (neither_left (λ row. row.id == new_id) (λ row. row.slug == ch.slug) db.channels
                  (ground arith)))
              other)

    update_found-Answers :
        (db : Database) (now : Time) (id : Text) (input : ChannelInput) (url : Text)
        (found : Option Channel)
        → first_where (λ ch. ch.id == id) db.channels ≡ found
        → OthersHave db id
        → Answers (update_found lower db id now input url found)
    unfolding update_found updated written
    update_found-Answers db now id input url none f d = tt
    update_found-Answers db now id input url (some ch) f d =
        let row = updated lower now input url ch in
        let same = (==_iff ch.id id).0 (first_where-passes (λ ch. ch.id == id) ch db.channels f) in
        if_both Answers
          (any_where (λ other. not (other.id == id) && other.slug == row.slug) db.channels
            || not (checks_channel db row))
          tt
          (rw same (
            Disjoint-update_where (λ other. other.id == id) (λ other. of_owner other.owner_id)
              (updated lower now input url) db.channels (λ row other. other) d))

    pub update_channel-Answers :
        (fault : Option Text) (db : Database) (now : Time) (id : Text) (input : ChannelInput)
        (url : Text)
        → OthersHave db id
        → Answers (update_channel lower fault db now id input url)
    unfolding update_channel
    update_channel-Answers (some why) db now id input url d = tt
    update_channel-Answers none db now id input url d =
        update_found-Answers db now id input url _ refl d
