-- ===== src/Store/Origins/Owners.antt =====
-- What the writes of an allowed origin leave as it was: the rows of other owners.
use xrestream.Base.{
  ◌∷◌, ◌≡◌, Bool, List, Option, Text, [], arith, false, if_both, is_empty, none, not, refl, some,
  text_eq, true,
}
use xrestream.Base.Results.{Result}
use xrestream.Store.Models.{AllowedOrigin, Time}
use xrestream.Store.Sql.{all_where, any_where}
use xrestream.Store.Sql.Rows.{
  Disjoint, all_where-append, all_where-delete_where, all_where-update_where,
}
use xrestream.Store.Database.{Database}
use xrestream.Store.Channels.{owner_arg, refers_to}
use xrestream.Store.Origins.{
  clean_origin, create_allowed_origin_scoped, insert_unless, refused_origin,
  delete_allowed_origin_for_owner, delete_where_chosen, insert_origin, owned_origin, relabelled,
  update_allowed_origin_for_owner, update_found, update_where_chosen,
}

module _ (of_owner : Option Text → Bool) where
  -- The rows whose owner passes the test.
  abbrev pub origins_of : Database → List AllowedOrigin
  origins_of db = all_where (λ o. of_owner o.owner_id) db.allowed_origins

  pub record KeepsOrigins {A : Type 0} (db : Database) (result : Database × A) : Type 0 where
    pub kept : origins_of result.0 ≡ origins_of db

  unchanged : {A : Type 0} (db : Database) (answer : A) → KeepsOrigins db (db, answer)
  unchanged db answer = record { kept = refl }

  insert_origin-kept :
      (db : Database) (o : AllowedOrigin)
      → of_owner o.owner_id ≡ false
      → KeepsOrigins db (insert_origin db o)
  unfolding insert_origin
  insert_origin-kept db o other =
      if_both (KeepsOrigins db) (refused_origin db o) (unchanged db _)
        (record { kept = all_where-append (λ o. of_owner o.owner_id) db.allowed_origins o other })

  insert_unless-kept :
      (fault : Option Text) (db : Database) (o : AllowedOrigin)
      → of_owner o.owner_id ≡ false
      → KeepsOrigins db (insert_unless fault db o)
  unfolding insert_unless
  insert_unless-kept none db o other = insert_origin-kept db o other
  insert_unless-kept (some why) db o other = unchanged db _

  pub create_allowed_origin_scoped-kept :
      (fault : Option Text) (db : Database) (new_id : Text) (now : Time)
      (owner_id channel_id origin label : Text)
      → of_owner (owner_arg owner_id) ≡ false
      → KeepsOrigins db
          (create_allowed_origin_scoped fault db new_id now owner_id channel_id origin label)
  unfolding create_allowed_origin_scoped
  create_allowed_origin_scoped-kept fault db new_id now owner_id channel_id origin label other =
      if_both (KeepsOrigins db) (is_empty (clean_origin origin)) (unchanged db _)
        (insert_unless-kept fault db _ other)

  -- The rows that a statement for one owner picks.
  owned_origin-Disjoint :
      (owner_id id : Text)
      → ((owner : Option Text) → refers_to owner_id owner ≡ true → of_owner owner ≡ false)
      → (rows : List AllowedOrigin)
      → Disjoint (owned_origin owner_id id) (λ o. of_owner o.owner_id) rows
  unfolding owned_origin
  owned_origin-Disjoint owner_id id other [] = tt
  owned_origin-Disjoint owner_id id other (o ∷ rows) =
      (λ picked. other o.owner_id (ground arith), owned_origin-Disjoint owner_id id other rows)

  update_found-kept :
      (db : Database) (chosen : AllowedOrigin → Bool) (label : Text) (enabled : Bool)
      (found : Option AllowedOrigin)
      → Disjoint chosen (λ o. of_owner o.owner_id) db.allowed_origins
      → KeepsOrigins db (update_found db chosen label enabled found)
  unfolding update_found relabelled
  update_found-kept db chosen label enabled none d = unchanged db _
  update_found-kept db chosen label enabled (some o) d = record {
    kept =
        all_where-update_where chosen (λ o. of_owner o.owner_id) (relabelled label enabled)
          db.allowed_origins (λ row other. other) d;
  }

  module _ (owner_id : Text)
      (others : (owner : Option Text)
        → refers_to owner_id owner ≡ true
        → of_owner owner ≡ false) where
    pub update_allowed_origin_for_owner-kept :
        (fault : Option Text) (db : Database) (id label : Text) (enabled : Bool)
        → KeepsOrigins db (update_allowed_origin_for_owner fault db owner_id id label enabled)
    unfolding update_allowed_origin_for_owner update_where_chosen
    update_allowed_origin_for_owner-kept (some why) db id label enabled = unchanged db _
    update_allowed_origin_for_owner-kept none db id label enabled =
        update_found-kept db (owned_origin owner_id id) label enabled _
          (owned_origin-Disjoint owner_id id others db.allowed_origins)

    pub delete_allowed_origin_for_owner-kept :
        (fault : Option Text) (db : Database) (id : Text)
        → KeepsOrigins db (delete_allowed_origin_for_owner fault db owner_id id)
    unfolding delete_allowed_origin_for_owner delete_where_chosen
    delete_allowed_origin_for_owner-kept (some why) db id = unchanged db _
    delete_allowed_origin_for_owner-kept none db id =
        if_both (KeepsOrigins {A = Result (Unit {0})} db)
          (not (any_where (owned_origin owner_id id) db.allowed_origins)) (unchanged db _)
          (record {
            kept =
                all_where-delete_where (owned_origin owner_id id) (λ o. of_owner o.owner_id)
                  db.allowed_origins (owned_origin-Disjoint owner_id id others db.allowed_origins);
          })
