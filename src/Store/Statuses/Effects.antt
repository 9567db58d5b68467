-- ===== src/Store/Statuses/Effects.antt =====
-- What the writes of Store/Statuses.antt leave as it was, and what they set.
use xrestream.Base.{◌≡◌, Bool, Option, Text, if_both, none, refl, some, text_eq}
use xrestream.Base.Results.{Result}
use xrestream.Store.Models.{Time}
use xrestream.Store.Sql.Rows.{all_where-update_where}
use xrestream.Store.Database.{Database}
use xrestream.Store.Channels.Owners.{OthersHave, owned, Keeps}
use xrestream.Store.Statuses.{set_worker_status, update_checked, with_worker_status}

pub set_worker_status-owned :
    (of_owner : Option Text → Bool) (fault : Option Text) (db : Database) (now : Time)
    (id worker_status : Text) (last_error : Option Text)
    → OthersHave of_owner db id
    → owned of_owner (set_worker_status fault db now id worker_status last_error).0
      ≡ owned of_owner db
unfolding set_worker_status update_checked with_worker_status
set_worker_status-owned of_owner (some why) db now id worker_status last_error d = refl
set_worker_status-owned of_owner none db now id worker_status last_error d =
    if_both (Keeps of_owner {A = Result (Unit {0})} db) _ refl (
      all_where-update_where _ _ (with_worker_status now worker_status last_error) db.channels
        (λ row other. other) d)
