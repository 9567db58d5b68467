-- ===== src/Store/Tests.antt =====
-- A table with two channels, and the sessions of its user.
use xrestream.Base.{◌∷◌, ◌≡◌, [], codes, false, none, refl, some, text_beq, text_eq, true}
use xrestream.Base.Results.{ok}
use xrestream.Store.Models.{Channel, User, zero_channel}
use xrestream.Store.Sql.{any_where}
use xrestream.Store.Database.{Database, has_user}
use xrestream.Store.Logins.{live_session}
use xrestream.Store.Logins.Revoked.{belongs_to, revoked}
use xrestream.Store.Users.{delete_user, set_user_password}

abbrev news : Channel
news = record zero_channel {
  id = codes "c1";
  slug = codes "news";
  mode = codes "ingest";
  status = codes "active";
  worker_status = codes "stopped";
  owner_id = some (codes "u1");
}

abbrev sport : Channel
sport = record news { id = codes "c2"; slug = codes "sport"; owner_id = none }

abbrev ann : User
ann = record {
  id = codes "u1";
  username = codes "ann";
  role = codes "viewer";
  enabled = true;
  created_at = 0;
  updated_at = 0;
  last_login_at = none;
}

abbrev database : Database
database = record {
  channels = news ∷ sport ∷ [];
  channel_metrics = [];
  allowed_origins = [];
  users = record { user = ann; password_hash = codes "#" } ∷ [];
  sessions =
      record { token = codes "t1"; user_id = codes "u1"; expires_at = 9; last_used_at = 0 } ∷ [];
  nodes = [];
  r2_configs = [];
}

revoked_example :
    ((set_user_password none none database 5 (codes "u1") (codes "#new")).1 ≡ ok tt)
    × (belongs_to (codes "u1") (
          live_session
            (set_user_password none none database 5 (codes "u1") (codes "#new")).0
            6
            (codes "t1"))
        ≡ false)
    × ((delete_user none database (codes "u1")).1 ≡ ok tt)
    × (belongs_to
          (codes "u1")
          (live_session (delete_user none database (codes "u1")).0 6 (codes "t1"))
        ≡ false)
unfolding text_beq any_where has_user
revoked_example = revoked database 5 6 (codes "u1") (codes "#new") (codes "t1") refl
