-- ===== src/Store/Logins/Revoked.antt =====
-- The ends of a user's sessions.
use xrestream.Base.{
  ◌==◌, ◌∷◌, ◌≡◌, Bool, List, Option, Text, [], arith, false, if_both, ltb, none, refl, some, subst,
  text_eq, true,
}
use xrestream.Base.Results.{ok}
use xrestream.Store.Models.{Session, Time}
use xrestream.Store.Sql.{delete_where, first_where}
use xrestream.Store.Database.{has_user, Database, SessionRow, UserRow}
use xrestream.Store.Logins.{joined, live_session, session_of}
use xrestream.Store.Users.{change_user, delete_user_sessions, delete_user, set_user_password}

-- A session of the user with the id.
unfoldable pub belongs_to : Text → Option Session → Bool
belongs_to id none = false
belongs_to id (some sess) = sess.user_id == id

module _ {A : Type 0} where
  first_where-delete_where :
      (p q : A → Bool) (rows : List A) (row : A)
      → first_where p (delete_where q rows) ≡ some row
      → q row ≡ false
  unfolding first_where delete_where
  first_where-delete_where p q [] row h = cc
  first_where-delete_where p q (other ∷ rows) row h =
      ground (arith, first_where-delete_where p q rows row)

joined-belongs :
    (id : Text) (row : SessionRow) (u : Option UserRow)
    → (row.user_id == id) ≡ false
    → belongs_to id (joined row u) ≡ false
unfolding belongs_to joined
joined-belongs id row none n = refl
joined-belongs id row (some u) n = ground arith

session_of-belongs :
    (id : Text) (db : Database) (now : Time) (found : Option SessionRow)
    → ((row : SessionRow) → found ≡ some row → (row.user_id == id) ≡ false)
    → belongs_to id (session_of db now found) ≡ false
unfolding belongs_to session_of
session_of-belongs id db now none n = refl
session_of-belongs id db now (some row) n =
    if_both (λ (found : Option Session). belongs_to id found ≡ false) (ltb now row.expires_at)
      (joined-belongs id row _ (n row refl)) refl

-- With no sessions of the user left in the table.
deleted-belongs :
    (id : Text) (db db' : Database) (now : Time) (token : Text)
    → db'.sessions ≡ delete_where (λ row. row.user_id == id) db.sessions
    → belongs_to id (live_session db' now token) ≡ false
unfolding live_session
deleted-belongs id db db' now token e = session_of-belongs id db' now _ (λ row found.
    first_where-delete_where (λ row. row.token == token) (λ row. row.user_id == id) db.sessions row
      (subst (λ rows. first_where (λ (row : SessionRow). row.token == token) rows ≡ some row) e
        found))

-- After a change of the password or the deletion of a user that is there, when no query fails, the
-- database has no live session of that user, whatever the token and the time.
pub revoked :
    (db : Database) (changed now : Time) (id password_hash token : Text)
    → has_user db id ≡ true
    → ((set_user_password none none db changed id password_hash).1 ≡ ok tt)
      × (belongs_to id
            (live_session (set_user_password none none db changed id password_hash).0 now token)
          ≡ false)
      × ((delete_user none db id).1 ≡ ok tt)
      × (belongs_to id (live_session (delete_user none db id).0 now token) ≡ false)
unfolding set_user_password delete_user delete_user_sessions change_user
revoked db changed now id password_hash token h =
    rw h
      (refl, deleted-belongs id db _ now token refl, refl, deleted-belongs id db _ now token refl)
