-- ===== src/HttpApi/Answers.antt =====
-- requireAdmin of backend/internal/httpapi/server.go, and the ends that the handlers share: a query
-- that only reads, and a change of the database.
use xrestream.Base.{ℕ, Bool, Option, codes, false, none, some, text_eq, true}
use xrestream.Base.Results.{Error, Result, err, ok}
use xrestream.Store.{Session}
use xrestream.Store.Database.{Database}
use xrestream.HttpApi.OriginCache.{invalidate}
use xrestream.HttpApi.Server.{Body, Response, Server, reply, write_error}

unfoldable pub require_admin : Option Session → Bool
require_admin none = false
require_admin (some sess) = true

unfoldable pub admin_required : Response
admin_required = write_error 401 (codes "admin token required")

-- The whole answer of a query that only reads.
unfoldable pub shown :
    {A : Type 0} → Server → (Error → Response) → (A → Body) → Result A → Server × Response
shown s refuse show (err e) = (s, refuse e)
shown s refuse show (ok a) = (s, reply 200 (show a))

-- A change of the origins: the cache is invalidated when it succeeds.
unfoldable pub changed_origins :
    {A : Type 0}
    → Server
    → ℕ
    → (Error → Response)
    → (A → Body)
    → Database × Result A
    → Server × Response
unfolding invalidate
changed_origins s status refuse show (db, err e) = (record s { db = db }, refuse e)
changed_origins s status refuse show (db, ok a) =
    (record s { db = db; origins = invalidate s.origins }, reply status (show a))

unfoldable pub changed :
    {A : Type 0}
    → Server
    → ℕ
    → (Error → Response)
    → (A → Body)
    → Database × Result A
    → Server × Response
changed s status refuse show (db, err e) = (record s { db = db }, refuse e)
changed s status refuse show (db, ok a) = (record s { db = db }, reply status (show a))
