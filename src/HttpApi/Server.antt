-- ===== src/HttpApi/Server.antt =====
-- What the handlers of backend/internal/httpapi share: the state of Server, a request and its
-- answer, and writeError, badRequest, serverError, methodNotAllowed and handleStoreError of
-- backend/internal/httpapi/server.go.
use xrestream.Base.{ℕ, ◌≡◌, Bool, List, Map, Option, Text, codes, none, some, subst, sym}
use xrestream.Base.Int.{ℤ}
use xrestream.Base.Results.{Error, message, no_rows, not_found, violation}
use xrestream.Store.{AllowedOrigin, Channel, Metrics, Node, R2Config, Session, Time, User}
use xrestream.Store.Database.{Database}
use xrestream.Relay.Workers.{State}
use xrestream.Relay.Tables.{Tables}
use xrestream.Relay.Viewers.{Viewers}
use xrestream.HttpApi.Tokens.{Minted}
use xrestream.HttpApi.Sessions.{AuthCache}
use xrestream.HttpApi.OriginCache.{OriginCache}

pub record NodeHostEntry : Type 0 where
  pub host : Text
  pub at : Time

-- The database and the part of the relay's manager that the handlers drive stand in for the pointers
-- to them.
pub record Server : Type 0 where
  pub db : Database
  pub workers : State
  pub tables : Tables
  pub viewers : Viewers
  pub origins : OriginCache
  pub node_hosts : Map Text NodeHostEntry
  pub auth : AuthCache

-- One request, handled at one moment: the session is what currentSession answers, `fault n` the
-- failure of the query that the handler makes as its n-th, `new_id` the id that the database draws
-- if a row is inserted, and the last two the headers Authorization and X-Node-Key.
pub record Request : Type 0 where
  pub session : Option Session
  pub method : Text
  pub path : Text
  pub now : Time
  pub fault : ℕ → Option Text
  pub new_id : Text
  pub authorization : Text
  pub node_key : Text

-- The fields of config.Config that the handlers read.
pub record ServerConfig : Type 0 where
  pub public_stream_url : Text
  pub signing_secret : Text
  pub admin_token : Text
  pub allow_signup : Bool
  pub playback_token_ttl_seconds : ℤ

-- The answer of handleShareLink; expiresAt is given as the seconds that it prints.
pub record ShareLink : Type 0 where
  pub playlist_url : Text
  pub embed_url : Text
  pub exp : ℤ

pub data Body : Type 0 where
  error_text : Text → Body
  store_error : Error → Body
  channels_body : List Channel → Body
  channel_body : Channel → Body
  metrics_body : Metrics → ℕ → Body
  token_body : Minted → Body
  share_body : ShareLink → Body
  flag : Text → Bool → Body
  worker_body : Bool → Text → Body
  nodes_body : List Node → Body
  node_body : Node → Body
  node_created : Node → Text → Body
  r2_body : Option R2Config → Body
  origins_body : List AllowedOrigin → Body
  origin_body : AllowedOrigin → Body
  users_body : List User → Body
  user_body : User → Body
  node_ok : Text → Body
  config_body : Node → Text → Text → Option R2Config → Option (List Channel) → Body
  login_body : Text → Text → Text → Option Time → Body
  signup_body : Text → Text → Bool → Body

pub record Response : Type 0 where
  pub status : ℕ
  pub body : Body

abbrev pub reply : ℕ → Body → Response
reply status body = record { status = status; body = body }

unfoldable pub write_error : ℕ → Text → Response
write_error status why = reply status (error_text why)

-- The texts of the errors of the database are not modelled: the body is the error.
unfoldable pub server_error : Error → Response
server_error e = reply 500 (store_error e)

unfoldable pub bad_request : Error → Response
bad_request e = reply 400 (store_error e)

unfoldable pub method_not_allowed : Response
method_not_allowed = reply 405 (error_text (codes "method not allowed"))

unfoldable pub handle_store_error : Error → Response
handle_store_error no_rows = reply 404 (error_text (codes "not found"))
handle_store_error not_found = reply 500 (store_error not_found)
handle_store_error violation = reply 500 (store_error violation)
handle_store_error (message why) = reply 500 (store_error (message why))

unfoldable pub unauthorized : Response
unauthorized = reply 401 (error_text (codes "authentication required"))

-- A handler goes on unless a check has written its refusal.
unfoldable pub unless_refused : Server → Option Response → Server × Response → Server × Response
unless_refused s none rest = rest
unless_refused s (some refusal) rest = (s, refusal)

pub unless_refused_both {κ} :
    (P : Server × Response → Type κ) (s : Server) (refusal : Option Response)
    {rest : Server × Response}
    → ((response : Response) → P (s, response))
    → P rest
    → P (unless_refused s refusal rest)
unfolding unless_refused
unless_refused_both P s none stops goes = goes
unless_refused_both P s (some refusal) stops goes = stops refusal

-- A handler that asks for a session.
unfoldable pub for_session :
    Server → Option Session → (Session → Server × Response) → Server × Response
for_session s none handle = (s, unauthorized)
for_session s (some sess) handle = handle sess

pub for_session_lem {κ} :
    (P : Server × Response → Type κ) (s : Server) (session : Option Session) (sess : Session)
    (handle : Session → Server × Response)
    → session ≡ some sess
    → P (handle sess)
    → P (for_session s session handle)
unfolding for_session
for_session_lem P s session sess handle h holds =
    subst (λ o. P (for_session s o handle)) (sym h) holds
