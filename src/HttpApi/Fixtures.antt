-- ===== src/HttpApi/Fixtures.antt =====
-- Two users with a channel each, a node, and the servers that the tests run on.
use xrestream.Base.{◌==◌, ◌∷◌, Text, [], codes, false, none, some, text_eq, true}
use xrestream.Base.Int.{pos}
use xrestream.Base.Results.{ok}
use xrestream.Store.{AllowedOrigin, Channel, ChannelInput, Session, zero_channel}
use xrestream.Store.Database.{Database, NodeRow, UserRow}
use xrestream.Relay.Signer.{Crypto, Signer}
use xrestream.HttpApi.Inputs.{Platform}
use xrestream.HttpApi.Passwords.{Bcrypt}
use xrestream.HttpApi.Server.{Request, Server, ServerConfig}

abbrev pub news : Channel
news = record zero_channel {
  id = codes "c1";
  name = codes "News";
  slug = codes "news";
  mode = codes "proxy";
  status = codes "active";
  worker_status = codes "stopped";
  owner_id = some (codes "u1");
  node_id = some (codes "n1");
}

abbrev pub sport : Channel
sport = record news {
  id = codes "c2";
  slug = codes "sport";
  owner_id = some (codes "u2");
  node_id = none;
}

abbrev pub ann : UserRow
ann = record {
  user = record {
    id = codes "u1";
    username = codes "ann";
    role = codes "viewer";
    enabled = true;
    created_at = 0;
    updated_at = 0;
    last_login_at = none;
  };
  password_hash = codes "#secret1";
}

abbrev pub bob : UserRow
bob = record {
  user = record ann.user { id = codes "u2"; username = codes "bob" };
  password_hash = codes "#secret2";
}

abbrev pub edge : NodeRow
edge = record {
  node = record {
    id = codes "n1";
    owner_id = codes "u1";
    name = codes "edge";
    host = codes "https://edge.example";
    status = codes "online";
    last_seen_at = none;
    created_at = 0;
    updated_at = 0;
  };
  api_key_hash = codes "#key";
}

abbrev pub origin : AllowedOrigin
origin = record {
  id = codes "o1";
  owner_id = some (codes "u2");
  channel_id = none;
  origin = codes "https://bob.example";
  label = [];
  enabled = true;
  created_at = 0;
}

abbrev pub database : Database
database = record {
  channels = news ∷ sport ∷ [];
  channel_metrics = [];
  allowed_origins = origin ∷ [];
  users = ann ∷ bob ∷ [];
  sessions = [];
  nodes = edge ∷ [];
  r2_configs = [];
}

abbrev pub server : Server
server = record {
  db = database;
  workers = record {
    workers = [];
    tasks = [];
    next_handle = 0;
    statuses = [];
    parent_done = false;
  };
  tables = record {
    playlists = [];
    transmux = [];
    assets = [];
    r2 = none;
    r2_ready = [];
    removals = [];
  };
  viewers = [];
  origins = record { set = []; expires = 0; owners = []; channels = []; slug_bypass = [] };
  node_hosts = [];
  auth = [];
}

abbrev pub ann_session : Session
ann_session = record {
  token = codes "t1";
  user_id = codes "u1";
  username = codes "ann";
  role = codes "viewer";
  expires_at = 1000;
}

-- A request of ann.
abbrev pub request : Text → Text → Request
request method path = record {
  session = some ann_session;
  method = method;
  path = path;
  now = 5;
  fault = λ n. none;
  new_id = codes "x1";
  authorization = [];
  node_key = codes "n1.key";
}

abbrev pub config : ServerConfig
config = record {
  public_stream_url = codes "https://tv.example";
  signing_secret = codes "s";
  admin_token = [];
  allow_signup = false;
  playback_token_ttl_seconds = pos 900;
}

abbrev pub bcrypt : Bcrypt
bcrypt = record {
  generate = λ plain. ok (b'#' ∷ plain);
  compare_hash = λ hash plain. hash == (b'#' ∷ plain);
}

abbrev pub platform : Platform
platform = record {
  parse_url = λ u. some (record { scheme = codes "https"; hostname = codes "cdn.example" });
  parse_addr = λ host. none;
  is_localhost = λ host. false;
  lower = λ s. s;
  lookup_ip = λ host. ok [];
}

abbrev pub crypto : Crypto
crypto = record { sha256_hex = λ m. m; hmac_hex = λ k m. b'f' ∷ m }

abbrev pub signer : Signer
signer = record { secret = codes "key" }

abbrev pub input : ChannelInput
input = record {
  name = codes " World ";
  slug = codes "world";
  input_url = codes "https://cdn.example/a.m3u8";
  mode = [];
  status = [];
  playlist_ttl_seconds = pos 0;
  segment_ttl_seconds = pos 0;
  ingest_poll_seconds = pos 0;
  cache_enabled = none;
  sync_enabled = none;
  sync_delay_seconds = pos 0;
  playback_token_required = none;
  allowed_origins_bypass = none;
  http_referer = [];
  http_user_agent = [];
  http_origin = [];
  node_id = none;
}
