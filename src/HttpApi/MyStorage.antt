-- ===== src/HttpApi/MyStorage.antt =====
-- /me/r2 and maskSecret of backend/internal/httpapi/nodes.go. The decoded body is an argument.
use xrestream.Base.{
  if◌then◌else◌, ◌++◌, ◌-◌, ◌==◌, ◌||◌, Text, [], codes, drop, is_empty, leb, length, none, some,
  text_eq, trim_space, true,
}
use xrestream.Base.Results.{Result, err, message, no_rows, not_found, ok, violation}
use xrestream.Store.{R2Config, Session}
use xrestream.Store.Database.{Database}
use xrestream.Store.R2Configs.{R2Values, delete_r2_config, get_r2_config, upsert_r2_config}
use xrestream.HttpApi.Server.{
  Request, Response, Server, bad_request, flag, method_not_allowed, r2_body, reply, server_error,
  for_session, write_error,
}

unfoldable pub mask_secret : Text → Text
mask_secret secret =
    if leb (length secret) 4 then codes "****" else codes "****" ++ drop (length secret - 4) secret

masked : R2Config → R2Config
unfolding mask_secret
masked c = record c { secret_access_key = mask_secret c.secret_access_key }

show_config : Server → Result R2Config → Server × Response
unfolding masked
show_config s (err not_found) = (s, reply 200 (r2_body none))
show_config s (err no_rows) = (s, server_error no_rows)
show_config s (err violation) = (s, server_error violation)
show_config s (err (message why)) = (s, server_error (message why))
show_config s (ok c) = (s, reply 200 (r2_body (some (masked c))))

stored_secret : Result R2Config → Text
stored_secret (err e) = []
stored_secret (ok c) = c.secret_access_key

-- A fresh secret, or the one that is stored.
kept_secret : Server → Request → Session → Text → Text
unfolding stored_secret
kept_secret s r sess given =
    if is_empty given then stored_secret (get_r2_config (r.fault 0) s.db sess.user_id) else given

stored : Server → Database × Result R2Config → Server × Response
unfolding masked
stored s (db, err e) = (record s { db = db }, server_error e)
stored s (db, ok c) = (record s { db = db }, reply 200 (r2_body (some (masked c))))

put_config : Server → Request → Session → Result R2Values → Server × Response
unfolding kept_secret stored
put_config s r sess (err e) = (s, bad_request e)
put_config s r sess (ok b) =
    let secret = kept_secret s r sess b.secret_access_key in
    if is_empty (trim_space b.account_id)
      || is_empty (trim_space b.access_key_id)
      || is_empty (trim_space b.bucket)
    then (s, bad_request (message (codes "accountId, accessKeyId, and bucket are required")))
    else if is_empty (trim_space secret)
    then (s, bad_request (message (codes "secretAccessKey is required")))
    else stored s (
        upsert_r2_config (r.fault 1) s.db r.new_id r.now sess.user_id
          (record b { secret_access_key = secret }))

deleted : Server → Database × Result (Unit {0}) → Server × Response
deleted s (db, err not_found) = (record s { db = db }, reply 200 (flag (codes "deleted") true))
deleted s (db, err no_rows) = (record s { db = db }, server_error no_rows)
deleted s (db, err violation) = (record s { db = db }, server_error violation)
deleted s (db, err (message why)) = (record s { db = db }, server_error (message why))
deleted s (db, ok _) = (record s { db = db }, reply 200 (flag (codes "deleted") true))

my_r2 : Server → Request → Result R2Values → Session → Server × Response
unfolding show_config put_config deleted
my_r2 s r body sess =
    if is_empty sess.user_id
    then (s, write_error 403 (codes "service token has no R2 config"))
    else if r.method == codes "GET"
    then show_config s (get_r2_config (r.fault 0) s.db sess.user_id)
    else if r.method == codes "PUT"
    then put_config s r sess body
    else if r.method == codes "DELETE"
    then deleted s (delete_r2_config (r.fault 0) s.db sess.user_id)
    else (s, method_not_allowed)

unfoldable pub handle_my_r2 : Server → Request → Result R2Values → Server × Response
unfolding my_r2 for_session
handle_my_r2 s r body = for_session s r.session (λ sess. my_r2 s r body sess)
