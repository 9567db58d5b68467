-- ===== src/HttpApi/Tests.antt =====
-- Requests to a control plane with two users.
use xrestream.Base.{
  ◌++◌, ◌∷◌, ◌≡◌, Option, Text, [], codes, false, has_prefix, is_empty, nat_eq, none, refl, some,
  split, text_beq, text_eq, trim_prefix, trim_space, true,
}
use xrestream.Base.Int.{pos, ◌≤ℤ◌}
use xrestream.Base.Results.{ok, not_found}
use xrestream.Base.Trims.{trim_blanks}
use xrestream.Store.Sql.{all_where, any_where, first_where, scanned}
use xrestream.Store.Database.{UserRow, fits_integer, refers, has_user, has_node, is_mode, is_status}
use xrestream.Store.Channels.{normalize_input}
use xrestream.HttpApi.Fixtures.{
  ann_session, bcrypt, config, crypto, database, input, platform, request, server, signer,
}
use xrestream.HttpApi.Inputs.Accepted.{normalize_input-accepted}
use xrestream.HttpApi.Inputs.Stored.{Holds, accepted_input_stored}
use xrestream.Store.{Channel}
use xrestream.HttpApi.Channels.{ChannelBodies, channels, is_admin}
use xrestream.HttpApi.Inputs.{
  validate_channel_input, check_url, reject_private_host, check_addresses,
}
use xrestream.HttpApi.Channels.Tenancy.{KeepsOthers}
use xrestream.HttpApi.ChannelById.{channel_by_id}
use xrestream.HttpApi.ChannelById.Tenancy.{others_kept}
use xrestream.Store.Logins.{create_session, live_session}
use xrestream.Store.Users.{get_user_by_username, touch_user_login}
use xrestream.Store.Logins.Opened.{session_for}
use xrestream.HttpApi.Accounts.{LoginBody, login}
use xrestream.HttpApi.Accounts.Sessions.{login_opens_session}
use xrestream.HttpApi.MyNodes.{handle_my_node_by_id}
use xrestream.HttpApi.MyNodes.Missing.{missing_rows}
use xrestream.HttpApi.MyOrigins as Origins
use xrestream.HttpApi.MyOrigins.Tenancy as Own
use xrestream.HttpApi.Gates.{referer_gate_for_slug, scope_of_slug}
use xrestream.HttpApi.Gates.Isolation.{concerns, gate_isolated, with_origins}
use xrestream.HttpApi.OriginCache.{new_origin_cache}
use xrestream.Store.Channels.{create_channel, default_seconds, get_channel_by_slug, owner_arg}
use xrestream.HttpApi.Passwords.{hash_password, verify_password}
use xrestream.HttpApi.Server.{error_text, reply, store_error, user_body}
use xrestream.HttpApi.Users.{handle_users}
use xrestream.HttpApi.Users.Roles.{any_session_creates_admin, clashes, new_admin}

abbrev bodies : ChannelBodies
bodies = record { input = ok input; ttl_minutes = pos 0 }

others_kept_example :
    KeepsOthers ann_session server
      (channels platform config server (request (codes "DELETE") (codes "/channels/c1")) bodies)
    × KeepsOthers ann_session server (
        channel_by_id platform crypto signer config server
          (request (codes "DELETE") (codes "/channels/c1"))
          bodies)
unfolding text_beq any_where is_admin
others_kept_example =
    others_kept platform crypto signer config ann_session server
      (request (codes "DELETE") (codes "/channels/c1")) bodies refl refl refl (refl, (refl, tt))

normalize_input-accepted_example :
    (is_empty (normalize_input platform.lower input).name ≡ false)
    × (is_mode (normalize_input platform.lower input).mode ≡ true)
    × (is_status (normalize_input platform.lower input).status ≡ true)
    × pos 1 ≤ℤ (normalize_input platform.lower input).playlist_ttl_seconds
    × pos 1 ≤ℤ (normalize_input platform.lower input).segment_ttl_seconds
    × pos 1 ≤ℤ (normalize_input platform.lower input).ingest_poll_seconds
    × pos 1 ≤ℤ (normalize_input platform.lower input).sync_delay_seconds
unfolding validate_channel_input check_url reject_private_host check_addresses trim_space text_beq
normalize_input-accepted_example = normalize_input-accepted platform input refl

accepted_input_stored_example :
    let (after, answer) =
      create_channel platform.lower none database
        (codes "c9")
        100
        input
        (codes "https://tv.example")
        (codes "u1") in
    (ch : Channel) × (answer ≡ ok ch)
    × Holds platform database
        (codes "c9")
        100
        input
        (codes "https://tv.example")
        (codes "u1")
        after
        ch
unfolding validate_channel_input check_url reject_private_host check_addresses trim_space text_beq
    fits_integer any_where has_user has_node refers owner_arg normalize_input default_seconds
    trim_blanks
accepted_input_stored_example =
    accepted_input_stored platform database (codes "c9") 100 input (codes "https://tv.example")
      (codes "u1") refl
      (record {
        playlist_ttl = refl;
        segment_ttl = refl;
        poll = refl;
        delay = refl;
        owner = refl;
        node = refl;
      })
      refl

others_origins_kept_example :
    Own.KeepsOthers ann_session server (
      Origins.handle_my_origins server
        (request (codes "DELETE") (codes "/me/origins/o1"))
        (ok (record { origin = codes "https://a.example"; label = []; channel_id = [] })))
    × Own.KeepsOthers ann_session server (
        Origins.handle_my_origin_by_id server
          (request (codes "DELETE") (codes "/me/origins/o1"))
          (ok (record { label = []; enabled = false })))
others_origins_kept_example =
    Own.others_origins_kept server (request (codes "DELETE") (codes "/me/origins/o1")) ann_session
      (ok (record { origin = codes "https://a.example"; label = []; channel_id = [] }))
      (ok (record { label = []; enabled = false })) refl

missing_rows_example :
    (channel_by_id platform crypto signer config server
        (request (codes "GET") (codes "/channels/c9"))
        bodies
      ≡ (server, reply 404 (error_text (codes "not found"))))
    × (handle_my_node_by_id server
          (request (codes "GET") (codes "/me/nodes/n9"))
          (ok (record { name = []; host = [] }))
        ≡ (server, reply 500 (store_error not_found)))
unfolding text_beq any_where is_admin has_node split trim_prefix has_prefix
missing_rows_example =
    missing_rows platform crypto signer config server (request (codes "GET") (codes "/channels/c9"))
      (request (codes "GET") (codes "/me/nodes/n9")) ann_session bodies
      (ok (record { name = []; host = [] })) (codes "c9") [] refl refl refl refl refl refl refl refl
      refl refl

any_session_creates_admin_example :
    handle_users bcrypt server
      (request (codes "POST") (codes "/admin/users"))
      (ok (record { username = codes "eve"; password = codes "secret"; role = []; enabled = none }))
    ≡ (
      record server {
        db = record database {
          users =
              database.users
              ++ (new_admin (codes "x1") 5 (trim_space (codes "eve")) (codes "#secret") ∷ []);
        };
      },
      reply 201
          (user_body (new_admin (codes "x1") 5 (trim_space (codes "eve")) (codes "#secret")).user),
    )
unfolding text_beq any_where clashes new_admin trim_space hash_password
any_session_creates_admin_example =
    any_session_creates_admin bcrypt server (request (codes "POST") (codes "/admin/users"))
      ann_session (codes "eve") (codes "secret") (codes "#secret") refl refl refl refl refl refl

abbrev credentials : LoginBody
credentials = record { username = codes "ann"; password = codes "secret1"; token = [] }

login_opens_session_example :
    (row : UserRow) × (row.user.username ≡ codes "ann")
    × (row.user.role ≡ codes "viewer")
    × (live_session
          (login platform.lower bcrypt config server
            (request (codes "POST") (codes "/auth/login"))
            (codes "tok")
            (ok credentials)).0.db
          100
          (codes "tok")
        ≡ some (session_for (codes "tok") row 604800000000005))
unfolding text_beq any_where login get_user_by_username first_where trim_space create_session
    touch_user_login has_user scanned verify_password
login_opens_session_example =
    login_opens_session platform.lower bcrypt config server
      (request (codes "POST") (codes "/auth/login")) (codes "tok") (ok credentials) (codes "tok")
      (codes "ann") (codes "viewer") 604800000000005 100 (refl, (refl, tt)) refl refl

abbrev url_parts : Text → Option (Text × Text)
url_parts raw = some (codes "https", raw)

gate_isolated_example :
    referer_gate_for_slug url_parts platform.lower
      (codes "tv.example")
      new_origin_cache
      none
      (λ n. none)
      database
      100
      (codes "bob.example")
      (codes "news")
    ≡ referer_gate_for_slug url_parts platform.lower
        (codes "tv.example")
        new_origin_cache
        none
        (λ n. none)
        (with_origins database (
          all_where
            (concerns (scope_of_slug none database (codes "news")))
            database.allowed_origins))
        100
        (codes "bob.example")
        (codes "news")
unfolding text_beq get_channel_by_slug scope_of_slug scanned first_where
gate_isolated_example =
    gate_isolated url_parts platform.lower (codes "tv.example") database 100 (codes "bob.example")
      new_origin_cache none (λ n. none) (codes "news") refl
