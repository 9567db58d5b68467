-- ===== src/HttpApi/ChannelById/Missing.antt =====
-- What channelByID answers for a channel that is not in the database.
use xrestream.Base.{
  ◌==◌, ◌∷◌, ◌≡◌, List, Option, Text, ap, codes, false, is_empty, none, refl, some, split, text_eq,
  trim_prefix,
}
use xrestream.Base.Results.{err, no_rows}
use xrestream.Store.{Session}
use xrestream.Store.Sql.{any_where, scanned}
use xrestream.Store.Sql.Rows.{first_where-missing}
use xrestream.Store.Database.{Database}
use xrestream.Store.Channels.{get_channel}
use xrestream.Relay.Signer.{Crypto, Signer}
use xrestream.HttpApi.Inputs.{Platform}
use xrestream.HttpApi.Channels.{ChannelBodies, is_admin}
use xrestream.HttpApi.ChannelById.{by_id, channel_by_id, enforce_owner, owner_refusal}
use xrestream.HttpApi.Server.{
  Request, Server, ServerConfig, error_text, for_session_lem, handle_store_error, reply,
  unless_refused,
}

get_channel-missing :
    (fault : Option Text) (db : Database) (id : Text)
    → fault ≡ none
    → any_where (λ ch. ch.id == id) db.channels ≡ false
    → get_channel fault db id ≡ err no_rows
unfolding get_channel scanned
get_channel-missing fault db id f h =
    rw f (ap (scanned none no_rows) (first_where-missing (λ ch. ch.id == id) db.channels h))

module _ (p : Platform) (crypto : Crypto) (signer : Signer) (cfg : ServerConfig) where
  by_id-missing :
      (s : Server) (r : Request) (sess : Session) (b : ChannelBodies) (id : Text)
      (parts : List Text)
      → is_admin sess ≡ false
      → is_empty id ≡ false
      → get_channel (r.fault 0) s.db id ≡ err no_rows
      → by_id p crypto signer cfg s r b sess (id ∷ parts)
        ≡ (s, reply 404 (error_text (codes "not found")))
  unfolding by_id enforce_owner owner_refusal handle_store_error unless_refused
  by_id-missing s r sess b id parts n e h = rw (e, n, h) refl

  pub channel_by_id-missing :
      (s : Server) (r : Request) (sess : Session) (b : ChannelBodies) (id : Text)
      (parts : List Text)
      → r.session ≡ some sess
      → is_admin sess ≡ false
      → r.fault 0 ≡ none
      → split (trim_prefix r.path (codes "/channels/")) b'/' ≡ id ∷ parts
      → is_empty id ≡ false
      → any_where (λ ch. ch.id == id) s.db.channels ≡ false
      → channel_by_id p crypto signer cfg s r b ≡ (s, reply 404 (error_text (codes "not found")))
  unfolding channel_by_id
  channel_by_id-missing s r sess b id parts hr n f path e h =
      for_session_lem (λ result. result ≡ (s, reply 404 (error_text (codes "not found")))) s
        r.session sess _ hr
        (rw path
          (by_id-missing s r sess b id parts n e (get_channel-missing (r.fault 0) s.db id f h)))
