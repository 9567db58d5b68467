-- ===== src/HttpApi/Channels/Tenancy.antt =====
-- Handlers of /channels leave the channels of other owners as they were.
use xrestream.Base.{
  ℕ, ◌==◌, ◌||◌, ◌∙◌, ◌≡◌, ==_self, List, Text, ap, codes, false, if_both, is_empty, none, not,
  refl, some, text_eq,
}
use xrestream.Base.Results.{Result, err, ok}
use xrestream.Store.{Channel, ChannelInput, Session}
use xrestream.Store.Database.{Database}
use xrestream.Store.Channels.{owner_arg}
use xrestream.Store.Channels.Owners.{
  Answers, OthersHave, create_channel-Answers, create_channel-owned, owned,
}
use xrestream.Store.Statuses.Effects.{set_worker_status-owned}
use xrestream.Relay.Workers.{start_worker, worker_running}
use xrestream.HttpApi.Inputs.{Platform}
use xrestream.HttpApi.PlaylistUrls.Kept.{apply_all-db, apply_public_playlist_url-db}
use xrestream.HttpApi.Server.{
  Request, Response, Server, ServerConfig, unless_refused_both, for_session_lem,
}
use xrestream.HttpApi.Channels.{
  ChannelBodies, channels, channels_of, create_for, created, list_for, listed, owned_by, published,
  runs_here, start_here, start_if_here,
}

-- The channels whose owner is another than the session's user, or none.
abbrev pub of_others : Session → Database → List Channel
of_others sess db = owned (λ owner. not (owned_by sess owner)) db

-- What a handler's result leaves as it was.
pub record KeepsOthers (sess : Session) (s : Server) (result : Server × Response) : Type 0 where
  pub kept : of_others sess result.0.db ≡ of_others sess s.db

-- An answer that changes nothing.
pub stays : (sess : Session) (s : Server) (response : Response) → KeepsOthers sess s (s, response)
stays sess s response = record { kept = refl }

own_arg :
    (sess : Session)
    → is_empty sess.user_id ≡ false
    → not (owned_by sess (owner_arg sess.user_id)) ≡ false
unfolding owner_arg owned_by
own_arg sess u = rw u (rw (==_self sess.user_id) refl)

-- The session has no stake in the row of another owner with this id.
abbrev pub IsOwn : Session → Database → Text → Type 0
IsOwn sess db id = OthersHave (λ owner. not (owned_by sess owner)) db id

-- What a change of the server's state leaves as it was.
pub record SameOthers (sess : Session) (before after : Server) : Type 0 where
  pub same : of_others sess after.db ≡ of_others sess before.db

pub start_here-others :
    (sess : Session) (s : Server) (r : Request) (n : ℕ) (ch : Channel)
    → IsOwn sess s.db ch.id
    → SameOthers sess s (start_here s r n ch)
unfolding start_here
start_here-others sess s r n ch own =
    if_both (SameOthers sess s)
      (worker_running s.workers ch.id || not (worker_running (start_worker s.workers ch) ch.id))
      (record { same = refl })
      (record {
        same =
            set_worker_status-owned (λ owner. not (owned_by sess owner)) (r.fault n) s.db r.now
              ch.id (codes "running") none own;
      })

pub start_if_here-others :
    (sess : Session) (s : Server) (r : Request) (n : ℕ) (ch : Channel)
    → IsOwn sess s.db ch.id
    → SameOthers sess s (start_if_here s r n ch)
unfolding start_if_here
start_if_here-others sess s r n ch own =
    if_both (SameOthers sess s) (runs_here ch) (start_here-others sess s r n ch own)
      (record { same = refl })

-- A channel that a write of the database answers is not another owner's.
abbrev pub OwnAnswer : Session → Database × Result Channel → Type 0
OwnAnswer sess result = Answers (λ owner. not (owned_by sess owner)) result

module _ (cfg : ServerConfig) where
  pub published-db :
      (status : ℕ) (r : Request) (n : ℕ) (s : Server) (ch : Channel)
      → (published cfg status r n s ch).0.db ≡ s.db
  unfolding published
  published-db status r n s ch = apply_public_playlist_url-db cfg.public_stream_url s r n ch

  listed-others :
      (sess : Session) (r : Request) (s : Server) (found : Result (List Channel))
      → KeepsOthers sess s (listed cfg r s found)
  unfolding listed
  listed-others sess r s (err e) = stays sess s _
  listed-others sess r s (ok chs) = record {
    kept = ap (of_others sess) (apply_all-db cfg.public_stream_url s r 1 chs);
  }

  created-others :
      (sess : Session) (r : Request) (s : Server) (result : Database × Result Channel)
      → OwnAnswer sess result
      → of_others sess (created cfg r s result).0.db ≡ of_others sess result.0
  unfolding created
  created-others sess r s (db, err e) own = refl
  created-others sess r s (db, ok ch) own =
      ap (of_others sess) (published-db 201 r 3 _ ch)
      ∙ (start_if_here-others sess (record s { db = db }) r 2 ch own).same

module _ (p : Platform) (cfg : ServerConfig) where
  create_for-others :
      (s : Server) (r : Request) (sess : Session) (input : Result ChannelInput)
      → is_empty sess.user_id ≡ false
      → KeepsOthers sess s (create_for p cfg s r sess input)
  unfolding create_for
  create_for-others s r sess (err e) u = record { kept = refl }
  create_for-others s r sess (ok input) u =
      unless_refused_both (KeepsOthers sess s) s _ (stays sess s) (record {
        kept =
            created-others cfg sess r s _ (
              create_channel-Answers (λ owner. not (owned_by sess owner)) p.lower _ s.db _ _ input _
                _ (own_arg sess u))
            ∙ create_channel-owned (λ owner. not (owned_by sess owner)) p.lower _ s.db _ _ input _ _
                (own_arg sess u);
      })

  channels_of-others :
      (s : Server) (r : Request) (b : ChannelBodies) (sess : Session)
      → is_empty sess.user_id ≡ false
      → KeepsOthers sess s (channels_of p cfg s r b sess)
  unfolding channels_of list_for
  channels_of-others s r b sess u =
      if_both (KeepsOthers sess s) (r.method == codes "GET") (listed-others cfg sess r s _) (
        if_both (KeepsOthers sess s) (r.method == codes "POST") (create_for-others s r sess _ u)
          (stays sess s _))

  -- A request to /channels by a session with a user id.
  pub channels-others :
      (s : Server) (r : Request) (b : ChannelBodies) (sess : Session)
      → r.session ≡ some sess
      → is_empty sess.user_id ≡ false
      → KeepsOthers sess s (channels p cfg s r b)
  unfolding channels
  channels-others s r b sess h u =
      for_session_lem (KeepsOthers sess s) s r.session sess (channels_of p cfg s r b) h
        (channels_of-others s r b sess u)
