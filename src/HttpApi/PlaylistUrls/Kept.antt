-- ===== src/HttpApi/PlaylistUrls/Kept.antt =====
-- Filling in the playlist addresses of an answer leaves the database as it was.
use xrestream.Base.{
  ℕ, ◌+◌, ◌∙◌, ◌∷◌, ◌≡◌, Bool-cases, List, Option, Option-cases, Text, [], if_both, inl, inr,
  is_empty, lookup, none, refl, some, text_eq,
}
use xrestream.Base.Results.{Result, err, ok}
use xrestream.Store.{Channel, Node, Time}
use xrestream.HttpApi.PlaylistUrls.{
  apply_all, apply_public_playlist_url, fresh_host, node_host, on_host, publish_on, remember,
}
use xrestream.HttpApi.Server.{Request, Server}

remember-db :
    (s : Server) (now : Time) (id : Text) (found : Result Node)
    → (remember s now id found).0.db ≡ s.db
unfolding remember
remember-db s now id (err e) = refl
remember-db s now id (ok n) = refl

node_host-db : (s : Server) (r : Request) (n : ℕ) (id : Text) → (node_host s r n id).0.db ≡ s.db
unfolding node_host
node_host-db s r n id = elim (Bool-cases (is_empty id)) [
  | inl e ↦ rw e refl
  | inr e ↦ elim (Option-cases (fresh_host r.now (lookup id s.node_hosts))) [
    | inl f ↦ rw (e, f) (remember-db s r.now id _)
    | inr (host, f) ↦ rw (e, f) refl
  ]
]

publish_on-db :
    (base : Text) (s : Server) (r : Request) (n : ℕ) (ch : Channel) (node_id : Option Text)
    → (publish_on base s r n ch node_id).0.db ≡ s.db
unfolding publish_on on_host
publish_on-db base s r n ch none = refl
publish_on-db base s r n ch (some id) = node_host-db s r n id

pub apply_public_playlist_url-db :
    (url : Text) (s : Server) (r : Request) (n : ℕ) (ch : Channel)
    → (apply_public_playlist_url url s r n ch).0.db ≡ s.db
unfolding apply_public_playlist_url
apply_public_playlist_url-db url s r n ch =
    if_both (λ (result : Server × Channel). result.0.db ≡ s.db) _ refl (publish_on-db _ s r n ch _)

pub apply_all-db :
    (url : Text) (s : Server) (r : Request) (n : ℕ) (chs : List Channel)
    → (apply_all url s r n chs).0.db ≡ s.db
unfolding apply_all
apply_all-db url s r n [] = refl
apply_all-db url s r n (ch ∷ chs) =
    apply_all-db url (apply_public_playlist_url url s r n ch).0 r (n + 1) chs
    ∙ apply_public_playlist_url-db url s r n ch
