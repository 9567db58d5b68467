-- ===== src/HttpApi/MyOrigins/Tenancy.antt =====
-- /me/origins changes only the origins of the session's own user.
use xrestream.Base.{
  ℕ, ◌==◌, ◌≡◌, ==_self, Bool, Bool-cases, Option, Text, arith, codes, false, if_both, inl, inr,
  is_empty, none, not, refl, some, text_eq, trim_space, true,
}
use xrestream.Base.Results.{Error, Result, err, ok}
use xrestream.Store.{Session}
use xrestream.Store.Database.{Database}
use xrestream.Store.Channels.{owner_arg, refers_to}
use xrestream.Store.Origins.Owners.{
  KeepsOrigins, create_allowed_origin_scoped-kept, delete_allowed_origin_for_owner-kept, origins_of,
  update_allowed_origin_for_owner-kept,
}
use xrestream.HttpApi.Admin.{OriginBody, OriginPatch}
use xrestream.HttpApi.Answers.{changed_origins, shown}
use xrestream.HttpApi.Channels.{owned_by}
use xrestream.HttpApi.MyOrigins.{
  check_scope, create_own, handle_my_origin_by_id, handle_my_origins, my_origin, my_origins,
  patch_own,
}
use xrestream.HttpApi.Server.{Body, Request, Response, Server, for_session_lem, unless_refused_both}

-- The origins whose owner is another than the session's user, or none.
abbrev of_others : Session → Option Text → Bool
of_others sess owner = not (owned_by sess owner)

-- What a handler's result leaves as it was.
pub record KeepsOthers (sess : Session) (s : Server) (result : Server × Response) : Type 0 where
  pub kept : origins_of (of_others sess) result.0.db ≡ origins_of (of_others sess) s.db

stays : (sess : Session) (s : Server) (response : Response) → KeepsOthers sess s (s, response)
stays sess s response = record { kept = refl }

own_arg :
    (sess : Session)
    → is_empty sess.user_id ≡ false
    → of_others sess (owner_arg sess.user_id) ≡ false
unfolding owner_arg owned_by
own_arg sess u = rw u (rw (==_self sess.user_id) refl)

own_refers :
    (sess : Session) (owner : Option Text)
    → refers_to sess.user_id owner ≡ true
    → of_others sess owner ≡ false
unfolding refers_to owned_by
own_refers sess none h = ground arith
own_refers sess (some id) h = ground arith

module _ (sess : Session) where
  changed_origins-kept :
      {A : Type 0} (s : Server) (status : ℕ) (refuse : Error → Response) (show : A → Body)
      (result : Database × Result A)
      → KeepsOrigins (of_others sess) s.db result
      → KeepsOthers sess s (changed_origins s status refuse show result)
  unfolding changed_origins
  changed_origins-kept s status refuse show (db, err e) k = record { kept = k.kept }
  changed_origins-kept s status refuse show (db, ok a) k = record { kept = k.kept }

  shown-kept :
      {A : Type 0} (s : Server) (refuse : Error → Response) (show : A → Body) (found : Result A)
      → KeepsOthers sess s (shown s refuse show found)
  unfolding shown
  shown-kept s refuse show (err e) = stays sess s _
  shown-kept s refuse show (ok a) = stays sess s _

  create_own-kept :
      (s : Server) (r : Request) (body : Result OriginBody)
      → is_empty sess.user_id ≡ false
      → KeepsOthers sess s (create_own s r sess body)
  unfolding create_own
  create_own-kept s r (err e) u = stays sess s _
  create_own-kept s r (ok b) u =
      if_both (KeepsOthers sess s) (is_empty (trim_space b.origin)) (stays sess s _) (
        unless_refused_both (KeepsOthers sess s) s (check_scope s r sess (trim_space b.channel_id))
          (stays sess s)
          (changed_origins-kept s 201 _ _ _ (
            create_allowed_origin_scoped-kept (of_others sess) (r.fault 1) s.db _ _ sess.user_id _ _
              _ (own_arg sess u))))

  my_origins-kept :
      (s : Server) (r : Request) (body : Result OriginBody)
      → KeepsOthers sess s (my_origins s r body sess)
  unfolding my_origins
  my_origins-kept s r body = elim (Bool-cases (is_empty sess.user_id)) [
    | inl e ↦ rw e (stays sess s _)
    | inr u ↦ rw u (
        if_both (KeepsOthers sess s) (r.method == codes "GET") (shown-kept s _ _ _) (
          if_both (KeepsOthers sess s) (r.method == codes "POST") (create_own-kept s r body u)
            (stays sess s _)))
  ]

  patch_own-kept :
      (s : Server) (r : Request) (id : Text) (body : Result OriginPatch)
      → KeepsOthers sess s (patch_own s r sess id body)
  unfolding patch_own
  patch_own-kept s r id (err e) = stays sess s _
  patch_own-kept s r id (ok b) = changed_origins-kept s 200 _ _ _ (
      update_allowed_origin_for_owner-kept (of_others sess) sess.user_id (own_refers sess)
        (r.fault 0) s.db id _ _)

  my_origin-kept :
      (s : Server) (r : Request) (body : Result OriginPatch) (id : Text)
      → KeepsOthers sess s (my_origin s r body id sess)
  unfolding my_origin
  my_origin-kept s r body id =
      if_both (KeepsOthers sess s) (is_empty sess.user_id) (stays sess s _) (
        if_both (KeepsOthers sess s) (is_empty id) (stays sess s _) (
          if_both (KeepsOthers sess s) (r.method == codes "PATCH") (patch_own-kept s r id body) (
            if_both (KeepsOthers sess s) (r.method == codes "DELETE")
              (changed_origins-kept s 200 _ _ _ (
                delete_allowed_origin_for_owner-kept (of_others sess) sess.user_id (own_refers sess)
                  (r.fault 0) s.db id))
              (stays sess s _))))

-- No request to /me/origins or below it changes, adds or removes an origin that the session's user
-- does not own, whatever the session's role.
pub others_origins_kept :
    (s : Server) (r : Request) (sess : Session) (body : Result OriginBody)
    (patch : Result OriginPatch)
    → r.session ≡ some sess
    → KeepsOthers sess s (handle_my_origins s r body)
      × KeepsOthers sess s (handle_my_origin_by_id s r patch)
unfolding handle_my_origins handle_my_origin_by_id
others_origins_kept s r sess body patch h = (
  for_session_lem (KeepsOthers sess s) s r.session sess _ h (my_origins-kept sess s r body),
  for_session_lem (KeepsOthers sess s) s r.session sess _ h (my_origin-kept sess s r patch _),
)
