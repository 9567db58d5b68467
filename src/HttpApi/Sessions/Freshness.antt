-- ===== src/HttpApi/Sessions/Freshness.antt =====
-- How old a session may be that currentSession accepts.
use xrestream.Base.{
  ◌+◌, ◌∷◌, ◌≡◌, ◌≢◌, ◌≤◌, ◌⊎◌, ==_iff, In, List, Option, Option-cases, Text, [], arith, inl, inr,
  lookup, lookup-delete, lookup-insert, none, refl, some, subst, text_eq,
}
use xrestream.Store.{Session, Time}
use xrestream.HttpApi.Sessions.{
  AuthCacheEntry, AuthCache, get, put, cache_time, drop_token, bearer_token, service_session,
  looked_up, cached, current_session,
}

-- A request with its header, its time and what the database says of the token then; or a logout.
pub data Event : Type 0 where
  requests : Text → Time → Option Session → Event
  drops : Text → Event

module _ (admin_token : Text) where
  unfoldable pub step : AuthCache → Event → AuthCache
  step c (requests header now answer) = (current_session admin_token c header now answer).0
  step c (drops token) = drop_token c token

  -- The newest event stands first.
  unfoldable pub run : List Event → AuthCache
  run [] = []
  run (e ∷ es) = step (run es) e

-- The database confirmed the session of the token at some request, not more than the time that
-- the cache keeps an entry before `until`.
abbrev pub Confirmed : Text → Session → Time → List Event → Type 0
Confirmed token sess until es =
    (header : Text) × (t : Time) × In (requests header t (some sess)) es
    × (bearer_token header ≡ token)
    × (until ≡ t + cache_time)

-- Every entry of the cache goes back to a request.
abbrev Backed : AuthCache → List Event → Type 0
Backed c es =
    (token : Text) (e : AuthCacheEntry)
    → lookup token c ≡ some e
    → Confirmed token e.session e.until es

get-lookup :
    (c : AuthCache) (token key : Text) (now : Time) (e : AuthCacheEntry)
    → lookup key (get c token now).0 ≡ some e
    → lookup key c ≡ some e
unfolding get
get-lookup c token key now e = elim (Option-cases (lookup token c)) [
  | inl missing ↦
      rw (missing, get) (λ h. ground (arith, lookup-delete token key c, ==_iff token key))
  | inr (old, found) ↦
      rw (found, get) (λ h. ground (arith, lookup-delete token key c, ==_iff token key))
]

-- What a hit of the cache says.
get-hit :
    (c : AuthCache) (token : Text) (now : Time) (sess : Session)
    → (get c token now).1 ≡ some sess
    → (e : AuthCacheEntry) × (lookup token c ≡ some e) × (e.session ≡ sess) × (now ≤ e.until)
unfolding get
get-hit c token now sess = elim (Option-cases (lookup token c)) [
  | inl missing ↦ rw (missing, get) (λ h. absurd (cc))
  | inr (old, found) ↦ rw (found, get) (λ h. (old, refl, ground arith, ground arith))
]

-- An entry after a request was there before, or is the answer of the database.
cached-entries :
    (token key : Text) (now : Time) (answer : Option Session) (p : AuthCache × Option Session)
    (e : AuthCacheEntry)
    → lookup key (cached token now answer p).0 ≡ some e
    → (lookup key p.0 ≡ some e)
      ⊎ ((token ≡ key) × (answer ≡ some e.session) × (e.until ≡ now + cache_time))
unfolding cached looked_up put
cached-entries token key now answer (c, some sess) e h = inl h
cached-entries token key now none (c, none) e h = inl h
cached-entries token key now (some sess) (c, none) e h =
    let entry : AuthCacheEntry = record { session = sess; until = now + cache_time } in
    ground (arith, lookup-insert token key entry c, ==_iff token key)

request-entries :
    (admin_token : Text) (c : AuthCache) (header key : Text) (now : Time) (answer : Option Session)
    (e : AuthCacheEntry)
    → lookup key (current_session admin_token c header now answer).0 ≡ some e
    → (lookup key c ≡ some e)
      ⊎ ((bearer_token header ≡ key) × (answer ≡ some e.session) × (e.until ≡ now + cache_time))
unfolding current_session
request-entries admin_token c header key now answer e =
    let token = bearer_token header in
    ground
      (arith, cached-entries token key now answer (get c token now) e, get-lookup c token key now e)

run-Backed : (admin_token : Text) (es : List Event) → Backed (run admin_token es) es
unfolding run step drop_token
run-Backed admin_token [] token e h = absurd (unfold lookup in cc)
run-Backed admin_token (requests header t answer ∷ es) token e h =
    elim (request-entries admin_token (run admin_token es) header token t answer e h) [
      | inl old ↦
          let (header', t', i, same, until) = run-Backed admin_token es token e old in
          (header', t', inr i, same, until)
      | inr (same, confirmed, until) ↦ (header, t, inl (cc), same, until)
    ]
run-Backed admin_token (drops dropped ∷ es) token e h =
    let c = run admin_token es in
    let old : lookup token c ≡ some e =
      ground (arith, lookup-delete dropped token c, ==_iff dropped token) in
    let (header', t', i, same, until) = run-Backed admin_token es token e old in
    (header', t', inr i, same, until)

cached-found :
    (token : Text) (now : Time) (answer : Option Session) (p : AuthCache × Option Session)
    (sess : Session)
    → (cached token now answer p).1 ≡ some sess
    → (p.1 ≡ some sess) ⊎ (answer ≡ some sess)
unfolding cached looked_up
cached-found token now answer (c, some found) sess h = inl h
cached-found token now none (c, none) sess h = inr h
cached-found token now (some found) (c, none) sess h = inr h

session_cases :
    (admin_token : Text) (c : AuthCache) (header : Text) (now : Time) (answer : Option Session)
    (sess : Session)
    → (current_session admin_token c header now answer).1 ≡ some sess
    → let token = bearer_token header in
      (token ≢ [])
      × (((token ≡ admin_token) × (sess ≡ service_session token now))
          ⊎ ((cached token now answer (get c token now)).1 ≡ some sess))
unfolding current_session
session_cases admin_token c header now answer sess h =
    ground (arith, ==_iff (bearer_token header) admin_token)

Confirmed-hit :
    (admin_token : Text) (es : List Event) (token : Text) (now : Time) (sess : Session)
    → (get (run admin_token es) token now).1 ≡ some sess
    → (until : Time) × Confirmed token sess until es × (now ≤ until)
Confirmed-hit admin_token es token now sess h =
    let (e, found, same, recent) = get-hit (run admin_token es) token now sess h in
    (
      e.until,
      subst (λ s. Confirmed token s e.until es) same (run-Backed admin_token es token e found),
      recent,
    )

-- After any requests and logouts, newest first, a session that currentSession accepts is that of
-- the service token; or is the one that the database confirms now; or is one that the database
-- confirmed for the same token at an earlier request, not more than thirty seconds ago. A request
-- without a token gets none.
pub current_session_fresh :
    (admin_token : Text) (es : List Event) (header : Text) (now : Time) (answer : Option Session)
    (sess : Session)
    → (current_session admin_token (run admin_token es) header now answer).1 ≡ some sess
    → let token = bearer_token header in
      (token ≢ [])
      × (((token ≡ admin_token) × (sess ≡ service_session token now))
          ⊎ ((answer ≡ some sess)
              ⊎ ((until : Time) × Confirmed token sess until es × (now ≤ until))))
current_session_fresh admin_token es header now answer sess h =
    let token = bearer_token header in
    let c = run admin_token es in
    let (given, cases) = session_cases admin_token c header now answer sess h in
    (
      given,
      elim cases [
        | inl service ↦ inl service
        | inr asked ↦ inr (elim (cached-found token now answer (get c token now) sess asked) [
          | inl hit ↦ inr (Confirmed-hit admin_token es token now sess hit)
          | inr confirmed ↦ inl confirmed
        ])
      ],
    )
