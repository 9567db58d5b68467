-- ===== src/HttpApi/Tokens/Minting.antt =====
-- A token that the control plane mints is accepted, there and on the nodes, until it expires.
use xrestream.Base.{
  ℕ, ◌*◌, ◌+◌, ◌/◌, ◌<◌, ◌^◌, ◌↔◌, ◌∙◌, ◌≡◌, ◌≢◌, ◌≤◌, Text, [], ap, arith, codes, inl, inr, none,
  refl, some, subst, suc, sym, text_eq, true, zero,
}
use xrestream.Base.Int.{ℤ, pos, ◌+ℤ◌, ◌*ℤ◌, ◌≤ℤ◌, wrap64, wrap64_pos, IsInt64}
use xrestream.Base.Decimal.{parse_int64, print_int, parse-print}
use xrestream.Store.{Channel, Time}
use xrestream.Relay.Signer.{Crypto, Signer, sign_playback}
use xrestream.Relay.Signer.Messages.{verify_playback_iff}
use xrestream.NodeAgent.MemStore.{MemStore, get_channel_by_slug}
use xrestream.NodeAgent.Token as Node
use xrestream.NodeAgent.Token.Grants.{IsOpen, HasToken, require_playback_token_iff}
use xrestream.HttpApi.Tokens.{
  unix_of, effective_ttl, expiry, Minted, mint, granted, check_signature, check_query,
  check_channel, require_playback_token,
}

-- How long a token is valid.
abbrev pub lifetime : ℕ → ℕ
lifetime zero = 900
lifetime (suc n) = suc n

mul_pos : (a b : ℕ) → pos a *ℤ pos b ≡ pos (a * b)
unfolding ◌*ℤ◌
mul_pos a b = ground arith

add_pos : (a b : ℕ) → pos a +ℤ pos b ≡ pos (a + b)
unfolding ◌+ℤ◌
add_pos a b = ground arith

effective_ttl_lem : (ttl : ℕ) → effective_ttl (pos ttl) ≡ pos (lifetime ttl)
unfolding effective_ttl
effective_ttl_lem zero = refl
effective_ttl_lem (suc n) = ground arith

expiry_lem :
    (now ttl : ℕ)
    → lifetime ttl * 1000000000 < 2 ^ 63
    → expiry now (effective_ttl (pos ttl)) ≡ pos (now / 1000000000 + lifetime ttl)
unfolding expiry
expiry_lem now ttl h =
    let span = lifetime ttl * 1000000000 in
    let wrapped : wrap64 (effective_ttl (pos ttl) *ℤ pos 1000000000) ≡ pos span =
      ap (λ t. wrap64 (t *ℤ pos 1000000000)) (effective_ttl_lem ttl)
      ∙ ap wrap64 (mul_pos (lifetime ttl) 1000000000)
      ∙ wrap64_pos span h in
    ap (λ d. unix_of (pos now +ℤ d)) wrapped ∙ ap unix_of (add_pos now span) ∙ ap pos (omega arith)

-- A request that carries the values of the address that was minted.
abbrev pub Presents : (Text → Text) → Minted → Type 0
Presents query m = (query (codes "exp") ≡ print_int m.exp) × (query (codes "sig") ≡ m.sig)

print_int-ne : (v : ℤ) → IsInt64 v → print_int v ≢ []
unfolding parse_int64
print_int-ne v r e =
    let unread : parse_int64 [] ≡ some v =
      subst (λ s. parse_int64 s ≡ some v) e (parse-print v r) in
    absurd (cc)

module _ (crypto : Crypto) (signer : Signer) where
  check_query_iff :
      (query : Text → Text) (slug : Text) (now : Time) (exp : ℤ) (sig : Text)
      → (check_query crypto signer query slug now ≡ granted exp sig)
        ↔ HasToken crypto signer query slug now exp sig
  unfolding check_query check_signature
  check_query_iff query slug now exp sig = (
    λ e. ground (arith, verify_playback_iff crypto signer slug sig exp),
    λ h. ground (arith, verify_playback_iff crypto signer slug sig exp),
  )

  signed-HasToken :
      (slug : Text) (now' n : ℕ) (exp : ℤ) (query : Text → Text)
      → exp ≡ pos n
      → n < 2 ^ 63
      → ((key m : Text) → crypto.hmac_hex key m ≢ [])
      → query (codes "exp") ≡ print_int exp
      → query (codes "sig") ≡ sign_playback crypto signer slug exp
      → HasToken crypto signer query slug now' exp (sign_playback crypto signer slug exp)
        ↔ (now' / 1000000000 ≤ n)
  signed-HasToken slug now' n exp query e r mac shown signed =
      let range : IsInt64 exp = subst IsInt64 (sym e) r in
      (
        λ (_, _, _, _, le, _). let bound = subst (λ v. Node.unix now' ≤ℤ v) e le in omega arith,
        λ le. (
          subst (λ s. s ≢ []) (sym shown) (print_int-ne exp range),
          signed,
          unfold sign_playback in mac signer.secret _,
          ap parse_int64 shown ∙ parse-print exp range,
          subst (λ v. Node.unix now' ≤ℤ v) (sym e) (omega arith),
          refl,
        ),
      )

  -- Whoever presents a token that handlePlaybackToken minted, and no session, is let through, with
  -- its values, on the control plane and on a node that shares the secret, exactly while the time in seconds is
  -- not past the minting's by more than the configured lifetime (900 if that is 0). The channel is
  -- one that requires a token, the lifetime in nanoseconds and the time are int64, and no HMAC is
  -- printed as the empty text.
  pub minted_accepted_iff :
      (ttl : ℕ) (url : Text) (ch : Channel) (store : MemStore) (now now' : Time)
      (query : Text → Text)
      → lifetime ttl * 1000000000 < 2 ^ 63
      → now < 2 ^ 63
      → ((key m : Text) → crypto.hmac_hex key m ≢ [])
      → ch.playback_token_required ≡ true
      → get_channel_by_slug store ch.slug ≡ some ch
      → let m = mint crypto signer (pos ttl) url ch now in
        Presents query m
        → ((require_playback_token crypto signer none (some ch) query ch.slug now'
              ≡ granted m.exp m.sig)
            ↔ (now' / 1000000000 ≤ now / 1000000000 + lifetime ttl))
          × ((Node.require_playback_token crypto signer store query ch.slug now'
                ≡ Node.granted m.exp m.sig)
              ↔ (now' / 1000000000 ≤ now / 1000000000 + lifetime ttl))
  unfolding mint require_playback_token check_channel
  minted_accepted_iff ttl url ch store now now' query h k mac asked held (shown, signed) =
      let m = mint crypto signer (pos ttl) url ch now in
      let n = now / 1000000000 + lifetime ttl in
      let valid =
        signed-HasToken ch.slug now' n m.exp query (expiry_lem now ttl h) (omega arith) mac shown
          signed in
      let here = check_query_iff query ch.slug now' m.exp m.sig in
      let there = require_playback_token_iff crypto signer store query ch.slug now' m.exp m.sig in
      let closed : ¬ IsOpen store ch.slug = λ (ch', found, free). ground arith in
      (
        rw asked (λ g. valid.0 (here.0 g), λ le. here.1 (valid.1 le)),
        (
          λ g. elim (there.0 g) [
            | inl (free, _, _) ↦ absurd (closed free)
            | inr (_, token) ↦ valid.0 token
          ],
          λ le. there.1 (inr (closed, valid.1 le)),
        ),
      )
