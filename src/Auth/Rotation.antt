-- ===== src/Auth/Rotation.antt =====
-- internal/service/auth.go, `Refresh`: what becomes of the session and of the token that is handed in.
use mizuflow.Base.{
  String, ◌≡◌, ◌≢◌, refl, sym, ap, ◌∙◌, true, some, inl, inr, Bool-cases, Option-cases, str_eq,
  eq_iff,
}
use mizuflow.Base.Int.{ℤ}
use mizuflow.Auth.{
  Jwt, Redis, UserClaims, TokenResp, AuthResult, token_invalid, granted, denied, Reply, value, nil,
  failed, session_key, claims_of, Now, store_refresh, generate_tokens, with_session, refresh,
}

-- What is relied on: a read that finds a value right after a write of the key finds what was written, and the claims
-- of a token do not depend on the time.
pub record AuthLaws {R : Type 0} (jwt : Jwt) (redis : Redis R) : Type 0 where
  pub get_set :
      (key s found : String) (r : R)
      → (redis.set key s r).0 ≡ true
      → (redis.get key (redis.set key s r).1).0 ≡ value found
      → found ≡ s
  pub parse_once :
      (now later : ℤ) (token : String) (c c' : UserClaims)
      → jwt.parse now token ≡ some c
      → jwt.parse later token ≡ some c'
      → c' ≡ c

module _ {R : Type 0} {jwt : Jwt} {redis : Redis R} (laws : AuthLaws jwt redis) where
  open laws use {get_set, parse_once}

  -- The session holds the refresh token that was granted.
  abbrev Holds : String → AuthResult × R → Type 0
  Holds user_id p =
      (t : TokenResp)
      → p.0 ≡ granted t
      → (found : String) → (redis.get (session_key user_id) p.1).0 ≡ value found
      → found ≡ t.refresh_token

  granted_refresh : AuthResult → String
  granted_refresh (granted t) = t.refresh_token
  granted_refresh (denied e) = ""

  store_refresh-Holds :
      (seconds : ℤ) (user_id access token : String) (r : R)
      → Holds user_id (store_refresh jwt redis seconds user_id access token r)
  unfolding store_refresh granted_refresh
  store_refresh-Holds seconds user_id access token r =
      elim (Bool-cases (redis.set (session_key user_id) token r).0) [
        | inl t ↦
            rw (t, store_refresh)
              (λ resp e found g.
                get_set (session_key user_id) token found r t g ∙ ap granted_refresh e)
        | inr t ↦ rw (t, store_refresh) (λ resp e found g. absurd (cc))
      ]

  generate_tokens-Holds :
      (t : Now) (user_id username role : String) (r : R)
      → Holds user_id (generate_tokens jwt redis t user_id username role r)
  unfolding generate_tokens
  generate_tokens-Holds t user_id username role r =
      elim (Option-cases (jwt.sign (claims_of user_id username role t.now t.access_end ""))) [
        | inl e ↦ rw (e, generate_tokens) (λ resp h found g. absurd (cc))
        | inr (access, e) ↦
            elim (Option-cases
              (jwt.sign (claims_of user_id username role t.now t.refresh_end t.new_id))) [
                | inl n ↦ rw (e, n, generate_tokens) (λ resp h found g. absurd (cc))
                | inr (token, s) ↦
                    rw (e, s, generate_tokens)
                      (store_refresh-Holds t.access_seconds user_id access token r)
              ]
      ]

  with_session-Holds :
      (t : Now) (claims : UserClaims) (token : String) (reply : Reply) (r : R)
      → Holds claims.user_id (with_session jwt redis t claims token reply r)
  unfolding with_session
  with_session-Holds t claims token nil r resp h found g = absurd (cc)
  with_session-Holds t claims token failed r resp h found g = absurd (cc)
  with_session-Holds t claims token (value stored) r resp h found g =
      elim (Bool-cases (str_eq stored token)) [
        | inl same ↦
            generate_tokens-Holds t claims.user_id claims.username claims.role r resp (rw same at h)
              found (rw same at g)
        | inr differs ↦ absurd (not_granted (rw differs at h))
      ]
    where
      not_granted : denied token_invalid ≢ granted resp
      not_granted e = cc

  -- A session that holds another token grants nothing.
  refused :
      (t : Now) (claims : UserClaims) (token other : String) (reply : Reply) (r : R)
      (resp : TokenResp)
      → ((found : String) → reply ≡ value found → found ≡ other)
      → other ≢ token
      → (with_session jwt redis t claims token reply r).0 ≢ granted resp
  unfolding with_session
  refused t claims token other nil r resp h ne e = cc
  refused t claims token other failed r resp h ne e = cc
  refused t claims token other (value stored) r resp h ne e =
      elim (Bool-cases (str_eq stored token)) [
        | inl same ↦ ne (sym (h stored refl) ∙ (eq_iff stored token).0 same)
        | inr differs ↦ differ_end (rw differs at e)
      ]
    where
      differ_end : denied token_invalid ≢ granted resp
      differ_end e = cc

  refresh_inv :
      (t : Now) (token : String) (r : R) (resp : TokenResp)
      → (refresh jwt redis t token r).0 ≡ granted resp
      → (claims : UserClaims) × (jwt.parse t.now token ≡ some claims)
        × ((found : String)
            → (redis.get (session_key claims.user_id) (refresh jwt redis t token r).1).0
              ≡ value found
            → found ≡ resp.refresh_token)
  unfolding refresh
  refresh_inv t token r resp h = elim (Option-cases (jwt.parse t.now token)) [
    | inl bad ↦ absurd (not_granted (rw (bad, refresh) at h))
    | inr (claims, read) ↦
        let (reply, r') = redis.get (session_key claims.user_id) r in
        (
          claims,
          read,
          rw (read, refresh)
              (with_session-Holds t claims token reply r' resp (rw (read, refresh) at h)),
        )
  ]
    where
      not_granted : denied token_invalid ≢ granted resp
      not_granted e = cc

  -- Where a refresh granted a new refresh token, the one that was handed in is granted nothing when it is handed in
  -- again at once, at whatever time of the clock.
  pub refresh_rotates :
      (t later : Now) (token : String) (r : R) (resp again : TokenResp)
      → (refresh jwt redis t token r).0 ≡ granted resp
      → resp.refresh_token ≢ token
      → (refresh jwt redis later token (refresh jwt redis t token r).1).0 ≢ granted again
  unfolding refresh
  refresh_rotates t later token r resp again h ne e =
      elim (Option-cases (jwt.parse later.now token)) [
        | inl bad ↦ not_granted (rw (bad, refresh) at e)
        | inr (claims', read') ↦
            let (claims, read, holds) = refresh_inv t token r resp h in
            let same : claims' ≡ claims =
              parse_once t.now later.now token claims claims' read read' in
            let end : R = (refresh jwt redis t token r).1 in
            refused later claims' token resp.refresh_token
              (redis.get (session_key claims'.user_id) end).0
              (redis.get (session_key claims'.user_id) end).1 again
              (λ found g. holds found (rw same at g)) ne (rw (read', refresh) at e)
      ]
    where
      not_granted : denied token_invalid ≢ granted again
      not_granted e = cc
