-- ===== src/Http/Sessions.antt =====
-- internal/api/auth_handler.go and internal/middleware/jwt.go: the token that a login grants, on the routes behind
-- `JWTMiddleware`.
use Prim.Native.String.{◌++◌}
use mizuflow.Base.{ℕ, String, ◌≡◌, true, false, Option, none, some, str_eq}
use mizuflow.Base.Int.{ℤ, leb_ℤ}
use mizuflow.Base.Text.{Lacks}
use mizuflow.Auth.{
  Jwt, Redis, UserClaims, TokenResp, AuthResult, granted, denied, claims_of, Now,
  login as auth_login,
}
use mizuflow.Http.Request.{OperatorInfo, GinContext, get_header, Body, tokens}
use mizuflow.Http.Routes.{login, Served, answers, opens}

-- What is relied on of JWT: a signed token is parsed from its begin to before its end, it has no space, and the empty
-- text is no token.
pub record TokenLaws (jwt : Jwt) : Type 0 where
  pub no_token : (now : ℤ) → jwt.parse now "" ≡ none
  pub parse_sign :
      (claims : UserClaims) (token : String) (now : ℤ)
      → jwt.sign claims ≡ some token
      → leb_ℤ claims.not_before now ≡ true
      → leb_ℤ claims.expires_at now ≡ false
      → jwt.parse now token ≡ some claims
  pub sign-Lacks :
      (claims : UserClaims) (token : String) → jwt.sign claims ≡ some token → Lacks " " token

access_of : AuthResult → String
access_of (granted t) = t.access_token
access_of (denied _) = ""

module _ {R : Type 0} (jwt : Jwt) (redis : Redis R) (t : Now) where
  -- The claims that are signed for an access token.
  abbrev Signs : String → String → String → String → Type 0
  Signs user_id username role token =
      jwt.sign (claims_of user_id username role t.now t.access_end "") ≡ some token

abbrev bearer_header : String → String
bearer_header token = "Bearer " ++ token

-- The operator of the one account.
abbrev pub admin_user : OperatorInfo
admin_user = record { user_id = "1001"; name = "admin"; role = "admin" }

abbrev pub Bears : GinContext → String → Type 0
Bears c token =
    (get_header c "Authorization" ≡ bearer_header token)
    × (str_eq (get_header c "X-Dev-Pass") "true" ≡ false)

-- What a response tells of its tokens.
body_tokens : Body → TokenResp → TokenResp
body_tokens (tokens t) d = t
body_tokens _ d = d

tokens_of : Served → TokenResp → TokenResp
tokens_of (answers r) d = body_tokens r.body d
tokens_of (opens _ _) d = d

served_status : Served → ℕ
served_status (answers r) = r.status
served_status (opens _ _) = 0
