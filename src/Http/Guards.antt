-- ===== src/Http/Guards.antt =====
-- internal/middleware/jwt.go and internal/middleware/auth.go.
use mizuflow.Base.{
  String, Bool, true, ◌&&◌, Option, none, some, List, [], ◌∷◌, str_eq, if◌then◌else◌,
}
use mizuflow.Base.Int.{ℤ}
use mizuflow.Base.Text.{split}
use mizuflow.Auth.{Jwt, UserClaims}
use mizuflow.Http.Request.{
  OperatorInfo, with_operator, GinContext, get_header, get_query, Response, respond, error,
}

-- `c.Next()` with what the middleware made of the context, or `c.AbortWithStatusJSON`.
pub data Gate : Type 0 where
  continues : GinContext → Gate
  aborts : Response → Gate

abbrev pub admit : GinContext → OperatorInfo → Gate
admit c op = continues (record c { ctx = with_operator c.ctx op })

abbrev pub dev_admin : OperatorInfo
dev_admin = record { user_id = "9999"; name = "dev-admin"; role = "admin" }

abbrev pub operator_of : UserClaims → OperatorInfo
operator_of claims = record { user_id = claims.user_id; name = claims.username; role = claims.role }

-- `len(parts) == 2 && parts[0] == "Bearer"`
abbrev pub bearer_of : List String → String
bearer_of (scheme ∷ token ∷ []) = if str_eq scheme "Bearer" then token else ""
bearer_of _ = ""

-- The token of the header, and where there is none that of the query.
unfoldable pub token_string : GinContext → String
token_string c =
    let bearer = bearer_of (split " " (get_header c "Authorization")) in
    if str_eq bearer "" then get_query c "token" else bearer

-- After `jwt.ParseWithClaims`, which gives claims of the type that it was asked for.
abbrev pub admit_claims : GinContext → Option UserClaims → Gate
admit_claims c none = aborts (respond 401 (error "Invalid access token"))
admit_claims c (some claims) = admit c (operator_of claims)

unfoldable pub jwt_middleware : Jwt → Bool → ℤ → GinContext → Gate
jwt_middleware jwt dev_mode now c =
    if dev_mode && str_eq (get_header c "X-Dev-Pass") "true"
    then admit c dev_admin
    else if str_eq (token_string c) ""
    then aborts (respond 401 (error "Authorization header missing"))
    else admit_claims c (jwt.parse now (token_string c))

-- `SDKRepository`: `none` is an error.
pub record SdkRepository (W : Type 0) : Type 0 where
  pub validate_api_key : String → String → W → Option Bool × W

abbrev pub admit_key : GinContext → Option Bool → Gate
admit_key c (some true) = continues c
admit_key c _ = aborts (respond 403 (error "forbidden"))

module _ {W : Type 0} (repo : SdkRepository W) where
  unfoldable pub sdk_auth_middleware : Bool → GinContext → W → Gate × W
  sdk_auth_middleware bypass_auth c w =
      let api_key = get_header c "X-Mizu-Key" in
      let (ok, w') = repo.validate_api_key api_key (get_query c "env") w in
      if bypass_auth
      then (continues c, w)
      else if str_eq api_key ""
      then (aborts (respond 401 (error "missing API key")), w)
      else (admit_key c ok, w')
