-- ===== src/Auth.antt =====
-- internal/service/auth.go: logging in, the refresh of tokens, and logging out. JWT, uuid and Redis are parameters.
pub mod Rotation
mod Tests
use Prim.Native.String.{◌++◌}
use mizuflow.Base.{String, Bool, not, ◌||◌, Option, none, some, str_eq, if◌then◌else◌}
use mizuflow.Base.Int.{ℤ}

abbrev pub redis_key_prefix : String
redis_key_prefix = "mizuflow:auth:session:"

abbrev pub issuer_name : String
issuer_name = "mizuflow-auth-service"

-- `UserClaims`; a time is its number of nanoseconds.
pub record UserClaims : Type 0 where
  pub user_id : String
  pub username : String
  pub role : String
  pub expires_at : ℤ
  pub issued_at : ℤ
  pub not_before : ℤ
  pub issuer : String
  pub jti : String

pub record TokenResp : Type 0 where
  pub access_token : String
  pub refresh_token : String
  pub expires_in : ℤ
  pub user_id : String
  pub username : String
  pub role : String

pub data AuthError : Type 0 where
  invalid_credentials token_invalid session_expired auth_failed : AuthError

pub data AuthResult : Type 0 where
  granted : TokenResp → AuthResult
  denied : AuthError → AuthResult

-- `sign` is `SignedString`; `parse` gives the claims of a token that is valid at a time.
pub record Jwt : Type 0 where
  pub sign : UserClaims → Option String
  pub parse : ℤ → String → Option UserClaims

-- The answers of `redis.Get`.
pub data Reply : Type 0 where
  value : String → Reply
  nil failed : Reply

pub record Redis (R : Type 0) : Type 0 where
  pub get : String → R → Reply × R
  pub set : String → String → R → Bool × R
  pub del : String → R → Bool × R

abbrev pub session_key : String → String
session_key user_id = redis_key_prefix ++ user_id

abbrev pub claims_of : String → String → String → ℤ → ℤ → String → UserClaims
claims_of user_id username role now expires jti = record {
  user_id = user_id;
  username = username;
  role = role;
  expires_at = expires;
  issued_at = now;
  not_before = now;
  issuer = issuer_name;
  jti = jti;
}

-- What a call takes from the clock, the configured times and uuid: the time, the ends of the two tokens, the seconds
-- of the first, and a new name.
pub record Now : Type 0 where
  pub now : ℤ
  pub access_end : ℤ
  pub refresh_end : ℤ
  pub access_seconds : ℤ
  pub new_id : String

module _ {R : Type 0} (jwt : Jwt) (redis : Redis R) where
  -- The last step of `generateTokens`.
  unfoldable pub store_refresh : ℤ → String → String → String → R → AuthResult × R
  store_refresh seconds user_id access refresh_token r =
      let (stored, r') = redis.set (session_key user_id) refresh_token r in
      if stored
      then (
        granted (record {
          access_token = access;
          refresh_token = refresh_token;
          expires_in = seconds;
          user_id = "";
          username = "";
          role = "";
        }),
        r',
      )
      else (denied auth_failed, r')

  unfoldable pub generate_tokens : Now → String → String → String → R → AuthResult × R
  unfolding store_refresh
  generate_tokens t user_id username role r =
      elim (jwt.sign (claims_of user_id username role t.now t.access_end "")) [
        | none ↦ (denied auth_failed, r)
        | some access ↦
            elim (jwt.sign (claims_of user_id username role t.now t.refresh_end t.new_id)) [
              | none ↦ (denied auth_failed, r)
              | some refresh_token ↦ store_refresh t.access_seconds user_id access refresh_token r
            ]
      ]

  -- `tokens.User = ...`
  unfoldable pub with_user : String → String → String → AuthResult × R → AuthResult × R
  with_user user_id username role (granted t, r) =
      (granted (record t { user_id = user_id; username = username; role = role }), r)
  with_user user_id username role (denied e, r) = (denied e, r)

  unfoldable pub login : Now → String → String → R → AuthResult × R
  unfolding with_user
  login t username password r =
      if not (str_eq username "admin") || not (str_eq password "admin123")
      then (denied invalid_credentials, r)
      else with_user "1001" username "admin" (generate_tokens t "1001" username "admin" r)

  -- `Refresh` after the read of the session.
  unfoldable pub with_session : Now → UserClaims → String → Reply → R → AuthResult × R
  with_session t claims token nil r = (denied session_expired, r)
  with_session t claims token failed r = (denied auth_failed, r)
  with_session t claims token (value stored) r =
      if str_eq stored token
      then generate_tokens t claims.user_id claims.username claims.role r
      else (denied token_invalid, r)

  unfoldable pub refresh : Now → String → R → AuthResult × R
  refresh t token r = elim (jwt.parse t.now token) [
    | none ↦ (denied token_invalid, r)
    | some claims ↦
        let (reply, r') = redis.get (session_key claims.user_id) r in
        with_session t claims token reply r'
  ]

  unfoldable pub logout : String → R → Bool × R
  logout user_id r = redis.del (session_key user_id) r
