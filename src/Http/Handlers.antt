-- ===== src/Http/Handlers.antt =====
-- internal/api/feature_handler.go and internal/api/auth_handler.go, with the requests of internal/dto/req. What gin
-- binds of a request is an input: `none` where the binding fails.
use Prim.Native.String.{◌++◌}
use mizuflow.Base.{ℕ, String, Option, none, some, List}
use mizuflow.Base.Int.{ℤ, pos}
use mizuflow.Api.{FeatureFlag}
use mizuflow.Features.Reads.{FeatureItem, AuditLogItem}
use mizuflow.Auth.{
  Jwt, Redis, Now, AuthResult, granted, denied, invalid_credentials, login, refresh, logout,
}
use mizuflow.Http.Request.{
  Context, OperatorInfo, get_operator, get_operator_info, GinContext, get_query, default_query,
  Body, Response, respond, error, version, item, items, audits, tokens, profile, done,
}

pub record CreateFeatureRequest : Type 0 where
  pub namespace : String
  pub env : String
  pub key : String
  pub value : String
  pub type_name : String

pub record GetFeatureRequest : Type 0 where
  pub namespace : String
  pub env : String
  pub key : String

pub record RollbackFeatureRequest : Type 0 where
  pub namespace : String
  pub env : String
  pub audit_id : ℕ

pub record LoginReq : Type 0 where
  pub username : String
  pub password : String

-- The two bindings of `GetFeature`, of the path and of the query.
pub data BoundGet : Type 0 where
  bad_uri bad_query : BoundGet
  bound : GetFeatureRequest → BoundGet

-- A result of Go with an error, of which the text is kept.
pub data Result (A : Type 0) : Type 0 where
  returned : A → Result A
  fails : String → Result A

-- `FeatureProvider`
pub record FeatureProvider (W : Type 0) : Type 0 where
  pub save_feature : Context → FeatureFlag → String → W → Result ℤ × W
  pub get_feature : Context → String → String → String → W → Result FeatureItem × W
  pub list_features : Context → String → String → String → W → Result (List FeatureItem) × W
  pub get_feature_audits : Context → String → String → String → W → Result (List AuditLogItem) × W
  pub rollback_feature : Context → String → String → String → ℕ → String → W → Result ℤ × W
  pub health : Context → W → Option String × W

-- `if err != nil { c.JSON(500, ...) }`, and the answer otherwise.
unfoldable pub answer_of : {A : Type 0} → (A → Body) → Result A → Response
answer_of body (returned a) = respond 200 (body a)
answer_of body (fails text) = respond 500 (error text)

abbrev pub requested_flag : CreateFeatureRequest → FeatureFlag
requested_flag r = record {
  namespace = r.namespace;
  env = r.env;
  key = r.key;
  value = r.value;
  version = pos 0;
  revision = pos 0;
  type_name = r.type_name;
}

-- `HealthCheck` after the call.
abbrev pub health_of : Option String → Response
health_of none = respond 200 done
health_of (some text) = respond 503 (error text)

module _ {W : Type 0} (service : FeatureProvider W) where
  unfoldable pub handle_create_feature : Option CreateFeatureRequest → GinContext → W → Response × W
  handle_create_feature none c w = (respond 400 (error "JSON format error"), w)
  handle_create_feature (some r) c w =
      let (result, w') = service.save_feature c.ctx (requested_flag r) (get_operator c.ctx) w in
      (answer_of version result, w')

  unfoldable pub handle_get_feature : BoundGet → GinContext → W → Response × W
  handle_get_feature bad_uri c w = (respond 400 (error "invalid key"), w)
  handle_get_feature bad_query c w = (respond 400 (error "invalid params"), w)
  handle_get_feature (bound r) c w =
      let (result, w') = service.get_feature c.ctx r.namespace r.env r.key w in
      (answer_of item result, w')

  unfoldable pub handle_list_features : GinContext → W → Response × W
  handle_list_features c w =
      let (result, w') =
        service.list_features c.ctx (get_query c "namespace") (get_query c "env")
          (get_query c "search") w in
      (answer_of items result, w')

  unfoldable pub handle_get_feature_audits : String → GinContext → W → Response × W
  handle_get_feature_audits key c w =
      let (result, w') =
        service.get_feature_audits c.ctx (default_query c "namespace" "default")
          (default_query c "env" "dev") key w in
      (answer_of audits result, w')

  unfoldable pub handle_rollback_feature :
      String → Option RollbackFeatureRequest → GinContext → W → Response × W
  handle_rollback_feature key none c w = (respond 400 (error "invalid request body"), w)
  handle_rollback_feature key (some r) c w =
      let (result, w') =
        service.rollback_feature c.ctx r.namespace r.env key r.audit_id (get_operator c.ctx) w in
      (answer_of version result, w')

  unfoldable pub health_check : GinContext → W → Response × W
  health_check c w = let (err, w') = service.health c.ctx w in (health_of err, w')

abbrev pub login_answer : AuthResult → Response
login_answer (granted t) = respond 200 (tokens t)
login_answer (denied invalid_credentials) = respond 401 (error "invalid username or password")
login_answer (denied _) = respond 500 (error "login failed")

abbrev pub refresh_answer : AuthResult → Response
refresh_answer (granted t) = respond 200 (tokens t)
refresh_answer (denied _) = respond 401 (error "invalid refresh token")

-- The text of a failed binding is gin's.
module _ {R : Type 0} (jwt : Jwt) (redis : Redis R) (bind_error : String) where
  unfoldable pub handle_login : Now → Option LoginReq → R → Response × R
  handle_login t none r = (respond 400 (error bind_error), r)
  handle_login t (some body) r =
      let (result, r') = login jwt redis t body.username body.password r in
      (login_answer result, r')

  unfoldable pub handle_refresh : Now → Option String → R → Response × R
  handle_refresh t none r = (respond 400 (error bind_error), r)
  handle_refresh t (some refresh_token) r =
      let (result, r') = refresh jwt redis t refresh_token r in (refresh_answer result, r')

  -- An error of the session's removal is logged.
  abbrev pub logout_of : Option OperatorInfo → R → Response × R
  logout_of none r = (respond 401 (error "unauthorized"), r)
  logout_of (some op) r = let (_, r') = logout jwt redis op.user_id r in (respond 200 done, r')

  unfoldable pub handle_logout : GinContext → R → Response × R
  unfolding get_operator_info
  handle_logout c r = logout_of (get_operator_info c.ctx) r

abbrev avatar_of : String → String
avatar_of name = "https://api.dicebear.com/7.x/avataaars/svg?seed=" ++ name

abbrev pub profile_of : Option OperatorInfo → Response
profile_of none = respond 401 (error "unauthorized")
profile_of (some op) = respond 200 (profile op (avatar_of op.name))

unfoldable pub get_profile : GinContext → Response
unfolding get_operator_info
get_profile c = profile_of (get_operator_info c.ctx)
