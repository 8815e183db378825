-- ===== src/Http/Tests.antt =====
-- Requests to a server whose tokens are signed by one sign, over a database that does not fail.
use mizuflow.Base.{
  ℕ, String, ◌≡◌, ◌≢◌, refl, ◌&&◌, ◌==◌, Bool, true, false, Option, none, some, [], ◌∷◌, str_eq,
  if◌then◌else◌, arith,
}
use mizuflow.Base.Int.{ℤ, pos, negsuc}
use mizuflow.Base.Text.{split}
use mizuflow.Base.Dict.{Dict, lookup, insert}
use mizuflow.Auth.{
  Jwt, Redis, nil, UserClaims, claims_of, issuer_name, TokenResp, login as auth_login,
}
use mizuflow.RateLimit.{
  RateRedis, failed, Limiter, rate_limit, fall_back, allow_local, requests_or_default,
}
use mizuflow.Samples.{two_json}
use mizuflow.Samples.Rows.{Slot, end_of, parsers, features, audits, slot_laws}
use mizuflow.Features.{save_feature, outcome_of, save_transaction, write_all}
use mizuflow.Features.Validate.{validate_payload}
use mizuflow.Http.{
  get_header, get_query, Context, background, GinContext, Response, error, version, OperatorInfo,
  with_operator, dev_admin, jwt_middleware, SdkRepository, token_string, CreateFeatureRequest,
  LoginReq, Queries, ErrorTexts, ServiceState, feature_service, Route, list, create, login, stream,
  watch, dashboard, Served, opens, App, Server, Readings, behind, routed, serve, trace_middleware,
  with_jwt, with_sdk_key, with_limiter, on_world, on_sessions, handle_create_feature, answer_of,
}
use mizuflow.Http.Admission.{status_of, as_operator, serve_admits}
use mizuflow.Http.Statuses.{Unchanged, service, serve_create_unchanged}
use mizuflow.Http.Creation.{Created, serve-Created}

abbrev queries : Queries Slot
queries = record {
  list = λ namespace env search d. (none, d);
  list_by_key = λ namespace env key d. (none, d);
  ping_mysql = λ d. (true, d);
  ping_etcd = λ d. (false, d);
}

abbrev texts : ErrorTexts
texts = record { save_text = λ f. f.value; rollback_text = "rollback"; database_text = "database" }

-- The two claims that a login signs here.
abbrev access_claims : UserClaims
access_claims = claims_of "1001" "admin" "admin" (pos 5) (pos 9) ""

abbrev refresh_claims : UserClaims
refresh_claims = claims_of "1001" "admin" "admin" (pos 5) (pos 99) "a"

unfoldable is_pos : ℤ → ℕ → Bool
is_pos (pos n) k = n == k
is_pos (negsuc n) k = false

unfoldable is_claims : UserClaims → String → ℕ → Bool
unfolding is_pos
is_claims c jti expires =
    str_eq c.user_id "1001"
    && str_eq c.username "admin"
    && str_eq c.role "admin"
    && str_eq c.issuer issuer_name
    && str_eq c.jti jti
    && is_pos c.issued_at 5
    && is_pos c.not_before 5
    && is_pos c.expires_at expires

unfoldable sign : UserClaims → Option String
sign c =
    if is_claims c "" 9 then some "sealed" else if is_claims c "a" 99 then some "renewed" else none

unfoldable parse : String → Option UserClaims
parse s =
    if str_eq s "sealed"
    then some access_claims
    else if str_eq s "renewed"
    then some refresh_claims
    else none

abbrev jwt : Jwt
jwt = record { sign = sign; parse = λ now s. parse s }

abbrev sessions : Redis (Dict String)
sessions = record {
  get = λ key r. (nil, r);
  set = λ key s r. (true, insert key s r);
  del = λ key r. (true, r);
}

-- Redis does not run the script, and the limiters count down.
abbrev scripts : RateRedis (Dict String)
scripts = record { run_script = λ key rate capacity now requested r. (failed, r) }

abbrev limiters : Limiter Bool
limiters = record {
  new_limiter = λ n b. true;
  allow = λ now l. (l, false);
  tokens_left = λ now l. 0;
}

abbrev sdk : SdkRepository (ServiceState Slot)
sdk = record { validate_api_key = λ key env w. (some (str_eq key "k1"), w) }

abbrev app : App (ServiceState Slot) (Dict String) Bool
app = record {
  features = service two_json parsers features audits slot_laws queries texts;
  sdk = sdk;
  jwt = jwt;
  sessions = sessions;
  scripts = scripts;
  limiters = limiters;
  requests_per_second = pos 5;
  env = "prod";
  bind_error = "EOF";
}

abbrev readings : Readings
readings = record {
  time = record {
    now = pos 5;
    access_end = pos 9;
    refresh_end = pos 99;
    access_seconds = pos 4;
    new_id = "a";
  };
  micros = 7;
  trace_id = "t";
}

abbrev server : Server (ServiceState Slot) (Dict String) Bool
server = record {
  world = record { db = none; spawned = [] };
  limits = record { redis = []; locals = [] };
}

abbrev request_with : Dict String → GinContext
request_with headers = record {
  headers = headers;
  query = [];
  client_ip = "a";
  ctx = background;
  keys = [];
}

abbrev with_token : GinContext
with_token = request_with (("Authorization", "Bearer sealed") ∷ [])

abbrev as_developer : GinContext
as_developer = request_with (("X-Dev-Pass", "true") ∷ [])

abbrev body : CreateFeatureRequest
body = record { namespace = "shop"; env = "prod"; key = "dark"; value = "true"; type_name = "bool" }

abbrev bad_body : CreateFeatureRequest
bad_body = record body { value = "yes" }

serve_admits_example :
    serve app readings (create (some body)) as_developer server
    ≡ behind app readings
        (create (some body))
        (as_operator (trace_middleware "t" as_developer) dev_admin)
        server
unfolding lookup parse
serve_admits_example =
    serve_admits app readings (create (some body)) as_developer server dev_admin refl refl refl

abbrev with_key : GinContext
with_key = request_with (("X-Mizu-Key", "k1") ∷ [])

opened :
    (serve app readings (stream watch) with_key server).0
    ≡ opens watch (trace_middleware "t" with_key)
unfolding serve mizuflow.Http.sdk_auth_middleware lookup trace_middleware
opened = refl

created_status : status_of (serve app readings (create (some body)) with_token server).0 ≡ 200
unfolding serve lookup token_string split parse handle_create_feature feature_service rate_limit
    fall_back allow_local requests_or_default insert jwt_middleware trace_middleware answer_of
    mizuflow.Http.service_save save_feature validate_payload outcome_of end_of save_transaction
    write_all
created_status = refl

serve-Created_example :
    Created two_json parsers features audits slot_laws queries texts
      (Dict String)
      Bool
      app
      readings
      (some body)
      with_token
      server.world
      (serve app readings (create (some body)) with_token server)
unfolding parse
serve-Created_example =
    serve-Created two_json parsers features audits slot_laws queries texts (Dict String) Bool app
      readings (some body) with_token server refl refl created_status

bad_is_500 : status_of (serve app readings (create (some bad_body)) with_token server).0 ≡ 500
unfolding serve lookup token_string split parse handle_create_feature feature_service rate_limit
    fall_back allow_local requests_or_default insert jwt_middleware trace_middleware answer_of
    mizuflow.Http.service_save save_feature validate_payload outcome_of end_of save_transaction
    write_all
bad_is_500 = refl

bad_status : status_of (serve app readings (create (some bad_body)) with_token server).0 ≢ 200
bad_status h = omega (arith, bad_is_500)

serve_create_unchanged_example :
    Unchanged two_json parsers features audits slot_laws queries texts server.world
      (serve app readings (create (some bad_body)) with_token server).1.world
serve_create_unchanged_example =
    serve_create_unchanged two_json parsers features audits slot_laws queries texts (Dict String)
      Bool app readings (some bad_body) with_token server refl bad_status

abbrev granted_tokens : TokenResp
granted_tokens = record {
  access_token = "sealed";
  refresh_token = "renewed";
  expires_in = pos 4;
  user_id = "1001";
  username = "admin";
  role = "admin";
}

abbrev account : Option LoginReq
account = some (record { username = "admin"; password = "admin123" })
