-- ===== src/Http/Routes.antt =====
-- internal/api/router.go: `RegisterRoutes`, as what is done for a request of each route.
use mizuflow.Base.{ℕ, String, true, Option, str_eq}
use mizuflow.Base.Int.{ℤ}
use mizuflow.Auth.{Jwt, Redis, Now}
use mizuflow.RateLimit.{RateRedis, Limiter, Limits, Verdict, passes, too_many, rate_limit}
use mizuflow.Http.Request.{GinContext, trace_middleware, Response, respond, error}
use mizuflow.Http.Guards.{
  Gate, continues, aborts, jwt_middleware, SdkRepository, sdk_auth_middleware,
}
use mizuflow.Http.Handlers.{
  CreateFeatureRequest, RollbackFeatureRequest, LoginReq, BoundGet, FeatureProvider,
  handle_create_feature, handle_get_feature, handle_list_features, handle_get_feature_audits,
  handle_rollback_feature, health_check, handle_login, handle_refresh, handle_logout, get_profile,
}

-- The requests of the stream handlers.
pub data StreamRoute : Type 0 where
  watch snapshot dashboard : StreamRoute

-- The registered routes, each with what gin binds for its handler; that of the metrics is a library's.
pub data Route : Type 0 where
  health me logout list : Route
  login : Option LoginReq → Route
  refresh : Option String → Route
  stream : StreamRoute → Route
  create : Option CreateFeatureRequest → Route
  get : BoundGet → Route
  get_audits : String → Route
  rollback : String → Option RollbackFeatureRequest → Route

-- A response, or a request that a stream handler takes over.
pub data Served : Type 0 where
  answers : Response → Served
  opens : StreamRoute → GinContext → Served

-- What `RegisterRoutes` is given, and the libraries.
pub record App (W R L : Type 0) : Type 0 where
  pub features : FeatureProvider W
  pub sdk : SdkRepository W
  pub jwt : Jwt
  pub sessions : Redis R
  pub scripts : RateRedis R
  pub limiters : Limiter L
  pub requests_per_second : ℤ
  pub env : String
  pub bind_error : String

-- The state of the services, and Redis with the limiters of the server.
pub record Server (W R L : Type 0) : Type 0 where
  pub world : W
  pub limits : Limits R L

-- The readings that a request takes: those of a grant of tokens, the limiter's clock, and a new trace id.
pub record Readings : Type 0 where
  pub time : Now
  pub micros : ℕ
  pub trace_id : String

abbrev pub Handler : Type 0 → Type 0 → Type 0 → Type 0
Handler W R L = GinContext → Server W R L → Served × Server W R L

-- A handler that works on the state of the services, and one that works on the sessions.
unfoldable pub on_world : {W R L : Type 0} → (GinContext → W → Response × W) → Handler W R L
on_world h c s = let (r, w) = h c s.world in (answers r, record s { world = w })

unfoldable pub on_sessions : {W R L : Type 0} → (GinContext → R → Response × R) → Handler W R L
on_sessions h c s =
    let (r, redis) = h c s.limits.redis in
    (answers r, record s { limits = record { redis = redis; locals = s.limits.locals } })

-- What follows a middleware: the handlers after it, or nothing.
abbrev pub after_gate :
    {W R L : Type 0} → Handler W R L → Gate → Server W R L → Served × Server W R L
after_gate next (continues c) s = next c s
after_gate next (aborts r) s = (answers r, s)

abbrev pub after_limit :
    {W R L : Type 0} → Handler W R L → GinContext → Verdict → Server W R L → Served × Server W R L
after_limit next c (passes _) s = next c s
after_limit next c (too_many _) s = (answers (respond 429 (error "Too Many Requests")), s)

module _ {W R L : Type 0} (app : App W R L) (t : Readings) where
  -- `JWTMiddleware(true)`
  unfoldable pub with_jwt : Handler W R L → Handler W R L
  with_jwt next c s = after_gate next (jwt_middleware app.jwt true t.time.now c) s

  -- `SDKAuthMiddleware(sdkRepo, bypassAuth)`
  unfoldable pub with_sdk_key : Handler W R L → Handler W R L
  with_sdk_key next c s =
      let (gate, w) = sdk_auth_middleware app.sdk (str_eq app.env "loadtest") c s.world in
      after_gate next gate (record s { world = w })

  -- `writeLimiter`
  unfoldable pub with_limiter : Handler W R L → Handler W R L
  with_limiter next c s =
      let (verdict, limits) =
        rate_limit app.scripts app.limiters app.requests_per_second c.client_ip t.micros s.limits in
      after_limit next c verdict (record s { limits = limits })

  unfoldable pub open_stream : StreamRoute → Handler W R L
  open_stream route c s = (opens route c, s)

  -- The handlers of a route behind its first middleware, and the routes that have `JWTMiddleware`.
  unfoldable pub behind : Route → Handler W R L
  unfolding on_world on_sessions open_stream with_limiter
  behind health = on_world (health_check app.features)
  behind (login body) =
      on_sessions (λ _. handle_login app.jwt app.sessions app.bind_error t.time body)
  behind (refresh body) =
      on_sessions (λ _. handle_refresh app.jwt app.sessions app.bind_error t.time body)
  behind me = λ c s. (answers (get_profile c), s)
  behind logout = on_sessions (handle_logout app.jwt app.sessions app.bind_error)
  behind (stream route) = open_stream route
  behind (create body) = with_limiter (on_world (handle_create_feature app.features body))
  behind list = on_world (handle_list_features app.features)
  behind (get body) = on_world (handle_get_feature app.features body)
  behind (get_audits key) = on_world (handle_get_feature_audits app.features key)
  behind (rollback key body) =
      with_limiter (on_world (handle_rollback_feature app.features key body))

  -- A request. Of the global middleware only that of the trace id touches what the handlers read.
  unfoldable pub routed : Route → Handler W R L
  unfolding with_jwt with_sdk_key behind
  routed health = behind health
  routed (login body) = behind (login body)
  routed (refresh body) = behind (refresh body)
  routed (stream watch) = with_sdk_key (behind (stream watch))
  routed (stream snapshot) = with_sdk_key (behind (stream snapshot))
  routed route = with_jwt (behind route)

  unfoldable pub serve : Route → Handler W R L
  unfolding routed
  serve route c s = routed route (trace_middleware t.trace_id c) s
