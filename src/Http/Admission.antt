-- ===== src/Http/Admission.antt =====
-- internal/middleware/jwt.go and internal/middleware/auth.go on the routes of internal/api/router.go: who is let in.
use mizuflow.Base.{
  ℕ, String, ◌≡◌, ◌≢◌, refl, sym, ap, ◌∙◌, Bool, true, false, inl, inr, ◌⊎◌, Bool-cases,
  Option-cases, Option, none, some, str_eq, eq_iff, if◌then◌else◌, arith,
}
use mathlib.Core.Option.{some-injective, none-ne-some}
use mizuflow.Base.Int.{ℤ}
use mizuflow.Auth.{Jwt}
use mizuflow.Http.Request.{
  OperatorInfo, with_operator, GinContext, get_header, get_query, trace_middleware, Response,
}
use mizuflow.Http.Guards.{
  Gate, continues, aborts, admit, dev_admin, operator_of, token_string, jwt_middleware,
  sdk_auth_middleware, admit_key,
}
use mizuflow.Http.Routes.{
  Route, StreamRoute, health, me, logout, list, login, refresh, stream, create, get, get_audits,
  rollback, watch, snapshot, dashboard, Served, answers, opens, App, Server, Handler, Readings,
  after_gate, with_jwt, with_sdk_key, behind, routed, serve,
}

-- The routes that `JWTMiddleware` guards.
abbrev pub is_protected : Route → Bool
is_protected health = false
is_protected (login _) = false
is_protected (refresh _) = false
is_protected (stream watch) = false
is_protected (stream snapshot) = false
is_protected _ = true

abbrev pub status_of : Served → ℕ
status_of (answers r) = r.status
status_of (opens _ _) = 200

-- Whom a request comes from.
abbrev pub identity : Jwt → ℤ → GinContext → Option OperatorInfo
identity jwt now c =
    if str_eq (get_header c "X-Dev-Pass") "true"
    then some dev_admin
    else elim (jwt.parse now (token_string c)) [
      | none ↦ none
      | some claims ↦ some (operator_of claims)
    ]

abbrev pub as_operator : GinContext → OperatorInfo → GinContext
as_operator c op = record c { ctx = with_operator c.ctx op }

-- The status of a refusal.
abbrev gate_status : Gate → ℕ
gate_status (continues _) = 200
gate_status (aborts r) = r.status

jwt_middleware_refuses :
    (jwt : Jwt) (now : ℤ) (c : GinContext)
    → identity jwt now c ≡ none
    → gate_status (jwt_middleware jwt true now c) ≡ 401
unfolding jwt_middleware
jwt_middleware_refuses jwt now c h = elim (Bool-cases (str_eq (get_header c "X-Dev-Pass") "true")) [
  | inl dev ↦ absurd (none-ne-some dev_admin (sym (rw dev at h)))
  | inr plain ↦ elim (Bool-cases (str_eq (token_string c) "")) [
    | inl empty ↦ rw (plain, empty) refl
    | inr given ↦ elim (Option-cases (jwt.parse now (token_string c))) [
      | inl bad ↦ rw (plain, given, bad) refl
      | inr (claims, good) ↦
          absurd (none-ne-some (operator_of claims) (sym (rw (plain, good) at h)))
    ]
  ]
]

jwt_middleware_admits :
    (jwt : Jwt) (now : ℤ) (c : GinContext) (op : OperatorInfo)
    → jwt.parse now "" ≡ none
    → identity jwt now c ≡ some op
    → jwt_middleware jwt true now c ≡ admit c op
unfolding jwt_middleware
jwt_middleware_admits jwt now c op no_token h =
    elim (Bool-cases (str_eq (get_header c "X-Dev-Pass") "true")) [
      | inl dev ↦ rw dev (ap (admit c) (some-injective _ _ (rw dev at h)))
      | inr plain ↦ elim (Option-cases (jwt.parse now (token_string c))) [
        | inl bad ↦ absurd (none-ne-some op (rw (plain, bad) at h))
        | inr (claims, good) ↦ elim (Bool-cases (str_eq (token_string c) "")) [
          | inl empty ↦ absurd (
              none-ne-some claims (
                sym no_token
                ∙ ap (jwt.parse now) (sym ((eq_iff (token_string c) "").0 empty))
                ∙ good))
          | inr given ↦
              rw (plain, given, good) (ap (admit c) (some-injective _ _ (rw (plain, good) at h)))
        ]
      ]
    ]

gate_refuses :
    {W R L : Type 0} (next : Handler W R L) (gate : Gate) (s : Server W R L)
    → gate_status gate ≡ 401
    → (status_of (after_gate next gate s).0 ≡ 401) × ((after_gate next gate s).1 ≡ s)
gate_refuses next (continues c) s h = absurd (omega arith)
gate_refuses next (aborts r) s h = (h, refl)

differs : (a b : String) → str_eq a b ≡ false → a ≢ b
differs a b h e = ground (arith, eq_iff a b)

module _ {W R L : Type 0} (app : App W R L) (t : Readings) where
  routed_protected :
      (route : Route) (c : GinContext) (s : Server W R L)
      → is_protected route ≡ true
      → routed app t route c s ≡ with_jwt app t (behind app t route) c s
  unfolding routed
  routed_protected health c s h = absurd (cc)
  routed_protected (login b) c s h = absurd (cc)
  routed_protected (refresh b) c s h = absurd (cc)
  routed_protected (stream watch) c s h = absurd (cc)
  routed_protected (stream snapshot) c s h = absurd (cc)
  routed_protected (stream dashboard) c s h = refl
  routed_protected me c s h = refl
  routed_protected logout c s h = refl
  routed_protected list c s h = refl
  routed_protected (create b) c s h = refl
  routed_protected (get b) c s h = refl
  routed_protected (get_audits k) c s h = refl
  routed_protected (rollback k b) c s h = refl

  -- A request for a route behind `JWTMiddleware` that neither has the header `X-Dev-Pass: true` nor a token that
  -- can be parsed is answered with 401, and nothing changes, also not the count of its address.
  pub serve_refuses :
      (route : Route) (c : GinContext) (s : Server W R L)
      → is_protected route ≡ true
      → identity app.jwt t.time.now c ≡ none
      → (status_of (serve app t route c s).0 ≡ 401) × ((serve app t route c s).1 ≡ s)
  unfolding serve with_jwt trace_middleware token_string
  serve_refuses route c s guarded h =
      let traced = trace_middleware t.trace_id c in
      rw (routed_protected route traced s guarded) (
        gate_refuses (behind app t route) (jwt_middleware app.jwt true t.time.now traced) s
          (jwt_middleware_refuses app.jwt t.time.now traced h))

  -- Where the empty token cannot be parsed, a request for a route behind `JWTMiddleware` reaches the route's
  -- handlers as the operator that it is from: the administrator of the header `X-Dev-Pass: true`, whatever else
  -- it holds, and otherwise the user of its token's claims.
  pub serve_admits :
      (route : Route) (c : GinContext) (s : Server W R L) (op : OperatorInfo)
      → app.jwt.parse t.time.now "" ≡ none
      → is_protected route ≡ true
      → identity app.jwt t.time.now c ≡ some op
      → serve app t route c s
        ≡ behind app t route (as_operator (trace_middleware t.trace_id c) op) s
  unfolding serve with_jwt trace_middleware token_string
  serve_admits route c s op no_token guarded h =
      let traced = trace_middleware t.trace_id c in
      routed_protected route traced s guarded
      ∙ ap (λ g. after_gate (behind app t route) g s)
          (jwt_middleware_admits app.jwt t.time.now traced op no_token h)

  -- The server does not ask for keys, or it has found the request's key valid for the request's environment.
  abbrev HasKey : GinContext → W → Type 0
  HasKey c w =
      (app.env ≡ "loadtest")
      ⊎ ((get_header c "X-Mizu-Key" ≢ "")
          × ((app.sdk.validate_api_key (get_header c "X-Mizu-Key") (get_query c "env") w).0
              ≡ some true))

  not_opened : (r : Response) (kind : StreamRoute) (c' : GinContext) → answers r ≢ opens kind c'
  not_opened r kind c' h = cc

  admit_key_opens :
      (next : Handler W R L) (kind : StreamRoute) (c c' : GinContext) (ok : Option Bool)
      (s : Server W R L)
      → (after_gate next (admit_key c ok) s).0 ≡ opens kind c'
      → ok ≡ some true
  admit_key_opens next kind c c' (some true) s h = refl
  admit_key_opens next kind c c' (some false) s h = absurd (not_opened _ kind c' h)
  admit_key_opens next kind c c' none s h = absurd (not_opened _ kind c' h)

  with_sdk_key_opens :
      (next : Handler W R L) (kind : StreamRoute) (c c' : GinContext) (s : Server W R L)
      → (with_sdk_key app t next c s).0 ≡ opens kind c'
      → HasKey c s.world
  unfolding with_sdk_key sdk_auth_middleware
  with_sdk_key_opens next kind c c' s h = elim (Bool-cases (str_eq app.env "loadtest")) [
    | inl free ↦ inl ((eq_iff app.env "loadtest").0 free)
    | inr asks ↦ elim (Bool-cases (str_eq (get_header c "X-Mizu-Key") "")) [
      | inl empty ↦ absurd (not_opened _ kind c' (rw (asks, empty) at h))
      | inr given ↦ inr (
        differs (get_header c "X-Mizu-Key") "" given,
        admit_key_opens next kind c c' _ _ (rw (asks, given) at h),
      )
    ]
  ]

  -- A watch or a fetch of the snapshot is opened only where the server is started for a load test or the request's key
  -- is not empty and valid for the environment that it names.
  pub serve_opens :
      (kind : StreamRoute) (c c' : GinContext) (s : Server W R L)
      → kind ≢ dashboard
      → (serve app t (stream kind) c s).0 ≡ opens kind c'
      → HasKey c s.world
  unfolding serve routed trace_middleware
  serve_opens watch c c' s other h =
      with_sdk_key_opens (behind app t (stream watch)) watch (trace_middleware t.trace_id c) c' s h
  serve_opens snapshot c c' s other h =
      with_sdk_key_opens (behind app t (stream snapshot)) snapshot (trace_middleware t.trace_id c)
        c' s h
  serve_opens dashboard c c' s other h = absurd (other refl)
