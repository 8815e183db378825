-- ===== src/Http/Creation.antt =====
-- internal/api/router.go and internal/api/feature_handler.go: a request to create a flag that is answered with 200.
use mizuflow.Base.{
  ℕ, String, ◌≡◌, refl, ap, inl, inr, Option-cases, Option, none, some, [], ◌∷◌, ◌++◌, arith,
}
use mizuflow.Base.Int.{ℤ}
use mizuflow.Api.{FeatureFlag}
use mizuflow.Json.{Json}
use mizuflow.Db.{OutboxInterface, FeatureInterface, AuditInterface}
use mizuflow.Features.Validate.{Parsers}
use mizuflow.Features.{Gorm, Outcome, saved, invalid, save_failed}
use mizuflow.Features.Atomic.{TransactionLaws, save_feature-saved, Committed}
use mizuflow.RateLimit.{Verdict, passes, too_many, Limits, rate_limit}
use mizuflow.Http.Request.{
  OperatorInfo, with_operator, get_operator_info, GinContext, get_operator, trace_of,
  trace_middleware, Response, respond, version,
}
use mizuflow.Http.Handlers.{
  FeatureProvider, CreateFeatureRequest, handle_create_feature, requested_flag, answer_of,
}
use mizuflow.Http.Service.{
  Queries, ErrorTexts, ServiceState, save_reply, spawn, service_save, feature_service,
}
use mizuflow.Http.Routes.{
  create, Served, answers, App, Readings, Handler, on_world, after_limit, with_limiter, behind,
  serve,
}
use mizuflow.Http.Admission.{status_of, identity, as_operator, serve_refuses, serve_admits}
use mizuflow.Http.Statuses.{saves, finished, service, World}

module _ {D : Type 0} (json : Json) (parsers : Parsers) {gorm : Gorm D}
    (features : FeatureInterface D) (audits : AuditInterface D) {outbox : OutboxInterface D}
    (laws : TransactionLaws gorm outbox) (queries : Queries D) (texts : ErrorTexts)
    (R L : Type 0) where
  -- What a save has done, of a flag without a version, for an operator.
  pub record Saved (flag : FeatureFlag) (operator trace_id : String) (s : ServiceState D)
      (p : Response × ServiceState D) : Type 0 where
    pub latest : ℤ
    pub id : ℕ
    pub answer : p.0 ≡ respond 200 (version latest)
    pub started : p.1.spawned ≡ s.spawned ++ (id, record flag { version = latest }) ∷ []
    pub committed :
        Committed json parsers features audits laws flag operator trace_id latest id s.db p.1.db

  finished-Saved :
      (flag : FeatureFlag) (operator trace_id : String) (s : ServiceState D) (p : Outcome × D)
      → ((v : ℤ) (id : ℕ) (f : FeatureFlag)
          → p.0 ≡ saved v id f
          → (f ≡ record flag { version = v })
            × Committed json parsers features audits laws flag operator trace_id v id s.db p.1)
      → (finished json parsers features audits laws queries texts flag p s.spawned).0.status ≡ 200
      → Saved flag operator trace_id s
          (finished json parsers features audits laws queries texts flag p s.spawned)
  unfolding finished save_reply answer_of spawn
  finished-Saved flag operator trace_id s (saved v i f, d) facts h =
      let (same, committed) = facts v i f refl in
      record {
        latest = v;
        id = i;
        answer = refl;
        started = ap (λ (g : FeatureFlag). s.spawned ++ (i, g) ∷ []) same;
        committed = committed;
      }
  finished-Saved flag operator trace_id s (invalid, d) facts h = absurd (omega arith)
  finished-Saved flag operator trace_id s (save_failed, d) facts h = absurd (omega arith)

  create_feature-Saved :
      (r : CreateFeatureRequest) (c : GinContext) (s : ServiceState D)
      → (handle_create_feature
          (service json parsers features audits laws queries texts)
          (some r)
          c
          s).0.status
        ≡ 200
      → Saved (requested_flag r) (get_operator c.ctx) (trace_of c.ctx) s (
          handle_create_feature
            (service json parsers features audits laws queries texts)
            (some r)
            c
            s)
  unfolding handle_create_feature feature_service service_save finished saves
  create_feature-Saved r c s h =
      finished-Saved (requested_flag r) (get_operator c.ctx) (trace_of c.ctx) s
        (saves json parsers features audits laws queries texts c.ctx (requested_flag r) s)
        (λ v id f e.
          save_feature-saved json parsers features audits laws (requested_flag r)
            (get_operator c.ctx) (trace_of c.ctx) v id f s.db e)
        h

  abbrev Servers : Type 0
  Servers = World json parsers features audits laws queries texts R L

  -- What is known of a request to create a flag that was answered with 200.
  pub record Created (app : App (ServiceState D) R L) (t : Readings)
      (body : Option CreateFeatureRequest) (c : GinContext) (w : ServiceState D)
      (p : Served × Servers) : Type 0 where
    pub request : CreateFeatureRequest
    pub bound : body ≡ some request
    pub operator : OperatorInfo
    pub from : identity app.jwt t.time.now c ≡ some operator
    pub response : Response
    pub answered : p.0 ≡ answers response
    pub saved_it :
        Saved (requested_flag request) operator.name (trace_of c.ctx) w (response, p.1.world)

  abbrev created : Option CreateFeatureRequest → Handler (ServiceState D) R L
  created body =
      on_world
        (handle_create_feature (service json parsers features audits laws queries texts) body)

  handler-Created :
      (app : App (ServiceState D) R L) (t : Readings) (body : Option CreateFeatureRequest)
      (c : GinContext) (op : OperatorInfo) (s : Servers)
      → identity app.jwt t.time.now c ≡ some op
      → status_of (created body (as_operator (trace_middleware t.trace_id c) op) s).0 ≡ 200
      → Created app t body c s.world
          (created body (as_operator (trace_middleware t.trace_id c) op) s)
  unfolding on_world trace_middleware handle_create_feature with_operator get_operator
      get_operator_info trace_of
  handler-Created app t none c op s from h = absurd (omega arith)
  handler-Created app t (some r) c op s from h = record {
    request = r;
    bound = refl;
    operator = op;
    from = from;
    response =
        (handle_create_feature (service json parsers features audits laws queries texts) (some r)
          (as_operator (trace_middleware t.trace_id c) op) s.world).0;
    answered = refl;
    saved_it = create_feature-Saved r (as_operator (trace_middleware t.trace_id c) op) s.world h;
  }

  provided-Created :
      (app : App (ServiceState D) R L) (t : Readings) (body : Option CreateFeatureRequest)
      (c : GinContext) (op : OperatorInfo) (s : Servers)
      (provider : FeatureProvider (ServiceState D))
      → identity app.jwt t.time.now c ≡ some op
      → provider ≡ service json parsers features audits laws queries texts
      → status_of
          (on_world
            (handle_create_feature provider body)
            (as_operator (trace_middleware t.trace_id c) op)
            s).0
        ≡ 200
      → Created app t body c s.world (
          on_world
            (handle_create_feature provider body)
            (as_operator (trace_middleware t.trace_id c) op)
            s)
  provided-Created app t body c op s provider from same h =
      rw same (handler-Created app t body c op s from (rw same at h))

  after_limit-Created :
      (app : App (ServiceState D) R L) (t : Readings) (body : Option CreateFeatureRequest)
      (c c' : GinContext) (s : Servers) (next : Handler (ServiceState D) R L) (v : Verdict)
      → (status_of (next c' s).0 ≡ 200 → Created app t body c s.world (next c' s))
      → status_of (after_limit next c' v s).0 ≡ 200
      → Created app t body c s.world (after_limit next c' v s)
  after_limit-Created app t body c c' s next (passes _) made h = made h
  after_limit-Created app t body c c' s next (too_many _) made h = absurd (omega arith)

  limited :
      (app : App (ServiceState D) R L) (t : Readings) (body : Option CreateFeatureRequest)
      (c : GinContext) (s : Servers)
      → app.features ≡ service json parsers features audits laws queries texts
      → (op : OperatorInfo) → identity app.jwt t.time.now c ≡ some op
      → status_of (behind app t (create body) (as_operator (trace_middleware t.trace_id c) op) s).0
        ≡ 200
      → Created app t body c s.world
          (behind app t (create body) (as_operator (trace_middleware t.trace_id c) op) s)
  unfolding behind with_limiter
  limited app t body c s same op from =
      after_limit-Created app t body c c' counted
        (on_world (handle_create_feature app.features body)) verdict.0
        (λ k. provided-Created app t body c op counted app.features from same k)
    where
      c' : GinContext
      c' = as_operator (trace_middleware t.trace_id c) op

      verdict : Verdict × Limits R L
      verdict =
          rate_limit app.scripts app.limiters app.requests_per_second c'.client_ip t.micros s.limits

      counted : Servers
      counted = record s { limits = verdict.1 }

  -- Of a server over the feature service, where a created task and a committed transaction are what they say
  -- and the empty token cannot be parsed: a request to create a flag that is answered with 200 had a body and
  -- came from an operator that its header or its token names; the flag of the body was saved in this operator's
  -- name, the response has its new version, and `syncToEtcd` was started with the flag at this version and the
  -- id of the pending task that holds it.
  pub serve-Created :
      (app : App (ServiceState D) R L) (t : Readings) (body : Option CreateFeatureRequest)
      (c : GinContext) (s : Servers)
      → app.features ≡ service json parsers features audits laws queries texts
      → app.jwt.parse t.time.now "" ≡ none
      → status_of (serve app t (create body) c s).0 ≡ 200
      → Created app t body c s.world (serve app t (create body) c s)
  serve-Created app t body c s same no_token h =
      elim (Option-cases (identity app.jwt t.time.now c)) [
        | inl unknown ↦
            absurd (omega (arith, (serve_refuses app t (create body) c s refl unknown).0))
        | inr (op, from) ↦
            let admitted = serve_admits app t (create body) c s op no_token refl from in
            rw admitted (limited app t body c s same op from (rw admitted at h))
      ]
