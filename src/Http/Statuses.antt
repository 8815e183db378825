-- ===== src/Http/Statuses.antt =====
-- internal/api/router.go and internal/api/feature_handler.go: what the status of a request to save says of the database.
use mizuflow.Base.{ℕ, ◌≡◌, ◌≢◌, ◌⊎◌, refl, true, inl, inr, Option, none, some, List}
use mizuflow.Api.{FeatureFlag}
use mizuflow.Json.{Json}
use mizuflow.Db.{OutboxInterface, FeatureInterface, AuditInterface}
use mizuflow.Features.Validate.{Parsers}
use mizuflow.Features.{Gorm, Outcome, saved, invalid, save_failed, save_feature}
use mizuflow.Features.Atomic.{TransactionLaws, save_feature-not_saved}
use mizuflow.RateLimit.{Verdict, passes, too_many, Limits, rate_limit}
use mizuflow.Http.Request.{
  Context, GinContext, get_operator, trace_of, trace_middleware, Response, version,
}
use mizuflow.Http.Guards.{Gate, continues, aborts, jwt_middleware}
use mizuflow.Http.Handlers.{
  FeatureProvider, CreateFeatureRequest, handle_create_feature, requested_flag, answer_of,
}
use mizuflow.Http.Service.{
  Queries, ErrorTexts, ServiceState, save_reply, spawn, service_save, feature_service,
}
use mizuflow.Http.Routes.{
  create, Served, App, Server, Readings, Handler, on_world, after_gate, after_limit, with_jwt,
  with_limiter, behind, routed, serve,
}
use mizuflow.Http.Admission.{status_of}

module _ {D : Type 0} (json : Json) (parsers : Parsers) {gorm : Gorm D}
    (features : FeatureInterface D) (audits : AuditInterface D) {outbox : OutboxInterface D}
    (laws : TransactionLaws gorm outbox) (queries : Queries D) (texts : ErrorTexts) where
  -- The rows and the calls of `syncToEtcd` are as they were.
  pub record Unchanged (s s' : ServiceState D) : Type 0 where
    pub same_rows : laws.Same s.db s'.db
    pub same_calls : s'.spawned ≡ s.spawned

  abbrev unchanged : (s : ServiceState D) → Unchanged s s
  unchanged s = record { same_rows = laws.same_refl s.db; same_calls = refl }

  unfoldable pub saves : Context → FeatureFlag → ServiceState D → Outcome × D
  saves ctx flag s =
      save_feature json parsers gorm features audits outbox flag (get_operator ctx) (trace_of ctx)
        s.db

  -- What follows the save in the handler and the service.
  unfoldable pub finished :
      FeatureFlag → Outcome × D → List (ℕ × FeatureFlag) → Response × ServiceState D
  finished flag (o, d) started = (
    answer_of version (save_reply (texts.save_text flag) o),
    record { db = d; spawned = spawn o started },
  )

  finished_unchanged :
      (flag : FeatureFlag) (s : ServiceState D) (p : Outcome × D)
      → (((p.0 ≡ invalid) ⊎ (p.0 ≡ save_failed)) → laws.Same s.db p.1)
      → (finished flag p s.spawned).0.status ≢ 200
      → Unchanged s (finished flag p s.spawned).1
  unfolding finished save_reply answer_of spawn
  finished_unchanged flag s (saved v i f, d) same h = absurd (h refl)
  finished_unchanged flag s (invalid, d) same h = record {
    same_rows = same (inl refl);
    same_calls = refl;
  }
  finished_unchanged flag s (save_failed, d) same h = record {
    same_rows = same (inr refl);
    same_calls = refl;
  }

  abbrev pub service : FeatureProvider (ServiceState D)
  service = feature_service json parsers gorm features audits outbox queries texts

  create_feature_unchanged :
      (body : Option CreateFeatureRequest) (c : GinContext) (s : ServiceState D)
      → (handle_create_feature service body c s).0.status ≢ 200
      → Unchanged s (handle_create_feature service body c s).1
  unfolding handle_create_feature feature_service service_save finished saves
  create_feature_unchanged none c s h = unchanged s
  create_feature_unchanged (some r) c s h =
      finished_unchanged (requested_flag r) s (saves c.ctx (requested_flag r) s)
        (λ which.
          save_feature-not_saved json parsers features audits laws (requested_flag r)
            (get_operator c.ctx) (trace_of c.ctx) (saves c.ctx (requested_flag r) s).0 s.db refl
            which)
        h

  module _ (R L : Type 0) where
    abbrev pub World : Type 0
    World = Server (ServiceState D) R L

    -- A served request that has no status 200 has changed nothing.
    abbrev Keeps : World → Served × World → Type 0
    Keeps s p = status_of p.0 ≢ 200 → Unchanged s.world p.1.world

    after_limit-Keeps :
        (next : Handler (ServiceState D) R L) (c : GinContext) (v : Verdict) (s : World)
        → Keeps s (next c s)
        → Keeps s (after_limit next c v s)
    after_limit-Keeps next c (passes hs) s h = h
    after_limit-Keeps next c (too_many hs) s h = λ other. unchanged s.world

    after_gate-Keeps :
        (next : Handler (ServiceState D) R L) (g : Gate) (s : World)
        → ((c : GinContext) → Keeps s (next c s))
        → Keeps s (after_gate next g s)
    after_gate-Keeps next (continues c) s h = h c
    after_gate-Keeps next (aborts r) s h = λ other. unchanged s.world

    handler-Keeps :
        (provider : FeatureProvider (ServiceState D)) (body : Option CreateFeatureRequest)
        (c : GinContext) (s : World)
        → provider ≡ service
        → Keeps s (on_world (handle_create_feature provider body) c s)
    unfolding on_world
    handler-Keeps provider body c s same = rw same (create_feature_unchanged body c s.world)

    -- Of a server over the feature service, where a transaction that fails is rolled back: a request to create
    -- a flag that is answered with another status than 200, be it for its token, for the rate, for its body or
    -- for the database, leaves the rows of the database as they were and starts no call of `syncToEtcd`.
    pub serve_create_unchanged :
        (app : App (ServiceState D) R L) (t : Readings) (body : Option CreateFeatureRequest)
        (c : GinContext) (s : World)
        → app.features ≡ service
        → status_of (serve app t (create body) c s).0 ≢ 200
        → Unchanged s.world (serve app t (create body) c s).1.world
    unfolding serve routed with_jwt behind with_limiter on_world
    serve_create_unchanged app t body c s same =
        after_gate-Keeps (behind app t (create body))
          (jwt_middleware app.jwt true t.time.now (trace_middleware t.trace_id c)) s
          (λ c'.
            after_limit-Keeps (on_world (handle_create_feature app.features body)) c' (verdict c').0
              (record s { limits = (verdict c').1 })
              (handler-Keeps app.features body c' (record s { limits = (verdict c').1 }) same))
      where
        verdict : GinContext → Verdict × Limits R L
        verdict c' =
            rate_limit app.scripts app.limiters app.requests_per_second c'.client_ip t.micros
              s.limits
