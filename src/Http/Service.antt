-- ===== src/Http/Service.antt =====
-- internal/service/feature.go: `FeatureService` as the `FeatureProvider` of the handlers.
use mizuflow.Base.{
  ℕ, String, Bool, true, false, Option, none, some, List, [], ◌∷◌, ◌++◌, if◌then◌else◌,
}
use mizuflow.Base.Int.{ℤ}
use mizuflow.Api.{FeatureFlag}
use mizuflow.Json.{Json}
use mizuflow.Db.{FeatureMaster, FeatureAudit, OutboxInterface, FeatureInterface, AuditInterface}
use mizuflow.Features.Validate.{Parsers}
use mizuflow.Features.{Gorm, Outcome, saved, save_feature, Rollback, forwarded, rollback_feature}
use mizuflow.Features.Reads.{
  FeatureItem, AuditLogItem, ItemResult, found, not_found, item_failed, get_feature_item,
  list_features, get_feature_audits,
}
use mizuflow.Http.Request.{Context, trace_of}
use mizuflow.Http.Handlers.{Result, returned, fails, FeatureProvider}

-- The reads of the repositories that only the requests use, and the two pings; `none` is an error.
pub record Queries (D : Type 0) : Type 0 where
  pub list : String → String → String → D → Option (List FeatureMaster) × D
  pub list_by_key : String → String → String → D → Option (List FeatureAudit) × D
  pub ping_mysql : D → Bool × D
  pub ping_etcd : D → Bool × D

-- The texts of errors, which the results of the services do not keep.
pub record ErrorTexts : Type 0 where
  pub save_text : FeatureFlag → String
  pub rollback_text : String
  pub database_text : String

-- The database, and the calls of `syncToEtcd` that saves have started, oldest first.
pub record ServiceState (D : Type 0) : Type 0 where
  pub db : D
  pub spawned : List (ℕ × FeatureFlag)

unfoldable pub result_of : {A : Type 0} → String → Option A → Result A
result_of text none = fails text
result_of text (some a) = returned a

abbrev pub item_reply : String → ItemResult → Result FeatureItem
item_reply text (found i) = returned i
item_reply text not_found = fails "feature not found"
item_reply text item_failed = fails text

abbrev pub health_reply : Bool → Bool → Option String
health_reply false _ = some "mysql unhealthy"
health_reply true false = some "etcd unhealthy"
health_reply true true = none

unfoldable pub save_reply : String → Outcome → Result ℤ
save_reply text (saved version id f) = returned version
save_reply text _ = fails text

-- `go s.syncToEtcd(...)` of what was saved.
unfoldable pub spawn : Outcome → List (ℕ × FeatureFlag) → List (ℕ × FeatureFlag)
spawn (saved version id f) started = started ++ (id, f) ∷ []
spawn _ started = started

unfoldable pub rollback_reply : String → Rollback → Result ℤ
unfolding save_reply
rollback_reply text (forwarded o) = save_reply text o
rollback_reply text _ = fails text

unfoldable pub rollback_spawn : Rollback → List (ℕ × FeatureFlag) → List (ℕ × FeatureFlag)
unfolding spawn
rollback_spawn (forwarded o) started = spawn o started
rollback_spawn _ started = started

module _ {D : Type 0} (json : Json) (parsers : Parsers) (gorm : Gorm D)
    (features : FeatureInterface D) (audits : AuditInterface D) (outbox : OutboxInterface D)
    (queries : Queries D) (texts : ErrorTexts) where
  unfoldable pub service_save :
      Context → FeatureFlag → String → ServiceState D → Result ℤ × ServiceState D
  unfolding save_reply spawn
  service_save ctx flag operator s =
      let (o, d) =
        save_feature json parsers gorm features audits outbox flag operator (trace_of ctx) s.db in
      (save_reply (texts.save_text flag) o, record { db = d; spawned = spawn o s.spawned })

  unfoldable pub service_rollback :
      Context → String → String → String → ℕ → String → ServiceState D → Result ℤ × ServiceState D
  unfolding rollback_reply rollback_spawn
  service_rollback ctx namespace env key audit_id operator s =
      let (r, d) =
        rollback_feature json parsers gorm features audits outbox namespace env key operator
          (trace_of ctx) audit_id s.db in
      (
        rollback_reply texts.rollback_text r,
        record { db = d; spawned = rollback_spawn r s.spawned },
      )

  unfoldable pub service_get :
      String → String → String → ServiceState D → Result FeatureItem × ServiceState D
  service_get namespace env key s =
      let (r, d) = get_feature_item features namespace env key s.db in
      (item_reply texts.database_text r, record s { db = d })

  unfoldable pub service_list :
      String → String → String → ServiceState D → Result (List FeatureItem) × ServiceState D
  unfolding result_of
  service_list namespace env search s =
      let (rows, d) = queries.list namespace env search s.db in
      (result_of texts.database_text (list_features rows), record s { db = d })

  unfoldable pub service_audits :
      String → String → String → ServiceState D → Result (List AuditLogItem) × ServiceState D
  unfolding result_of
  service_audits namespace env key s =
      let (rows, d) = queries.list_by_key namespace env key s.db in
      (result_of texts.database_text (get_feature_audits rows), record s { db = d })

  -- `Health`: etcd is asked where MySQL answers.
  unfoldable pub service_health : ServiceState D → Option String × ServiceState D
  service_health s =
      let (mysql, d) = queries.ping_mysql s.db in
      let (etcd, d') = queries.ping_etcd d in
      (health_reply mysql etcd, record s { db = if mysql then d' else d })

  unfoldable pub feature_service : FeatureProvider (ServiceState D)
  feature_service = record {
    save_feature = service_save;
    get_feature = λ ctx namespace env key s. service_get namespace env key s;
    list_features = λ ctx namespace env search s. service_list namespace env search s;
    get_feature_audits = λ ctx namespace env key s. service_audits namespace env key s;
    rollback_feature = service_rollback;
    health = λ ctx s. service_health s;
  }
