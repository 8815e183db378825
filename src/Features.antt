-- ===== src/Features.antt =====
-- internal/service/feature.go: `validatePayload`, `SaveFeature`, `RollbackFeature`.
pub mod Validate
pub mod Atomic
pub mod Ignores
pub mod Restores
pub mod Reads
mod Tests
use mizuflow.Base.{
  ℕ, String, Bool, true, false, not, ◌||◌, Option, none, some, str_eq, if◌then◌else◌,
}
use mizuflow.Base.Int.{ℤ, pos, inc_ℤ}
use mizuflow.Api.{FeatureFlag}
use mizuflow.Json.{Json}
use mizuflow.Db.{
  OutboxTask, FeatureMaster, FeatureAudit, OutboxInterface, FeatureInterface, AuditInterface,
  status_pending,
}
use Validate.{Parsers, validate_payload}

-- gorm's `db.Transaction(fn)`, at the two values that the closure of `SaveFeature` leaves behind: the latest
-- version and the id of the outbox task. `none` is an error.
pub record Gorm (D : Type 0) : Type 0 where
  pub transaction : (D → Option (ℤ × ℕ) × D) → D → Option (ℤ × ℕ) × D

-- What `SaveFeature` returns. A saved flag goes to `syncToEtcd` with the id of its outbox task.
pub data Outcome : Type 0 where
  saved : ℤ → ℕ → FeatureFlag → Outcome
  invalid save_failed : Outcome

-- What follows the transaction in `SaveFeature`: `flag.Version` was set by the closure.
unfoldable pub outcome_of : {D : Type 0} → FeatureFlag → Option (ℤ × ℕ) × D → Outcome × D
outcome_of flag (none, d) = (save_failed, d)
outcome_of flag (some (version, id), d) = (saved version id (record flag { version = version }), d)

-- The master record that is written, of the one that was found.
unfoldable pub next_master : FeatureFlag → Option FeatureMaster → FeatureMaster
next_master flag none = record {
  id = 0;
  namespace = flag.namespace;
  env = flag.env;
  key = flag.key;
  type_name = flag.type_name;
  version = pos 1;
  current_val = flag.value;
  updated_at = pos 0;
  updated_by = "";
}
next_master flag (some master) = record master {
  type_name = flag.type_name;
  version = inc_ℤ master.version;
  current_val = flag.value;
}

abbrev pub old_value : Option FeatureMaster → String
old_value none = ""
old_value (some master) = master.current_val

abbrev pub audit_of : FeatureFlag → String → String → String → FeatureAudit
audit_of flag old operator trace_id = record {
  id = 0;
  namespace = flag.namespace;
  env = flag.env;
  key = flag.key;
  old_value = old;
  new_value = flag.value;
  type_name = flag.type_name;
  operator = operator;
  trace_id = trace_id;
  ip = "";
  created_at = pos 0;
}

abbrev pub task_of : Json → FeatureFlag → String → OutboxTask
task_of json flag trace_id = record {
  id = 0;
  key = flag.key;
  payload = json.encode flag;
  status = status_pending;
  retry_count = 0;
  trace_id = trace_id;
}

module _ {D : Type 0} (json : Json) (parsers : Parsers) (gorm : Gorm D)
    (features : FeatureInterface D) (audits : AuditInterface D) (outbox : OutboxInterface D) where
  -- `txOutbox.Create(ctx, event)` and the return of the closure.
  unfoldable pub enqueue : FeatureFlag → String → D → Option (ℤ × ℕ) × D
  enqueue flag trace_id d =
      let (r, d') = outbox.create (task_of json flag trace_id) d in
      elim r [ none ↦ (none, d') | some id ↦ (some (flag.version, id), d') ]

  -- The closure after `GetByKey`. The error of `txFeature.Save` is dropped.
  unfoldable pub write_all :
      FeatureFlag → String → String → Option FeatureMaster → D → Option (ℤ × ℕ) × D
  unfolding enqueue next_master
  write_all flag operator trace_id found d =
      let master = next_master flag found in
      let (_, d1) = features.save master d in
      let (recorded, d2) = audits.create (audit_of flag (old_value found) operator trace_id) d1 in
      if recorded
      then enqueue (record flag { version = master.version }) trace_id d2
      else (none, d2)

  unfoldable pub save_transaction : FeatureFlag → String → String → D → Option (ℤ × ℕ) × D
  save_transaction flag operator trace_id d =
      let (r, d') = features.get_by_key flag.namespace flag.env flag.key d in
      elim r [ none ↦ (none, d') | some found ↦ write_all flag operator trace_id found d' ]

  unfoldable pub save_feature : FeatureFlag → String → String → D → Outcome × D
  save_feature flag operator trace_id d =
      if validate_payload parsers flag.type_name flag.value
      then outcome_of flag (gorm.transaction (save_transaction flag operator trace_id) d)
      else (invalid, d)

-- What `RollbackFeature` returns.
pub data Rollback : Type 0 where
  forwarded : Outcome → Rollback
  audit_failed mismatch read_failed : Rollback

abbrev pub current_version : Option FeatureMaster → ℤ
current_version none = pos 0
current_version (some master) = master.version

abbrev pub rollback_flag : FeatureAudit → String → String → String → ℤ → FeatureFlag
rollback_flag audit namespace env key version = record {
  namespace = namespace;
  env = env;
  key = key;
  value = audit.old_value;
  version = version;
  revision = pos 0;
  type_name = audit.type_name;
}

module _ {D : Type 0} (json : Json) (parsers : Parsers) (gorm : Gorm D)
    (features : FeatureInterface D) (audits : AuditInterface D) (outbox : OutboxInterface D)
    (namespace env key operator trace_id : String) where
  -- `audit.Key != key || audit.Env != env || audit.Namespace != namespace`
  abbrev pub is_foreign : FeatureAudit → Bool
  is_foreign audit =
      not (str_eq audit.key key)
      || (not (str_eq audit.env env) || not (str_eq audit.namespace namespace))

  -- `RollbackFeature` after the security check.
  unfoldable pub restore : FeatureAudit → D → Rollback × D
  restore audit d =
      let (r, d') = features.get_by_key namespace env key d in
      elim r [
        | none ↦ (read_failed, d')
        | some master ↦
            let flag = rollback_flag audit namespace env key (current_version master) in
            let (o, d'') =
              save_feature json parsers gorm features audits outbox flag operator trace_id d' in
            (forwarded o, d'')
      ]

  unfoldable pub roll_back_to : FeatureAudit → D → Rollback × D
  roll_back_to audit d = if is_foreign audit then (mismatch, d) else restore audit d

  unfoldable pub rollback_feature : ℕ → D → Rollback × D
  rollback_feature audit_id d =
      let (r, d') = audits.find_by_id audit_id d in
      elim r [ none ↦ (audit_failed, d') | some audit ↦ roll_back_to audit d' ]
