-- ===== src/Features/Restores.antt =====
-- What `RollbackFeature` writes, and what it refuses.
use mizuflow.Base.{
  ℕ, String, ◌≢◌, ◌≡◌, ap, Option, some, false, inl, inr, Option-cases, Bool-cases, arith, eq_iff,
}
use mizuflow.Base.Int.{ℤ}
use mizuflow.Api.{FeatureFlag, type_bool}
use mizuflow.Json.{Json}
use mizuflow.Db.{FeatureMaster, FeatureAudit, OutboxInterface, FeatureInterface, AuditInterface}
use mizuflow.Features.{
  Gorm, Outcome, saved, invalid, Rollback, forwarded, audit_failed, mismatch, read_failed,
  rollback_flag, current_version, save_transaction, save_feature, is_foreign, restore, roll_back_to,
  rollback_feature,
}
use mizuflow.Features.Atomic.{outcome_inv}
use mizuflow.Features.Validate.{Parsers, validate_payload}

inner : Rollback → Outcome → Outcome
inner (forwarded o) d = o
inner _ d = d

module _ {D : Type 0} (json : Json) (parsers : Parsers) (gorm : Gorm D)
    (features : FeatureInterface D) (audits : AuditInterface D) (outbox : OutboxInterface D)
    (namespace env key operator trace_id : String) where
  -- The flag that a save reports is the one that it was given, but for the version.
  saved_value :
      (flag f : FeatureFlag) (v : ℤ) (id : ℕ) (d : D)
      → (save_feature json parsers gorm features audits outbox flag operator trace_id d).0
        ≡ saved v id f
      → (f.value ≡ flag.value) × (f.type_name ≡ flag.type_name)
  unfolding save_feature
  saved_value flag f v id d h =
      elim (Bool-cases (validate_payload parsers flag.type_name flag.value)) [
        | inr bad ↦ absurd (not_saved (rw bad at h))
        | inl good ↦
            let (_, e, _) =
              outcome_inv flag f v id
                (gorm.transaction
                  (save_transaction json parsers gorm features audits outbox flag operator trace_id)
                  d)
                (rw good at h) in
            (ap (λ (x : FeatureFlag). x.value) e, ap (λ (x : FeatureFlag). x.type_name) e)
      ]
    where
      not_saved : invalid ≢ saved v id f
      not_saved e = cc

  own_names :
      (audit : FeatureAudit)
      → is_foreign json parsers gorm features audits outbox namespace env key operator trace_id
          audit
        ≡ false
      → (audit.namespace ≡ namespace) × (audit.env ≡ env) × (audit.key ≡ key)
  own_names audit h =
      ground (arith, eq_iff audit.key key, eq_iff audit.env env, eq_iff audit.namespace namespace)

  not_foreign :
      (audit : FeatureAudit)
      → audit.namespace ≡ namespace
      → audit.env ≡ env
      → audit.key ≡ key
      → is_foreign json parsers gorm features audits outbox namespace env key operator trace_id
          audit
        ≡ false
  not_foreign audit n e k =
      ground (arith, eq_iff audit.key key, eq_iff audit.env env, eq_iff audit.namespace namespace)

  restore_lem :
      (audit : FeatureAudit) (f : FeatureFlag) (v : ℤ) (id : ℕ) (d : D)
      → (restore json parsers gorm features audits outbox namespace env key operator trace_id audit
          d).0
        ≡ forwarded (saved v id f)
      → (f.value ≡ audit.old_value) × (f.type_name ≡ audit.type_name)
  unfolding restore inner
  restore_lem audit f v id d h = elim (Option-cases (features.get_by_key namespace env key d).0) [
    | inl failed ↦ absurd (unread (rw (failed, restore) at h))
    | inr (master, back) ↦
        saved_value (rollback_flag audit namespace env key (current_version master)) f v id
          (features.get_by_key namespace env key d).1
          (ap (λ (r : Rollback). inner r (saved v id f)) (rw (back, restore) at h))
  ]
    where
      unread : read_failed ≢ forwarded (saved v id f)
      unread e = cc

  -- What is known of a rollback to an audit record that saved something.
  roll_back_to_lem :
      (audit : FeatureAudit) (f : FeatureFlag) (v : ℤ) (id : ℕ) (d : D)
      → (roll_back_to json parsers gorm features audits outbox namespace env key operator trace_id
          audit d).0
        ≡ forwarded (saved v id f)
      → (audit.namespace ≡ namespace)
        × (audit.env ≡ env)
        × (audit.key ≡ key)
        × (f.value ≡ audit.old_value)
        × (f.type_name ≡ audit.type_name)
  unfolding roll_back_to
  roll_back_to_lem audit f v id d h =
      elim (Bool-cases (
        is_foreign json parsers gorm features audits outbox namespace env key operator trace_id
          audit)) [
            | inr own ↦
                let (n, e, k) = own_names audit own in
                let (x, t) = restore_lem audit f v id d (rw own at h) in (n, e, k, x, t)
            | inl foreign ↦ absurd (refused (rw foreign at h))
          ]
    where
      refused : mismatch ≢ forwarded (saved v id f)
      refused e = cc

  -- A rollback that saved anything found the audit record, which belongs to the feature that is rolled back, and
  -- saved its old value under its type.
  pub rollback_feature-restores :
      (audit_id : ℕ) (f : FeatureFlag) (v : ℤ) (id : ℕ) (d : D)
      → (rollback_feature json parsers gorm features audits outbox namespace env key operator
          trace_id audit_id d).0
        ≡ forwarded (saved v id f)
      → (audit : FeatureAudit) × ((audits.find_by_id audit_id d).0 ≡ some audit)
        × (audit.namespace ≡ namespace)
        × (audit.env ≡ env)
        × (audit.key ≡ key)
        × (f.value ≡ audit.old_value)
        × (f.type_name ≡ audit.type_name)
  unfolding rollback_feature
  rollback_feature-restores audit_id f v id d h =
      elim (Option-cases (audits.find_by_id audit_id d).0) [
        | inl failed ↦ absurd (no_audit (rw (failed, rollback_feature) at h))
        | inr (audit, back) ↦
            let (n, e, k, x, t) =
              roll_back_to_lem audit f v id (audits.find_by_id audit_id d).1
                (rw (back, rollback_feature) at h) in
            (audit, back, n, e, k, x, t)
      ]
    where
      no_audit : audit_failed ≢ forwarded (saved v id f)
      no_audit e = cc

  -- The first save of a boolean flag cannot be rolled back: its audit record has the empty old value, which
  -- `SaveFeature` then rejects.
  pub rollback_feature-of_creation :
      (audit_id : ℕ) (audit : FeatureAudit) (found : Option FeatureMaster) (d : D)
      → (audits.find_by_id audit_id d).0 ≡ some audit
      → audit.namespace ≡ namespace
      → audit.env ≡ env
      → audit.key ≡ key
      → audit.old_value ≡ ""
      → audit.type_name ≡ type_bool
      → (features.get_by_key namespace env key (audits.find_by_id audit_id d).1).0 ≡ some found
      → (rollback_feature json parsers gorm features audits outbox namespace env key operator
          trace_id audit_id d).0
        ≡ forwarded invalid
  unfolding rollback_feature roll_back_to restore save_feature validate_payload
  rollback_feature-of_creation audit_id audit found d read ns en ke old ty back =
      rw (read, rollback_feature)
        (rw (not_foreign audit ns en ke) (rw (back, restore) (rw (old, ty))))
