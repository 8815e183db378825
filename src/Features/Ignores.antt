-- ===== src/Features/Ignores.antt =====
-- What `SaveFeature` does not look at.
use mizuflow.Base.{ℕ, String, ◌≡◌, refl, Option, none, some, false, inl, inr, Option-cases}
use mathlib.Core.Path.{fun_ext}
use mizuflow.Base.Int.{ℤ}
use mizuflow.Api.{FeatureFlag}
use mizuflow.Json.{Json}
use mizuflow.Db.{FeatureMaster, OutboxInterface, FeatureInterface, AuditInterface}
use mizuflow.Features.{
  Gorm, next_master, outcome_of, enqueue, write_all, save_transaction, save_feature,
}
use mizuflow.Features.Validate.{Parsers}

-- The repository of the master records, but every `Save` comes back with an error.
abbrev with_failing_save : {D : Type 0} → FeatureInterface D → FeatureInterface D
with_failing_save features = record features { save = λ m d. (false, (features.save m d).1) }

module _ {D : Type 0} (json : Json) (parsers : Parsers) (gorm : Gorm D)
    (features : FeatureInterface D) (audits : AuditInterface D) (outbox : OutboxInterface D)
    (flag : FeatureFlag) (operator trace_id : String) where
  -- An error of `txFeature.Save` is lost: the save has the same outcome and leaves the same state as if the
  -- master record had been written without an error.
  save_feature-drops_error :
      (d : D)
      → save_feature json parsers gorm
          (with_failing_save features)
          audits
          outbox
          flag
          operator
          trace_id
          d
        ≡ save_feature json parsers gorm features audits outbox flag operator trace_id d
  unfolding save_feature save_transaction write_all enqueue
  save_feature-drops_error d = refl

  next_master_version :
      (v : ℤ) (found : Option FeatureMaster)
      → next_master (record flag { version = v }) found ≡ next_master flag found
  unfolding next_master
  next_master_version v none = refl
  next_master_version v (some m) = refl

  write_all_version :
      (v : ℤ) (found : Option FeatureMaster) (d : D)
      → write_all json parsers gorm features audits outbox
          (record flag { version = v })
          operator
          trace_id
          found
          d
        ≡ write_all json parsers gorm features audits outbox flag operator trace_id found d
  unfolding write_all enqueue
  write_all_version v found d = rw (next_master_version v found)

  save_transaction_version :
      (v : ℤ)
      → save_transaction json parsers gorm features audits outbox
          (record flag { version = v })
          operator
          trace_id
        ≡ save_transaction json parsers gorm features audits outbox flag operator trace_id
  unfolding save_transaction
  save_transaction_version v = fun_ext (λ d. one d)
    where
      one :
          (d : D)
          → save_transaction json parsers gorm features audits outbox
              (record flag { version = v })
              operator
              trace_id
              d
            ≡ save_transaction json parsers gorm features audits outbox flag operator trace_id d
      one d = elim (Option-cases (features.get_by_key flag.namespace flag.env flag.key d).0) [
        | inl failed ↦ rw (failed, save_transaction)
        | inr (found, back) ↦
            rw (back, save_transaction)
              (write_all_version v found (features.get_by_key flag.namespace flag.env flag.key d).1)
      ]

  outcome_version :
      (v : ℤ) (r : Option (ℤ × ℕ) × D)
      → outcome_of (record flag { version = v }) r ≡ outcome_of flag r
  unfolding outcome_of
  outcome_version v (none, d) = refl
  outcome_version v (some (w, id), d) = refl

  -- The version of the flag that is saved plays no part: `RollbackFeature` sets it to protect against a concurrent
  -- save, and the outcome and the state are the same for any version.
  pub save_feature-ignores_version :
      (v : ℤ) (d : D)
      → save_feature json parsers gorm features audits outbox
          (record flag { version = v })
          operator
          trace_id
          d
        ≡ save_feature json parsers gorm features audits outbox flag operator trace_id d
  unfolding save_feature
  save_feature-ignores_version v d = rw (save_transaction_version v, outcome_version v)
