-- ===== src/Features/Atomic.antt =====
-- internal/service/feature.go, `SaveFeature`: the version, the outbox task and the transaction.
use mizuflow.Base.{
  ℕ, String, ◌≡◌, ◌≢◌, refl, sym, ap, ap₂, true, ◌∙◌, Option, none, some, inl, inr, ◌⊎◌, Bool-cases,
  Option-cases,
}
use mathlib.Core.Option.{some-injective, none-ne-some}
use mizuflow.Base.Int.{ℤ, pos, inc_ℤ}
use mizuflow.Api.{FeatureFlag}
use mizuflow.Json.{Json}
use mizuflow.Db.{
  OutboxTask, FeatureMaster, OutboxInterface, FeatureInterface, AuditInterface, status_pending,
}
use mizuflow.Features.{
  Gorm, Outcome, saved, invalid, save_failed, next_master, old_value, audit_of, task_of, enqueue,
  write_all, save_transaction, save_feature, outcome_of,
}
use mizuflow.Features.Validate.{Parsers, validate_payload}

-- What `SaveFeature` relies on of the database. `row` is the outbox row of an id; `Same` says that two states hold
-- the same rows.
pub record TransactionLaws {D : Type 0} (gorm : Gorm D) (outbox : OutboxInterface D) : Type 1 where
  pub row : D → ℕ → Option OutboxTask
  pub Same : D → D → Type 0
  pub same_refl : (d : D) → Same d d
  -- A created row holds what it was created from, under the new id.
  pub creates :
      (t : OutboxTask) (d : D) (id : ℕ)
      → (outbox.create t d).0 ≡ some id
      → row (outbox.create t d).1 id ≡ some (record t { id = id })
  -- A transaction that is committed is what its closure did, and any other is rolled back.
  pub commits :
      (f : D → Option (ℤ × ℕ) × D) (d : D) (r : ℤ × ℕ)
      → (gorm.transaction f d).0 ≡ some r
      → ((f d).0 ≡ some r) × ((gorm.transaction f d).1 ≡ (f d).1)
  pub rolls_back :
      (f : D → Option (ℤ × ℕ) × D) (d : D)
      → (gorm.transaction f d).0 ≡ none
      → Same d (gorm.transaction f d).1

-- The version that a save gives out, after the one found.
abbrev pub version_after : Option FeatureMaster → ℤ
version_after none = pos 1
version_after (some master) = inc_ℤ master.version

version-next_master :
    (flag : FeatureFlag) (found : Option FeatureMaster)
    → (next_master flag found).version ≡ version_after found
unfolding next_master
version-next_master flag none = refl
version-next_master flag (some master) = refl

invalid_not_saved : (version : ℤ) (id : ℕ) (f : FeatureFlag) → invalid ≢ saved version id f
invalid_not_saved version id f h = cc

version_of : Outcome → ℤ → ℤ
version_of (saved v _ _) d = v
version_of _ d = d

id_of : Outcome → ℕ → ℕ
id_of (saved _ i _) d = i
id_of _ d = d

flag_of : Outcome → FeatureFlag → FeatureFlag
flag_of (saved _ _ f) d = f
flag_of _ d = d

-- What an outcome tells of the transaction's result.
pub outcome_inv :
    {D : Type 0} (flag f : FeatureFlag) (version : ℤ) (id : ℕ) (r : Option (ℤ × ℕ) × D)
    → (outcome_of flag r).0 ≡ saved version id f
    → (r.0 ≡ some (version, id))
      × (f ≡ record flag { version = version })
      × ((outcome_of flag r).1 ≡ r.1)
unfolding outcome_of version_of id_of flag_of
outcome_inv flag f version id (none, d) h = absurd (cc)
outcome_inv flag f version id (some (v, i), d) h =
    let same_version : v ≡ version = ap (λ (o : Outcome). version_of o v) h in
    let same_id : i ≡ id = ap (λ (o : Outcome). id_of o i) h in
    let same_flag : record flag { version = v } ≡ f = ap (λ (o : Outcome). flag_of o f) h in
    (
      ap₂ (λ (x : ℤ) (y : ℕ). some (x, y)) same_version same_id,
      sym same_flag ∙ ap (λ (x : ℤ). record flag { version = x }) same_version,
      refl,
    )

failed_inv :
    {D : Type 0} (flag : FeatureFlag) (r : Option (ℤ × ℕ) × D) (o : Outcome)
    → (outcome_of flag r).0 ≡ o
    → (o ≡ invalid) ⊎ (o ≡ save_failed)
    → (r.0 ≡ none) × ((outcome_of flag r).1 ≡ r.1)
unfolding outcome_of
failed_inv flag (none, d) o h which = (refl, refl)
failed_inv flag (some (v, i), d) o h (inl e) = absurd (cc)
failed_inv flag (some (v, i), d) o h (inr e) = absurd (cc)

module _ {D : Type 0} (json : Json) (parsers : Parsers) {gorm : Gorm D}
    (features : FeatureInterface D) (audits : AuditInterface D) {outbox : OutboxInterface D}
    (laws : TransactionLaws gorm outbox) (flag : FeatureFlag) (operator trace_id : String) where
  open laws use {row, Same, same_refl, creates, commits, rolls_back}

  -- What is known of a closure that returned a version and an id.
  pub record Enqueued (version : ℤ) (id : ℕ) (d : D) : Type 0 where
    pub task : OutboxTask
    pub at : row d id ≡ some task
    pub pending : task.status ≡ status_pending
    pub payload : task.payload ≡ json.encode (record flag { version = version })

  enqueue_lem :
      (v version : ℤ) (id : ℕ) (d : D)
      → (enqueue json parsers gorm features audits outbox
          (record flag { version = v })
          trace_id
          d).0
        ≡ some (version, id)
      → (version ≡ v)
        × Enqueued version id
            (enqueue json parsers gorm features audits outbox
              (record flag { version = v })
              trace_id
              d).1
  unfolding enqueue
  enqueue_lem v version id d h =
      elim (Option-cases
        (outbox.create (task_of json (record flag { version = v }) trace_id) d).0) [
          | inl failed ↦ absurd (none-ne-some (version, id) (rw (failed, enqueue) at h))
          | inr (new, back) ↦
              let e : ◌≡◌ {A = Option (ℤ × ℕ)} (some (v, new)) (some (version, id)) =
                rw (back, enqueue) at h in
              let p = some-injective _ _ e in
              let same_id : new ≡ id = ap (λ (x : ℤ × ℕ). x.1) p in
              let same_version : v ≡ version = ap (λ (x : ℤ × ℕ). x.0) p in
              (
                sym same_version,
                rw (back, enqueue)
                    (record {
                      task = record (task_of json (record flag { version = v }) trace_id) {
                        id = new;
                      };
                      at =
                          ap
                            (row
                              (outbox.create (task_of json (record flag { version = v }) trace_id)
                                d).1)
                            (sym same_id)
                          ∙ creates (task_of json (record flag { version = v }) trace_id) d new
                              back;
                      pending = refl;
                      payload = ap (λ x. json.encode (record flag { version = x })) same_version;
                    }),
              )
        ]

  -- The audit record of the change is written, with its operator and the value that was found.
  abbrev pub Recorded : Option FeatureMaster → D → Type 0
  Recorded found d =
      (audits.create (audit_of flag (old_value found) operator trace_id)
        (features.save (next_master flag found) d).1).0
      ≡ true

  write_all_lem :
      (found : Option FeatureMaster) (version : ℤ) (id : ℕ) (d : D)
      → (write_all json parsers gorm features audits outbox flag operator trace_id found d).0
        ≡ some (version, id)
      → (version ≡ (next_master flag found).version)
        × Enqueued version id
            (write_all json parsers gorm features audits outbox flag operator trace_id found d).1
        × Recorded found d
  unfolding write_all
  write_all_lem found version id d h =
      elim (Bool-cases
        (audits.create (audit_of flag (old_value found) operator trace_id)
          (features.save (next_master flag found) d).1).0) [
            | inl t ↦
                let queued =
                  enqueue_lem (next_master flag found).version version id
                    (audits.create (audit_of flag (old_value found) operator trace_id)
                      (features.save (next_master flag found) d).1).1
                    (rw t at h) in
                (queued.0, rw (t, write_all) queued.1, t)
            | inr t ↦ absurd (none-ne-some (version, id) (rw t at h))
          ]

  -- What is known of a transaction that returned a version and an id.
  pub record Committed (version : ℤ) (id : ℕ) (d : D) (end : D) : Type 0 where
    pub found : Option FeatureMaster
    pub read : (features.get_by_key flag.namespace flag.env flag.key d).0 ≡ some found
    pub next : version ≡ version_after found
    pub recorded : Recorded found (features.get_by_key flag.namespace flag.env flag.key d).1
    pub enqueued : Enqueued version id end

  save_transaction_lem :
      (version : ℤ) (id : ℕ) (d : D)
      → (save_transaction json parsers gorm features audits outbox flag operator trace_id d).0
        ≡ some (version, id)
      → Committed version id d
          (save_transaction json parsers gorm features audits outbox flag operator trace_id d).1
  unfolding save_transaction
  save_transaction_lem version id d h =
      elim (Option-cases (features.get_by_key flag.namespace flag.env flag.key d).0) [
        | inl failed ↦ absurd (none-ne-some (version, id) (rw (failed, save_transaction) at h))
        | inr (found, back) ↦
            let written =
              write_all_lem found version id
                (features.get_by_key flag.namespace flag.env flag.key d).1
                (rw (back, save_transaction) at h) in
            record {
              found = found;
              read = back;
              next = written.0 ∙ version-next_master flag found;
              recorded = written.2;
              enqueued = rw (back, save_transaction) written.1;
            }
      ]

  -- A save that returns a version has read the master record and returns the version after the one found, or 1
  -- where there was none; it has written the audit record of the change, with its operator; and it has left a
  -- pending outbox task that holds the flag at that version, which is also the flag that goes to etcd.
  pub save_feature-saved :
      (version : ℤ) (id : ℕ) (f : FeatureFlag) (d : D)
      → (save_feature json parsers gorm features audits outbox flag operator trace_id d).0
        ≡ saved version id f
      → (f ≡ record flag { version = version })
        × Committed version id d
            (save_feature json parsers gorm features audits outbox flag operator trace_id d).1
  unfolding save_feature
  save_feature-saved version id f d h =
      elim (Bool-cases (validate_payload parsers flag.type_name flag.value)) [
        | inr bad ↦ absurd (invalid_not_saved version id f (rw bad at h))
        | inl good ↦ rw good (run (rw good at h))
      ]
    where
      tx : D → Option (ℤ × ℕ) × D
      tx = save_transaction json parsers gorm features audits outbox flag operator trace_id

      run :
          (outcome_of flag (gorm.transaction tx d)).0 ≡ saved version id f
          → (f ≡ record flag { version = version })
            × Committed version id d (outcome_of flag (gorm.transaction tx d)).1
      run e =
          let (back, same_flag, end) = outcome_inv flag f version id (gorm.transaction tx d) e in
          let (result, state) = commits tx d (version, id) back in
          (same_flag, rw (end ∙ state) (save_transaction_lem version id d result))

  pub save_feature-not_saved :
      (o : Outcome) (d : D)
      → (save_feature json parsers gorm features audits outbox flag operator trace_id d).0 ≡ o
      → (o ≡ invalid) ⊎ (o ≡ save_failed)
      → Same d (save_feature json parsers gorm features audits outbox flag operator trace_id d).1
  unfolding save_feature
  save_feature-not_saved o d h which =
      elim (Bool-cases (validate_payload parsers flag.type_name flag.value)) [
        | inr bad ↦ rw bad (same_refl d)
        | inl good ↦
            rw good (rolled_back (failed_inv flag (gorm.transaction tx d) o (rw good at h) which))
      ]
    where
      tx : D → Option (ℤ × ℕ) × D
      tx = save_transaction json parsers gorm features audits outbox flag operator trace_id

      rolled_back :
          ((gorm.transaction tx d).0 ≡ none)
            × ((outcome_of flag (gorm.transaction tx d)).1 ≡ (gorm.transaction tx d).1)
          → Same d (outcome_of flag (gorm.transaction tx d)).1
      rolled_back (back, end) = rw end (rolls_back tx d back)
