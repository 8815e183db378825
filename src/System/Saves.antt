-- ===== src/System/Saves.antt =====
-- internal/service/feature.go, `SaveFeature`, and the `syncToEtcd` that its caller starts, as a run of the writers.
use mizuflow.Base.{
  ℕ, ◌≡◌, refl, sym, ap, ◌∙◌, Option, none, some, inl, inr, ◌⊎◌, Bool-cases, Option-cases, String,
  arith,
}
use mathlib.Core.Option.{some-injective}
use mizuflow.Base.Int.{ℤ}
use mizuflow.Api.{FeatureFlag}
use mizuflow.Json.{Json, RoundTrips}
use mizuflow.Etcd.{EtcdClient}
use mizuflow.Etcd.Laws.{EtcdLaws}
use mizuflow.Db.{
  OutboxTask, FeatureMaster, FeatureAudit, OutboxInterface, FeatureInterface, AuditInterface,
  status_pending, status_completed,
}
use mizuflow.Outbox.{World, sync_to_etcd}
use mizuflow.Outbox.Laws.{OutboxLaws, Unchanged}
use mizuflow.Outbox.Marks.{HasPayload}
use mizuflow.Features.{
  Gorm, saved, next_master, old_value, audit_of, task_of, enqueue, write_all, save_transaction,
  save_feature, outcome_of,
}
use mizuflow.Features.Validate.{Parsers, validate_payload}
use mizuflow.Features.Atomic.{TransactionLaws, save_feature-saved}
use mizuflow.System.{NoneCompleted, SystemRun, rests, goes_on, saves, syncs}

-- What a save relies on of the tables and the transaction, by the rows of the outbox.
pub record SaveLaws {D : Type 0} {outbox : OutboxInterface D} (outbox_laws : OutboxLaws outbox)
    (gorm : Gorm D) (features : FeatureInterface D) (audits : AuditInterface D) : Type 0 where
  -- The other tables have no part in it.
  pub get_leaves :
      (namespace env key : String) (d : D)
      → Unchanged outbox_laws.row d (features.get_by_key namespace env key d).1
  pub save_leaves : (m : FeatureMaster) (d : D) → Unchanged outbox_laws.row d (features.save m d).1
  pub audit_leaves : (a : FeatureAudit) (d : D) → Unchanged outbox_laws.row d (audits.create a d).1
  -- A created row holds what it was created from, under the new id, and no other row is new.
  pub creates :
      (t : OutboxTask) (d : D) (id : ℕ)
      → (outbox.create t d).0 ≡ some id
      → outbox_laws.row (outbox.create t d).1 id ≡ some (record t { id = id })
  pub creates_others :
      (t : OutboxTask) (d : D) (j : ℕ) (x : OutboxTask)
      → outbox_laws.row (outbox.create t d).1 j ≡ some x
      → (outbox_laws.row d j ≡ some x) ⊎ (x.status ≡ t.status)
  -- A transaction that is committed is what its closure did, and any other is rolled back.
  pub commits :
      (f : D → Option (ℤ × ℕ) × D) (d : D) (r : ℤ × ℕ)
      → (gorm.transaction f d).0 ≡ some r
      → ((f d).0 ≡ some r) × ((gorm.transaction f d).1 ≡ (f d).1)
  pub rolls_back :
      (f : D → Option (ℤ × ℕ) × D) (d : D)
      → (gorm.transaction f d).0 ≡ none
      → Unchanged outbox_laws.row d (gorm.transaction f d).1

module _ {D : Type 0} {outbox : OutboxInterface D} (outbox_laws : OutboxLaws outbox) where
  unchanged-NoneCompleted :
      (d d' : D) → Unchanged outbox_laws.row d d' → NoneCompleted outbox_laws d d'
  unchanged-NoneCompleted d d' same id t at completed = sym (same id) ∙ at

  NoneCompleted-trans :
      (d d' d'' : D)
      → NoneCompleted outbox_laws d d'
      → NoneCompleted outbox_laws d' d''
      → NoneCompleted outbox_laws d d''
  NoneCompleted-trans d d' d'' p q id t at completed = p id t (q id t at completed) completed

module _ {D : Type 0} (json : Json) (parsers : Parsers) {gorm : Gorm D}
    {features : FeatureInterface D} {audits : AuditInterface D} {outbox : OutboxInterface D}
    {outbox_laws : OutboxLaws outbox} (laws : SaveLaws outbox_laws gorm features audits)
    (flag : FeatureFlag) (operator trace_id : String) where
  open outbox_laws use {row}
  open laws use {
    get_leaves, save_leaves, audit_leaves, creates, creates_others, commits, rolls_back,
  }

  transaction_laws : TransactionLaws gorm outbox
  transaction_laws = record {
    row = row;
    Same = Unchanged row;
    same_refl = λ d j. refl;
    creates = creates;
    commits = commits;
    rolls_back = rolls_back;
  }

  created-NoneCompleted :
      (f : FeatureFlag) (d : D)
      → NoneCompleted outbox_laws d (outbox.create (task_of json f trace_id) d).1
  created-NoneCompleted f d id t at completed =
      elim (creates_others (task_of json f trace_id) d id t at) [
        | inl old ↦ old
        | inr pending ↦
            absurd
              (let e : status_pending ≡ status_completed = sym pending ∙ completed in omega arith)
      ]

  enqueue-NoneCompleted :
      (f : FeatureFlag) (d : D)
      → NoneCompleted outbox_laws d
          (enqueue json parsers gorm features audits outbox f trace_id d).1
  unfolding enqueue
  enqueue-NoneCompleted f d = elim (Option-cases (outbox.create (task_of json f trace_id) d).0) [
    | inl failed ↦ rw (failed, enqueue) (created-NoneCompleted f d)
    | inr (id, back) ↦ rw (back, enqueue) (created-NoneCompleted f d)
  ]

  write_all-NoneCompleted :
      (found : Option FeatureMaster) (d : D)
      → NoneCompleted outbox_laws d
          (write_all json parsers gorm features audits outbox flag operator trace_id found d).1
  unfolding write_all
  write_all-NoneCompleted found d =
      let m = next_master flag found in
      let a = audit_of flag (old_value found) operator trace_id in
      let d1 = (features.save m d).1 in
      let d2 = (audits.create a d1).1 in
      let first : NoneCompleted outbox_laws d d2 =
        NoneCompleted-trans outbox_laws d d1 d2
          (unchanged-NoneCompleted outbox_laws d d1 (save_leaves m d))
          (unchanged-NoneCompleted outbox_laws d1 d2 (audit_leaves a d1)) in
      elim (Bool-cases (audits.create a d1).0) [
        | inl t ↦
            rw (t, write_all)
              (NoneCompleted-trans outbox_laws d d2
                (enqueue json parsers gorm features audits outbox
                  (record flag { version = m.version }) trace_id d2).1
                first (enqueue-NoneCompleted (record flag { version = m.version }) d2))
        | inr t ↦ rw (t, write_all) first
      ]

  save_transaction-NoneCompleted :
      (d : D)
      → NoneCompleted outbox_laws d
          (save_transaction json parsers gorm features audits outbox flag operator trace_id d).1
  unfolding save_transaction
  save_transaction-NoneCompleted d =
      let d1 = (features.get_by_key flag.namespace flag.env flag.key d).1 in
      let reads : NoneCompleted outbox_laws d d1 =
        unchanged-NoneCompleted outbox_laws d d1 (get_leaves flag.namespace flag.env flag.key d) in
      elim (Option-cases (features.get_by_key flag.namespace flag.env flag.key d).0) [
        | inl failed ↦ rw (failed, save_transaction) reads
        | inr (found, back) ↦
            rw (back, save_transaction)
              (NoneCompleted-trans outbox_laws d d1
                (write_all json parsers gorm features audits outbox flag operator trace_id found
                  d1).1
                reads (write_all-NoneCompleted found d1))
      ]

  state-outcome_of : (r : Option (ℤ × ℕ) × D) → (outcome_of flag r).1 ≡ r.1
  unfolding outcome_of
  state-outcome_of (none, d) = refl
  state-outcome_of (some (version, id), d) = refl

  -- A save completes no task, whatever its outcome.
  pub save_feature-NoneCompleted :
      (d : D)
      → NoneCompleted outbox_laws d
          (save_feature json parsers gorm features audits outbox flag operator trace_id d).1
  unfolding save_feature
  save_feature-NoneCompleted d =
      let tx = save_transaction json parsers gorm features audits outbox flag operator trace_id in
      elim (Bool-cases (validate_payload parsers flag.type_name flag.value)) [
        | inr bad ↦ rw (bad, save_feature) (λ id t at completed. at)
        | inl good ↦
            rw (good, save_feature, state-outcome_of (gorm.transaction tx d))
              (elim (Option-cases (gorm.transaction tx d).0) [
                | inl failed ↦
                    unchanged-NoneCompleted outbox_laws d (gorm.transaction tx d).1
                      (rolls_back tx d failed)
                | inr (r, back) ↦ rw ((commits tx d r back).1) (save_transaction-NoneCompleted d)
              ])
      ]

  -- Where the other tables have no part in the outbox, a created task is the only new row, and a transaction is
  -- committed or rolled back as a whole: a save that is answered with a version, and the call of `syncToEtcd` with its
  -- id and its flag, which reads back as written, are a run of the writers. The save completes no task, and its task
  -- holds the flag.
  pub save_and_sync-SystemRun :
      {E : Type 0} {client : EtcdClient E} (etcd_laws : EtcdLaws client json)
      → (version : ℤ) (id : ℕ) (f : FeatureFlag) (w : World E D)
      → (save_feature json parsers gorm features audits outbox flag operator trace_id w.db).0
        ≡ saved version id f
      → RoundTrips json f
      → SystemRun etcd_laws outbox_laws features w (
          sync_to_etcd client json outbox id f (record {
            etcd = w.etcd;
            db =
                (save_feature json parsers gorm features audits outbox flag operator trace_id
                  w.db).1;
          }))
  unfolding transaction_laws
  save_and_sync-SystemRun {E} {client} etcd_laws version id f w done rt =
      let d =
        (save_feature json parsers gorm features audits outbox flag operator trace_id w.db).1 in
      let w1 : World E D = record { etcd = w.etcd; db = d } in
      let w2 : World E D = sync_to_etcd client json outbox id f w1 in
      let (same, committed) =
        save_feature-saved json parsers features audits transaction_laws flag operator trace_id
          version id f w.db done in
      let queued = committed.enqueued in
      let holds : HasPayload outbox_laws d id (json.encode f) = λ t at.
        ap (λ (x : OutboxTask). x.payload) (some-injective _ _ (sym at ∙ queued.at))
        ∙ queued.payload
        ∙ ap json.encode (sym same) in
      goes_on w w1 w2 (saves w d (save_feature-NoneCompleted w.db))
        (goes_on w1 w2 w2 (syncs id f w1 rt holds) (rests w2))
