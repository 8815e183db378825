-- ===== src/System/Moves.antt =====
-- What the worker, `syncToEtcd` and the reconciler do to the store that is not theirs to mark.
use mizuflow.Base.{
  ℕ, zero, suc, ◌+◌, ◌≡◌, refl, sym, ◌∙◌, some, inl, inr, Bool-cases, Option-cases, leb, List, [],
  ◌∷◌,
}
use mathlib.Core.Option.{some-injective}
use mizuflow.Base.Int.{ℤ}
use mizuflow.Api.{FeatureFlag}
use mizuflow.Json.{Json, RoundTrips}
use mizuflow.Etcd.{EtcdClient, Result, ok, err, save_feature_if_newer}
use mizuflow.Etcd.Laws.{EtcdLaws}
use mizuflow.Etcd.Keeps.{save_feature_if_newer_keeps}
use mizuflow.Db.{OutboxTask, OutboxInterface, FeatureInterface}
use mizuflow.Outbox.{
  World, flag_key, mark, settle, process_task, process_tasks, process_pending, finish_sync,
  sync_to_etcd,
}
use mizuflow.Outbox.Laws.{OutboxLaws, Unchanged}
use mizuflow.Outbox.Published.{Stable}
use mizuflow.Reconciler.{check_all, reconcile_from}
use mizuflow.Reconciler.Keeps.{Kept}

module _ {E D : Type 0} {client : EtcdClient E} {json : Json} (outbox : OutboxInterface D)
    (laws : EtcdLaws client json) (stable : Stable json) where
  etcd-settle :
      (task : OutboxTask) (r : Result ℤ) (w : World E D)
      → (settle client json outbox task r w).etcd ≡ w.etcd
  unfolding settle mark
  etcd-settle task (err _) w = elim (Bool-cases (leb 5 (task.retry_count + 1))) [
    | inl t ↦ rw t refl
    | inr t ↦ rw t refl
  ]
  etcd-settle task (ok _) w = refl

  process_task_keeps :
      (task : OutboxTask) (w : World E D)
      → Kept laws w.etcd (process_task client json outbox task w).etcd
  unfolding process_task mark
  process_task_keeps task w j v h = elim (Option-cases (json.decode task.payload)) [
    | inl unread ↦ rw (unread, process_task) h
    | inr (flag, reads) ↦
        let saved = save_feature_if_newer client json (flag_key flag) flag w.etcd in
        let w1 : World E D = record { etcd = saved.1; db = w.db } in
        rw (reads, process_task)
          (rw (etcd-settle task saved.0 w1) (
            save_feature_if_newer_keeps laws (flag_key flag) (stable task.payload flag reads) w.etcd
              j v h))
  ]

  process_tasks_keeps :
      (tasks : List OutboxTask) (w : World E D)
      → Kept laws w.etcd (process_tasks client json outbox tasks w).etcd
  unfolding process_tasks
  process_tasks_keeps [] w j v h = h
  process_tasks_keeps (task ∷ tasks) w j v h =
      process_tasks_keeps tasks (process_task client json outbox task w) j v
        (process_task_keeps task w j v h)

  pub process_pending_keeps :
      (w : World E D) → Kept laws w.etcd (process_pending client json outbox w).etcd
  unfolding process_pending
  process_pending_keeps w j v h = elim (Option-cases (outbox.fetch_pending 10 w.db).0) [
    | inl failed ↦ rw (failed, process_pending) h
    | inr (tasks, back) ↦
        rw (back, process_pending)
          (process_tasks_keeps tasks
            (record { etcd = w.etcd; db = (outbox.fetch_pending 10 w.db).1 }) j v h)
  ]

  etcd-finish_sync :
      (id : ℕ) (r : Result ℤ) (w : World E D)
      → (finish_sync client json outbox id r w).etcd ≡ w.etcd
  unfolding finish_sync mark
  etcd-finish_sync id (err _) w = refl
  etcd-finish_sync id (ok _) w = refl

  pub sync_to_etcd_keeps :
      (id : ℕ) (flag : FeatureFlag) (w : World E D)
      → RoundTrips json flag
      → Kept laws w.etcd (sync_to_etcd client json outbox id flag w).etcd
  unfolding sync_to_etcd
  sync_to_etcd_keeps id flag w rt j v h =
      let saved = save_feature_if_newer client json (flag_key flag) flag w.etcd in
      rw (etcd-finish_sync id saved.0 (record { etcd = saved.1; db = w.db }))
        (save_feature_if_newer_keeps laws (flag_key flag) rt w.etcd j v h)

module _ {E D : Type 0} (client : EtcdClient E) (json : Json) {outbox : OutboxInterface D}
    (laws : OutboxLaws outbox) (features : FeatureInterface D) where
  open laws use {row}

  -- The pages are read without a change of the outbox.
  abbrev pub ReadsLeave : Type 0
  ReadsLeave = (offset limit : ℕ) (d : D) → Unchanged row d (features.list_by_page offset limit d).1

  pub reconcile_from-Unchanged :
      (fuel batch_size offset : ℕ) (w w' : World E D)
      → ReadsLeave
      → reconcile_from client json features fuel batch_size offset w ≡ some w'
      → Unchanged row w.db w'.db
  unfolding reconcile_from
  reconcile_from-Unchanged zero batch_size offset w w' leave e j = absurd (cc)
  reconcile_from-Unchanged (suc fuel) batch_size offset w w' leave e j =
      let d = (features.list_by_page offset batch_size w.db).1 in
      elim (Option-cases (features.list_by_page offset batch_size w.db).0) [
        | inl failed ↦
            let same = some-injective _ _ (rw (failed, reconcile_from) at e) in
            rw (sym same) (leave offset batch_size w.db j)
        | inr ([], back) ↦
            let same = some-injective _ _ (rw (back, reconcile_from) at e) in
            rw (sym same) (leave offset batch_size w.db j)
        | inr (m ∷ ms, back) ↦
            reconcile_from-Unchanged fuel batch_size (offset + batch_size)
              (record { etcd = check_all client json features (m ∷ ms) w.etcd; db = d }) w' leave
              (rw (back, reconcile_from) at e) j
            ∙ leave offset batch_size w.db j
      ]
