-- ===== src/Outbox.antt =====
-- internal/service/worker.go, and `syncToEtcd` of internal/service/feature.go: both carry an outbox task to
-- etcd and note in the database how that went.
pub mod Laws
pub mod Marks
pub mod Published
pub mod Retries
mod Tests
use mizuflow.Base.{ℕ, ◌+◌, String, Option, none, some, List, [], ◌∷◌, leb, if◌then◌else◌}
use mizuflow.Base.Int.{ℤ, pos, leb_ℤ}
use mizuflow.Api.{FeatureFlag}
use mizuflow.Json.{Json}
use mizuflow.Keys.{build_feature_key}
use mizuflow.Etcd.{EtcdClient, Result, ok, err, save_feature_if_newer}
use mizuflow.Db.{OutboxTask, OutboxInterface, status_pending, status_completed, status_failed}

-- The two stores that the worker acts on.
pub record World (E D : Type 0) : Type 0 where
  pub etcd : E
  pub db : D

-- What a select of the worker takes: the end of the context, or a tick, which comes when others have left the database
-- in a state.
pub data WorkerTurn (D : Type 0) : Type 0 where
  context_done : WorkerTurn D
  interval_passed : D → WorkerTurn D

-- The key under which a flag is stored.
abbrev pub flag_key : FeatureFlag → String
flag_key flag = build_feature_key flag.env flag.namespace flag.key

module _ {E D : Type 0} (outbox : OutboxInterface D) where
  -- `w.outboxRepo.UpdateStatus(...)`, whose error is only logged.
  unfoldable pub mark : ℕ → ℕ → ℕ → World E D → World E D
  mark id status retry_count w = record {
    etcd = w.etcd;
    db = (outbox.update_status id status retry_count w.db).1;
  }

module _ {E D : Type 0} (client : EtcdClient E) (json : Json) (outbox : OutboxInterface D) where
  -- What follows the call of `SaveFeatureIfNewer`.
  unfoldable pub settle : OutboxTask → Result ℤ → World E D → World E D
  unfolding mark
  settle task (err _) w =
      let new_retry_count = task.retry_count + 1 in
      if leb 5 new_retry_count
      then mark outbox task.id status_failed new_retry_count w
      else mark outbox task.id status_pending new_retry_count w
  settle task (ok _) w = mark outbox task.id status_completed task.retry_count w

  -- The body of the loop of `processPending`.
  unfoldable pub process_task : OutboxTask → World E D → World E D
  unfolding settle mark
  process_task task w = elim (json.decode task.payload) [
    | none ↦ mark outbox task.id status_failed task.retry_count w
    | some flag ↦
        let (r, e) = save_feature_if_newer client json (flag_key flag) flag w.etcd in
        settle task r (record { etcd = e; db = w.db })
  ]

  unfoldable pub process_tasks : List OutboxTask → World E D → World E D
  unfolding process_task
  process_tasks [] w = w
  process_tasks (task ∷ tasks) w = process_tasks tasks (process_task task w)

  unfoldable pub process_pending : World E D → World E D
  unfolding process_tasks
  process_pending w =
      let (r, d) = outbox.fetch_pending 10 w.db in
      elim r [
        | none ↦ record { etcd = w.etcd; db = d }
        | some tasks ↦ process_tasks tasks (record { etcd = w.etcd; db = d })
      ]

  -- The loop of `Run` over its turns.
  unfoldable pub worker_turns : List (WorkerTurn D) → World E D → World E D
  unfolding process_pending
  worker_turns [] w = w
  worker_turns (context_done ∷ turns) w = w
  worker_turns (interval_passed d ∷ turns) w =
      worker_turns turns (process_pending (record { etcd = w.etcd; db = d }))

  -- `Run` of a worker with an interval; `none` is the panic of `time.NewTicker`.
  unfoldable pub run_worker : ℤ → List (WorkerTurn D) → World E D → Option (World E D)
  unfolding worker_turns
  run_worker interval turns w = if leb_ℤ interval (pos 0) then none else some (worker_turns turns w)

  -- What `syncToEtcd` does after `SaveFeatureIfNewer`.
  unfoldable pub finish_sync : ℕ → Result ℤ → World E D → World E D
  unfolding mark
  finish_sync outbox_id (err _) w = w
  finish_sync outbox_id (ok _) w = mark outbox outbox_id status_completed 0 w

  unfoldable pub sync_to_etcd : ℕ → FeatureFlag → World E D → World E D
  unfolding finish_sync
  sync_to_etcd outbox_id flag w =
      let (r, e) = save_feature_if_newer client json (flag_key flag) flag w.etcd in
      finish_sync outbox_id r (record { etcd = e; db = w.db })
