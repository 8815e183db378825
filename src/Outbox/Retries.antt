-- ===== src/Outbox/Retries.antt =====
-- internal/service/worker.go: the count of retries of pending tasks.
use mizuflow.Base.{
  ℕ, ◌+◌, ◌<◌, ◌≡◌, sym, ap, ◌∙◌, some, List, [], ◌∷◌, inl, inr, Bool-cases, Option-cases, arith,
  leb,
}
use mizuflow.Base.Int.{ℤ}
use mizuflow.Json.{Json}
use mizuflow.Etcd.{EtcdClient, Result, ok, err, save_feature_if_newer}
use mizuflow.Db.{OutboxTask, OutboxInterface, status_pending, status_completed, status_failed}
use mizuflow.Outbox.{World, flag_key, mark, settle, process_task, process_tasks, process_pending}
use mizuflow.Outbox.Laws.{OutboxLaws}
use mizuflow.Outbox.Marks.{marked_row}

module _ {D : Type 0} {outbox : OutboxInterface D} (outbox_laws : OutboxLaws outbox) where
  open outbox_laws use {row}

  -- Every pending row has been tried fewer than five times.
  abbrev pub HasRetries : D → Type 0
  HasRetries d =
      (id : ℕ) (t : OutboxTask) → row d id ≡ some t → t.status ≡ status_pending → t.retry_count < 5

module _ {E D : Type 0} (client : EtcdClient E) (json : Json) {outbox : OutboxInterface D}
    (outbox_laws : OutboxLaws outbox) where
  open outbox_laws use {row, fetch_changes_nothing}

  mark_retries :
      (id status n : ℕ) (w : World E D)
      → (status ≡ status_pending → n < 5)
      → HasRetries outbox_laws w.db
      → HasRetries outbox_laws (mark outbox id status n w).db
  mark_retries id status n w few h j t at pending =
      let (old, o, same, which) = marked_row outbox_laws id status n w j at in
      elim which [
        | inl (here, s, r) ↦ omega (arith, few (sym s ∙ pending), r)
        | inr e ↦ ground (arith, h j old o (ap (λ (x : OutboxTask). x.status) (sym e) ∙ pending), e)
      ]

  settle_retries :
      (task : OutboxTask) (r : Result ℤ) (w : World E D)
      → HasRetries outbox_laws w.db
      → HasRetries outbox_laws (settle client json outbox task r w).db
  unfolding settle
  settle_retries task (err _) w h = elim (Bool-cases (leb 5 (task.retry_count + 1))) [
    | inl t ↦
        rw t (
          mark_retries task.id status_failed (task.retry_count + 1) w (λ c. absurd (omega arith)) h)
    | inr t ↦
        rw t (mark_retries task.id status_pending (task.retry_count + 1) w (λ _. ground arith) h)
  ]
  settle_retries task (ok _) w h =
      mark_retries task.id status_completed task.retry_count w (λ c. absurd (omega arith)) h

  task_retries :
      (task : OutboxTask) (w : World E D)
      → HasRetries outbox_laws w.db
      → HasRetries outbox_laws (process_task client json outbox task w).db
  unfolding process_task
  task_retries task w h = elim (Option-cases (json.decode task.payload)) [
    | inl bad ↦
        rw (bad, process_task)
          (mark_retries task.id status_failed task.retry_count w (λ c. absurd (omega arith)) h)
    | inr (flag, reads) ↦
        rw (reads, process_task)
          (settle_retries task (save_feature_if_newer client json (flag_key flag) flag w.etcd).0
            (record {
              etcd = (save_feature_if_newer client json (flag_key flag) flag w.etcd).1;
              db = w.db;
            })
            h)
  ]

  tasks_retries :
      (tasks : List OutboxTask) (w : World E D)
      → HasRetries outbox_laws w.db
      → HasRetries outbox_laws (process_tasks client json outbox tasks w).db
  unfolding process_tasks
  tasks_retries [] w h = h
  tasks_retries (t ∷ ts) w h =
      tasks_retries ts (process_task client json outbox t w) (task_retries t w h)

  -- A round of the worker leaves no task pending that has been tried five times or more, if there was none
  -- before, whatever fails in the round.
  pub process_pending_retries :
      (w : World E D)
      → HasRetries outbox_laws w.db
      → HasRetries outbox_laws (process_pending client json outbox w).db
  unfolding process_pending
  process_pending_retries w h = elim (Option-cases (outbox.fetch_pending 10 w.db).0) [
    | inl failed ↦ rw (failed, process_pending) fetched
    | inr (tasks, back) ↦
        rw (back, process_pending)
          (tasks_retries tasks (record { etcd = w.etcd; db = (outbox.fetch_pending 10 w.db).1 })
            fetched)
  ]
    where
      fetched : HasRetries outbox_laws (outbox.fetch_pending 10 w.db).1
      fetched j t at = h j t (sym (fetch_changes_nothing 10 w.db j) ∙ at)
