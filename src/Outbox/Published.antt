-- ===== src/Outbox/Published.antt =====
-- internal/service/worker.go and `syncToEtcd`: the tasks marked completed, and what etcd holds.
use mizuflow.Base.{
  ℕ, ◌+◌, String, ◌≡◌, refl, sym, ap, ◌∙◌, some, List, [], ◌∷◌, inl, inr, Bool-cases, Option-cases,
  arith, leb,
}
use mathlib.Core.Path.{subst}
use mathlib.Core.Option.{some-injective}
use mizuflow.Base.Int.{ℤ}
use mizuflow.Api.{FeatureFlag}
use mizuflow.Json.{Json, RoundTrips}
use mizuflow.Etcd.{EtcdClient, Result, ok, err, save_feature_if_newer}
use mizuflow.Etcd.Laws.{AtLeast, EtcdLaws}
use mizuflow.Etcd.Keeps.{save_feature_if_newer_keeps}
use mizuflow.Etcd.Publishes.{save_feature_if_newer_publishes}
use mizuflow.Db.{OutboxTask, OutboxInterface, status_pending, status_completed, status_failed}
use mizuflow.Outbox.{
  World, flag_key, mark, settle, process_task, process_tasks, process_pending, finish_sync,
  sync_to_etcd,
}
use mizuflow.Outbox.Laws.{OutboxLaws, Unchanged, All}
use mizuflow.Outbox.Marks.{HasPayload, marked_row, mark_payload}

-- What unmarshals marshals back to the same flag.
abbrev pub Stable : Json → Type 0
Stable json = (s : String) (f : FeatureFlag) → json.decode s ≡ some f → RoundTrips json f

module _ {E D : Type 0} {client : EtcdClient E} {json : Json} {outbox : OutboxInterface D}
    (etcd_laws : EtcdLaws client json) (outbox_laws : OutboxLaws outbox)
    (stable : Stable json) where
  open etcd_laws use {entry}
  open outbox_laws use {row, updates, update_fails, fetch_changes_nothing, fetches_rows}

  -- Whatever is marked completed is in etcd.
  abbrev pub IsPublished : World E D → Type 0
  IsPublished w =
      (id : ℕ) (t : OutboxTask) (flag : FeatureFlag)
      → row w.db id ≡ some t
      → t.status ≡ status_completed
      → json.decode t.payload ≡ some flag
      → AtLeast json flag.version (entry w.etcd (flag_key flag))

  mark-IsPublished :
      (id status n : ℕ) (w : World E D)
      → ((t : OutboxTask) (flag : FeatureFlag)
          → status ≡ status_completed
          → row w.db id ≡ some t
          → json.decode t.payload ≡ some flag
          → AtLeast json flag.version (entry w.etcd (flag_key flag)))
      → IsPublished w
      → IsPublished (mark outbox id status n w)
  unfolding mark
  mark-IsPublished id status n w done pub_w j t flag at completed reads =
      let (old, o, same, which) = marked_row outbox_laws id status n w j at in
      let old_reads : json.decode old.payload ≡ some flag = ap json.decode (sym same) ∙ reads in
      elim which [
        | inl (here, s, _) ↦
            done old flag (sym s ∙ completed) (ap (row w.db) (sym here) ∙ o) old_reads
        | inr e ↦
            pub_w j old flag o (ap (λ (x : OutboxTask). x.status) (sym e) ∙ completed) old_reads
      ]

  -- A later state of etcd holds no less.
  etcd_moves :
      (e e' : E) (d : D)
      → ((j : String) (v : ℤ) → AtLeast json v (entry e j) → AtLeast json v (entry e' j))
      → IsPublished (record { etcd = e; db = d })
      → IsPublished (record { etcd = e'; db = d })
  etcd_moves e e' d keeps p j t flag at completed reads =
      keeps (flag_key flag) flag.version (p j t flag at completed reads)

  settle-IsPublished :
      (task : OutboxTask) (flag : FeatureFlag) (r : Result ℤ) (w : World E D)
      → json.decode task.payload ≡ some flag
      → HasPayload outbox_laws w.db task.id task.payload
      → ((rev : ℤ) → r ≡ ok rev → AtLeast json flag.version (entry w.etcd (flag_key flag)))
      → IsPublished w
      → IsPublished (settle client json outbox task r w)
  unfolding settle
  settle-IsPublished task flag (err _) w reads has out p =
      elim (Bool-cases (leb 5 (task.retry_count + 1))) [
        | inl t ↦ rw t (
            mark-IsPublished task.id status_failed (task.retry_count + 1) w
              (λ _ _ c. absurd (omega arith)) p)
        | inr t ↦ rw t (
            mark-IsPublished task.id status_pending (task.retry_count + 1) w
              (λ _ _ c. absurd (omega arith)) p)
      ]
  settle-IsPublished task flag (ok rev) w reads has out p =
      mark-IsPublished task.id status_completed task.retry_count w
        (λ t f c at reads'.
          subst (λ (x : FeatureFlag). AtLeast json x.version (entry w.etcd (flag_key x)))
            (same_flag t f at reads') (out rev refl))
        p
    where
      same_flag :
          (t : OutboxTask) (f : FeatureFlag)
          → row w.db task.id ≡ some t
          → json.decode t.payload ≡ some f
          → flag ≡ f
      same_flag t f at reads' =
          some-injective _ _ (sym reads ∙ ap json.decode (sym (has t at)) ∙ reads')

  task-IsPublished :
      (task : OutboxTask) (w : World E D)
      → HasPayload outbox_laws w.db task.id task.payload
      → IsPublished w
      → IsPublished (process_task client json outbox task w)
  unfolding process_task
  task-IsPublished task w has p = elim (Option-cases (json.decode task.payload)) [
    | inl bad ↦
        rw (bad, process_task)
          (mark-IsPublished task.id status_failed task.retry_count w (λ _ _ c. absurd (omega arith))
            p)
    | inr (flag, reads) ↦
        rw (reads, process_task)
          (settle-IsPublished task flag
            (save_feature_if_newer client json (flag_key flag) flag w.etcd).0
            (record {
              etcd = (save_feature_if_newer client json (flag_key flag) flag w.etcd).1;
              db = w.db;
            })
            reads has
            (λ rev e.
              save_feature_if_newer_publishes etcd_laws (flag_key flag)
                (stable task.payload flag reads) rev w.etcd e)
            (etcd_moves w.etcd (save_feature_if_newer client json (flag_key flag) flag w.etcd).1
              w.db
              (save_feature_if_newer_keeps etcd_laws (flag_key flag)
                (stable task.payload flag reads) w.etcd)
              p))
  ]

  settle_payload :
      (task : OutboxTask) (r : Result ℤ) (w : World E D) (j : ℕ) (p : String)
      → HasPayload outbox_laws w.db j p
      → HasPayload outbox_laws (settle client json outbox task r w).db j p
  unfolding settle
  settle_payload task (err _) w j p h = elim (Bool-cases (leb 5 (task.retry_count + 1))) [
    | inl t ↦ rw t (mark_payload outbox_laws task.id status_failed (task.retry_count + 1) w j p h)
    | inr t ↦ rw t (mark_payload outbox_laws task.id status_pending (task.retry_count + 1) w j p h)
  ]
  settle_payload task (ok rev) w j p h =
      mark_payload outbox_laws task.id status_completed task.retry_count w j p h

  task_payload :
      (task : OutboxTask) (w : World E D) (j : ℕ) (p : String)
      → HasPayload outbox_laws w.db j p
      → HasPayload outbox_laws (process_task client json outbox task w).db j p
  unfolding process_task
  task_payload task w j p h = elim (Option-cases (json.decode task.payload)) [
    | inl bad ↦
        rw (bad, process_task)
          (mark_payload outbox_laws task.id status_failed task.retry_count w j p h)
    | inr (flag, reads) ↦
        rw (reads, process_task)
          (settle_payload task (save_feature_if_newer client json (flag_key flag) flag w.etcd).0
            (record {
              etcd = (save_feature_if_newer client json (flag_key flag) flag w.etcd).1;
              db = w.db;
            })
            j p h)
  ]

  tasks_payload :
      (tasks : List OutboxTask) (task : OutboxTask) (w : World E D)
      → All (λ t. HasPayload outbox_laws w.db t.id t.payload) tasks
      → All
          (λ t. HasPayload outbox_laws (process_task client json outbox task w).db t.id t.payload)
          tasks
  tasks_payload [] task w h = tt
  tasks_payload (t ∷ ts) task w h =
      (task_payload task w t.id t.payload h.0, tasks_payload ts task w h.1)

  tasks-IsPublished :
      (tasks : List OutboxTask) (w : World E D)
      → All (λ t. HasPayload outbox_laws w.db t.id t.payload) tasks
      → IsPublished w
      → IsPublished (process_tasks client json outbox tasks w)
  unfolding process_tasks
  tasks-IsPublished [] w h p = p
  tasks-IsPublished (t ∷ ts) w h p =
      tasks-IsPublished ts (process_task client json outbox t w) (tasks_payload ts t w h.1)
        (task-IsPublished t w h.0 p)

  fetched_payload :
      (tasks : List OutboxTask) (d d' : D)
      → Unchanged row d d'
      → All (λ t. (row d t.id ≡ some t) × (t.status ≡ status_pending)) tasks
      → All (λ t. HasPayload outbox_laws d' t.id t.payload) tasks
  fetched_payload [] d d' same h = tt
  fetched_payload (t ∷ ts) d d' same h = (
    λ x at. ap (λ (o : OutboxTask). o.payload) (some-injective _ _ (sym at ∙ same t.id ∙ h.0.0)),
    fetched_payload ts d d' same h.1,
  )

  fetch-IsPublished :
      (w : World E D)
      → IsPublished w
      → IsPublished (record { etcd = w.etcd; db = (outbox.fetch_pending 10 w.db).1 })
  fetch-IsPublished w p j t flag at = p j t flag (sym (fetch_changes_nothing 10 w.db j) ∙ at)

  -- A round of the worker keeps it true that for every task marked completed etcd holds the flag of its payload or
  -- a later version, whatever fails in the round and whatever other writers of etcd do that do not go back either.
  pub process_pending-IsPublished :
      (w : World E D) → IsPublished w → IsPublished (process_pending client json outbox w)
  unfolding process_pending
  process_pending-IsPublished w p = elim (Option-cases (outbox.fetch_pending 10 w.db).0) [
    | inl failed ↦ rw (failed, process_pending) (fetch-IsPublished w p)
    | inr (tasks, back) ↦
        rw (back, process_pending)
          (tasks-IsPublished tasks (record { etcd = w.etcd; db = (outbox.fetch_pending 10 w.db).1 })
            (fetched_payload tasks w.db (outbox.fetch_pending 10 w.db).1
              (fetch_changes_nothing 10 w.db) (fetches_rows 10 w.db tasks back))
            (fetch-IsPublished w p))
  ]

  finish-IsPublished :
      (id : ℕ) (flag : FeatureFlag) (r : Result ℤ) (w : World E D)
      → RoundTrips json flag
      → HasPayload outbox_laws w.db id (json.encode flag)
      → ((rev : ℤ) → r ≡ ok rev → AtLeast json flag.version (entry w.etcd (flag_key flag)))
      → IsPublished w
      → IsPublished (finish_sync client json outbox id r w)
  unfolding finish_sync
  finish-IsPublished id flag (err _) w rt has out p = p
  finish-IsPublished id flag (ok rev) w rt has out p =
      mark-IsPublished id status_completed 0 w
        (λ t f c at reads.
          subst (λ (x : FeatureFlag). AtLeast json x.version (entry w.etcd (flag_key x)))
            (some-injective _ _ (sym rt ∙ ap json.decode (sym (has t at)) ∙ reads)) (out rev refl))
        p

  -- `syncToEtcd`, called with the id of the task that holds the flag, keeps it true that for every task marked
  -- completed etcd holds the flag of its payload or a later version.
  pub sync_to_etcd-IsPublished :
      (id : ℕ) (flag : FeatureFlag) (w : World E D)
      → RoundTrips json flag
      → HasPayload outbox_laws w.db id (json.encode flag)
      → IsPublished w
      → IsPublished (sync_to_etcd client json outbox id flag w)
  unfolding sync_to_etcd
  sync_to_etcd-IsPublished id flag w rt has p =
      finish-IsPublished id flag (save_feature_if_newer client json (flag_key flag) flag w.etcd).0
        (record {
          etcd = (save_feature_if_newer client json (flag_key flag) flag w.etcd).1;
          db = w.db;
        })
        rt has (λ rev e. save_feature_if_newer_publishes etcd_laws (flag_key flag) rt rev w.etcd e)
        (etcd_moves w.etcd (save_feature_if_newer client json (flag_key flag) flag w.etcd).1 w.db
          (save_feature_if_newer_keeps etcd_laws (flag_key flag) rt w.etcd) p)
