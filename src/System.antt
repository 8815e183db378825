-- ===== src/System.antt =====
-- The writers of etcd and of the outbox together: rounds of the outbox worker (internal/service/worker.go), calls of
-- `syncToEtcd` (internal/service/feature.go), rounds of the reconciler (internal/service/reconciler.go), and what other
-- servers and saves do between them, in any order.
pub mod Moves
pub mod Runs
pub mod Worker
pub mod Saves
mod Tests
use mizuflow.Base.{ℕ, ◌≡◌, some}
use mizuflow.Api.{FeatureFlag}
use mizuflow.Json.{Json, RoundTrips}
use mizuflow.Etcd.{EtcdClient}
use mizuflow.Etcd.Laws.{EtcdLaws}
use mizuflow.Db.{OutboxTask, OutboxInterface, FeatureInterface, status_completed}
use mizuflow.Outbox.{World, process_pending, sync_to_etcd}
use mizuflow.Outbox.Laws.{OutboxLaws}
use mizuflow.Outbox.Marks.{HasPayload}
use mizuflow.Reconciler.{reconcile_from}
use mizuflow.Reconciler.Keeps.{Kept}

-- What is completed in the second state of the database was so in the first: a save adds pending tasks alone.
abbrev pub NoneCompleted :
    {D : Type 0} {outbox : OutboxInterface D} → OutboxLaws outbox → D → D → Type 0
NoneCompleted outbox_laws d d' =
    (id : ℕ) (t : OutboxTask)
    → outbox_laws.row d' id ≡ some t
    → t.status ≡ status_completed
    → outbox_laws.row d id ≡ some t

module _ {E D : Type 0} {client : EtcdClient E} {json : Json} {outbox : OutboxInterface D}
    (etcd_laws : EtcdLaws client json) (outbox_laws : OutboxLaws outbox)
    (features : FeatureInterface D) where
  pub data SystemStep : World E D → World E D → Type 0 where
    works : (w : World E D) → SystemStep w (process_pending client json outbox w)
    syncs :
        (id : ℕ) (flag : FeatureFlag) (w : World E D)
        → RoundTrips json flag
        → HasPayload outbox_laws w.db id (json.encode flag)
        → SystemStep w (sync_to_etcd client json outbox id flag w)
    reconciles :
        (fuel batch_size : ℕ) (w w' : World E D)
        → reconcile_from client json features fuel batch_size 0 w ≡ some w'
        → SystemStep w w'
    saves :
        (w : World E D) (d : D)
        → NoneCompleted outbox_laws w.db d
        → SystemStep w (record { etcd = w.etcd; db = d })
    others_write :
        (w : World E D) (e : E)
        → Kept etcd_laws w.etcd e
        → SystemStep w (record { etcd = e; db = w.db })

  -- Any number of steps.
  pub data SystemRun : World E D → World E D → Type 0 where
    rests : (w : World E D) → SystemRun w w
    goes_on : (w w' w'' : World E D) → SystemStep w w' → SystemRun w' w'' → SystemRun w w''
