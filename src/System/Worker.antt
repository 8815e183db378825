-- ===== src/System/Worker.antt =====
-- internal/service/worker.go, `Run`, as a run of the writers.
use mizuflow.Base.{List, [], ◌∷◌}
use mizuflow.Json.{Json}
use mizuflow.Etcd.{EtcdClient}
use mizuflow.Etcd.Laws.{EtcdLaws}
use mizuflow.Db.{OutboxInterface, FeatureInterface}
use mizuflow.Outbox.{World, WorkerTurn, context_done, interval_passed, process_pending}
use mizuflow.Outbox.Laws.{OutboxLaws}
use mizuflow.System.{NoneCompleted}

module _ {E D : Type 0} {client : EtcdClient E} {json : Json} {outbox : OutboxInterface D}
    (etcd_laws : EtcdLaws client json) (outbox_laws : OutboxLaws outbox)
    (features : FeatureInterface D) where
  -- Between the rounds of the worker, the others complete no task.
  abbrev pub OthersComplete : List (WorkerTurn D) → World E D → Type 0
  OthersComplete [] w = Unit
  OthersComplete (context_done ∷ turns) w = Unit
  OthersComplete (interval_passed d ∷ turns) w =
      NoneCompleted outbox_laws w.db d
      × OthersComplete turns (process_pending client json outbox (record { etcd = w.etcd; db = d }))
