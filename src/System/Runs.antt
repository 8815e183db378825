-- ===== src/System/Runs.antt =====
-- What holds after any sequence of steps of the writers.
use mizuflow.Base.{sym, ◌∙◌}
use mizuflow.Json.{Json}
use mizuflow.Etcd.{EtcdClient}
use mizuflow.Etcd.Laws.{EtcdLaws}
use mizuflow.Db.{OutboxInterface, FeatureInterface}
use mizuflow.Outbox.{World}
use mizuflow.Outbox.Laws.{OutboxLaws}
use mizuflow.Outbox.Published.{
  Stable, IsPublished, process_pending-IsPublished, sync_to_etcd-IsPublished,
}
use mizuflow.Reconciler.Keeps.{Kept, PagesRoundTrip, reconcile_from_keeps}
use mizuflow.System.{
  SystemStep, works, syncs, reconciles, saves, others_write, SystemRun, rests, goes_on,
}
use mizuflow.System.Moves.{
  process_pending_keeps, sync_to_etcd_keeps, ReadsLeave, reconcile_from-Unchanged,
}

module _ {E D : Type 0} {client : EtcdClient E} {json : Json} {outbox : OutboxInterface D}
    (etcd_laws : EtcdLaws client json) (outbox_laws : OutboxLaws outbox)
    (features : FeatureInterface D) (stable : Stable json) (rt : PagesRoundTrip json features)
    (leave : ReadsLeave client json outbox_laws features) where
  abbrev pub Safe : World E D → Type 0
  Safe w = IsPublished etcd_laws outbox_laws stable w

  SystemStep-Kept :
      {w w' : World E D}
      → SystemStep etcd_laws outbox_laws features w w'
      → Kept etcd_laws w.etcd w'.etcd
  SystemStep-Kept (works w) = process_pending_keeps outbox etcd_laws stable w
  SystemStep-Kept (syncs id flag w reads has) =
      sync_to_etcd_keeps outbox etcd_laws stable id flag w reads
  SystemStep-Kept (reconciles fuel batch_size w w' e) =
      reconcile_from_keeps etcd_laws features fuel batch_size 0 w w' rt e
  SystemStep-Kept (saves w d none_new) = λ j v h. h
  SystemStep-Kept (others_write w e kept) = kept

  SystemStep-IsPublished :
      {w w' : World E D} → SystemStep etcd_laws outbox_laws features w w' → Safe w → Safe w'
  SystemStep-IsPublished (works w) p = process_pending-IsPublished etcd_laws outbox_laws stable w p
  SystemStep-IsPublished (syncs id flag w reads has) p =
      sync_to_etcd-IsPublished etcd_laws outbox_laws stable id flag w reads has p
  SystemStep-IsPublished (reconciles fuel batch_size w w' e) p = λ id t flag at completed reads.
      reconcile_from_keeps etcd_laws features fuel batch_size 0 w w' rt e _ _ (
        p id t flag
          (sym (
              reconcile_from-Unchanged client json outbox_laws features fuel batch_size 0 w w' leave
                e id)
            ∙ at)
          completed reads)
  SystemStep-IsPublished (saves w d none_new) p =
      λ id t flag at completed reads. p id t flag (none_new id t at completed) completed reads
  SystemStep-IsPublished (others_write w e kept) p =
      λ id t flag at completed reads. kept _ _ (p id t flag at completed reads)

  -- Let what reads back be written back, let the flags of all rows of the pages read back, and let the pages be read
  -- without a change of the outbox. After any sequence of rounds of the worker, calls of `syncToEtcd` with a task that
  -- holds their flag, rounds of the reconciler, changes of the database that complete no task, and writes of others
  -- that take no flag back, in whatever order and whatever fails in them, etcd holds for every completed task the flag
  -- of its payload or a later version, if it did so before, and no flag was lost or taken back on the way.
  pub SystemRun-IsPublished :
      {w w' : World E D}
      → SystemRun etcd_laws outbox_laws features w w'
      → Safe w
      → Safe w' × Kept etcd_laws w.etcd w'.etcd
  SystemRun-IsPublished (rests w) p = (p, λ j v h. h)
  SystemRun-IsPublished (goes_on w w' w'' s r) p =
      let (p', kept) = SystemRun-IsPublished r (SystemStep-IsPublished s p) in
      (p', λ j v h. kept j v (SystemStep-Kept s j v h))
