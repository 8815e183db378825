-- ===== src/Reconciler/Runs.antt =====
-- Every run of the reconciler has an outcome, and takes no flag back.
use mizuflow.Base.{ℕ, ◌<◌, Bool, ◌≡◌, refl, some, inl, inr, Bool-cases, arith, List, [], ◌∷◌}
use mizuflow.Base.Int.{ℤ, pos, negsuc, leb_ℤ}
use mizuflow.Json.{Json}
use mizuflow.Etcd.{EtcdClient}
use mizuflow.Etcd.Laws.{EtcdLaws}
use mizuflow.Db.{FeatureInterface}
use mizuflow.Outbox.{World}
use mizuflow.Reconciler.{batch_size_or_default}
use mizuflow.Reconciler.Ends.{PageLaws, reconcile_ends}
use mizuflow.Reconciler.Run.{
  ReconcilerConfig, new_reconciler, Mutex, LockAnswer, acquired, deadline_exceeded, lock_error,
  Turn, done, tick, Running, ticker_panics, no_session, stopped, running, locked_round, after_lock,
  round, run_turns, run_reconciler,
}
use mizuflow.Reconciler.Keeps.{MutexLaws, PagesRoundTrip, RunKept, run_turns_keeps}

positive_batch : (n : ℤ) → 0 < batch_size_or_default n
unfolding batch_size_or_default
positive_batch (pos n) = ground arith
positive_batch (negsuc n) = omega arith

-- The fuel is more than the rows that each tick finds.
abbrev pub AllFit : {D : Type 0} → (D → ℕ) → ℕ → List (Turn D) → Type 0
AllFit rows fuel [] = Unit
AllFit rows fuel (done ∷ turns) = AllFit rows fuel turns
AllFit rows fuel (tick d ∷ turns) = (rows d < fuel) × AllFit rows fuel turns

module _ {E D : Type 0} (client : EtcdClient E) (json : Json) {features : FeatureInterface D}
    (pages : PageLaws features) (mutex : Mutex E) (fuel batch_size : ℕ)
    (pos_batch : 0 < batch_size) where
  open pages use {rows}

  abbrev HasRound : LockAnswer → World E D → Type 0
  HasRound answer w =
      (w' : World E D) × (after_lock client json features mutex fuel batch_size answer w ≡ some w')

  after_lock_ends : (answer : LockAnswer) (w : World E D) → rows w.db < fuel → HasRound answer w
  unfolding after_lock locked_round
  after_lock_ends acquired w enough =
      let (after, e) =
        reconcile_ends client json pages fuel batch_size 0 w pos_batch (omega arith) in
      (record { etcd = (mutex.unlock after.etcd).1; db = after.db }, rw (e, locked_round) refl)
  after_lock_ends deadline_exceeded w enough = (w, refl)
  after_lock_ends lock_error w enough = (w, refl)

  run_turns_ends :
      (turns : List (Turn D)) (w : World E D)
      → AllFit rows fuel turns
      → (r : Running E D) × (run_turns client json features mutex fuel batch_size turns w ≡ some r)
  unfolding run_turns round
  run_turns_ends [] w fit = (running w, refl)
  run_turns_ends (done ∷ turns) w fit = (stopped w, refl)
  run_turns_ends (tick d ∷ turns) w fit =
      let w0 : World E D = record { etcd = (mutex.lock w.etcd).1; db = d } in
      let (w1, e) = after_lock_ends (mutex.lock w.etcd).0 w0 fit.0 in
      let (r, e') = run_turns_ends turns w1 fit.1 in (r, rw (e, run_turns) e')

-- Let taking and giving back the lock write no flag, and let the flags of the rows on all pages read back. A reconciler
-- from `NewReconciler`, given fuel for more rows than each tick finds, has an outcome on any turns, whoever has the lock
-- and whatever fails: it has panicked for want of a positive interval, has no session, is stopped or waits, and in the
-- last two etcd still holds every flag that it held in the same or a later version.
pub run_reconciler_keeps :
    {E D : Type 0} {client : EtcdClient E} {json : Json} (laws : EtcdLaws client json)
    → {features : FeatureInterface D} (pages : PageLaws features) → (mutex : Mutex E)
    → MutexLaws laws mutex
    → PagesRoundTrip json features
    → (cfg : ReconcilerConfig) (fuel : ℕ) (session : Bool) (turns : List (Turn D)) (w : World E D)
    → AllFit pages.rows fuel turns
    → (r : Running E D) × (run_reconciler client json features mutex
          (new_reconciler cfg)
          fuel
          session
          turns
          w
        ≡ some r)
      × RunKept laws features w.etcd r
unfolding run_reconciler new_reconciler
run_reconciler_keeps {client} {json} laws {features} pages mutex locks rt cfg fuel session turns w
      fit =
    elim (Bool-cases (leb_ℤ cfg.interval (pos 0))) [
      | inl t ↦ (ticker_panics, rw t refl, _)
      | inr t ↦ elim (Bool-cases session) [
        | inr s ↦ (no_session, rw (t, s) refl, _)
        | inl s ↦
            let size : ℕ = batch_size_or_default cfg.batch_size in
            let (r, e) =
              run_turns_ends client json pages mutex fuel size (positive_batch cfg.batch_size) turns
                w fit in
            (r, rw (t, s) e, run_turns_keeps laws features mutex locks rt fuel size turns w r e)
      ]
    ]
