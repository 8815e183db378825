-- ===== src/Reconciler/Keeps.antt =====
-- The runs of the reconciler and the flags that etcd holds.
use mizuflow.Base.{ℕ, zero, suc, ◌+◌, String, ◌≡◌, sym, some, inl, inr, Option-cases, List, [], ◌∷◌}
use mathlib.Core.Option.{some-injective}
use mizuflow.Base.Int.{ℤ}
use mizuflow.Json.{Json, RoundTrips}
use mizuflow.Etcd.{EtcdClient}
use mizuflow.Etcd.Laws.{AtLeast, EtcdLaws}
use mizuflow.Db.{FeatureMaster, FeatureInterface}
use mizuflow.Outbox.{World}
use mizuflow.Reconciler.{master_flag, check_one, check_all, reconcile_from}
use mizuflow.Reconciler.Fixes.{check_one_keeps}
use mizuflow.Reconciler.Run.{
  Mutex, LockAnswer, acquired, deadline_exceeded, lock_error, Turn, done, tick, Running,
  ticker_panics, no_session, stopped, running, locked_round, after_lock, round, run_turns,
}

-- The flags of the rows are written and read back.
abbrev pub AllRoundTrip : Json → List FeatureMaster → Type 0
AllRoundTrip json [] = Unit
AllRoundTrip json (m ∷ ms) = RoundTrips json (master_flag m) × AllRoundTrip json ms

-- The flags of all rows that a page shows are written and read back.
abbrev pub PagesRoundTrip : {D : Type 0} → Json → FeatureInterface D → Type 0
PagesRoundTrip {D} json features =
    (offset limit : ℕ) (d : D) (ms : List FeatureMaster)
    → (features.list_by_page offset limit d).0 ≡ some ms
    → AllRoundTrip json ms

module _ {E : Type 0} {client : EtcdClient E} {json : Json} (laws : EtcdLaws client json) where
  open laws use {entry}

  -- No flag that etcd held was lost or taken back to an earlier version.
  abbrev pub Kept : E → E → Type 0
  Kept e e' = (j : String) (v : ℤ) → AtLeast json v (entry e j) → AtLeast json v (entry e' j)

  -- Taking and giving back the lock writes no flag; other clients replace a flag only by the same or a later version.
  pub record MutexLaws (mutex : Mutex E) : Type 0 where
    pub lock_keeps : (e : E) → Kept e (mutex.lock e).1
    pub unlock_keeps : (e : E) → Kept e (mutex.unlock e).1

module _ {E D : Type 0} {client : EtcdClient E} {json : Json} (laws : EtcdLaws client json)
    (features : FeatureInterface D) where
  pub check_all_keeps :
      (ms : List FeatureMaster) (e : E)
      → AllRoundTrip json ms
      → Kept laws e (check_all client json features ms e)
  unfolding check_all
  check_all_keeps [] e rt j v h = h
  check_all_keeps (m ∷ ms) e rt j v h =
      check_all_keeps ms (check_one client json features m e) rt.1 j v
        (check_one_keeps laws features m rt.0 e j v h)

  pub reconcile_from_keeps :
      (fuel batch_size offset : ℕ) (w w' : World E D)
      → PagesRoundTrip json features
      → reconcile_from client json features fuel batch_size offset w ≡ some w'
      → Kept laws w.etcd w'.etcd
  unfolding reconcile_from
  reconcile_from_keeps zero batch_size offset w w' rt e j v h = absurd (cc)
  reconcile_from_keeps (suc fuel) batch_size offset w w' rt e j v h =
      elim (Option-cases (features.list_by_page offset batch_size w.db).0) [
        | inl failed ↦
            let same = some-injective _ _ (rw (failed, reconcile_from) at e) in rw (sym same) h
        | inr ([], back) ↦
            let same = some-injective _ _ (rw (back, reconcile_from) at e) in rw (sym same) h
        | inr (m ∷ ms, back) ↦
            reconcile_from_keeps fuel batch_size (offset + batch_size)
              (record {
                etcd = check_all client json features (m ∷ ms) w.etcd;
                db = (features.list_by_page offset batch_size w.db).1;
              })
              w' rt (rw (back, reconcile_from) at e) j v
              (check_all_keeps (m ∷ ms) w.etcd (rt offset batch_size w.db (m ∷ ms) back) j v h)
      ]

  -- What etcd holds under a run that has not ended early.
  abbrev pub RunKept : E → Running E D → Type 0
  RunKept e ticker_panics = Unit
  RunKept e no_session = Unit
  RunKept e (stopped w') = Kept laws e w'.etcd
  RunKept e (running w') = Kept laws e w'.etcd

module _ {E D : Type 0} {client : EtcdClient E} {json : Json} (laws : EtcdLaws client json)
    (features : FeatureInterface D) (mutex : Mutex E) (locks : MutexLaws laws mutex)
    (rt : PagesRoundTrip json features) where
  open locks use {lock_keeps, unlock_keeps}

  locked_round_keeps :
      (fuel batch_size : ℕ) (w w' : World E D)
      → locked_round client json features mutex fuel batch_size w ≡ some w'
      → Kept laws w.etcd w'.etcd
  unfolding locked_round
  locked_round_keeps fuel batch_size w w' e j v h =
      elim (Option-cases (reconcile_from client json features fuel batch_size 0 w)) [
        | inl out ↦ absurd (let e' = rw (out, locked_round) at e in cc)
        | inr (after, back) ↦
            let same = some-injective _ _ (rw (back, locked_round) at e) in
            rw (sym same) (
              unlock_keeps after.etcd j v
                (reconcile_from_keeps laws features fuel batch_size 0 w after rt back j v h))
      ]

  after_lock_keeps :
      (fuel batch_size : ℕ) (answer : LockAnswer) (w w' : World E D)
      → after_lock client json features mutex fuel batch_size answer w ≡ some w'
      → Kept laws w.etcd w'.etcd
  unfolding after_lock
  after_lock_keeps fuel batch_size acquired w w' e = locked_round_keeps fuel batch_size w w' e
  after_lock_keeps fuel batch_size deadline_exceeded w w' e =
      λ j v h. rw (sym (some-injective _ _ e)) h
  after_lock_keeps fuel batch_size lock_error w w' e = λ j v h. rw (sym (some-injective _ _ e)) h

  round_keeps :
      (fuel batch_size : ℕ) (w w' : World E D)
      → round client json features mutex fuel batch_size w ≡ some w'
      → Kept laws w.etcd w'.etcd
  unfolding round
  round_keeps fuel batch_size w w' e j v h =
      after_lock_keeps fuel batch_size (mutex.lock w.etcd).0
        (record { etcd = (mutex.lock w.etcd).1; db = w.db }) w' e j v (lock_keeps w.etcd j v h)

  pub run_turns_keeps :
      (fuel batch_size : ℕ) (turns : List (Turn D)) (w : World E D) (r : Running E D)
      → run_turns client json features mutex fuel batch_size turns w ≡ some r
      → RunKept laws features w.etcd r
  unfolding run_turns
  run_turns_keeps fuel batch_size [] w r e = rw (sym (some-injective _ _ e)) (λ j v h. h)
  run_turns_keeps fuel batch_size (done ∷ turns) w r e =
      rw (sym (some-injective _ _ e)) (λ j v h. h)
  run_turns_keeps fuel batch_size (tick d ∷ turns) w r e =
      let w0 : World E D = record { etcd = w.etcd; db = d } in
      elim (Option-cases (round client json features mutex fuel batch_size w0)) [
        | inl out ↦ absurd (let e' = rw (out, run_turns) at e in cc)
        | inr (w1, back) ↦
            weaken w w1 r (round_keeps fuel batch_size w0 w1 back)
              (run_turns_keeps fuel batch_size turns w1 r (rw (back, run_turns) at e))
      ]
    where
      weaken :
          (w w1 : World E D) (r : Running E D)
          → Kept laws w.etcd w1.etcd
          → RunKept laws features w1.etcd r
          → RunKept laws features w.etcd r
      weaken w w1 ticker_panics k h = _
      weaken w w1 no_session k h = _
      weaken w w1 (stopped w') k h = λ j v q. h j v (k j v q)
      weaken w w1 (running w') k h = λ j v q. h j v (k j v q)
