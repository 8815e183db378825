-- ===== src/Reconciler/Run.antt =====
-- internal/service/reconciler.go: the configuration, and `Run` with its lock. `concurrency.Mutex` is a parameter.
use mizuflow.Base.{ℕ, Bool, Option, none, some, List, [], ◌∷◌, if◌then◌else◌}
use mizuflow.Base.Int.{ℤ, pos, leb_ℤ, pos_part}
use mizuflow.Json.{Json}
use mizuflow.Etcd.{EtcdClient}
use mizuflow.Db.{FeatureInterface}
use mizuflow.Outbox.{World}
use mizuflow.Reconciler.{batch_size_or_default, reconcile_from}

-- The durations are nanoseconds.
pub record ReconcilerConfig : Type 0 where
  pub interval : ℤ
  pub batch_size : ℤ
  pub batch_delay : ℤ

-- `NewReconciler`, of which the configuration is what it changes.
unfoldable pub new_reconciler : ReconcilerConfig → ReconcilerConfig
new_reconciler cfg = record cfg { batch_size = pos (batch_size_or_default cfg.batch_size) }

-- What `mutex.Lock` returns within five seconds: no error, `context.DeadlineExceeded`, or any other.
pub data LockAnswer : Type 0 where
  acquired deadline_exceeded lock_error : LockAnswer

-- A lock that etcd keeps; the second call tells whether the lock was given back without an error.
pub record Mutex (E : Type 0) : Type 0 where
  pub lock : E → LockAnswer × E
  pub unlock : E → Bool × E

-- What a select of the loop takes: the end of the context, or a tick, which comes when others have left the database
-- in a state.
pub data Turn (D : Type 0) : Type 0 where
  done : Turn D
  tick : D → Turn D

-- `running` waits for the next turn; a ticker without a positive interval panics, and without a session `Run` returns.
pub data Running (E D : Type 0) : Type 0 where
  ticker_panics no_session : Running E D
  stopped running : World E D → Running E D

module _ {E D : Type 0} (client : EtcdClient E) (json : Json) (features : FeatureInterface D)
    (mutex : Mutex E) where
  abbrev released : World E D → World E D
  released w = record { etcd = (mutex.unlock w.etcd).1; db = w.db }

  -- `r.reconcile(ctx)` and the release of the lock, whose error is only logged.
  unfoldable pub locked_round : ℕ → ℕ → World E D → Option (World E D)
  locked_round fuel batch_size w = elim (reconcile_from client json features fuel batch_size 0 w) [
    | none ↦ none
    | some w' ↦ some (released w')
  ]

  -- A round without the lock is skipped.
  unfoldable pub after_lock : ℕ → ℕ → LockAnswer → World E D → Option (World E D)
  unfolding locked_round
  after_lock fuel batch_size acquired w = locked_round fuel batch_size w
  after_lock fuel batch_size deadline_exceeded w = some w
  after_lock fuel batch_size lock_error w = some w

  -- One tick.
  unfoldable pub round : ℕ → ℕ → World E D → Option (World E D)
  unfolding after_lock
  round fuel batch_size w =
      let (answer, e) = mutex.lock w.etcd in
      after_lock fuel batch_size answer (record { etcd = e; db = w.db })

  -- The loop of `Run` over its turns. `none` means that the fuel of a round ran out.
  unfoldable pub run_turns : ℕ → ℕ → List (Turn D) → World E D → Option (Running E D)
  unfolding round
  run_turns fuel batch_size [] w = some (running w)
  run_turns fuel batch_size (done ∷ turns) w = some (stopped w)
  run_turns fuel batch_size (tick d ∷ turns) w =
      elim (round fuel batch_size (record { etcd = w.etcd; db = d })) [
        | none ↦ none
        | some w' ↦ run_turns fuel batch_size turns w'
      ]

  -- `Run` of a reconciler with a configuration; `session` tells whether `concurrency.NewSession` succeeded.
  unfoldable pub run_reconciler :
      ReconcilerConfig → ℕ → Bool → List (Turn D) → World E D → Option (Running E D)
  unfolding run_turns
  run_reconciler cfg fuel session turns w =
      if leb_ℤ cfg.interval (pos 0)
      then some ticker_panics
      else if session
      then run_turns fuel (pos_part cfg.batch_size) turns w
      else some no_session
