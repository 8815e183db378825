-- ===== src/Boot.antt =====
-- cmd/server/main.go, internal/config/config.go: how the server starts, what it starts, and how it ends.
mod Settings
pub mod Order
mod Tests
unfoldable pub use Settings.*
use mizuflow.Base.{
  ℕ, Bool, true, false, ◌||◌, Option, none, some, List, [], ◌∷◌, ◌++◌, String, ◌==◌, if◌then◌else◌,
}
use mizuflow.Base.Int.{ℤ, pos, negsuc, leb_ℤ}
use mizuflow.Reconciler.Run.{ReconcilerConfig, new_reconciler}

-- internal/service/hub.go, `NewHub`: what it keeps of its arguments.
pub record HubConfig : Type 0 where
  pub heartbeat_interval : ℤ
  pub buffer_size : ℕ

-- `if bufferSize <= 0 { bufferSize = 512 }`
unfoldable pub hub_buffer_or_default : ℤ → ℕ
hub_buffer_or_default (pos n) = if n == 0 then 512 else n
hub_buffer_or_default (negsuc n) = 512

unfoldable pub new_hub_config : ℤ → ℤ → HubConfig
unfolding hub_buffer_or_default
new_hub_config heartbeat_interval buffer_size = record {
  heartbeat_interval = heartbeat_interval;
  buffer_size = hub_buffer_or_default buffer_size;
}

-- What `run` makes of the configuration for the services, the workers and the router.
pub record Parts : Type 0 where
  pub hub : HubConfig
  pub auth : AuthConfig
  pub outbox_interval : ℤ
  pub reconciler : ReconcilerConfig
  pub requests_per_second : ℤ
  pub environment : String

unfoldable pub parts_of : Config → Parts
unfolding new_hub_config
parts_of cfg = record {
  hub = new_hub_config cfg.stream.heartbeat_interval cfg.stream.hub_buffer_size;
  auth = cfg.auth;
  outbox_interval = cfg.workers.outbox_interval;
  reconciler = new_reconciler (record {
    interval = cfg.workers.reconciler_interval;
    batch_size = cfg.workers.reconciler_batch_size;
    batch_delay = cfg.workers.reconciler_batch_delay;
  });
  requests_per_second = cfg.rate_limit.requests_per_second;
  environment = cfg.server.environment;
}

-- What the libraries answer: whether Redis answers a ping, etcd's client is made, MySQL is opened and migrated, and the
-- shutdown of the server of net/http comes to its end within ten seconds.
pub record Infra : Type 0 where
  pub ping_redis : RedisConfig → Bool
  pub new_etcd : EtcdConfig → Bool
  pub open_mysql : MySqlConfig → Bool
  pub migrate : Bool
  pub shutdown : Bool

pub data Resource : Type 0 where
  redis etcd mysql : Resource

pub data Worker : Type 0 where
  outbox_worker reconciler_worker hub_worker watcher : Worker

-- What `run` does, in order.
pub data Act : Type 0 where
  opens closes : Resource → Act
  starts : Worker → Act
  listens cancels shuts_down : Act

pub data BootError : Type 0 where
  no_redis no_etcd no_mysql no_migration : BootError

-- `crashed` is the panic of a worker, which ends the process with nothing deferred.
pub data Ending : Type 0 where
  failed : BootError → Ending
  crashed ended forced : Ending

-- `time.NewTicker` panics for an interval that is not positive.
unfoldable pub worker_panics : Parts → Bool
worker_panics p =
    leb_ℤ p.outbox_interval (pos 0)
    || (leb_ℤ p.reconciler.interval (pos 0) || leb_ℤ p.hub.heartbeat_interval (pos 0))

module _ (infra : Infra) where
  -- The three initializers: the error if there is one, and what was done.
  unfoldable pub init_redis : RedisConfig → Option BootError × List Act
  init_redis cfg = (if infra.ping_redis cfg then none else some no_redis, opens redis ∷ [])

  unfoldable pub init_etcd : EtcdConfig → Option BootError × List Act
  init_etcd cfg = if infra.new_etcd cfg then (none, opens etcd ∷ []) else (some no_etcd, [])

  unfoldable pub init_db : MySqlConfig → Option BootError × List Act
  init_db cfg =
      if infra.open_mysql cfg
      then (if infra.migrate then none else some no_migration, opens mysql ∷ [])
      else (some no_mysql, [])

  abbrev start_all : List Act
  start_all =
      starts outbox_worker
      ∷ starts reconciler_worker
      ∷ starts hub_worker
      ∷ starts watcher
      ∷ listens
      ∷ []

  -- From the repositories on: the workers, the server, and the end on a signal.
  unfoldable pub serve_until_signal : Parts → Ending × List Act
  serve_until_signal p =
      if worker_panics p
      then (crashed, start_all)
      else (if infra.shutdown then ended else forced, start_all ++ cancels ∷ shuts_down ∷ [])

  -- A function's deferred call after what it did; a crash runs none.
  unfoldable pub deferring : Act → Ending × List Act → Ending × List Act
  deferring act (failed e, acts) = (failed e, acts ++ act ∷ [])
  deferring act (crashed, acts) = (crashed, acts)
  deferring act (ended, acts) = (ended, acts ++ act ∷ [])
  deferring act (forced, acts) = (forced, acts ++ act ∷ [])

  -- An error returns from `run`; without one it goes on.
  unfoldable pub or_return : Option BootError × List Act → Ending × List Act → Ending × List Act
  or_return (some e, acts) rest = (failed e, acts)
  or_return (none, acts) rest = (rest.0, acts ++ rest.1)

  unfoldable pub run : Config → Ending × List Act
  unfolding init_redis init_etcd init_db serve_until_signal deferring or_return
  run cfg = deferring cancels (
      or_return (init_redis cfg.redis) (
        deferring (closes redis) (
          or_return (init_etcd cfg.etcd) (
            deferring (closes etcd)
              (or_return (init_db cfg.mysql) (serve_until_signal (parts_of cfg)))))))

-- How the process ends: by a panic, or with an exit code.
pub data Exit : Type 0 where
  exit_panic : Exit
  exit_code : ℕ → Exit

unfoldable pub exit_of : Ending → Exit
exit_of (failed e) = exit_code 1
exit_of crashed = exit_panic
exit_of ended = exit_code 0
exit_of forced = exit_code 1

-- `main`
unfoldable pub main_program : Viper → Infra → Exit × List Act
unfolding run exit_of
main_program v infra = elim (load v) [
  | none ↦ (exit_panic, [])
  | some cfg ↦ (exit_of (run infra cfg).0, (run infra cfg).1)
]
