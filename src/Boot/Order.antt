-- ===== src/Boot/Order.antt =====
-- What a start of the server opens, closes and serves.
use mizuflow.Base.{Bool, true, false, ◌&&◌, ◌⊎◌, List, [], ◌∷◌, if◌then◌else◌}
use mizuflow.Base.Int.{pos, ◌≤ℤ◌}
use mizuflow.Boot.{
  Config, Infra, Resource, redis, etcd, Act, opens, closes, starts, listens, cancels, shuts_down,
}

-- The resources that are closed, in order.
abbrev pub closed_in : List Act → List Resource
closed_in [] = []
closed_in (opens r ∷ acts) = closed_in acts
closed_in (closes r ∷ acts) = r ∷ closed_in acts
closed_in (starts w ∷ acts) = closed_in acts
closed_in (listens ∷ acts) = closed_in acts
closed_in (cancels ∷ acts) = closed_in acts
closed_in (shuts_down ∷ acts) = closed_in acts

-- Whether requests are served, or a worker was started.
abbrev pub serves : List Act → Bool
serves [] = false
serves (opens r ∷ acts) = serves acts
serves (closes r ∷ acts) = serves acts
serves (starts w ∷ acts) = true
serves (listens ∷ acts) = true
serves (cancels ∷ acts) = serves acts
serves (shuts_down ∷ acts) = serves acts

module _ (infra : Infra) (cfg : Config) where
  -- Everything that a server needs is there.
  abbrev pub connects : Bool
  connects =
      infra.ping_redis cfg.redis
      && (infra.new_etcd cfg.etcd && (infra.open_mysql cfg.mysql && infra.migrate))

  -- The clients of etcd and Redis that were made and answered, the last first.
  abbrev pub made : List Resource
  made =
      if infra.ping_redis cfg.redis
      then (if infra.new_etcd cfg.etcd then etcd ∷ redis ∷ [] else redis ∷ [])
      else []

abbrev pub NotPositive : Config → Type 0
NotPositive cfg =
    (cfg.workers.outbox_interval ≤ℤ pos 0)
    ⊎ ((cfg.workers.reconciler_interval ≤ℤ pos 0) ⊎ (cfg.stream.heartbeat_interval ≤ℤ pos 0))
