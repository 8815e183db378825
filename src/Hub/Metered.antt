-- ===== src/Hub/Metered.antt =====
-- internal/service/hub.go with its observer, internal/metrics/prometheus.go: the gauge of the clients online, as the
-- numbers of its increments and decrements, and the counter of pushes.
use mizuflow.Base.{ℕ, ◌+◌, ◌≡◌, false, List, [], ◌∷◌, leb, length, if◌then◌else◌}
use mizuflow.Api.{Message}
use mizuflow.Hub.Sets.{has, members}
use mizuflow.Hub.{Hub, register, remove_client, send_message, heartbeat_message}

pub record Metered : Type 0 where
  pub hub : Hub
  pub increments : ℕ
  pub decrements : ℕ
  pub pushes : ℕ

-- `IncOnline`, `DecOnline` and `RecordPush` of the observer.
abbrev pub inc_online : Metered → Metered
inc_online m = record m { increments = m.increments + 1 }

abbrev pub dec_online : Metered → Metered
dec_online m = record m { decrements = m.decrements + 1 }

abbrev pub record_push : Metered → Metered
record_push m = record m { pushes = m.pushes + 1 }

-- `h.observer.IncOnline()` after a registration.
unfoldable pub register_metered : ℕ → Metered → Metered
register_metered id m = inc_online (record m { hub = register id m.hub })

-- `h.observer.DecOnline()` in `removeClient`.
unfoldable pub remove_metered : ℕ → Metered → Metered
remove_metered id m =
    if has id m.hub.clients then dec_online (record m { hub = remove_client id m.hub }) else m

unfoldable pub send_metered : ℕ → Message → Metered → Metered
unfolding remove_metered
send_metered id msg m =
    if leb 128 (length (m.hub.client id).queue)
    then remove_metered id m
    else record m { hub = send_message id msg m.hub }

unfoldable pub send_all_metered : List ℕ → Message → Metered → Metered
unfolding send_metered
send_all_metered [] msg m = m
send_all_metered (id ∷ ids) msg m = send_all_metered ids msg (send_metered id msg m)

-- A broadcast, with `h.observer.RecordPush()`.
unfoldable pub broadcast_metered : Message → Metered → Metered
unfolding send_all_metered
broadcast_metered msg m =
    let m1 = send_all_metered m.hub.wildcards msg m in
    let m2 = send_all_metered (members msg.env msg.namespace m1.hub.shards) msg m1 in record_push m2

unfoldable pub heartbeat_metered : Metered → Metered
unfolding send_all_metered
heartbeat_metered m = send_all_metered m.hub.clients heartbeat_message m

pub data MeteredStep : Metered → Metered → Type 0 where
  registers :
      (id : ℕ) (m : Metered) → has id m.hub.clients ≡ false → MeteredStep m (register_metered id m)
  unregisters : (id : ℕ) (m : Metered) → MeteredStep m (remove_metered id m)
  broadcasts : (msg : Message) (m : Metered) → MeteredStep m (broadcast_metered msg m)
  beats : (m : Metered) → MeteredStep m (heartbeat_metered m)

abbrev pub Distinct : List ℕ → Type 0
Distinct [] = Unit
Distinct (i ∷ ids) = (has i ids ≡ false) × Distinct ids

-- The gauge shows how many clients the hub has.
pub record IsCounted (m : Metered) : Type 0 where
  pub online : m.increments ≡ m.decrements + length m.hub.clients
  pub distinct : Distinct m.hub.clients
