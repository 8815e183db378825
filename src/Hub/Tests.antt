-- ===== src/Hub/Tests.antt =====
-- A hub with a dashboard and one SDK client.
use mizuflow.Base.{ℕ, ◌≡◌, refl, [], ◌∷◌, arith, String, ◌==◌, if◌then◌else◌}
use mizuflow.Base.Int.{pos}
use mizuflow.Base.Dict.{lookup, insert, delete}
use mizuflow.Api.{Message}
use mizuflow.Samples.{new_flag}
use mizuflow.Stream.{contains}
use mizuflow.Watch.{put_message}
use mizuflow.Hub.Sets.{has, add_id, members, add_to, remove_from, remove_id}
use mizuflow.Hub.{Client, Hub, register, broadcast_message, remove_client}
use mizuflow.Base.Text.{split}
use mizuflow.Cache.{new_feature_cache, get_snapshot}
use mizuflow.Buffer.{new_revision_buffer, get_since}
use mizuflow.Stream.{message, relevant, allowed_namespaces, fetch_all, handle_live, compensate}
use mizuflow.Watch.{Service, get_compensation, get_all_features}
use mizuflow.Hub.Requests.{
  StreamQuery, received, channel_closed, watch_request, fetch_request, enter, rests, steps, IsGone,
  request_leaves-IsGone,
}
use mizuflow.Hub.Metered.{Metered, IsCounted, broadcast_metered, broadcasts as counts_broadcast}
use mizuflow.Hub.Counted.{MeteredStep-IsCounted}
use mizuflow.Hub.Open.{HubIsOpen, registers, broadcasts, HubStep-IsOpen}

abbrev asks_for : String → String → Client
asks_for env namespace = record { env = env; namespaces = namespace ∷ []; queue = []; closed = 0 }

abbrev two_clients : ℕ → Client
two_clients j = if j == 1 then asks_for "prod" "*" else asks_for "prod" "shop"

abbrev empty_hub : Hub
empty_hub = record { clients = []; shards = []; wildcards = []; client = two_clients }

abbrev two_registered : Hub
two_registered = record {
  clients = 1 ∷ 2 ∷ [];
  shards = ("prod", ("shop", 2 ∷ []) ∷ []) ∷ [];
  wildcards = 1 ∷ [];
  client = two_clients;
}

registers_both : register 2 (register 1 empty_hub) ≡ two_registered
unfolding register contains add_id add_to insert lookup
registers_both = refl

abbrev changed : Message
changed = put_message new_flag (pos 5) (pos 0)

reaches_shard : ((broadcast_message changed two_registered).client 2).queue ≡ changed ∷ []
unfolding broadcast_message members lookup
reaches_shard = refl

forgets_shard : (remove_client 2 two_registered).shards ≡ []
unfolding remove_client has lookup insert delete remove_from remove_id
forgets_shard = refl

empty_hub-HubIsOpen : HubIsOpen empty_hub
unfolding has members lookup
empty_hub-HubIsOpen = record {
  is_open = λ j k. absurd (cc);
  wild = λ j k. absurd (cc);
  shard = λ j e n k. absurd (cc);
  once = λ j. ground arith;
}

registered-HubIsOpen : HubIsOpen (register 2 (register 1 empty_hub))
unfolding register contains
registered-HubIsOpen =
    HubStep-IsOpen (registers 2 (register 1 empty_hub) refl)
      (HubStep-IsOpen (registers 1 empty_hub refl) empty_hub-HubIsOpen)

HubStep-IsOpen_example : HubIsOpen (broadcast_message changed (register 2 (register 1 empty_hub)))
HubStep-IsOpen_example =
    HubStep-IsOpen (broadcasts changed (register 2 (register 1 empty_hub))) registered-HubIsOpen

abbrev new_client : Client
new_client = asks_for "prod" "shop"

request_leaves-IsGone_example :
    IsGone 2 (remove_client 2 (broadcast_message changed (enter 2 new_client empty_hub)))
    × HubIsOpen (remove_client 2 (broadcast_message changed (enter 2 new_client empty_hub)))
unfolding has
request_leaves-IsGone_example =
    let h : Hub = enter 2 new_client empty_hub in
    request_leaves-IsGone 2 new_client empty_hub (broadcast_message changed h) refl refl
      empty_hub-HubIsOpen
      (steps h (broadcast_message changed h) (broadcast_message changed h) (broadcasts changed h)
        (rests (broadcast_message changed h)))

abbrev query : StreamQuery
query = record { last_rev = ""; env = "prod"; namespace = "shop" }

abbrev service : Service
service = record { cache = new_feature_cache; buffer = new_revision_buffer (pos 3); broadcast = [] }

streams_until_closed :
    watch_request
      (λ s. s)
      (λ s. pos 9)
      service
      query
      (received changed ∷ channel_closed ∷ received changed ∷ [])
    ≡ message changed ∷ []
unfolding watch_request allowed_namespaces split contains relevant get_compensation
    new_revision_buffer get_since handle_live compensate
streams_until_closed = refl

refuses_without_env :
    watch_request (λ s. s) (λ s. pos 9) service (record query { env = "" }) (received changed ∷ [])
    ≡ []
unfolding watch_request
refuses_without_env = refl

fetches_nothing :
    fetch_request (λ s. s) (λ s. pos 9) service query ≡ record { data_flags = []; revision = pos 0 }
unfolding fetch_request fetch_all get_all_features get_snapshot
fetches_nothing = refl

abbrev metered : Metered
metered = record { hub = two_registered; increments = 3; decrements = 1; pushes = 0 }

metered-IsCounted : IsCounted metered
unfolding has
metered-IsCounted = record { online = refl; distinct = (refl, (refl, _)) }

MeteredStep-IsCounted_example : IsCounted (broadcast_metered changed metered)
MeteredStep-IsCounted_example =
    MeteredStep-IsCounted (counts_broadcast changed metered) metered-IsCounted
