-- ===== src/Hub/Requests.antt =====
-- internal/api/stream_handler.go: the requests of the stream handlers from their queries to their end, and what they
-- ask of the hub.
use mizuflow.Base.{
  ℕ, ◌≡◌, ◌∙◌, String, Bool, false, ◌||◌, List, [], ◌∷◌, arith, str_eq, if◌then◌else◌,
}
use mizuflow.Base.Int.{ℤ, pos}
use mizuflow.Api.{FeatureFlag, Message}
use mizuflow.Stream.{
  SseEvent, message, ping, Stream, is_empty, allowed_namespaces, compensate, handle_live, fetch_all,
}
use mizuflow.Watch.{Service, get_compensation, get_all_features}
use mizuflow.Hub.Sets.{has, members, has-remove_id}
use mizuflow.Hub.{Client, Hub, set_client, register, remove_from_shards, remove_client}
use mizuflow.Hub.Open.{HubIsOpen, HubStep, HubStep-IsOpen, registers, unregisters}

-- The query of a request, with empty texts for what it does not name.
pub record StreamQuery : Type 0 where
  pub last_rev : String
  pub env : String
  pub namespace : String

-- What a select of a stream takes: a message, the end of the client's channel, or the end of the request.
pub data StreamInput : Type 0 where
  received : Message → StreamInput
  channel_closed request_done : StreamInput

-- The body of `resp.SnapshotResponse`.
pub record SnapshotBody : Type 0 where
  pub data_flags : List FeatureFlag
  pub revision : ℤ

module _ (env : String) (allowed : List String) where
  -- The function that `WatchFeature` gives to `c.Stream`, called until it returns false.
  unfoldable pub stream_loop : Stream → List StreamInput → Stream
  stream_loop s [] = s
  stream_loop s (received msg ∷ inputs) = stream_loop (handle_live env allowed s msg) inputs
  stream_loop s (channel_closed ∷ inputs) = s
  stream_loop s (request_done ∷ inputs) = s

-- The messages that come before the stream ends.
unfoldable pub received_of : List StreamInput → List Message
received_of [] = []
received_of (received msg ∷ inputs) = msg ∷ received_of inputs
received_of (channel_closed ∷ inputs) = []
received_of (request_done ∷ inputs) = []

-- The stream of `DashboardWatch`.
unfoldable pub dashboard_loop : List StreamInput → List SseEvent
dashboard_loop [] = []
dashboard_loop (received msg ∷ inputs) =
    (if str_eq msg.type_name "ping" then ping else message msg) ∷ dashboard_loop inputs
dashboard_loop (channel_closed ∷ inputs) = []
dashboard_loop (request_done ∷ inputs) = []

-- `trim_space` is `strings.TrimSpace`; `parse_int` is `strconv.ParseInt`, whose error is not looked at.
module _ (trim_space : String → String) (parse_int : String → ℤ) where
  unfoldable pub last_rev_of : String → ℤ
  last_rev_of s = if str_eq s "" then pos 0 else parse_int s

  unfoldable pub is_refused : StreamQuery → Bool
  is_refused q = str_eq q.env "" || is_empty (allowed_namespaces trim_space q.namespace)

  -- `WatchFeature`: what is written to the response.
  unfoldable pub watch_request : Service → StreamQuery → List StreamInput → List SseEvent
  unfolding is_refused last_rev_of stream_loop
  watch_request s q inputs =
      let allowed = allowed_namespaces trim_space q.namespace in
      let last_rev = last_rev_of q.last_rev in
      if is_refused q
      then []
      else (stream_loop q.env allowed
          (compensate q.env allowed last_rev (get_compensation s last_rev)) inputs).sent

  -- The client that `WatchFeature` registers, and the one of `DashboardWatch`.
  unfoldable pub sdk_client : StreamQuery → Client
  sdk_client q = record {
    env = q.env;
    namespaces = allowed_namespaces trim_space q.namespace;
    queue = [];
    closed = 0;
  }

  unfoldable pub dashboard_client : StreamQuery → Client
  dashboard_client q = record { env = q.env; namespaces = "*" ∷ []; queue = []; closed = 0 }

  -- `FetchAll`
  unfoldable pub fetch_request : Service → StreamQuery → SnapshotBody
  fetch_request s q =
      let (features, rev) = get_all_features s in
      record {
        data_flags =
            fetch_all q.env q.namespace (allowed_namespaces trim_space q.namespace) features;
        revision = rev;
      }

-- The hub takes a new client, which has a number of its own, from `Register`.
unfoldable pub enter : ℕ → Client → Hub → Hub
unfolding register
enter id c h = register id (record h { client = set_client id c h.client })

-- What the hub and the streams do in any number of steps.
pub data HubRun : Hub → Hub → Type 0 where
  rests : (h : Hub) → HubRun h h
  steps : (h h' h'' : Hub) → HubStep h h' → HubRun h' h'' → HubRun h h''

HubRun-IsOpen : {h h' : Hub} → HubRun h h' → HubIsOpen h → HubIsOpen h'
HubRun-IsOpen (rests h) v = v
HubRun-IsOpen (steps h h' h'' s r) v = HubRun-IsOpen r (HubStep-IsOpen s v)

new_client-IsOpen :
    (id : ℕ) (c : Client) (h : Hub)
    → has id h.clients ≡ false
    → c.closed ≡ 0
    → HubIsOpen h
    → HubIsOpen (record h { client = set_client id c h.client })
new_client-IsOpen id c h new fresh v = record {
  is_open = λ j k. ground (arith, v.is_open j);
  wild = λ j k. ground (arith, v.wild j);
  shard = λ j e n k. ground (arith, v.shard j e n);
  once = λ j. ground (arith, v.once j);
}

closed-new : (id : ℕ) (c : Client) (h : Hub) → (set_client id c h.client id).closed ≡ c.closed
closed-new id c h = ground arith

enter-IsOpen :
    (id : ℕ) (c : Client) (h : Hub)
    → has id h.clients ≡ false
    → c.closed ≡ 0
    → HubIsOpen h
    → HubIsOpen (enter id c h)
unfolding enter
enter-IsOpen id c h new fresh v =
    let h' : Hub = record h { client = set_client id c h.client } in
    HubStep-IsOpen (registers id h' (closed-new id c h ∙ fresh))
      (new_client-IsOpen id c h new fresh v)

removed : (id : ℕ) (h : Hub) → has id (remove_client id h).clients ≡ false
unfolding remove_client remove_from_shards
removed id h = ground (arith, has-remove_id id id h.clients)

-- Nothing of the hub refers to the client.
pub record IsGone (id : ℕ) (h : Hub) : Type 0 where
  pub client : has id h.clients ≡ false
  pub wild : has id h.wildcards ≡ false
  pub shard : (e n : String) → has id (members e n h.shards) ≡ false

gone : (id : ℕ) (h : Hub) → HubIsOpen h → has id h.clients ≡ false → IsGone id h
gone id h v out = record {
  client = out;
  wild = ground (arith, v.wild id);
  shard = λ e n. ground (arith, v.shard id e n);
}

-- A stream's client with a channel that was never closed, which the hub takes up under a number not in use and gives up
-- when the request has ended, after any steps of the hub and the streams: the hub then holds it nowhere, and its clients,
-- wildcards, shards and channels are in order, if they were so before.
pub request_leaves-IsGone :
    (id : ℕ) (c : Client) (h h' : Hub)
    → has id h.clients ≡ false
    → c.closed ≡ 0
    → HubIsOpen h
    → HubRun (enter id c h) h'
    → IsGone id (remove_client id h') × HubIsOpen (remove_client id h')
request_leaves-IsGone id c h h' new fresh v run =
    let in_order =
      HubStep-IsOpen (unregisters id h') (HubRun-IsOpen run (enter-IsOpen id c h new fresh v)) in
    (gone id (remove_client id h') in_order (removed id h'), in_order)
