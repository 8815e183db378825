-- ===== src/Stream.antt =====
-- internal/api/stream_handler.go: `WatchFeature` and `FetchAll`, the two requests of an SDK client, and
-- `DashboardWatch`.
pub mod Gapless
mod Tests
use mizuflow.Base.{
  String, Bool, true, false, not, ◌&&◌, ◌||◌, List, [], ◌∷◌, ◌++◌, str_eq, if◌then◌else◌, select,
}
use mizuflow.Base.Int.{ℤ, leb_ℤ}
use mizuflow.Base.Text.{split}
use mizuflow.Api.{FeatureFlag, Message}

-- A lookup in the map from names to `true`, which holds the names of the list.
unfoldable pub contains : String → List String → Bool
contains s [] = false
contains s (t ∷ ts) = str_eq s t || contains s ts

abbrev pub is_empty : List String → Bool
is_empty [] = true
is_empty (_ ∷ _) = false

module _ (trim_space : String → String) where
  unfoldable pub trimmed : List String → List String
  trimmed [] = []
  trimmed (p ∷ ps) =
      let rest = trimmed ps in if str_eq (trim_space p) "" then rest else trim_space p ∷ rest

  -- The names that a request allows, parts of a text with commas; `trim_space` is `strings.TrimSpace`.
  unfoldable pub allowed_namespaces : String → List String
  unfolding trimmed
  allowed_namespaces s = if str_eq s "" then [] else trimmed (split "," s)

-- What is written to the response of an event stream: `c.SSEvent(...)`.
pub data SseEvent : Type 0 where
  message : Message → SseEvent
  ping reset : SseEvent

-- The local state of one stream; `sent` is what was written, oldest first.
pub record Stream : Type 0 where
  pub sent : List SseEvent
  pub max_sent_rev : ℤ

abbrev pub write : Stream → Message → Stream
write s msg = record { sent = s.sent ++ message msg ∷ []; max_sent_rev = msg.revision }

module _ (env : String) (allowed : List String) where
  -- `!(msg.Env != env || !allowedNamespaces[msg.Namespace])`
  unfoldable pub relevant : Message → Bool
  relevant msg = str_eq msg.env env && contains msg.namespace allowed

  -- The loop over the messages of `GetCompensation`, and its body.
  unfoldable pub send_one : Stream → Message → Stream
  send_one s msg = if relevant msg then write s msg else s

  unfoldable pub send_history : Stream → List Message → Stream
  unfolding send_one
  send_history s [] = s
  send_history s (msg ∷ msgs) = send_history (send_one s msg) msgs

  -- `WatchFeature` after the registration, up to the stream.
  unfoldable pub compensate : ℤ → List Message × Bool → Stream
  unfolding send_history
  compensate last_rev (messages, true) =
      send_history (record { sent = []; max_sent_rev = last_rev }) messages
  compensate last_rev (messages, false) = record { sent = reset ∷ []; max_sent_rev = last_rev }

  -- One message from the hub.
  unfoldable pub handle_live : Stream → Message → Stream
  handle_live s msg =
      if str_eq msg.type_name "ping"
      then record s { sent = s.sent ++ ping ∷ [] }
      else if relevant msg
      then (if leb_ℤ msg.revision s.max_sent_rev then s else write s msg)
      else s

  unfoldable pub handle_lives : Stream → List Message → Stream
  unfolding handle_live
  handle_lives s [] = s
  handle_lives s (msg ∷ msgs) = handle_lives (handle_live s msg) msgs

  -- The stream of `WatchFeature` for a client at `last_rev`, of the answer of `GetCompensation` and the
  -- messages that the hub sends afterwards. A request that names no environment or no namespace is refused.
  unfoldable pub watch_feature : ℤ → List Message × Bool → List Message → List SseEvent
  unfolding compensate handle_lives
  watch_feature last_rev compensation live =
      if str_eq env "" || is_empty allowed
      then []
      else (handle_lives (compensate last_rev compensation) live).sent

-- The stream of `DashboardWatch` passes on all that the hub sends.
unfoldable pub dashboard_watch : List Message → List SseEvent
dashboard_watch [] = []
dashboard_watch (msg ∷ msgs) =
    (if str_eq msg.type_name "ping" then ping else message msg) ∷ dashboard_watch msgs

-- What `FetchAll` keeps of the snapshot.
unfoldable pub fetch_all : String → String → List String → List FeatureFlag → List FeatureFlag
fetch_all env namespaces allowed features =
    if str_eq env "" && str_eq namespaces ""
    then features
    else select
        (λ (f : FeatureFlag).
          (str_eq env "" || str_eq f.env env) && (is_empty allowed || contains f.namespace allowed))
        features
