-- ===== src/Watch/Events.antt =====
-- The state that `Run` changes, and one function for each of its two loops.
use mizuflow.Base.{String, none, some, List, [], ◌∷◌, ◌++◌, Bool}
use mizuflow.Base.Int.{ℤ, pos}
use mizuflow.Api.{FeatureFlag, Message, delete, put}
use mizuflow.Buffer.{RevisionBuffer, add_message, get_since}
use mizuflow.Cache.{FeatureCache, update, remove, get_snapshot}
use mizuflow.Keys.{KeyParts, parse_feature_key}
use mizuflow.Json.{Json}
use mizuflow.Etcd.{KeyValue}

-- `clientv3.Event`: a delete event has no value.
pub data Event : Type 0 where
  deleted : String → ℤ → Event
  stored : KeyValue → Event

-- `broadcast` is what has been sent to `hub.Broadcast`, oldest first.
pub record Service : Type 0 where
  pub cache : FeatureCache
  pub buffer : RevisionBuffer
  pub broadcast : List Message

module _ (json : Json) where
  -- The loop over the initial snapshot; values that cannot be read are skipped.
  unfoldable pub load_snapshot : FeatureCache → List KeyValue → FeatureCache
  load_snapshot cache [] = cache
  load_snapshot cache (kv ∷ kvs) = elim (json.decode kv.value) [
    | none ↦ load_snapshot cache kvs
    | some flag ↦ load_snapshot (update cache (record flag { revision = kv.mod_revision })) kvs
  ]

-- `s.buffer.AddMessage(msg); s.hub.Broadcast <- msg`
unfoldable pub publish : Service → Message → Service
publish s msg = record s { buffer = add_message s.buffer msg; broadcast = s.broadcast ++ msg ∷ [] }

abbrev pub delete_message : KeyParts → ℤ → ℤ → Message
delete_message parts rev now = record {
  namespace = parts.namespace;
  env = parts.env;
  key = parts.key;
  value = "";
  type_name = "";
  version = pos 0;
  revision = rev;
  action = delete;
  updated_at = now;
}

abbrev pub put_message : FeatureFlag → ℤ → ℤ → Message
put_message flag rev now = record {
  namespace = flag.namespace;
  env = flag.env;
  key = flag.key;
  value = flag.value;
  type_name = flag.type_name;
  version = flag.version;
  revision = rev;
  action = put;
  updated_at = now;
}

module _ (json : Json) where
  -- One round of the loop over `wresp.Events`; `now` is the clock's reading.
  unfoldable pub handle_event : Service → ℤ → Event → Service
  unfolding publish
  handle_event s now (deleted key rev) =
      publish (record s { cache = remove s.cache key rev })
        (delete_message (parse_feature_key key) rev now)
  handle_event s now (stored kv) = elim (json.decode kv.value) [
    | none ↦ s
    | some flag ↦
        publish (record s { cache = update s.cache flag }) (put_message flag kv.mod_revision now)
  ]

  -- The watch's events, each with the time at which it is handled.
  unfoldable pub handle_events : Service → List (ℤ × Event) → Service
  unfolding handle_event
  handle_events s [] = s
  handle_events s ((now, ev) ∷ evs) = handle_events (handle_event s now ev) evs

-- `GetCompensation` and `GetAllFeatures`.
unfoldable pub get_compensation : Service → ℤ → List Message × Bool
get_compensation s last_rev = get_since s.buffer last_rev

unfoldable pub get_all_features : Service → List FeatureFlag × ℤ
get_all_features s = get_snapshot s.cache
