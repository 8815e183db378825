-- ===== src/Watch/Snapshot.antt =====
-- The cache under the watch: entries are kept by the bare key of the feature, and delete events come with
-- the etcd key.
use mizuflow.Base.{String, ◌≡◌, ◌∙◌, Bool-cases, inl, inr, str_eq, eq_iff}
use mizuflow.Base.Int.{ℤ}
use mizuflow.Base.Dict.{lookup, lookup-delete}
use mizuflow.Cache.{remove}
use mizuflow.Keys.{build_feature_key}
use mizuflow.Keys.RoundTrip.{build_feature_key-ne}
use mizuflow.Json.{Json}
use mizuflow.Watch.Events.{Service, deleted, handle_event}

-- The delete event of a feature leaves the entry of that feature in the cache, whatever the cache holds.
pub delete_event_keeps :
    (json : Json) (s : Service) (now : ℤ) (env namespace key : String) (rev : ℤ)
    → lookup key
        (handle_event json s now (deleted (build_feature_key env namespace key) rev)).cache.entries
      ≡ lookup key s.cache.entries
unfolding handle_event remove
delete_event_keeps json s now env namespace key rev =
    elim (Bool-cases (str_eq (build_feature_key env namespace key) key)) [
      | inl e ↦ absurd (
          build_feature_key-ne env namespace key
            ((eq_iff (build_feature_key env namespace key) key).0 e))
      | inr e ↦ lookup-delete (build_feature_key env namespace key) key s.cache.entries ∙ rw e
    ]
