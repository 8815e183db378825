-- ===== src/Watch/Resync.antt =====
-- internal/service/feature.go, `Run`: the revision of the snapshot under stored events.
use mizuflow.Base.{
  ℕ, zero, suc, ◌+◌, ◌-◌, ◌<◌, ◌≡◌, ◌≢◌, refl, ◌∙◌, ap, some, List, [], ◌∷◌, ◌++◌, true, false,
  arith, length, get_or, get_or-drop, length-drop,
}
use mizuflow.Base.Int.{ℤ, ◌≤ℤ◌, ◌<ℤ◌}
use mizuflow.Api.{FeatureFlag, Message, zero_message}
use mizuflow.Buffer.{new_revision_buffer, size_or_default}
use mizuflow.Buffer.Window.{last, size_or_default_pos}
use mizuflow.Buffer.Since.{IsOrdered, newer, owed_of_pos}
use mizuflow.Buffer.History.{get_since-history}
use mizuflow.Cache.{update, get_snapshot}
use mizuflow.Json.{Json}
use mizuflow.Etcd.{KeyValue}
use mizuflow.Watch.Events.{
  Event, put_message, deleted, stored, Service, handle_event, handle_events, get_compensation,
  get_all_features,
}
use mizuflow.Watch.Effects.{message_of, messages_of, handle_events-publishes}

module _ (json : Json) (r : ℤ) where
  -- The event stores a value after revision `r` whose own field `revision` is not above `r`: `SaveFeature`
  -- and the reconciler write 0 there.
  abbrev pub IsUnstamped : Event → Type 0
  IsUnstamped (deleted key rev) = ⊥
  IsUnstamped (stored kv) =
      (flag : FeatureFlag) × (json.decode kv.value ≡ some flag)
      × (flag.revision ≤ℤ r)
      × (r <ℤ kv.mod_revision)

  abbrev pub AllUnstamped : List (ℤ × Event) → Type 0
  AllUnstamped [] = Unit
  AllUnstamped ((now, ev) ∷ evs) = IsUnstamped ev × AllUnstamped evs

  revision-handle_event :
      (s : Service) (now : ℤ) (ev : Event)
      → s.cache.revision ≡ r
      → IsUnstamped ev
      → (handle_event json s now ev).cache.revision ≡ r
  unfolding handle_event update
  revision-handle_event s now (deleted key rev) e h = absurd h
  revision-handle_event s now (stored kv) e (flag, read, old, later) = ground arith

  revision-handle_events :
      (s : Service) (evs : List (ℤ × Event))
      → s.cache.revision ≡ r
      → AllUnstamped evs
      → (handle_events json s evs).cache.revision ≡ r
  unfolding handle_events
  revision-handle_events s [] e h = e
  revision-handle_events s ((now, ev) ∷ evs) e h =
      revision-handle_events (handle_event json s now ev) evs (revision-handle_event s now ev e h.0)
        h.1

  message_of-stored :
      (now : ℤ) (kv : KeyValue) (flag : FeatureFlag)
      → json.decode kv.value ≡ some flag
      → message_of json now (stored kv) ≡ put_message flag kv.mod_revision now ∷ []
  message_of-stored now kv flag read = ground arith

  rest_newer :
      (ms : List Message) (m : Message) (l : List Message)
      → l ≡ m ∷ []
      → (i : ℕ) → newer r m ≡ true
      → ((j : ℕ) → j < length ms → newer r (get_or ms j zero_message) ≡ true)
      → i < length (l ++ ms)
      → newer r (get_or (l ++ ms) i zero_message) ≡ true
  rest_newer ms m l e zero hm h lt = rw e hm
  rest_newer ms m l e (suc i) hm h lt =
      rw e (h i (let k : suc i < suc (length ms) = rw e at lt in omega arith))

  messages_of-newer :
      (evs : List (ℤ × Event)) (i : ℕ)
      → AllUnstamped evs
      → i < length (messages_of json evs)
      → newer r (get_or (messages_of json evs) i zero_message) ≡ true
  messages_of-newer [] i h lt = absurd (omega arith)
  messages_of-newer ((now, deleted key rev) ∷ evs) i h lt = absurd h.0
  messages_of-newer ((now, stored kv) ∷ evs) i h lt =
      let (flag, read, old, later) = h.0 in
      let e = message_of-stored now kv flag read in
      rest_newer (messages_of json evs) (put_message flag kv.mod_revision now)
        (message_of json now (stored kv)) e i (ground arith) (λ j k. messages_of-newer evs j h.1 k)
        lt

  length-messages_of :
      (evs : List (ℤ × Event)) → AllUnstamped evs → length (messages_of json evs) ≡ length evs
  length-messages_of [] h = refl
  length-messages_of ((now, deleted key rev) ∷ evs) h = absurd h.0
  length-messages_of ((now, stored kv) ∷ evs) h =
      let (flag, read, old, later) = h.0 in
      ap (λ l. length (l ++ messages_of json evs)) (message_of-stored now kv flag read)
      ∙ ap suc (length-messages_of evs h.1)

-- A service that started with an empty ring, whatever its size, and has seen one or more unstamped events
-- since revision `r` of its cache, still hands out snapshots at `r`, and a client that asks for what is newer
-- than its snapshot is told to fetch the snapshot again.
pub resync_forever :
    (json : Json) (s : Service) (n : ℤ) (evs : List (ℤ × Event))
    → s.buffer ≡ new_revision_buffer n
    → evs ≢ []
    → AllUnstamped json s.cache.revision evs
    → IsOrdered (messages_of json evs)
    → let s' = handle_events json s evs in
      ((get_all_features s').1 ≡ s.cache.revision)
      × (get_compensation s' (get_all_features s').1 ≡ ([], false))
unfolding get_all_features get_compensation get_snapshot
resync_forever json s n evs fresh some_event unstamped ordered = (
  still,
  rw (still, (handle_events-publishes json s evs).1, fresh, get_since-history n ms r ordered)
      (owed_of_pos r (last (size_or_default n) ms)
          (omega (arith, kept, some_message, size_or_default_pos n))
        ∙ rw (
          get_or-drop dropped 0 ms zero_message,
          messages_of-newer json r evs (dropped + 0) unstamped
              (omega (arith, kept, some_message, size_or_default_pos n)),
        )),
)
  where
    r : ℤ
    r = s.cache.revision

    ms : List Message
    ms = messages_of json evs

    dropped : ℕ
    dropped = length ms - size_or_default n

    nonempty : 0 < length evs
    nonempty = ground arith

    some_message : 0 < length ms
    some_message = omega (arith, length-messages_of json r evs unstamped, nonempty)

    kept : length (last (size_or_default n) ms) ≡ length ms - dropped
    kept = length-drop dropped ms

    still : (handle_events json s evs).cache.revision ≡ r
    still = revision-handle_events json r s evs refl unstamped
