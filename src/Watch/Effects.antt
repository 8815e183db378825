-- ===== src/Watch/Effects.antt =====
-- What a run of the watch publishes.
use mizuflow.Base.{
  ◌≡◌, refl, sym, ap, ◌∙◌, none, some, List, [], ◌∷◌, ◌++◌, true, arith, append_assoc, append-nil,
  select,
}
use mizuflow.Base.Int.{ℤ}
use mizuflow.Api.{Message}
use mizuflow.Buffer.{RevisionBuffer, new_revision_buffer, add_message}
use mizuflow.Buffer.Since.{IsOrdered, newer}
use mizuflow.Buffer.History.{add_all, get_since_complete}
use mizuflow.Keys.{parse_feature_key}
use mizuflow.Json.{Json}
use mizuflow.Watch.Events.{
  Event, deleted, stored, Service, delete_message, put_message, handle_event, handle_events,
  get_compensation,
}

module _ (json : Json) where
  -- The message that an event gives rise to; a value that cannot be read gives none.
  abbrev pub message_of : ℤ → Event → List Message
  message_of now (deleted key rev) = delete_message (parse_feature_key key) rev now ∷ []
  message_of now (stored kv) = elim (json.decode kv.value) [
    | none ↦ []
    | some flag ↦ put_message flag kv.mod_revision now ∷ []
  ]

  abbrev pub messages_of : List (ℤ × Event) → List Message
  messages_of [] = []
  messages_of ((now, ev) ∷ evs) = message_of now ev ++ messages_of evs

  handle_event-broadcast :
      (s : Service) (now : ℤ) (ev : Event)
      → ((handle_event json s now ev).broadcast ≡ s.broadcast ++ message_of now ev)
        × ((handle_event json s now ev).buffer ≡ add_all s.buffer (message_of now ev))
  unfolding handle_event
  handle_event-broadcast s now (deleted key rev) = (refl, refl)
  handle_event-broadcast s now (stored kv) = ground (arith, append-nil s.broadcast)

add_all-append :
    (b : RevisionBuffer) (ms ns : List Message) → add_all b (ms ++ ns) ≡ add_all (add_all b ms) ns
add_all-append b [] ns = refl
add_all-append b (m ∷ ms) ns = add_all-append (add_message b m) ms ns

module _ (json : Json) where
  -- The hub and the ring get the same messages in the order of etcd's events: one for each delete event
  -- and for each stored value that can be read, none for any other.
  pub handle_events-publishes :
      (s : Service) (evs : List (ℤ × Event))
      → ((handle_events json s evs).broadcast ≡ s.broadcast ++ messages_of json evs)
        × ((handle_events json s evs).buffer ≡ add_all s.buffer (messages_of json evs))
  unfolding handle_events
  handle_events-publishes s [] = (sym (append-nil s.broadcast), refl)
  handle_events-publishes s ((now, ev) ∷ evs) =
      let s' : Service = handle_event json s now ev in
      let ih = handle_events-publishes s' evs in
      let one = handle_event-broadcast json s now ev in
      (
        ih.0
            ∙ ap (λ l. l ++ messages_of json evs) one.0
            ∙ append_assoc s.broadcast (message_of json now ev) (messages_of json evs),
        ih.1
            ∙ ap (λ b. add_all b (messages_of json evs)) one.1
            ∙ sym (add_all-append s.buffer (message_of json now ev) (messages_of json evs)),
      )

  -- Of a service that started with an empty ring of any size, and whose messages came in the order of their
  -- revisions: a client that `GetCompensation` does not send to a resync gets every message broadcast so far
  -- that is newer than `last_rev`, and no other.
  pub get_compensation_complete :
      (s : Service) (n : ℤ) (evs : List (ℤ × Event)) (last_rev : ℤ) {out : List Message}
      → s.buffer ≡ new_revision_buffer n
      → s.broadcast ≡ []
      → IsOrdered (messages_of json evs)
      → get_compensation (handle_events json s evs) last_rev ≡ (out, true)
      → out ≡ select (newer last_rev) (handle_events json s evs).broadcast
  unfolding get_compensation
  get_compensation_complete s n evs last_rev fresh silent ordered e =
      rw ((handle_events-publishes s evs).0, silent)
        (get_since_complete n (messages_of json evs) last_rev ordered
          (rw ((handle_events-publishes s evs).1, fresh) at e))
