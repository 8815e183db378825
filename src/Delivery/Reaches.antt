-- ===== src/Delivery/Reaches.antt =====
-- A change on its whole way: from the events of the watch to the features of a client.
use Prim.Native.String.{◌++◌ as ◌++ₛ◌}
use mizuflow.Base.{
  ℕ, zero, suc, ◌<◌, String, Bool, ◌≡◌, refl, sym, ap, ap₂, ◌∙◌, Option, true, false, List, [], ◌∷◌,
  ◌++◌, map, arith, str_eq, select, append_assoc, length, get_or,
}
use mizuflow.Base.Int.{ℤ, ◌≤ℤ◌}
use mizuflow.Base.Dict.{lookup}
use mizuflow.Api.{Message, zero_message}
use mizuflow.Buffer.{new_revision_buffer, get_since}
use mizuflow.Buffer.Since.{IsOrdered, newer}
use mizuflow.Buffer.History.{add_all, get_since_complete}
use mizuflow.Json.{Json}
use mizuflow.Watch.{Event, Service, handle_events, get_compensation}
use mizuflow.Watch.Effects.{message_of, messages_of, handle_events-publishes}
use mizuflow.Stream.{SseEvent, message, is_empty, relevant, watch_feature}
use mizuflow.Stream.Gapless.{Rising, Rising-first, events}
use mizuflow.Sdk.{MizuClient, SnapshotResponse, scan_lines, cleared}
use mizuflow.Sdk.Updates.{AllFrames, lines_of, messages_in, handle_updates, scan_lines_of}
use mizuflow.Delivery.Latest.{latest, lookup-handle_updates, Rising-select, Rising-newer}
use mizuflow.Delivery.Sent.{watch_feature_sends}

-- The events of a stream as text, and how the client reads texts.
pub record Wire : Type 0 where
  pub render : SseEvent → List String
  pub encode : Message → String
  pub decode_message : String → Option Message
  pub trim_space : String → String

-- A message takes a line with its type, a line with its text, and an empty line.
abbrev pub Renders : Wire → Type 0
Renders wire =
    (m : Message)
    → wire.render (message m) ≡ "event:message" ∷ ("data:" ++ₛ wire.encode m) ∷ "" ∷ []

abbrev pub response : Wire → List SseEvent → List String
response wire [] = []
response wire (e ∷ es) = wire.render e ++ response wire es

abbrev pub frames : Wire → List Message → List (Message × String)
frames wire [] = []
frames wire (m ∷ ms) = (m, wire.encode m) ∷ frames wire ms

-- The messages that a client of the environment and namespaces is owed after revision `r`.
abbrev pub owed_to : String → List String → ℤ → List Message → List Message
owed_to env allowed r ms = select (relevant env allowed) (select (newer r) ms)

response_lem :
    (wire : Wire) (ms : List Message)
    → Renders wire
    → response wire (map (λ (m : Message). message m) ms) ≡ lines_of (frames wire ms)
response_lem wire [] h = refl
response_lem wire (m ∷ ms) h = rw (h m, response_lem wire ms h) refl

messages_in-frames : (wire : Wire) (ms : List Message) → messages_in (frames wire ms) ≡ ms
messages_in-frames wire [] = refl
messages_in-frames wire (m ∷ ms) = ap (λ l. m ∷ l) (messages_in-frames wire ms)

messages_of-append :
    (json : Json) (evs more : List (ℤ × Event))
    → messages_of json (evs ++ more) ≡ messages_of json evs ++ messages_of json more
messages_of-append json [] more = refl
messages_of-append json ((now, ev) ∷ evs) more =
    ap (λ l. message_of json now ev ++ l) (messages_of-append json evs more)
    ∙ sym (append_assoc (message_of json now ev) (messages_of json evs) (messages_of json more))

rising_bound :
    (q : ℤ) (ms : List Message) (i : ℕ)
    → Rising q ms
    → i < length ms
    → q ≤ℤ (get_or ms i zero_message).revision
rising_bound q [] i h lt = absurd (omega arith)
rising_bound q (m ∷ ms) zero h lt = omega (arith, h.0)
rising_bound q (m ∷ ms) (suc i) h lt =
    omega (arith, h.0, rising_bound m.revision ms i h.2 (omega arith))

Rising-IsOrdered : (q : ℤ) (ms : List Message) → Rising q ms → IsOrdered ms
Rising-IsOrdered q [] h i j le lt = absurd (omega arith)
Rising-IsOrdered q (m ∷ ms) h zero zero le lt = omega arith
Rising-IsOrdered q (m ∷ ms) h zero (suc j) le lt = rising_bound m.revision ms j h.2 (omega arith)
Rising-IsOrdered q (m ∷ ms) h (suc i) zero le lt = absurd (omega arith)
Rising-IsOrdered q (m ∷ ms) h (suc i) (suc j) le lt =
    Rising-IsOrdered m.revision ms h.2 i j (omega arith) (omega arith)

first_messages :
    (json : Json) (s : Service) (n q last_rev : ℤ) (evs : List (ℤ × Event))
    → s.buffer ≡ new_revision_buffer n
    → Rising q (messages_of json evs)
    → (get_compensation (handle_events json s evs) last_rev).1 ≡ true
    → get_compensation (handle_events json s evs) last_rev
      ≡ (select (newer last_rev) (messages_of json evs), true)
unfolding get_compensation
first_messages json s n q last_rev evs fresh rising complete =
    let answer = get_since (handle_events json s evs).buffer last_rev in
    let ring =
      (handle_events-publishes json s evs).1 ∙ ap (λ b. add_all b (messages_of json evs)) fresh in
    let pair : answer ≡ (answer.0, true) = λ i. (answer.0, complete i) in
    pair
    ∙ ap (λ (l : List Message). (l, true))
        (get_since_complete n (messages_of json evs) last_rev
          (Rising-IsOrdered q (messages_of json evs) rising)
          (sym (ap (λ b. get_since b last_rev) ring) ∙ pair))

module _ (json : Json) (wire : Wire) (fetched : Option SnapshotResponse) (env : String)
    (allowed : List String) where
  -- The client's features after the response of the server, to which the events `before` came before the client
  -- registered with the hub, `between` before its ring was read, and `later` afterwards.
  abbrev pub caught_up :
      Service → MizuClient → (before between later : List (ℤ × Event)) → MizuClient
  caught_up s c before between later =
      scan_lines wire.decode_message wire.trim_space fetched
        (response wire (
          watch_feature env allowed c.last_rev
            (get_compensation (handle_events json s (before ++ between)) c.last_rev)
            (messages_of json (between ++ later))))
        (cleared c)

  abbrev pub Readable : List Message → Type 0
  Readable ms = AllFrames wire.decode_message wire.trim_space fetched (frames wire ms)

  read_back :
      (c : MizuClient) (ms : List Message) (key : String)
      → Rising c.last_rev ms
      → Renders wire
      → Readable ms
      → lookup key
          (scan_lines wire.decode_message wire.trim_space fetched
            (response wire (map (λ (m : Message). message m) ms))
            (cleared c)).features
        ≡ latest key ms (lookup key c.features)
  read_back c ms key rising renders readable =
      ap
        (λ l.
          lookup key
            (scan_lines wire.decode_message wire.trim_space fetched l (cleared c)).features)
        (response_lem wire ms renders)
      ∙ ap (λ (d : MizuClient). lookup key d.features)
          (scan_lines_of wire.decode_message wire.trim_space fetched c (frames wire ms) readable
            ∙ ap (handle_updates c) (messages_in-frames wire ms))
      ∙ lookup-handle_updates key c ms rising

  sent :
      (s : Service) (n q last_rev : ℤ) (before between later : List (ℤ × Event))
      → s.buffer ≡ new_revision_buffer n
      → str_eq env "" ≡ false
      → is_empty allowed ≡ false
      → Rising q (messages_of json (before ++ (between ++ later)))
      → (get_compensation (handle_events json s (before ++ between)) last_rev).1 ≡ true
      → watch_feature env allowed last_rev
          (get_compensation (handle_events json s (before ++ between)) last_rev)
          (messages_of json (between ++ later))
        ≡ events env allowed
            (select (newer last_rev) (messages_of json (before ++ (between ++ later))))
  sent s n q last_rev before between later fresh named some_name rising complete =
      ap₂ (λ r l. watch_feature env allowed last_rev r l) (answer ∙ ap answered joined) tail
      ∙ watch_feature_sends env allowed q last_rev (messages_of json before)
          (messages_of json between) (messages_of json later) named some_name (rw all at rising)
      ∙ ap (λ l. events env allowed (select (newer last_rev) l)) (sym all)
    where
      answered : List Message → List Message × Bool
      answered l = (select (newer last_rev) l, true)

      joined :
          messages_of json (before ++ between) ≡ messages_of json before ++ messages_of json between
      joined = messages_of-append json before between

      tail :
          messages_of json (between ++ later) ≡ messages_of json between ++ messages_of json later
      tail = messages_of-append json between later

      all :
          messages_of json (before ++ (between ++ later))
          ≡ messages_of json before ++ (messages_of json between ++ messages_of json later)
      all =
          messages_of-append json before (between ++ later)
          ∙ ap (λ l. messages_of json before ++ l) tail

      regrouped :
          messages_of json (before ++ (between ++ later))
          ≡ messages_of json (before ++ between) ++ messages_of json later
      regrouped =
          all
          ∙ sym (
              append_assoc (messages_of json before) (messages_of json between)
                (messages_of json later))
          ∙ ap (λ l. l ++ messages_of json later) (sym joined)

      answer :
          get_compensation (handle_events json s (before ++ between)) last_rev
          ≡ answered (messages_of json (before ++ between))
      answer =
          first_messages json s n q last_rev (before ++ between) fresh
            (Rising-first q (messages_of json (before ++ between)) (messages_of json later)
              (rw regrouped at rising))
            complete

  -- Let a server start with an empty ring of any size, and let the revisions of its watch's messages rise, none with
  -- the type of a ping. A client that names an environment and namespaces registers with the hub after the events
  -- `before`, has its answer from the ring after `between`, and is handed by the hub every message of `between` and
  -- `later`. Unless the ring sends it to a resync, it then has under every key what it had before, changed by the
  -- messages of its environment and namespaces that are newer than its revision, where the texts of these read back
  -- and a message takes a line with its type, one with its text and an empty one.
  pub delivers :
      (s : Service) (c : MizuClient) (n q : ℤ) (before between later : List (ℤ × Event))
      → (key : String) → s.buffer ≡ new_revision_buffer n
      → str_eq env "" ≡ false
      → is_empty allowed ≡ false
      → Rising q (messages_of json (before ++ (between ++ later)))
      → (get_compensation (handle_events json s (before ++ between)) c.last_rev).1 ≡ true
      → Renders wire
      → Readable (owed_to env allowed c.last_rev (messages_of json (before ++ (between ++ later))))
      → lookup key (caught_up s c before between later).features
        ≡ latest key
            (owed_to env allowed c.last_rev (messages_of json (before ++ (between ++ later))))
            (lookup key c.features)
  delivers s c n q before between later key fresh named some_name rising complete renders readable =
      ap
        (λ es.
          lookup key
            (scan_lines wire.decode_message wire.trim_space fetched (response wire es)
              (cleared c)).features)
        (sent s n q c.last_rev before between later fresh named some_name rising complete)
      ∙ read_back c (owed_to env allowed c.last_rev ms) key
          (Rising-select (relevant env allowed) c.last_rev (select (newer c.last_rev) ms)
            (Rising-newer q c.last_rev ms rising))
          renders readable
    where
      ms : List Message
      ms = messages_of json (before ++ (between ++ later))
