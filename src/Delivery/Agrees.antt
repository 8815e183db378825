-- ===== src/Delivery/Agrees.antt =====
-- A client that agreed with a history up to its revision agrees with all of it after the response.
use mizuflow.Base.{
  String, Bool, ◌≡◌, refl, sym, ap, ◌∙◌, Option, none, true, false, not, inl, inr, Bool-cases, List,
  [], ◌∷◌, ◌++◌, arith, str_eq, select, select-append,
}
use mizuflow.Base.Int.{ℤ, ◌≤ℤ◌, ltb_ℤ}
use mizuflow.Base.Dict.{lookup}
use mizuflow.Api.{Message}
use mizuflow.Buffer.{new_revision_buffer}
use mizuflow.Buffer.Since.{newer}
use mizuflow.Json.{Json}
use mizuflow.Watch.{Event, Service, handle_events, get_compensation}
use mizuflow.Watch.Effects.{messages_of}
use mizuflow.Stream.{is_empty, relevant}
use mizuflow.Stream.Gapless.{Rising}
use mizuflow.Sdk.{MizuClient, SnapshotResponse}
use mizuflow.Delivery.Latest.{latest, latest-append}
use mizuflow.Delivery.Reaches.{Wire, Renders, Readable, owed_to, caught_up, delivers}

abbrev pub older : ℤ → Message → Bool
older r m = not (newer r m)

none_older :
    (r q : ℤ) (ms : List Message)
    → r ≤ℤ q
    → Rising q ms
    → (select (older r) ms ≡ []) × (select (newer r) ms ≡ ms)
none_older r q [] le h = (refl, refl)
none_older r q (m ∷ ms) le h =
    let t : ltb_ℤ r m.revision ≡ true = ground (arith, h.0) in
    let rest = none_older r m.revision ms (omega (arith, h.0)) h.2 in
    rw t (rest.0, ap (λ l. m ∷ l) rest.1)

-- Rising messages are those up to a revision, and then those after it.
older-newer :
    (r q : ℤ) (ms : List Message) → Rising q ms → select (older r) ms ++ select (newer r) ms ≡ ms
older-newer r q [] h = refl
older-newer r q (m ∷ ms) h = elim (Bool-cases (newer r m)) [
  | inl t ↦
      let rest = none_older r m.revision ms (ground arith) h.2 in
      rw t (ap (λ l. l ++ m ∷ select (newer r) ms) rest.0 ∙ ap (λ l. m ∷ l) rest.1)
  | inr t ↦ rw t (ap (λ l. m ∷ l) (older-newer r m.revision ms h.2))
]

module _ (json : Json) (wire : Wire) (fetched : Option SnapshotResponse) (env : String)
    (allowed : List String) where
  -- Let a server start with an empty ring, and let the revisions of its watch's messages rise, none with the type of a
  -- ping. A client that names an environment and namespaces registers with the hub after the events `before`, has its
  -- answer from the ring after `between`, no resync, and is handed by the hub every message of `between` and `later`,
  -- written in three lines whose text reads back. If its flag under a key was what the messages of its environment and
  -- namespaces up to its revision say, it is then what all messages of its environment and namespaces say.
  pub catches_up :
      (s : Service) (c : MizuClient) (n q : ℤ) (before between later : List (ℤ × Event))
      → (key : String) → s.buffer ≡ new_revision_buffer n
      → str_eq env "" ≡ false
      → is_empty allowed ≡ false
      → Rising q (messages_of json (before ++ (between ++ later)))
      → (get_compensation (handle_events json s (before ++ between)) c.last_rev).1 ≡ true
      → Renders wire
      → Readable json wire fetched env allowed
          (owed_to env allowed c.last_rev (messages_of json (before ++ (between ++ later))))
      → lookup key c.features
        ≡ latest key
            (select
              (relevant env allowed)
              (select (older c.last_rev) (messages_of json (before ++ (between ++ later)))))
            none
      → lookup key (caught_up json wire fetched env allowed s c before between later).features
        ≡ latest key
            (select (relevant env allowed) (messages_of json (before ++ (between ++ later))))
            none
  catches_up s c n q before between later key fresh named some_name rising complete renders readable
        agreed =
      delivers json wire fetched env allowed s c n q before between later key fresh named some_name
        rising complete renders readable
      ∙ ap (latest key (owed_to env allowed c.last_rev ms)) agreed
      ∙ sym (
          latest-append key (select p (select (older c.last_rev) ms))
            (owed_to env allowed c.last_rev ms) none)
      ∙ ap (λ l. latest key l none)
          (sym (select-append p (select (older c.last_rev) ms) (select (newer c.last_rev) ms))
            ∙ ap (select p) (older-newer c.last_rev q ms rising))
    where
      ms : List Message
      ms = messages_of json (before ++ (between ++ later))

      p : Message → Bool
      p = relevant env allowed
