-- ===== src/Stream/Gapless.antt =====
-- The hand-over of `WatchFeature` from the ring's messages to the hub's.
use mizuflow.Base.{
  String, ◌≡◌, refl, sym, ap, ◌∙◌, true, false, inl, inr, Bool-cases, List, [], ◌∷◌, ◌++◌, map,
  arith, append_assoc, append-nil, select, select-append, str_eq, if◌then◌else◌,
}
use mizuflow.Base.Int.{ℤ, ◌<ℤ◌, ◌≤ℤ◌, leb_ℤ}
use mizuflow.Api.{Message}
use mizuflow.Stream.{
  SseEvent, message, Stream, write, relevant, send_one, send_history, compensate, handle_live,
  handle_lives, watch_feature, is_empty,
}

-- The revisions of the messages rise from above `r`, and none is a ping.
abbrev pub Rising : ℤ → List Message → Type 0
Rising r [] = Unit
Rising r (m ∷ ms) = (r <ℤ m.revision) × (str_eq m.type_name "ping" ≡ false) × Rising m.revision ms

-- The revision of the last message, and `r` where there is none.
abbrev pub end_of : ℤ → List Message → ℤ
end_of r [] = r
end_of r (m ∷ ms) = end_of m.revision ms

pub Rising-rest : (r : ℤ) (ms ns : List Message) → Rising r (ms ++ ns) → Rising (end_of r ms) ns
Rising-rest r [] ns h = h
Rising-rest r (m ∷ ms) ns h = Rising-rest m.revision ms ns h.2

pub Rising-first : (r : ℤ) (ms ns : List Message) → Rising r (ms ++ ns) → Rising r ms
Rising-first r [] ns h = _
Rising-first r (m ∷ ms) ns h = (h.0, h.1, Rising-first m.revision ms ns h.2)

end_of-append : (r : ℤ) (ms ns : List Message) → end_of r (ms ++ ns) ≡ end_of (end_of r ms) ns
end_of-append r [] ns = refl
end_of-append r (m ∷ ms) ns = end_of-append m.revision ms ns

le_end_of : (r : ℤ) (ms : List Message) → Rising r ms → r ≤ℤ end_of r ms
le_end_of r [] h = omega arith
le_end_of r (m ∷ ms) h = omega (arith, le_end_of m.revision ms h.2)

module _ (env : String) (allowed : List String) where
  abbrev pub events : List Message → List SseEvent
  events ms = map (λ (m : Message). message m) (select (relevant env allowed) ms)

  -- The largest revision sent, after relevant messages in the order of their revisions.
  abbrev pub sent_rev : ℤ → List Message → ℤ
  sent_rev r [] = r
  sent_rev r (m ∷ ms) = sent_rev (if relevant env allowed m then m.revision else r) ms

  one_sent :
      (s : Stream) (m : Message)
      → relevant env allowed m ≡ true
      → send_one env allowed s m ≡ write s m
  unfolding send_one
  one_sent s m t = rw t

  one_passed :
      (s : Stream) (m : Message) → relevant env allowed m ≡ false → send_one env allowed s m ≡ s
  unfolding send_one
  one_passed s m t = rw t

  pub send_history_lem :
      (s : Stream) (ms : List Message)
      → ((send_history env allowed s ms).sent ≡ s.sent ++ events ms)
        × ((send_history env allowed s ms).max_sent_rev ≡ sent_rev s.max_sent_rev ms)
  unfolding send_history
  send_history_lem s [] = (sym (append-nil s.sent), refl)
  send_history_lem s (m ∷ ms) = elim (Bool-cases (relevant env allowed m)) [
    | inl t ↦
        let ih = send_history_lem (write s m) ms in
        let e = one_sent s m t in
        rw t (
          ap (λ (x : Stream). (send_history env allowed x ms).sent) e
              ∙ ih.0
              ∙ append_assoc s.sent (message m ∷ []) (events ms),
          ap (λ (x : Stream). (send_history env allowed x ms).max_sent_rev) e ∙ ih.1,
        )
    | inr t ↦
        let ih = send_history_lem s ms in
        let e = one_passed s m t in
        rw t (
          ap (λ (x : Stream). (send_history env allowed x ms).sent) e ∙ ih.0,
          ap (λ (x : Stream). (send_history env allowed x ms).max_sent_rev) e ∙ ih.1,
        )
  ]

  pub sent_rev-bounds :
      (q r : ℤ) (ms : List Message)
      → Rising r ms
      → q ≤ℤ r
      → (q ≤ℤ sent_rev q ms) × (sent_rev q ms ≤ℤ end_of r ms)
  sent_rev-bounds q r [] h le = (omega arith, le)
  sent_rev-bounds q r (m ∷ ms) h le = elim (Bool-cases (relevant env allowed m)) [
    | inl t ↦
        let ih = sent_rev-bounds m.revision m.revision ms h.2 (omega arith) in
        rw t (omega (arith, ih.0, h.0), ih.1)
    | inr t ↦ let ih = sent_rev-bounds q m.revision ms h.2 (omega (arith, h.0)) in rw t ih
  ]

  pub live_old :
      (s : Stream) (m : Message)
      → str_eq m.type_name "ping" ≡ false
      → leb_ℤ m.revision s.max_sent_rev ≡ true
      → handle_live env allowed s m ≡ s
  unfolding handle_live
  live_old s m h old = rw (h, old) (ground arith)

  live_new :
      (s : Stream) (m : Message)
      → str_eq m.type_name "ping" ≡ false
      → relevant env allowed m ≡ true
      → leb_ℤ m.revision s.max_sent_rev ≡ false
      → handle_live env allowed s m ≡ write s m
  unfolding handle_live
  live_new s m h t new = rw (h, t, new)

  live_other :
      (s : Stream) (m : Message)
      → str_eq m.type_name "ping" ≡ false
      → relevant env allowed m ≡ false
      → handle_live env allowed s m ≡ s
  unfolding handle_live
  live_other s m h t = rw (h, t)

  -- Messages that the history sent, or passed over, are not sent again.
  replays :
      (s : Stream) (q r : ℤ) (ms : List Message)
      → Rising r ms
      → q ≤ℤ r
      → sent_rev q ms ≤ℤ s.max_sent_rev
      → handle_lives env allowed s ms ≡ s
  unfolding handle_lives
  replays s q r [] h le top = refl
  replays s q r (m ∷ ms) h le top = elim (Bool-cases (relevant env allowed m)) [
    | inl t ↦
        let top' : sent_rev m.revision ms ≤ℤ s.max_sent_rev = rw t at top in
        let bounds = sent_rev-bounds m.revision m.revision ms h.2 (omega arith) in
        let seen : leb_ℤ m.revision s.max_sent_rev ≡ true = ground (arith, bounds.0) in
        rw (live_old s m h.1 seen) (replays s m.revision m.revision ms h.2 (omega arith) top')
    | inr t ↦
        rw (live_other s m h.1 t) (replays s q m.revision ms h.2 (omega (arith, h.0)) (rw t at top))
  ]

  fresh :
      (s : Stream) (r : ℤ) (ms : List Message)
      → Rising r ms
      → s.max_sent_rev ≤ℤ r
      → (handle_lives env allowed s ms).sent ≡ s.sent ++ events ms
  unfolding handle_lives
  fresh s r [] h le = sym (append-nil s.sent)
  fresh s r (m ∷ ms) h le = elim (Bool-cases (relevant env allowed m)) [
    | inl t ↦
        let new : leb_ℤ m.revision s.max_sent_rev ≡ false = ground (arith, h.0) in
        rw t (
          ap (λ (x : Stream). (handle_lives env allowed x ms).sent) (live_new s m h.1 t new)
          ∙ fresh (write s m) m.revision ms h.2 (omega arith)
          ∙ append_assoc s.sent (message m ∷ []) (events ms))
    | inr t ↦ rw t (
        ap (λ (x : Stream). (handle_lives env allowed x ms).sent) (live_other s m h.1 t)
        ∙ fresh s m.revision ms h.2 (omega (arith, h.0)))
  ]

  pub handle_lives-append :
      (s : Stream) (ms ns : List Message)
      → handle_lives env allowed s (ms ++ ns)
        ≡ handle_lives env allowed (handle_lives env allowed s ms) ns
  unfolding handle_lives
  handle_lives-append s [] ns = refl
  handle_lives-append s (m ∷ ms) ns = handle_lives-append (handle_live env allowed s m) ms ns

  sent_rev-append :
      (r : ℤ) (ms ns : List Message) → sent_rev r (ms ++ ns) ≡ sent_rev (sent_rev r ms) ns
  sent_rev-append r [] ns = refl
  sent_rev-append r (m ∷ ms) ns =
      sent_rev-append (if relevant env allowed m then m.revision else r) ms ns

  pub events-append : (ms ns : List Message) → events (ms ++ ns) ≡ events ms ++ events ns
  events-append ms ns =
      ap (map (λ (m : Message). message m)) (select-append (relevant env allowed) ms ns)
      ∙ map-append (select (relevant env allowed) ms) (select (relevant env allowed) ns)
    where
      map-append :
          (xs ys : List Message)
          → map (λ (m : Message). message m) (xs ++ ys)
            ≡ map (λ (m : Message). message m) xs ++ map (λ (m : Message). message m) ys
      map-append [] ys = refl
      map-append (x ∷ xs) ys = ap (λ l. message x ∷ l) (map-append xs ys)

  -- The stream after a history that the hub's messages overlap.
  taken_over :
      (last_rev : ℤ) (old both new : List Message) (s : Stream)
      → Rising last_rev ((old ++ both) ++ new)
      → s.sent ≡ events (old ++ both)
      → s.max_sent_rev ≡ sent_rev last_rev (old ++ both)
      → (handle_lives env allowed s (both ++ new)).sent ≡ events ((old ++ both) ++ new)
  taken_over last_rev old both new s h sent top =
      let first = Rising-first last_rev (old ++ both) new h in
      let bounds =
        sent_rev-bounds last_rev last_rev old (Rising-first last_rev old both first)
          (omega arith) in
      let all = sent_rev-bounds last_rev last_rev (old ++ both) first (omega arith) in
      let again : handle_lives env allowed s both ≡ s =
        replays s (sent_rev last_rev old) (end_of last_rev old) both
          (Rising-rest last_rev old both first) bounds.1
          (rw (top, sent_rev-append last_rev old both) (omega arith)) in
      ap (λ (x : Stream). x.sent) (handle_lives-append s both new)
      ∙ ap (λ (x : Stream). (handle_lives env allowed x new).sent) again
      ∙ fresh s (end_of last_rev (old ++ both)) new (Rising-rest last_rev (old ++ both) new h)
          (rw top all.1)
      ∙ ap (λ l. l ++ events new) sent
      ∙ sym (events-append (old ++ both) new)

  -- A client at `last_rev` that names an environment and a namespace, to which `GetCompensation` gives the messages
  -- `old` and `both`, and whose registration with the hub brings it `both` and `new`, is sent all of these that are
  -- in its environment and namespaces, each once and in order, where their revisions rise from above `last_rev` and
  -- none has the type of a ping.
  pub watch_feature_gapless :
      (last_rev : ℤ) (old both new : List Message)
      → str_eq env "" ≡ false
      → is_empty allowed ≡ false
      → Rising last_rev ((old ++ both) ++ new)
      → watch_feature env allowed last_rev (old ++ both, true) (both ++ new)
        ≡ events ((old ++ both) ++ new)
  unfolding watch_feature compensate
  watch_feature_gapless last_rev old both new named some_name h =
      let start : Stream = record { sent = []; max_sent_rev = last_rev } in
      let history = send_history_lem start (old ++ both) in
      rw (named, some_name)
        (taken_over last_rev old both new (send_history env allowed start (old ++ both)) h history.0
          history.1)
