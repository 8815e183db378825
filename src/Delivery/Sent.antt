-- ===== src/Delivery/Sent.antt =====
-- What the stream of a server brings to a client that registers between two events of the watch.
use mizuflow.Base.{
  String, ◌≡◌, refl, sym, ap, ◌∙◌, true, false, inl, inr, Bool-cases, List, [], ◌∷◌, ◌++◌, arith,
  str_eq, select, select-append, append_assoc,
}
use mizuflow.Base.Int.{ℤ, ◌≤ℤ◌, leb_ℤ}
use mizuflow.Api.{Message}
use mizuflow.Buffer.Since.{newer}
use mizuflow.Stream.{Stream, is_empty, compensate, handle_live, handle_lives, watch_feature}
use mizuflow.Stream.Gapless.{
  Rising, Rising-rest, Rising-first, end_of, events, live_old, send_history_lem, sent_rev-bounds,
  watch_feature_gapless,
}
use mizuflow.Delivery.Latest.{Rising-newer}

module _ (env : String) (allowed : List String) where
  max-handle_live :
      (r : ℤ) (s : Stream) (m : Message)
      → r ≤ℤ s.max_sent_rev
      → r ≤ℤ (handle_live env allowed s m).max_sent_rev
  unfolding handle_live
  max-handle_live r s m h = ground arith

  -- A stream that has sent up to `r` passes over what is not newer.
  handle_lives-newer :
      (r q : ℤ) (s : Stream) (ms : List Message)
      → Rising q ms
      → r ≤ℤ s.max_sent_rev
      → handle_lives env allowed s ms ≡ handle_lives env allowed s (select (newer r) ms)
  unfolding handle_lives
  handle_lives-newer r q s [] h le = refl
  handle_lives-newer r q s (m ∷ ms) h le = elim (Bool-cases (newer r m)) [
    | inl t ↦ rw t (
        handle_lives-newer r m.revision (handle_live env allowed s m) ms h.2
          (max-handle_live r s m le))
    | inr t ↦
        let seen : leb_ℤ m.revision s.max_sent_rev ≡ true = ground arith in
        rw (t, live_old env allowed s m h.1 seen) (handle_lives-newer r m.revision s ms h.2 le)
  ]

  max-compensate :
      (last_rev : ℤ) (ms : List Message)
      → Rising last_rev ms
      → last_rev ≤ℤ (compensate env allowed last_rev (ms, true)).max_sent_rev
  unfolding compensate
  max-compensate last_rev ms h =
      let start : Stream = record { sent = []; max_sent_rev = last_rev } in
      rw ((send_history_lem env allowed start ms).1)
        ((sent_rev-bounds env allowed last_rev last_rev ms h (omega arith)).0)

  watch_feature-newer :
      (q last_rev : ℤ) (ms live : List Message)
      → Rising last_rev ms
      → Rising q live
      → watch_feature env allowed last_rev (ms, true) live
        ≡ watch_feature env allowed last_rev (ms, true) (select (newer last_rev) live)
  unfolding watch_feature
  watch_feature-newer q last_rev ms live h hl =
      rw
        (handle_lives-newer last_rev q (compensate env allowed last_rev (ms, true)) live hl
          (max-compensate last_rev ms h))
        refl

  -- The messages `before` came before the client registered with the hub, `between` after that and before the ring was
  -- read, `later` after both: the stream has each message that is newer than `last_rev` once and in order.
  pub watch_feature_sends :
      (q last_rev : ℤ) (before between later : List Message)
      → str_eq env "" ≡ false
      → is_empty allowed ≡ false
      → Rising q (before ++ (between ++ later))
      → watch_feature env allowed last_rev
          (select (newer last_rev) (before ++ between), true)
          (between ++ later)
        ≡ events env allowed (select (newer last_rev) (before ++ (between ++ later)))
  watch_feature_sends q last_rev before between later named some_name h =
      ap (λ l. watch_feature env allowed last_rev (l, true) (between ++ later)) first
      ∙ watch_feature-newer (end_of q before) last_rev (old ++ both) (between ++ later)
          (Rising-first last_rev (old ++ both) new all_rise)
          (Rising-rest q before (between ++ later) h)
      ∙ ap (watch_feature env allowed last_rev (old ++ both, true))
          (select-append (newer last_rev) between later)
      ∙ watch_feature_gapless env allowed last_rev old both new named some_name all_rise
      ∙ ap (events env allowed) (sym all)
    where
      old : List Message
      old = select (newer last_rev) before

      both : List Message
      both = select (newer last_rev) between

      new : List Message
      new = select (newer last_rev) later

      first : select (newer last_rev) (before ++ between) ≡ old ++ both
      first = select-append (newer last_rev) before between

      all : select (newer last_rev) (before ++ (between ++ later)) ≡ (old ++ both) ++ new
      all =
          select-append (newer last_rev) before (between ++ later)
          ∙ ap (λ l. old ++ l) (select-append (newer last_rev) between later)
          ∙ sym (append_assoc old both new)

      all_rise : Rising last_rev ((old ++ both) ++ new)
      all_rise = rw (sym all) (Rising-newer q last_rev (before ++ (between ++ later)) h)
