-- ===== src/Watch/Run.antt =====
-- internal/service/feature.go, `Run` as a whole, with the calls of internal/repository/etcd.go that it makes.
use mizuflow.Base.{
  String, ◌≡◌, refl, sym, ap, ◌∙◌, Option, none, some, List, [], ◌∷◌, ◌++◌, ◌^◌, ◌-◌, Bool, not,
  arith, select,
}
use mizuflow.Base.Int.{ℤ, pos, ◌<ℤ◌, ltb_ℤ, inc_ℤ, inc_ℤ_lem}
use mizuflow.Json.{Json}
use mizuflow.Etcd.{KeyValue}
use mizuflow.Keys.{feature_root_prefix}
use mizuflow.Buffer.History.{add_all}
use mizuflow.Watch.Events.{
  Event, deleted, stored, Service, load_snapshot, handle_event, handle_events,
}
use mizuflow.Watch.Effects.{messages_of, handle_events-publishes}

-- What a select of the loop takes: the end of the context, a response of a canceled watch, or one with events, each
-- with the time at which it is handled.
pub data Input : Type 0 where
  done canceled : Input
  changes : List (ℤ × Event) → Input

-- `clientv3.GetResponse` of a prefix.
pub record PrefixResponse : Type 0 where
  pub kvs : List KeyValue
  pub revision : ℤ

-- The two calls of etcd: the read of a prefix, where `none` is an error, and the watch of a prefix from a revision,
-- which is what the loop's selects then take.
pub record Watcher : Type 0 where
  pub get_prefix : String → Option PrefixResponse
  pub watch : String → ℤ → List Input

unfoldable pub get_with_revision : Watcher → String → Option PrefixResponse
get_with_revision w prefix = w.get_prefix prefix

unfoldable pub watch_feature_from : Watcher → String → ℤ → List Input
watch_feature_from w prefix start_rev = w.watch prefix start_rev

-- `Run` has returned, or waits for the next input.
pub data Progress : Type 0 where
  returned waiting : Service → Progress

abbrev pub service_of : Progress → Service
service_of (returned s) = s
service_of (waiting s) = s

module _ (json : Json) where
  unfoldable pub watch_loop : Service → List Input → Progress
  watch_loop s [] = waiting s
  watch_loop s (done ∷ inputs) = returned s
  watch_loop s (canceled ∷ inputs) = returned s
  watch_loop s (changes evs ∷ inputs) = watch_loop (handle_events json s evs) inputs

  unfoldable pub run_from : Watcher → Service → Option PrefixResponse → Progress
  unfolding watch_loop watch_feature_from
  run_from w s none = returned s
  run_from w s (some r) =
      watch_loop (record s { cache = load_snapshot json s.cache r.kvs })
        (watch_feature_from w feature_root_prefix (inc_ℤ r.revision))

  unfoldable pub run_service : Watcher → Service → Progress
  unfolding run_from get_with_revision
  run_service w s = run_from w s (get_with_revision w feature_root_prefix)

-- The events that come before the context ends or the watch is canceled.
unfoldable pub taken : List Input → List (ℤ × Event)
taken [] = []
taken (done ∷ inputs) = []
taken (canceled ∷ inputs) = []
taken (changes evs ∷ inputs) = evs ++ taken inputs

abbrev pub event_revision : Event → ℤ
event_revision (deleted key rev) = rev
event_revision (stored kv) = kv.mod_revision

abbrev pub later_than : ℤ → ℤ × Event → Bool
later_than r (now, ev) = ltb_ℤ r (event_revision ev)

abbrev pub not_before : ℤ → ℤ × Event → Bool
not_before r (now, ev) = not (ltb_ℤ (event_revision ev) r)

handle_events-append :
    (json : Json) (s : Service) (evs more : List (ℤ × Event))
    → handle_events json s (evs ++ more) ≡ handle_events json (handle_events json s evs) more
unfolding handle_events
handle_events-append json s [] more = refl
handle_events-append json s ((now, ev) ∷ evs) more =
    handle_events-append json (handle_event json s now ev) evs more

-- However the events are batched, the loop handles those that come before its end, and none after it.
watch_loop_lem :
    (json : Json) (s : Service) (inputs : List Input)
    → service_of (watch_loop json s inputs) ≡ handle_events json s (taken inputs)
unfolding watch_loop taken handle_events
watch_loop_lem json s [] = refl
watch_loop_lem json s (done ∷ inputs) = refl
watch_loop_lem json s (canceled ∷ inputs) = refl
watch_loop_lem json s (changes evs ∷ inputs) =
    watch_loop_lem json (handle_events json s evs) inputs
    ∙ sym (handle_events-append json s evs (taken inputs))

not_before-inc :
    (r : ℤ) (e : ℤ × Event) → r <ℤ pos (2 ^ 63 - 1) → not_before (inc_ℤ r) e ≡ later_than r e
not_before-inc r (now, ev) h = ground (arith, inc_ℤ_lem r h)

select-same :
    (p q : ℤ × Event → Bool) (evs : List (ℤ × Event))
    → ((e : ℤ × Event) → p e ≡ q e)
    → select p evs ≡ select q evs
select-same p q [] h = refl
select-same p q (e ∷ evs) h = rw (h e, select-same p q evs h) refl

-- Where etcd's log is `log`, the watch of the flags' prefix from a revision brings the log's events from that revision
-- on, and the prefix is read at a revision below the largest integer, `Run` hands the hub and the ring exactly the
-- messages of the events after the snapshot's revision, each once and in the log's order, however the watch batches
-- them.
pub run_service_gapless :
    (json : Json) (w : Watcher) (s : Service) (r : PrefixResponse) (log : List (ℤ × Event))
    → ((start : ℤ) → taken (w.watch feature_root_prefix start) ≡ select (not_before start) log)
    → w.get_prefix feature_root_prefix ≡ some r
    → r.revision <ℤ pos (2 ^ 63 - 1)
    → let s' = service_of (run_service json w s) in
      let news = messages_of json (select (later_than r.revision) log) in
      (s'.broadcast ≡ s.broadcast ++ news) × (s'.buffer ≡ add_all s.buffer news)
unfolding run_service run_from get_with_revision watch_feature_from
run_service_gapless json w s r log brings read below =
    let loaded : Service = record s { cache = load_snapshot json s.cache r.kvs } in
    let inputs = w.watch feature_root_prefix (inc_ℤ r.revision) in
    let whole : service_of (run_service json w s)
        ≡ handle_events json loaded (select (later_than r.revision) log) =
      ap (λ a. service_of (run_from json w s a)) read
      ∙ watch_loop_lem json loaded inputs
      ∙ ap (handle_events json loaded) (
          brings (inc_ℤ r.revision)
          ∙ select-same (not_before (inc_ℤ r.revision)) (later_than r.revision) log
              (λ e. not_before-inc r.revision e below)) in
    let publishes = handle_events-publishes json loaded (select (later_than r.revision) log) in
    (
      ap (λ (x : Service). x.broadcast) whole ∙ publishes.0,
      ap (λ (x : Service). x.buffer) whole ∙ publishes.1,
    )
