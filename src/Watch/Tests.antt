-- ===== src/Watch/Tests.antt =====
-- Runs of the watch over the events of one flag.
use mizuflow.Base.{zero, suc, ◌≡◌, ◌≢◌, refl, ap, some, List, [], ◌∷◌, true, false, arith, select}
use mizuflow.Base.Int.{ℤ, pos}
use mizuflow.Api.{Message}
use mizuflow.Buffer.{new_revision_buffer, add_message, get_since, collect}
use mizuflow.Buffer.Search.{search}
use mizuflow.Buffer.Since.{IsOrdered}
use mizuflow.Cache.{new_feature_cache}
use mizuflow.Keys.{parse_feature_key}
use mizuflow.Watch.Events.{
  Event, deleted, stored, Service, delete_message, put_message, handle_events, get_compensation,
  get_all_features,
}
use mizuflow.Watch.Run.{
  Input, canceled, changes, PrefixResponse, Watcher, service_of, run_service, taken, not_before,
  run_service_gapless,
}
use mizuflow.Buffer.History.{add_all}
use mizuflow.Watch.Effects.{messages_of}
use mizuflow.Watch.Resync.{resync_forever}
use mizuflow.Samples.{two_json, old_flag, new_flag, dark_key}

abbrev silent : Service
silent = record { cache = new_feature_cache; buffer = new_revision_buffer (pos 3); broadcast = [] }

abbrev put_at : ℤ → Event
put_at r = stored (record { key = dark_key; value = "new"; mod_revision = r })

abbrev events : List (ℤ × Event)
events =
    (pos 100, stored (record { key = dark_key; value = "old"; mod_revision = pos 5 }))
    ∷ (pos 101, put_at (pos 8))
    ∷ (pos 102, deleted dark_key (pos 9))
    ∷ []

abbrev deletes_dark : Message
deletes_dark = delete_message (parse_feature_key dark_key) (pos 9) (pos 102)

abbrev owed_after_5 : List Message
owed_after_5 = put_message new_flag (pos 8) (pos 101) ∷ deletes_dark ∷ []

events-IsOrdered : IsOrdered (messages_of two_json events)
events-IsOrdered zero zero le lt = omega arith
events-IsOrdered zero (suc zero) le lt = omega arith
events-IsOrdered zero (suc (suc zero)) le lt = omega arith
events-IsOrdered (suc zero) (suc zero) le lt = omega arith
events-IsOrdered (suc zero) (suc (suc zero)) le lt = omega arith
events-IsOrdered (suc (suc zero)) (suc (suc zero)) le lt = omega arith
events-IsOrdered _ _ le lt = absurd (omega arith)

compensates : get_compensation (handle_events two_json silent events) (pos 5) ≡ (owed_after_5, true)
unfolding get_compensation handle_events new_revision_buffer add_message get_since collect search
compensates = refl

-- The service has loaded its snapshot at revision 7, and sees one change.
abbrev loaded : Service
loaded = record silent { cache = record { entries = ("dark", old_flag) ∷ []; revision = pos 7 } }

abbrev one_put : List (ℤ × Event)
one_put = (pos 101, put_at (pos 8)) ∷ []

one_put-IsOrdered : IsOrdered (messages_of two_json one_put)
one_put-IsOrdered zero zero le lt = omega arith
one_put-IsOrdered _ _ le lt = absurd (omega arith)

some_put : one_put ≢ []
some_put e = cc

resync_forever_example :
    let s' = handle_events two_json loaded one_put in
    ((get_all_features s').1 ≡ pos 7) × (get_compensation s' (get_all_features s').1 ≡ ([], false))
resync_forever_example =
    resync_forever two_json loaded (pos 3) one_put refl some_put
      ((new_flag, refl, omega arith, omega arith), _) one_put-IsOrdered

-- The log holds the three events; the snapshot is read at revision 5, and the watch brings one event at a time until it
-- is canceled.
abbrev batches : List (ℤ × Event) → List Input
batches [] = canceled ∷ []
batches (e ∷ evs) = changes (e ∷ []) ∷ batches evs

taken-batches : (evs : List (ℤ × Event)) → taken (batches evs) ≡ evs
unfolding taken
taken-batches [] = refl
taken-batches (e ∷ evs) = ap (λ l. e ∷ l) (taken-batches evs)

abbrev at_five : PrefixResponse
at_five = record {
  kvs = record { key = dark_key; value = "old"; mod_revision = pos 5 } ∷ [];
  revision = pos 5;
}

abbrev watcher : Watcher
watcher = record {
  get_prefix = λ prefix. some at_five;
  watch = λ prefix start. batches (select (not_before start) events);
}

run_service_gapless_example :
    let s' = service_of (run_service two_json watcher silent) in
    (s'.broadcast ≡ owed_after_5) × (s'.buffer ≡ add_all silent.buffer owed_after_5)
run_service_gapless_example =
    run_service_gapless two_json watcher silent at_five events
      (λ start. taken-batches (select (not_before start) events)) refl (omega arith)
