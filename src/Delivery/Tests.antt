-- ===== src/Delivery/Tests.antt =====
-- A client that has the first version of a flag; the second comes while it connects, and then the flag is deleted.
use Prim.Native.String.{◌++◌}
use mizuflow.Base.{
  String, ◌≡◌, refl, Option, none, some, false, List, [], ◌∷◌, str_eq, arith, if◌then◌else◌,
}
use mizuflow.Base.Int.{ℤ, pos, leb_ℤ}
use mizuflow.Base.Dict.{lookup}
use mizuflow.Base.Text.{split}
use mizuflow.Api.{Message}
use mizuflow.Buffer.{new_revision_buffer, add_message, get_since, collect}
use mizuflow.Buffer.Search.{search}
use mizuflow.Cache.{new_feature_cache}
use mizuflow.Keys.{parse_feature_key}
use mizuflow.Watch.{
  Event, deleted, stored, Service, delete_message, put_message, handle_events, get_compensation,
}
use mizuflow.Stream.{SseEvent, message, reset, ping, relevant, contains}
use mizuflow.Sdk.{MizuClient, message_flag}
use mizuflow.Delivery.Latest.{latest, applied}
use mizuflow.Delivery.Reaches.{Wire, caught_up, delivers}
use mizuflow.Delivery.Agrees.{catches_up}
use mizuflow.Samples.{two_json, old_flag, new_flag, dark_key}

abbrev silent : Service
silent = record { cache = new_feature_cache; buffer = new_revision_buffer (pos 3); broadcast = [] }

abbrev before : List (ℤ × Event)
before = (pos 100, stored (record { key = dark_key; value = "old"; mod_revision = pos 5 })) ∷ []

abbrev between : List (ℤ × Event)
between = (pos 101, stored (record { key = dark_key; value = "new"; mod_revision = pos 8 })) ∷ []

abbrev later : List (ℤ × Event)
later = (pos 102, deleted dark_key (pos 9)) ∷ []

abbrev put_8 : Message
put_8 = put_message new_flag (pos 8) (pos 101)

abbrev delete_9 : Message
delete_9 = delete_message (parse_feature_key dark_key) (pos 9) (pos 102)

abbrev encode : Message → String
encode m = if leb_ℤ m.revision (pos 8) then "8" else "9"

abbrev decode : String → Option Message
decode s = if str_eq s "8" then some put_8 else if str_eq s "9" then some delete_9 else none

abbrev render : SseEvent → List String
render (message m) = "event:message" ∷ ("data:" ++ encode m) ∷ "" ∷ []
render ping = "event:ping" ∷ "data:pong" ∷ "" ∷ []
render reset = "event:reset" ∷ "data:revision_too_old" ∷ "" ∷ []

abbrev wire : Wire
wire = record { render = render; encode = encode; decode_message = decode; trim_space = λ s. s }

abbrev client : MizuClient
client = record {
  features = ("dark", message_flag (put_message old_flag (pos 5) (pos 100))) ∷ [];
  last_rev = pos 5;
  is_dirty = false;
}

delivers_example :
    lookup "dark"
      (caught_up two_json wire none "prod"
        ("shop" ∷ [])
        silent
        client
        before
        between
        later).features
    ≡ none
unfolding lookup latest applied relevant contains get_compensation handle_events new_revision_buffer
    add_message get_since collect search parse_feature_key split
delivers_example =
    delivers two_json wire none "prod" ("shop" ∷ []) silent client (pos 3) (pos 0) before between
      later "dark" refl refl refl (omega arith, refl, (omega arith, refl, (omega arith, refl, _)))
      refl (λ m. refl)
      (
        record { trimmed = refl; reads = refl; some_text = refl },
        (record { trimmed = refl; reads = refl; some_text = refl }, _),
      )

catches_up_example :
    lookup "dark"
      (caught_up two_json wire none "prod"
        ("shop" ∷ [])
        silent
        client
        before
        between
        later).features
    ≡ none
unfolding lookup latest applied relevant contains get_compensation handle_events new_revision_buffer
    add_message get_since collect search parse_feature_key split
catches_up_example =
    catches_up two_json wire none "prod" ("shop" ∷ []) silent client (pos 3) (pos 0) before between
      later "dark" refl refl refl (omega arith, refl, (omega arith, refl, (omega arith, refl, _)))
      refl (λ m. refl)
      (
        record { trimmed = refl; reads = refl; some_text = refl },
        (record { trimmed = refl; reads = refl; some_text = refl }, _),
      )
      refl
