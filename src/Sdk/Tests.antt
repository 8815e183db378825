-- ===== src/Sdk/Tests.antt =====
-- A client with one flag of type strategy, and a stream of one message.
use mizuflow.Base.{
  ℕ, String, ◌≡◌, ◌≢◌, refl, Option, none, some, true, false, List, [], ◌∷◌, arith, str_eq, eq_iff,
  inl, if◌then◌else◌, ◌⊎◌, Bool, sym, ◌∙◌, eq_refl,
}
use mathlib.Core.Option.{none-ne-some}
use mizuflow.Base.Int.{pos}
use mizuflow.Base.Dict.{Dict, lookup, insert, lookup-insert}
use mizuflow.Api.{FeatureFlag, FeatureStrategy, Message, Rule, type_strategy, type_number}
use mizuflow.Samples.{new_flag}
use mizuflow.Watch.{put_message}
use mizuflow.Features.Validate.{Parsers, validate_payload, strategy_valid, rules_valid}
use mizuflow.Sdk.{
  MizuClient, Decoders, fetch_features, handle_update, value, panicked, evaluate, is_enabled,
  get_string, get_number, get_json, decoded,
}
use mizuflow.Sdk.{
  load_saved, Settings, Files, SnapshotJson, snapshot_of, new_mizu_client, with_cache_file,
  with_snapshot_interval, save_snapshot, start_client,
}
use mizuflow.Sdk.{
  Target, snapshot_url, watch_url, Moment, line_at, tick_at, lines_read, Connection, fails,
  responds, closes,
}
use mizuflow.Sdk.Watchdog.{lines_read_steady}
use mizuflow.Sdk.Persists.{FileLaws, kept, start_client-save_snapshot}
use mizuflow.Sdk.Typed.{get_number-typed}
use mizuflow.Sdk.Updates.{handle_updates, handle_updates_again}
use mizuflow.Sdk.Rollout.{evaluate_panics}

abbrev beta : Rule
beta = record { attribute = "plan"; operator = "in"; values = "pro" ∷ []; result = "on" }

abbrev broken : Rule
broken = record { attribute = "plan"; operator = "eq"; values = []; result = "on" }

abbrev strategy : FeatureStrategy
strategy = record { default_value = "off"; rules = beta ∷ [] }

abbrev broken_strategy : FeatureStrategy
broken_strategy = record { default_value = "off"; rules = broken ∷ [] }

abbrev decoders : Decoders
decoders = record {
  decode_strategy = λ s. if str_eq s "s" then some strategy else some broken_strategy;
  atoi = λ s. if str_eq s "50" then some (pos 50) else some (pos 80);
  fnv32a = λ s. 123;
}

abbrev flag_of : String → FeatureFlag
flag_of s = record new_flag { value = s; type_name = type_strategy }

abbrev client_of : String → MizuClient
client_of s = record { features = ("dark", flag_of s) ∷ []; last_rev = pos 4; is_dirty = false }

abbrev update_5 : Message
update_5 = put_message new_flag (pos 5) (pos 0)

abbrev pro : List (String × String)
pro = ("plan", "pro") ∷ []

enabled_after : is_enabled decoders (handle_update (client_of "s") update_5) "dark" [] ≡ some true
unfolding is_enabled handle_update insert lookup
enabled_after = refl

default_without_plan : get_string decoders (client_of "s") "dark" "none" [] ≡ some "off"
unfolding get_string lookup
default_without_plan = refl

number_of_missing : get_number decoders {N = ℕ} (λ s. some 3) (client_of "s") "gone" 7 [] ≡ some 7
unfolding get_number lookup
number_of_missing = refl

fetch_fails : fetch_features none (client_of "s") ≡ (false, client_of "s")
unfolding fetch_features
fetch_fails = refl

handle_updates_again_example :
    handle_updates (handle_updates (client_of "s") (update_5 ∷ [])) (update_5 ∷ [])
    ≡ handle_updates (client_of "s") (update_5 ∷ [])
handle_updates_again_example = handle_updates_again (client_of "s") (update_5 ∷ [])

abbrev decode_message : String → Option Message
decode_message s = if str_eq s "m" then some update_5 else none

abbrev as_is : String → String
as_is s = s

some_plan : ◌≢◌ {A = String} "plan" ""
some_plan e = ground (arith, eq_iff "plan" "")

some_default : ◌≢◌ {A = String} "off" ""
some_default e = ground (arith, eq_iff "off" "")

evaluate_panics_example :
    (strategy_valid broken_strategy ≡ true)
    × (evaluate decoders (client_of "b") "dark" pro ≡ panicked)
unfolding lookup rules_valid
evaluate_panics_example =
    evaluate_panics decoders (client_of "b") "dark" "pro" "plan" "eq" "on" "off" [] pro
      (flag_of "b") (inl refl) some_plan some_default refl refl refl refl refl

-- A file system that does not fail.
abbrev moved : String → Dict String → Option String → Bool × Dict String
moved path f none = (false, f)
moved path f (some s) = (true, insert path s f)

abbrev disk : Files (Dict String)
disk = record {
  write_file = λ path bytes f. (true, insert path bytes f);
  rename = λ old path f. moved path f (lookup old f);
  read_file = λ path f. (lookup path f, f);
}

moved-renames :
    (path : String) (f : Dict String) (o : Option String)
    → (moved path f o).0 ≡ true
    → lookup path (moved path f o).1 ≡ o
moved-renames path f none h = absurd (cc)
moved-renames path f (some s) h = lookup-insert path path s f ∙ rw (eq_refl path) refl

moved-fails :
    (path : String) (f : Dict String) (o : Option String)
    → (moved path f o).0 ≡ false
    → lookup path (moved path f o).1 ≡ lookup path f
moved-fails path f none h = refl
moved-fails path f (some s) h = absurd (cc)

kept_beside :
    (path bytes name : String) (f : Dict String)
    → name ≢ path
    → lookup name (insert path bytes f) ≡ lookup name f
kept_beside path bytes name f ne = ground (
  arith,
  lookup-insert path name bytes f,
  lookup-insert name path bytes f,
  eq_iff name path,
  eq_iff path name,
)

disk_laws : FileLaws disk
disk_laws = record {
  content = λ f path. lookup path f;
  writes = λ path bytes f h. lookup-insert path path bytes f ∙ rw (eq_refl path) refl;
  write_keeps = λ path bytes name f ne. kept_beside path bytes name f ne;
  renames = λ old path f h. moved-renames path f (lookup old f) h;
  rename_fails = λ old path f h. moved-fails path f (lookup old f) h;
  reads = λ path s f h. h;
}

abbrev settings : Settings
settings = (new_mizu_client (with_cache_file "c" ∷ with_snapshot_interval 5 5 ∷ [])).0

abbrev other_client : MizuClient
other_client = record { features = ("dark", new_flag) ∷ []; last_rev = pos 7; is_dirty = true }

abbrev fresh : MizuClient
fresh = record { features = []; last_rev = pos 0; is_dirty = false }

abbrev one_json : SnapshotJson
one_json = record { marshal = λ s. some "m"; unmarshal = λ s. some (snapshot_of other_client) }

start_client-save_snapshot_example :
    (snapshot_of other_client ≡ snapshot_of other_client)
    ⊎ ((s : String) × (kept one_json disk_laws settings [] ≡ some s)
        × (one_json.unmarshal s ≡ some (snapshot_of other_client)))
unfolding lookup insert new_mizu_client start_client fetch_features load_saved save_snapshot
start_client-save_snapshot_example =
    start_client-save_snapshot one_json disk_laws settings other_client fresh
      (record other_client { is_dirty = false }) [] (λ bytes h. refl) refl

file_read :
    (disk.read_file settings.cache_file (save_snapshot one_json disk settings other_client [])).0
    ≡ some "m"
unfolding lookup save_snapshot insert new_mizu_client
file_read = refl

abbrev number_flag : FeatureFlag
number_flag = record new_flag { value = "7"; type_name = type_number }

abbrev number_client : MizuClient
number_client = record fresh { features = ("limit", number_flag) ∷ ("dark", new_flag) ∷ [] }

abbrev parsers : Parsers
parsers = record {
  parses_float = λ s. str_eq s "7";
  json_valid = λ s. false;
  decode_strategy = λ s. none;
}

abbrev seven : String → Option ℕ
seven s = if str_eq s "7" then some 7 else none

reads_seven : (s : String) → parsers.parses_float s ≡ true → seven s ≢ none
reads_seven s h e = none-ne-some 7 (sym (rw h at e))

get_number-typed_example : get_number decoders seven number_client "limit" 3 [] ≡ seven "7"
unfolding lookup validate_payload
get_number-typed_example =
    get_number-typed decoders parsers number_client "limit" [] number_flag seven 3 reads_seven refl
      refl refl

reads_json : get_json decoders seven number_client "limit" [] ≡ decoded (some 7)
unfolding get_json lookup
reads_json = refl

abbrev target : Target
target = record { addr = "http://mizu"; env = "prod"; namespaces = "shop" ∷ "web" ∷ [] }

watches_at :
    watch_url (λ r. "7") target (pos 7)
    ≡ "http://mizu/v1/stream/watch?last_rev=7&env=prod&namespace=shop,web"
unfolding watch_url
watches_at = refl

snapshot_at : snapshot_url target ≡ "http://mizu/v1/stream/snapshot?env=prod&namespace=shop,web"
unfolding snapshot_url
snapshot_at = refl

-- A line every twenty seconds, and the watchdog's ticks between.
abbrev steady : List Moment
steady =
    tick_at 5
    ∷ line_at 20 "event:ping"
    ∷ tick_at 25
    ∷ tick_at 40
    ∷ line_at 40 "data:pong"
    ∷ tick_at 70
    ∷ []

lines_read_steady_example : lines_read 0 steady ≡ "event:ping" ∷ "data:pong" ∷ []
lines_read_steady_example =
    lines_read_steady 0 steady
      (omega arith, (omega arith, (omega arith, (omega arith, (omega arith, (_, _))))))

cut_after_silence : lines_read 0 (tick_at 30 ∷ line_at 31 "late" ∷ []) ≡ []
unfolding lines_read
cut_after_silence = refl

abbrev connections : List Connection
connections = fails ∷ fails ∷ responds [] none ∷ responds [] none ∷ fails ∷ closes ∷ []
