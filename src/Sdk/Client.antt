-- ===== src/Sdk/Client.antt =====
-- The client's state, `fetchAll`, `handleUpdate`, and the evaluation of flags.
use mizuflow.Base.{
  ℕ, ◌%◌, String, Bool, true, false, ◌&&◌, ◌||◌, Option, none, some, List, [], ◌∷◌, str_eq,
  if◌then◌else◌,
}
use mizuflow.Base.Int.{ℤ, pos, ltb_ℤ, leb_ℤ}
use mizuflow.Base.Dict.{Dict, lookup, insert, delete as delete_key}
use mizuflow.Api.{
  FeatureFlag, FeatureStrategy, Rule, Message, Action, delete, put, other, type_strategy,
}
use mizuflow.Stream.{contains}

-- The fields that the lock guards.
pub record MizuClient : Type 0 where
  pub features : Dict FeatureFlag
  pub last_rev : ℤ
  pub is_dirty : Bool

-- The answer of the snapshot's URL.
pub record SnapshotResponse : Type 0 where
  pub flags : List FeatureFlag
  pub revision : ℤ

unfoldable pub put_all : List FeatureFlag → Dict FeatureFlag → Dict FeatureFlag
put_all [] m = m
put_all (f ∷ fs) m = put_all fs (insert f.key f m)

-- `fetchAll` by the response, where `none` is an error of the request or of the decoder; `true` without an error.
unfoldable pub fetch_features : Option SnapshotResponse → MizuClient → Bool × MizuClient
unfolding put_all
fetch_features none c = (false, c)
fetch_features (some r) c =
    (true, record { features = put_all r.flags c.features; last_rev = r.revision; is_dirty = true })

abbrev pub message_flag : Message → FeatureFlag
message_flag msg = record {
  namespace = "";
  env = "";
  key = msg.key;
  value = msg.value;
  version = msg.version;
  revision = msg.revision;
  type_name = msg.type_name;
}

-- The switch of `handleUpdate`.
unfoldable pub act : Action → Message → Dict FeatureFlag → Dict FeatureFlag
act delete msg m = delete_key msg.key m
act put msg m = insert msg.key (message_flag msg) m
act (other _) msg m = m

unfoldable pub handle_update : MizuClient → Message → MizuClient
unfolding act
handle_update c msg = if leb_ℤ msg.revision c.last_rev then c else record {
  features = act msg.action msg c.features;
  last_rev = msg.revision;
  is_dirty = true;
}

-- What the client calls: the decoder of strategies, `strconv.Atoi`, and the sum of `fnv.New32a` over the bytes of a
-- text.
pub record Decoders : Type 0 where
  pub decode_strategy : String → Option FeatureStrategy
  pub atoi : String → Option ℤ
  pub fnv32a : String → ℕ

-- `rule.Values[0]` of an empty list panics.
pub data Match : Type 0 where
  matches : Bool → Match
  panics : Match

pub data Evaluation : Type 0 where
  absent : Evaluation
  value : String → Evaluation
  panicked : Evaluation

-- What a rule's match makes of the loop; `rest` is the loop over the rules after it.
unfoldable pub after_match : Match → String → Evaluation → Evaluation
after_match (matches true) result rest = value result
after_match (matches false) result rest = rest
after_match panics result rest = panicked

-- What `GetJSON` returns: the error for a missing key, or what the decoder made of the value.
pub data JsonResult (T : Type 0) : Type 0 where
  not_found json_panics : JsonResult T
  decoded : Option T → JsonResult T

module _ (decoders : Decoders) where
  -- A text that is no integer has no threshold.
  unfoldable pub below_threshold : Option ℤ → String → Bool
  below_threshold none val = false
  below_threshold (some threshold) val =
      if leb_ℤ threshold (pos 0) && leb_ℤ (pos 0) threshold
      then false
      else ltb_ℤ (pos (decoders.fnv32a val % 100)) threshold

  unfoldable pub match_operator : String → List String → String → Match
  unfolding below_threshold
  match_operator operator values val =
      if str_eq operator "in"
      then matches (contains val values)
      else if str_eq operator "eq"
      then elim values [ [] ↦ panics | v ∷ _ ↦ matches (str_eq val v) ]
      else if str_eq operator "mod"
      then elim values [ [] ↦ panics | v ∷ _ ↦ matches (below_threshold (decoders.atoi v) val) ]
      else matches false

  unfoldable pub match_rule : Rule → Dict String → Match
  unfolding match_operator
  match_rule rule context = elim (lookup rule.attribute context) [
    | none ↦ matches false
    | some val ↦ match_operator rule.operator rule.values val
  ]

  unfoldable pub first_match : List Rule → String → Dict String → Evaluation
  unfolding after_match match_rule
  first_match [] default_value context = value default_value
  first_match (rule ∷ rules) default_value context =
      after_match (match_rule rule context) rule.result (first_match rules default_value context)

  unfoldable pub evaluate_flag : FeatureFlag → Dict String → Evaluation
  unfolding first_match
  evaluate_flag feature context =
      if str_eq feature.type_name type_strategy
      then elim (decoders.decode_strategy feature.value) [
        | none ↦ value feature.value
        | some strategy ↦ first_match strategy.rules strategy.default_value context
      ]
      else value feature.value

  unfoldable pub evaluate : MizuClient → String → Dict String → Evaluation
  unfolding evaluate_flag
  evaluate c key context = elim (lookup key c.features) [
    | none ↦ absent
    | some feature ↦ evaluate_flag feature context
  ]

  -- The answers of `IsEnabled` and `GetString`; `none` is a panic.
  unfoldable pub is_enabled : MizuClient → String → Dict String → Option Bool
  unfolding evaluate
  is_enabled c key context = elim (evaluate c key context) [
    | absent ↦ some false
    | value val ↦ some (str_eq val "true" || (str_eq val "True" || str_eq val "TRUE"))
    | panicked ↦ none
  ]

  unfoldable pub get_string : MizuClient → String → String → Dict String → Option String
  unfolding evaluate
  get_string c key default_value context = elim (evaluate c key context) [
    | absent ↦ some default_value
    | value val ↦ some val
    | panicked ↦ none
  ]

  -- `GetJSON`, where `decode` is `json.Unmarshal` into the target.
  unfoldable pub get_json :
      {T : Type 0} → (String → Option T) → MizuClient → String → Dict String → JsonResult T
  unfolding evaluate
  get_json decode c key context = elim (evaluate c key context) [
    | absent ↦ not_found
    | value val ↦ decoded (decode val)
    | panicked ↦ json_panics
  ]

  -- `GetNumber`, with `strconv.ParseFloat` into any type of numbers.
  unfoldable pub get_number :
      {N : Type 0} → (String → Option N) → MizuClient → String → N → Dict String → Option N
  unfolding evaluate
  get_number parse_float c key default_value context = elim (evaluate c key context) [
    | absent ↦ some default_value
    | value val ↦ elim (parse_float val) [ none ↦ some default_value | some f ↦ some f ]
    | panicked ↦ none
  ]
