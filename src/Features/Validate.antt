-- ===== src/Features/Validate.antt =====
-- internal/service/feature.go, `validatePayload`.
use mizuflow.Base.{
  String, Bool, true, false, not, ◌&&◌, ◌||◌, Option, none, some, List, [], ◌∷◌, str_eq,
  if◌then◌else◌,
}
use mizuflow.Api.{
  FeatureStrategy, Rule, type_bool, type_string, type_json, type_strategy, type_number,
}

-- `strconv.ParseFloat(s, 64)` without an error, `json.Valid`, and `json.Unmarshal` into a strategy.
pub record Parsers : Type 0 where
  pub parses_float : String → Bool
  pub json_valid : String → Bool
  pub decode_strategy : String → Option FeatureStrategy

unfoldable pub rules_valid : List Rule → Bool
rules_valid [] = true
rules_valid (rule ∷ rules) =
    not (str_eq rule.attribute "" || str_eq rule.operator "") && rules_valid rules

unfoldable pub strategy_valid : FeatureStrategy → Bool
unfolding rules_valid
strategy_valid s = if str_eq s.default_value "" then false else rules_valid s.rules

-- `true` where `validatePayload` returns no error.
unfoldable pub validate_payload : Parsers → String → String → Bool
unfolding strategy_valid
validate_payload parsers type_name value =
    if str_eq type_name type_bool
    then str_eq value "true" || str_eq value "false"
    else if str_eq type_name type_number
    then parsers.parses_float value
    else if str_eq type_name type_strategy
    then elim (parsers.decode_strategy value) [ none ↦ false | some s ↦ strategy_valid s ]
    else if str_eq type_name type_json
    then parsers.json_valid value
    else str_eq type_name type_string
