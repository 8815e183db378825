-- ===== src/Sdk/Typed.antt =====
-- client/client.go and internal/service/feature.go: what a getter gives of a value that the server accepted.
use mizuflow.Base.{
  String, ◌≡◌, ◌≢◌, ◌||◌, refl, sym, ap, ◌∙◌, true, false, Option, none, some, inl, inr, ◌⊎◌,
  Bool-cases, Option-cases, str_eq, eq_iff,
}
use mizuflow.Base.Dict.{Dict, lookup}
use mizuflow.Api.{FeatureFlag, type_bool, type_number, type_strategy}
use mizuflow.Features.Validate.{Parsers, validate_payload}
use mizuflow.Sdk.{MizuClient, Decoders, value, evaluate, evaluate_flag, is_enabled, get_number}

module _ (decoders : Decoders) (parsers : Parsers) (c : MizuClient) (key : String)
    (context : Dict String) (f : FeatureFlag) where
  evaluate-plain :
      lookup key c.features ≡ some f
      → str_eq f.type_name type_strategy ≡ false
      → evaluate decoders c key context ≡ value f.value
  unfolding evaluate evaluate_flag
  evaluate-plain h plain = rw (evaluate, h, evaluate_flag, plain) refl

  -- Of a flag of type number that `validatePayload` accepts, `GetNumber` gives the number that the value reads as, and
  -- never the default, where both read numbers in the same way.
  pub get_number-typed :
      {N : Type 0} (parse_float : String → Option N) (default_value : N)
      → ((s : String) → parsers.parses_float s ≡ true → parse_float s ≢ none)
      → lookup key c.features ≡ some f
      → f.type_name ≡ type_number
      → validate_payload parsers f.type_name f.value ≡ true
      → get_number decoders parse_float c key default_value context ≡ parse_float f.value
  unfolding get_number validate_payload
  get_number-typed parse_float default_value same h number valid =
      let parses : parsers.parses_float f.value ≡ true =
        sym (ap (λ n. validate_payload parsers n f.value) number) ∙ valid in
      let plain : str_eq f.type_name type_strategy ≡ false =
        ap (λ n. str_eq n type_strategy) number in
      elim (Option-cases (parse_float f.value)) [
        | inl none_read ↦ absurd (same f.value parses none_read)
        | inr (n, reads) ↦ rw (evaluate-plain h plain, get_number, reads) refl
      ]

  -- Of a flag of type bool that `validatePayload` accepts, `IsEnabled` gives whether the value is `true`, and otherwise
  -- the value is `false`.
  pub is_enabled-typed :
      lookup key c.features ≡ some f
      → f.type_name ≡ type_bool
      → validate_payload parsers f.type_name f.value ≡ true
      → ((f.value ≡ "true") × (is_enabled decoders c key context ≡ some true))
        ⊎ ((f.value ≡ "false") × (is_enabled decoders c key context ≡ some false))
  unfolding is_enabled validate_payload
  is_enabled-typed h boolean valid =
      let either : (str_eq f.value "true" || str_eq f.value "false") ≡ true =
        sym (ap (λ n. validate_payload parsers n f.value) boolean) ∙ valid in
      let plain : str_eq f.type_name type_strategy ≡ false =
        ap (λ n. str_eq n type_strategy) boolean in
      elim (Bool-cases (str_eq f.value "true")) [
        | inl is_true ↦ inl (
          (eq_iff f.value "true").0 is_true,
          rw (is_enabled, evaluate-plain h plain, is_true) refl,
        )
        | inr not_true ↦
            let is_false = (eq_iff f.value "false").0 (rw not_true at either) in
            inr (is_false, rw (is_enabled, evaluate-plain h plain, is_false) refl)
      ]
