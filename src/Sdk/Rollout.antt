-- ===== src/Sdk/Rollout.antt =====
-- The rules of a strategy.
use mizuflow.Base.{
  String, ◌≡◌, ◌≢◌, refl, sym, ap, ◌∙◌, ◌⊎◌, Bool, true, false, some, inl, inr, List, [], ◌∷◌, ◌++◌,
  arith, str_eq, eq_iff,
}
use mizuflow.Base.Int.{ℤ, pos, negsuc, ◌≤ℤ◌}
use mizuflow.Base.Dict.{Dict, lookup}
use mizuflow.Api.{FeatureFlag, FeatureStrategy, Rule, type_strategy}
use mizuflow.Features.Validate.{strategy_valid, rules_valid}
use mizuflow.Sdk.{
  MizuClient, Decoders, Evaluation, Match, matches, panics, value, panicked, below_threshold,
  match_operator, match_rule, after_match, first_match, evaluate_flag, evaluate,
}

module _ (decoders : Decoders) where
  below_rises :
      (a b : ℤ) (val : String)
      → a ≤ℤ b
      → below_threshold decoders (some a) val ≡ true
      → below_threshold decoders (some b) val ≡ true
  unfolding below_threshold
  below_rises (pos a) (pos b) val le h = ground arith
  below_rises (pos a) (negsuc b) val le h = ground arith
  below_rises (negsuc a) b val le h = absurd (ground arith)

  -- A gradual rollout only grows: a value that a `mod` rule matches is matched by every `mod` rule with the same or a
  -- larger threshold.
  pub match_operator_grows :
      (s t : String) (rest more : List String) (a b : ℤ) (val : String)
      → decoders.atoi s ≡ some a
      → decoders.atoi t ≡ some b
      → a ≤ℤ b
      → match_operator decoders "mod" (s ∷ rest) val ≡ matches true
      → match_operator decoders "mod" (t ∷ more) val ≡ matches true
  unfolding match_operator
  match_operator_grows s t rest more a b val sa tb le h = ap matches (
      ap (λ o. below_threshold decoders o val) tb
      ∙ below_rises a b val le (ap (λ o. below_threshold decoders o val) (sym sa) ∙ ap is_match h))
    where
      is_match : Match → Bool
      is_match (matches x) = x
      is_match panics = false

  -- No rule of the list matches.
  abbrev pub AllPass : List Rule → Dict String → Type 0
  AllPass [] context = Unit
  AllPass (rule ∷ rules) context =
      (match_rule decoders rule context ≡ matches false) × AllPass rules context

  passes :
      (before rules : List Rule) (d : String) (context : Dict String)
      → AllPass before context
      → first_match decoders (before ++ rules) d context ≡ first_match decoders rules d context
  unfolding first_match after_match
  passes [] rules d context h = refl
  passes (r ∷ before) rules d context h =
      ap (λ x. after_match x r.result (first_match decoders (before ++ rules) d context)) h.0
      ∙ passes before rules d context h.1

  evaluate-strategy :
      (c : MizuClient) (key : String) (context : Dict String) (f : FeatureFlag)
      (s : FeatureStrategy)
      → lookup key c.features ≡ some f
      → f.type_name ≡ type_strategy
      → decoders.decode_strategy f.value ≡ some s
      → evaluate decoders c key context ≡ first_match decoders s.rules s.default_value context
  unfolding evaluate evaluate_flag
  evaluate-strategy c key context f s here ty reads = rw (here, evaluate) (rw (ty, reads))

  pub evaluate_rules :
      (c : MizuClient) (key : String) (context : Dict String) (f : FeatureFlag) (d : String)
      → (before after : List Rule) (rule : Rule) → lookup key c.features ≡ some f
      → f.type_name ≡ type_strategy
      → decoders.decode_strategy f.value
        ≡ some (record { default_value = d; rules = before ++ rule ∷ after })
      → AllPass before context
      → (match_rule decoders rule context ≡ matches true
          → evaluate decoders c key context ≡ value rule.result)
        × (match_rule decoders rule context ≡ panics → evaluate decoders c key context ≡ panicked)
        × (match_rule decoders rule context ≡ matches false
            → AllPass after context
            → evaluate decoders c key context ≡ value d)
  unfolding first_match after_match
  evaluate_rules c key context f d before after rule here ty reads pass = (
    λ e. start ∙ ap (λ x. after_match x rule.result rest) e,
    λ e. start ∙ ap (λ x. after_match x rule.result rest) e,
    λ e all. start ∙ ap (λ x. after_match x rule.result rest) e ∙ none_left after all,
  )
    where
      rest : Evaluation
      rest = first_match decoders after d context

      start :
          evaluate decoders c key context
          ≡ after_match (match_rule decoders rule context) rule.result rest
      start =
          evaluate-strategy c key context f
            (record { default_value = d; rules = before ++ rule ∷ after }) here ty reads
          ∙ passes before (rule ∷ after) d context pass

      none_left :
          (rules : List Rule)
          → AllPass rules context
          → first_match decoders rules d context ≡ value d
      none_left [] h = refl
      none_left (r ∷ rules) h =
          ap (λ x. after_match x r.result (first_match decoders rules d context)) h.0
          ∙ none_left rules h.1

  no_value_panics :
      (operator val : String)
      → (operator ≡ "eq") ⊎ (operator ≡ "mod")
      → match_operator decoders operator [] val ≡ panics
  unfolding match_operator
  no_value_panics operator val (inl e) = rw e
  no_value_panics operator val (inr e) = rw e

  match_rule_lem :
      (rule : Rule) (context : Dict String) (val : String)
      → lookup rule.attribute context ≡ some val
      → match_rule decoders rule context ≡ match_operator decoders rule.operator rule.values val
  unfolding match_rule
  match_rule_lem rule context val has = rw (has, match_rule)

  is_not : (s : String) → s ≢ "" → str_eq s "" ≡ false
  is_not s ne = ground (arith, eq_iff s "")

  some_operator :
      (operator : String) → (operator ≡ "eq") ⊎ (operator ≡ "mod") → str_eq operator "" ≡ false
  some_operator operator (inl e) = rw e
  some_operator operator (inr e) = rw e

  -- A strategy that `validatePayload` accepts can make the client panic: one whose first rule is `eq` or `mod` without
  -- values does, for every context that has the rule's attribute.
  pub evaluate_panics :
      (c : MizuClient) (key val attribute operator result d : String) (rest : List Rule)
      (context : Dict String) (f : FeatureFlag)
      → (operator ≡ "eq") ⊎ (operator ≡ "mod")
      → attribute ≢ ""
      → d ≢ ""
      → rules_valid rest ≡ true
      → lookup key c.features ≡ some f
      → f.type_name ≡ type_strategy
      → decoders.decode_strategy f.value
        ≡ some (record {
          default_value = d;
          rules =
              record { attribute = attribute; operator = operator; values = []; result = result }
              ∷ rest;
        })
      → lookup attribute context ≡ some val
      → (strategy_valid (record {
        default_value = d;
        rules =
            record { attribute = attribute; operator = operator; values = []; result = result }
            ∷ rest;
      })
          ≡ true)
        × (evaluate decoders c key context ≡ panicked)
  unfolding strategy_valid rules_valid
  evaluate_panics c key val attribute operator result d rest context f op named some_d valid here ty
        reads has =
      (accepted, stops)
    where
      rule : Rule
      rule = record { attribute = attribute; operator = operator; values = []; result = result }

      accepted : strategy_valid (record { default_value = d; rules = rule ∷ rest }) ≡ true
      accepted = rw (is_not d some_d, is_not attribute named, some_operator operator op, valid)

      stops : evaluate decoders c key context ≡ panicked
      stops =
          (evaluate_rules c key context f d [] rest rule here ty reads _).1
            (match_rule_lem rule context val has ∙ no_value_panics operator val op)
