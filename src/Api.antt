-- ===== src/Api.antt =====
-- pkg/api/v1/feature.go and pkg/constraints/protocol.go: the data that the parts exchange.
use mizuflow.Base.{ℕ, String, List}
use mizuflow.Base.Int.{ℤ, pos}

-- `type FeatureFlag struct`
pub record FeatureFlag : Type 0 where
  pub namespace : String
  pub env : String
  pub key : String
  pub value : String
  pub version : ℤ
  pub revision : ℤ
  pub type_name : String

-- `type Rule struct`
pub record Rule : Type 0 where
  pub attribute : String
  pub operator : String
  pub values : List String
  pub result : String

-- `type FeatureStrategy struct`
pub record FeatureStrategy : Type 0 where
  pub default_value : String
  pub rules : List Rule

-- `type Action int32`: DELETE is 0 and PUT is 1; a decoded message may hold any other number.
pub data Action : Type 0 where
  delete put : Action
  other : ℕ → Action

-- `type Message struct`
pub record Message : Type 0 where
  pub namespace : String
  pub env : String
  pub key : String
  pub value : String
  pub type_name : String
  pub version : ℤ
  pub revision : ℤ
  pub action : Action
  pub updated_at : ℤ

abbrev pub type_bool : String
type_bool = "bool"

abbrev pub type_string : String
type_string = "string"

abbrev pub type_json : String
type_json = "json"

abbrev pub type_strategy : String
type_strategy = "strategy"

abbrev pub type_number : String
type_number = "number"

-- The zero value of `Message`.
abbrev pub zero_message : Message
zero_message = record {
  namespace = "";
  env = "";
  key = "";
  value = "";
  type_name = "";
  version = pos 0;
  revision = pos 0;
  action = delete;
  updated_at = pos 0;
}
