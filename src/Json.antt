-- ===== src/Json.antt =====
-- What the program uses of Go's `encoding/json`: flags are written and read back.
use mizuflow.Base.{String, ◌≡◌, Option, some}
use mizuflow.Api.{FeatureFlag}

-- `json.Unmarshal` into a zero `FeatureFlag`, where `none` is its error, and `json.Marshal`, which does not
-- fail on a struct of strings and integers.
pub record Json : Type 0 where
  pub decode : String → Option FeatureFlag
  pub encode : FeatureFlag → String

-- What is written of the flag reads as the flag.
abbrev pub RoundTrips : Json → FeatureFlag → Type 0
RoundTrips json f = json.decode (json.encode f) ≡ some f
