-- ===== src/Keys.antt =====
-- internal/service/feature.go: the etcd keys, `BuildFeatureKey` and the parser of `Run`.
pub mod RoundTrip
mod Tests
use Prim.Native.String.{◌++◌}
use mizuflow.Base.{String, List, [], ◌∷◌}
use mizuflow.Base.Text.{split}

abbrev pub feature_root_prefix : String
feature_root_prefix = "/mizuflow/"

-- `fmt.Sprintf("%s%s/%s/features/%s", FeatureRootPrefix, env, namespace, key)`
unfoldable pub build_feature_key : String → String → String → String
build_feature_key env namespace key =
    feature_root_prefix ++ (env ++ ("/" ++ (namespace ++ ("/features/" ++ key))))

-- The names that a key stands for.
pub record KeyParts : Type 0 where
  pub env : String
  pub namespace : String
  pub key : String

-- `if len(parts) >= 6 { env = parts[2]; ns = parts[3]; key = parts[5] } else { key = full }`
abbrev pub pick_parts : String → List String → KeyParts
pick_parts full (_ ∷ _ ∷ env ∷ namespace ∷ _ ∷ key ∷ _) = record {
  env = env;
  namespace = namespace;
  key = key;
}
pick_parts full _ = record { env = ""; namespace = ""; key = full }

-- What `Run` reads from the key of a delete event.
unfoldable pub parse_feature_key : String → KeyParts
parse_feature_key full = pick_parts full (split "/" full)
