-- ===== src/Cache.antt =====
-- internal/service/cache.go: the snapshot of all features. The mutex makes each method one step.
use mizuflow.Base.{String, List, [], ◌∷◌, if◌then◌else◌}
use mizuflow.Base.Int.{ℤ, pos, ltb_ℤ}
use mizuflow.Base.Dict.{Dict, insert, delete}
use mizuflow.Api.{FeatureFlag}

pub record FeatureCache : Type 0 where
  pub entries : Dict FeatureFlag
  pub revision : ℤ

abbrev pub new_feature_cache : FeatureCache
new_feature_cache = record { entries = []; revision = pos 0 }

unfoldable pub update : FeatureCache → FeatureFlag → FeatureCache
update c f = record {
  entries = insert f.key f c.entries;
  revision = if ltb_ℤ c.revision f.revision then f.revision else c.revision;
}

unfoldable pub remove : FeatureCache → String → ℤ → FeatureCache
remove c key rev = record {
  entries = delete key c.entries;
  revision = if ltb_ℤ c.revision rev then rev else c.revision;
}

abbrev flags : Dict FeatureFlag → List FeatureFlag
flags [] = []
flags ((_, f) ∷ m) = f ∷ flags m

-- The values in the order of the map's iteration, which Go leaves open.
unfoldable pub get_snapshot : FeatureCache → List FeatureFlag × ℤ
get_snapshot c = (flags c.entries, c.revision)
