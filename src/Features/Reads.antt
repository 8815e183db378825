-- ===== src/Features/Reads.antt =====
-- internal/service/feature.go: `GetFeature`, `ListFeatures` and `GetFeatureAudits`, and their responses of
-- internal/dto/resp/feature.go.
use mizuflow.Base.{ℕ, String, Option, none, some, List, map}
use mizuflow.Base.Int.{ℤ}
use mizuflow.Db.{FeatureMaster, FeatureAudit, FeatureInterface}

pub record FeatureItem : Type 0 where
  pub id : ℕ
  pub namespace : String
  pub env : String
  pub key : String
  pub type_name : String
  pub version : ℤ
  pub value : String
  pub updated_at : ℤ
  pub updated_by : String

pub record AuditLogItem : Type 0 where
  pub id : ℕ
  pub namespace : String
  pub env : String
  pub key : String
  pub old_value : String
  pub new_value : String
  pub type_name : String
  pub operator : String
  pub created_at : ℤ

abbrev pub item_of : FeatureMaster → FeatureItem
item_of m = record {
  id = m.id;
  namespace = m.namespace;
  env = m.env;
  key = m.key;
  type_name = m.type_name;
  version = m.version;
  value = m.current_val;
  updated_at = m.updated_at;
  updated_by = m.updated_by;
}

abbrev pub audit_item_of : FeatureAudit → AuditLogItem
audit_item_of a = record {
  id = a.id;
  namespace = a.namespace;
  env = a.env;
  key = a.key;
  old_value = a.old_value;
  new_value = a.new_value;
  type_name = a.type_name;
  operator = a.operator;
  created_at = a.created_at;
}

-- What `GetFeature` returns: the item, or one of its two errors.
pub data ItemResult : Type 0 where
  found : FeatureItem → ItemResult
  not_found item_failed : ItemResult

abbrev pub item_result : Option (Option FeatureMaster) → ItemResult
item_result none = item_failed
item_result (some none) = not_found
item_result (some (some m)) = found (item_of m)

unfoldable pub get_feature_item :
    {D : Type 0} → FeatureInterface D → String → String → String → D → ItemResult × D
get_feature_item features namespace env key d =
    let (r, d') = features.get_by_key namespace env key d in (item_result r, d')

-- Of the rows that the repository gives; `none` is an error.
unfoldable pub list_features : Option (List FeatureMaster) → Option (List FeatureItem)
list_features none = none
list_features (some masters) = some (map item_of masters)

unfoldable pub get_feature_audits : Option (List FeatureAudit) → Option (List AuditLogItem)
get_feature_audits none = none
get_feature_audits (some audits) = some (map audit_item_of audits)
