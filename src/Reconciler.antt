-- ===== src/Reconciler.antt =====
-- internal/service/reconciler.go: every feature of the database is compared with etcd.
pub mod Fixes
pub mod Ends
pub mod Run
pub mod Keeps
pub mod Runs
pub mod Repairs
mod Tests
use mizuflow.Base.{
  ℕ, zero, suc, ◌+◌, String, Option, none, some, List, [], ◌∷◌, ◌==◌, if◌then◌else◌,
}
use mizuflow.Base.Int.{ℤ, pos, negsuc, ltb_ℤ}
use mizuflow.Api.{FeatureFlag}
use mizuflow.Json.{Json}
use mizuflow.Keys.{build_feature_key}
use mizuflow.Etcd.{EtcdClient, Result, ok, err, get_feature, save_feature_if_newer}
use mizuflow.Db.{FeatureMaster, FeatureInterface}
use mizuflow.Outbox.{World}

-- `if cfg.BatchSize <= 0 { cfg.BatchSize = 100 }`
unfoldable pub batch_size_or_default : ℤ → ℕ
batch_size_or_default (pos n) = if n == 0 then 100 else n
batch_size_or_default (negsuc n) = 100

-- The flag that the reconciler builds of a row: its revision is 0.
abbrev pub master_flag : FeatureMaster → FeatureFlag
master_flag m = record {
  namespace = m.namespace;
  env = m.env;
  key = m.key;
  value = m.current_val;
  version = m.version;
  revision = pos 0;
  type_name = m.type_name;
}

abbrev pub master_key : FeatureMaster → String
master_key m = build_feature_key m.env m.namespace m.key

module _ {E D : Type 0} (client : EtcdClient E) (json : Json) (features : FeatureInterface D) where
  -- `checkOne` after `GetFeature`. That method never returns a nil flag without an error.
  unfoldable pub fix_if_older : FeatureMaster → Result FeatureFlag → E → E
  fix_if_older m (err _) e = e
  fix_if_older m (ok etcd_flag) e =
      if ltb_ℤ etcd_flag.version m.version
      then (save_feature_if_newer client json (master_key m) (master_flag m) e).1
      else e

  unfoldable pub check_one : FeatureMaster → E → E
  unfolding fix_if_older
  check_one m e = let (r, e') = get_feature client json (master_key m) e in fix_if_older m r e'

  unfoldable pub check_all : List FeatureMaster → E → E
  unfolding check_one
  check_all [] e = e
  check_all (m ∷ ms) e = check_all ms (check_one m e)

  -- The loop of `reconcile` over the pages; it runs until a page is empty or cannot be read. `none` means that
  -- the fuel ran out first.
  unfoldable pub reconcile_from : ℕ → ℕ → ℕ → World E D → Option (World E D)
  unfolding check_all
  reconcile_from zero batch_size offset w = none
  reconcile_from (suc fuel) batch_size offset w =
      let (r, d) = features.list_by_page offset batch_size w.db in
      elim r [
        | none ↦ some (record { etcd = w.etcd; db = d })
        | some [] ↦ some (record { etcd = w.etcd; db = d })
        | some (m ∷ ms) ↦
            reconcile_from fuel batch_size (offset + batch_size)
              (record { etcd = check_all (m ∷ ms) w.etcd; db = d })
      ]
