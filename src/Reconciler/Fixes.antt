-- ===== src/Reconciler/Fixes.antt =====
-- What `checkOne` repairs, and what it does not.
use mizuflow.Base.{String, true, ◌≡◌, none, some, inl, inr, Bool-cases, arith}
use mizuflow.Base.Int.{ℤ, pos, ◌<ℤ◌, ltb_ℤ}
use mizuflow.Api.{FeatureFlag}
use mizuflow.Json.{Json, RoundTrips}
use mizuflow.Etcd.{KeyValue, EtcdClient, Result, ok, err, get_feature, save_feature_if_newer}
use mizuflow.Etcd.Laws.{AtLeast, EtcdLaws}
use mizuflow.Etcd.Keeps.{save_feature_if_newer_keeps}
use mizuflow.Etcd.Publishes.{save_feature_if_newer_publishes}
use mizuflow.Db.{FeatureMaster, FeatureInterface}
use mizuflow.Reconciler.{master_flag, master_key, fix_if_older, check_one}

module _ {E D : Type 0} (client : EtcdClient E) (json : Json) (features : FeatureInterface D) where
  -- A feature that etcd does not hold is not repaired: `checkOne` makes its one read and writes nothing.
  pub check_one-missing :
      (m : FeatureMaster) (e : E)
      → (client.get (master_key m) e).0 ≡ some none
      → check_one client json features m e ≡ (client.get (master_key m) e).1
  unfolding check_one get_feature fix_if_older
  check_one-missing m e missing = rw (missing, get_feature)

state-get_feature :
    {E : Type 0} (client : EtcdClient E) (json : Json) (key : String) (e : E)
    → (get_feature client json key e).1 ≡ (client.get key e).1
unfolding get_feature
state-get_feature client json key e = ground arith

module _ {E D : Type 0} {client : EtcdClient E} {json : Json} (laws : EtcdLaws client json)
    (features : FeatureInterface D) (m : FeatureMaster) (rt : RoundTrips json (master_flag m)) where
  open laws use {entry, get_keeps}

  -- A row with a positive version whose key etcd holds is repaired, whatever version etcd has there: unless
  -- `SaveFeatureIfNewer` returns an error, etcd then holds the row's flag or a later version.
  pub check_one-fixes :
      (e : E) (kv : KeyValue) (rev : ℤ)
      → (client.get (master_key m) e).0 ≡ some (some kv)
      → pos 0 <ℤ m.version
      → (save_feature_if_newer client json
          (master_key m)
          (master_flag m)
          (client.get (master_key m) e).1).0
        ≡ ok rev
      → AtLeast json m.version (entry (check_one client json features m e) (master_key m))
  unfolding check_one get_feature fix_if_older
  check_one-fixes e kv rev here positive saved =
      rw (here, get_feature)
        (rw (is_older) (
          save_feature_if_newer_publishes laws (master_key m) rt rev (client.get (master_key m) e).1
            saved))
    where
      is_older : ltb_ℤ (pos 0) m.version ≡ true
      is_older = ground arith

  fix_keeps :
      (r : Result FeatureFlag) (e : E) (j : String) (v : ℤ)
      → AtLeast json v (entry e j)
      → AtLeast json v (entry (fix_if_older client json features m r e) j)
  unfolding fix_if_older
  fix_keeps (err _) e j v h = h
  fix_keeps (ok flag) e j v h = elim (Bool-cases (ltb_ℤ flag.version m.version)) [
    | inl t ↦ rw t (save_feature_if_newer_keeps laws (master_key m) rt e j v h)
    | inr t ↦ rw t h
  ]

  -- `checkOne` takes no stored flag back to an earlier version.
  pub check_one_keeps :
      (e : E) (j : String) (v : ℤ)
      → AtLeast json v (entry e j)
      → AtLeast json v (entry (check_one client json features m e) j)
  unfolding check_one
  check_one_keeps e j v h =
      fix_keeps (get_feature client json (master_key m) e).0
        (get_feature client json (master_key m) e).1 j v
        (rw (state-get_feature client json (master_key m) e) (get_keeps (master_key m) e j v h))
