-- ===== src/Etcd/Tests.antt =====
-- `SaveFeatureIfNewer` on an etcd that holds the first version of a flag.
use mizuflow.Base.{◌≡◌, refl}
use mizuflow.Base.Int.{pos}
use mizuflow.Base.Dict.{lookup}
use mizuflow.Etcd.{save_feature_if_newer, save_round, ok}
use mizuflow.Etcd.Laws.{AtLeast}
use mizuflow.Etcd.Store.{store, store_laws}
use mizuflow.Etcd.Keeps.{save_feature_if_newer_keeps}
use mizuflow.Etcd.Publishes.{save_feature_if_newer_publishes}
use mizuflow.Samples.{two_json, new_flag, old_flag, dark_key, etcd_old, etcd_old-AtLeast}

saves_new : (save_feature_if_newer store two_json dark_key new_flag etcd_old).0 ≡ ok (pos 6)
unfolding save_feature_if_newer store lookup save_round
saves_new = refl

refuses_old :
    save_feature_if_newer store two_json dark_key old_flag etcd_old ≡ (ok (pos 5), etcd_old)
unfolding save_feature_if_newer store lookup save_round
refuses_old = refl

save_feature_if_newer_keeps_example :
    AtLeast two_json
      (pos 1)
      (lookup dark_key (save_feature_if_newer store two_json dark_key new_flag etcd_old).1.entries)
unfolding lookup store_laws
save_feature_if_newer_keeps_example =
    save_feature_if_newer_keeps (store_laws two_json) dark_key refl etcd_old dark_key (pos 1)
      etcd_old-AtLeast

save_feature_if_newer_publishes_example :
    AtLeast two_json
      (pos 2)
      (lookup dark_key (save_feature_if_newer store two_json dark_key new_flag etcd_old).1.entries)
unfolding lookup store_laws
save_feature_if_newer_publishes_example =
    save_feature_if_newer_publishes (store_laws two_json) dark_key refl (pos 6) etcd_old saves_new
