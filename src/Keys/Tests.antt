-- ===== src/Keys/Tests.antt =====
-- Keys of etcd, with and without a slash in the feature's name.
use Prim.Native.String.{◌++◌}
use mizuflow.Base.{◌≡◌, refl, arith}
use mizuflow.Base.Text.{split}
use mizuflow.Keys.{build_feature_key, parse_feature_key}
use mizuflow.Keys.RoundTrip.{parse-build_feature_key}

builds : build_feature_key "prod" "shop" "dark" ≡ "/mizuflow/prod/shop/features/dark"
unfolding build_feature_key
builds = refl

other_key : parse_feature_key "dark" ≡ record { env = ""; namespace = ""; key = "dark" }
unfolding parse_feature_key split
other_key = refl

parse-build_feature_key_example :
    (parse_feature_key (build_feature_key "prod" "shop" "dark")
      ≡ record { env = "prod"; namespace = "shop"; key = "dark" })
    × (parse_feature_key (build_feature_key "prod" "shop" ("dark" ++ ("/" ++ "mode")))
        ≡ record { env = "prod"; namespace = "shop"; key = "dark" })
parse-build_feature_key_example =
    parse-build_feature_key "prod" "shop" "dark" "mode" (ground arith) (ground arith) (ground arith)
