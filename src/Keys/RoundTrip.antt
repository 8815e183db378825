-- ===== src/Keys/RoundTrip.antt =====
-- internal/service/feature.go: the parser of `Run` on the keys of `BuildFeatureKey`.
use Prim.Native.String.{◌++◌, count}
use text.Mathlib.TextLemmas.{nil-append, cons-append, append_assoc, length-append}
use native.Mathlib.Omega.{arith}
use mizuflow.Base.{String, ◌≡◌, ◌≢◌, ◌∷◌, ap, ◌∙◌}
use mizuflow.Base.Text.{split, Lacks, split_sep, split-append, split_last}
use mizuflow.Keys.{build_feature_key, parse_feature_key}

slash : (t : String) → "/" ++ t ≡ String.◌∷◌ "/" t
slash t = cons-append "/" "" t ∙ ap (String.◌∷◌ "/") (nil-append t)

between_slashes :
    (word t : String) → ("/" ++ (word ++ "/")) ++ t ≡ String.◌∷◌ "/" (word ++ String.◌∷◌ "/" t)
between_slashes word t =
    append_assoc "/" (word ++ "/") t
    ∙ slash ((word ++ "/") ++ t)
    ∙ ap (String.◌∷◌ "/") (append_assoc word "/" t ∙ ap (λ r. word ++ r) (slash t))

mizuflow-Lacks : Lacks "/" "mizuflow"
mizuflow-Lacks = ground arith

features-Lacks : Lacks "/" "features"
features-Lacks = ground arith

split-build_feature_key :
    (env namespace key : String)
    → Lacks "/" env
    → Lacks "/" namespace
    → split "/" (build_feature_key env namespace key)
      ≡ "" ∷ "mizuflow" ∷ env ∷ namespace ∷ "features" ∷ split "/" key
unfolding build_feature_key
split-build_feature_key env namespace key he hn = rw (
  between_slashes "mizuflow" (env ++ ("/" ++ (namespace ++ ("/features/" ++ key)))),
  slash (namespace ++ ("/features/" ++ key)),
  between_slashes "features" key,
  split_sep,
  split-append "/" "mizuflow"
      (env ++ String.◌∷◌ "/" (namespace ++ String.◌∷◌ "/" ("features" ++ String.◌∷◌ "/" key)))
      mizuflow-Lacks,
  split-append "/" env (namespace ++ String.◌∷◌ "/" ("features" ++ String.◌∷◌ "/" key)) he,
  split-append "/" namespace ("features" ++ String.◌∷◌ "/" key) hn,
  split-append "/" "features" key features-Lacks,
)

-- For an environment and a namespace without a slash, the parser returns both, and of the key what stands
-- before its first slash: all of it, where it has none.
pub parse-build_feature_key :
    (env namespace key rest : String)
    → Lacks "/" env
    → Lacks "/" namespace
    → Lacks "/" key
    → (parse_feature_key (build_feature_key env namespace key)
        ≡ record { env = env; namespace = namespace; key = key })
      × (parse_feature_key (build_feature_key env namespace (key ++ ("/" ++ rest)))
          ≡ record { env = env; namespace = namespace; key = key })
unfolding parse_feature_key
parse-build_feature_key env namespace key rest he hn hk = (
  rw (split-build_feature_key env namespace key he hn, split_last "/" key hk),
  rw (
    split-build_feature_key env namespace (key ++ ("/" ++ rest)) he hn,
    slash rest,
    split-append "/" key rest hk,
  ),
)

-- An etcd key is never the key of the feature that it stands for: it is longer.
pub build_feature_key-ne : (env namespace key : String) → build_feature_key env namespace key ≢ key
unfolding build_feature_key
build_feature_key-ne env namespace key e = absurd (
    omega (
      arith,
      ap count e,
      length-append "/mizuflow/" (env ++ ("/" ++ (namespace ++ ("/features/" ++ key)))),
      length-append env ("/" ++ (namespace ++ ("/features/" ++ key))),
      length-append "/" (namespace ++ ("/features/" ++ key)),
      length-append namespace ("/features/" ++ key),
      length-append "/features/" key,
    ))
