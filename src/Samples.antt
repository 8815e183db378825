-- ===== src/Samples.antt =====
-- Inputs that the tests of several parts share: two versions of one flag, and an etcd that holds the first.
pub mod Rows
pub mod Task
use mizuflow.Base.{
  String, ◌≡◌, refl, sym, Option, none, some, inl, inr, Bool-cases, [], ◌∷◌, str_eq, arith,
  if◌then◌else◌,
}
use mathlib.Core.Option.{some-injective}
use mizuflow.Base.Int.{ℤ, pos, leb_ℤ}
use mizuflow.Api.{FeatureFlag, type_bool}
use mizuflow.Json.{Json, RoundTrips}
use mizuflow.Etcd.{KeyValue}
use mizuflow.Etcd.Laws.{AtLeast}
use mizuflow.Etcd.Store.{EtcdStore}

abbrev pub flag_at : ℤ → String → FeatureFlag
flag_at version value = record {
  namespace = "shop";
  env = "prod";
  key = "dark";
  value = value;
  version = version;
  revision = pos 0;
  type_name = type_bool;
}

abbrev pub old_flag : FeatureFlag
old_flag = flag_at (pos 1) "false"

abbrev pub new_flag : FeatureFlag
new_flag = flag_at (pos 2) "true"

abbrev pub two_decode : String → Option FeatureFlag
two_decode s =
    if str_eq s "old" then some old_flag else if str_eq s "new" then some new_flag else none

-- A codec for the two flags.
abbrev pub two_json : Json
two_json = record {
  decode = two_decode;
  encode = λ f. if leb_ℤ f.version (pos 1) then "old" else "new";
}

pub two_json-stable :
    (s : String) (f : FeatureFlag) → two_json.decode s ≡ some f → RoundTrips two_json f
two_json-stable s f h = elim (Bool-cases (str_eq s "old")) [
  | inl t ↦ subst_flag old_flag f (some-injective _ _ (rw t at h)) refl
  | inr t ↦ elim (Bool-cases (str_eq s "new")) [
    | inl u ↦ subst_flag new_flag f (some-injective _ _ (rw u at (rw t at h))) refl
    | inr u ↦ absurd (cc)
  ]
]
  where
    subst_flag : (g f : FeatureFlag) → g ≡ f → RoundTrips two_json g → RoundTrips two_json f
    subst_flag g f e r = rw (sym e) r

abbrev pub dark_key : String
dark_key = "/mizuflow/prod/shop/features/dark"

abbrev pub old_entry : KeyValue
old_entry = record { key = dark_key; value = "old"; mod_revision = pos 5 }

abbrev pub etcd_old : EtcdStore
etcd_old = record { entries = (dark_key, old_entry) ∷ []; next = 6 }

pub etcd_old-AtLeast : AtLeast two_json (pos 1) (some old_entry)
etcd_old-AtLeast = record {
  kv = old_entry;
  flag = old_flag;
  entry = refl;
  reads = refl;
  version = omega arith;
}
