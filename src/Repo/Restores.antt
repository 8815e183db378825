-- ===== src/Repo/Restores.antt =====
-- internal/repository/feature.go, `Rollback`, which no service calls: what it restores.
use mizuflow.Base.{
  ℕ, String, ◌≡◌, refl, sym, ap, inl, inr, Bool-cases, Option-cases, Option, none, some, str_eq,
  eq_iff,
}
use mathlib.Core.Option.{some-injective, none-ne-some}
use mizuflow.Base.Int.{ℤ, pos, inc_ℤ}
use mizuflow.Db.{FeatureMaster, FeatureAudit}
use mizuflow.Repo.{
  Tables, restored, write_restored, restore_from, rollback, find_by_id, get_by_key, or_error,
}

-- The version that a restored record has.
abbrev version_after : Option FeatureMaster → ℤ
version_after none = pos 1
version_after (some master) = inc_ℤ master.version

module _ {D : Type 0} (db : Tables D) (namespace env key : String) where
  -- What is known of a master record that was restored: the audit record and the master that were read.
  pub record Restored (version : ℕ) (m : FeatureMaster) (d : D) : Type 0 where
    pub audit : FeatureAudit
    pub read : (find_by_id db version d).0 ≡ some (some audit)
    pub same_key : audit.key ≡ key
    pub found : Option FeatureMaster
    pub found_by : (get_by_key db namespace env key (find_by_id db version d).1).0 ≡ some found
    pub value : m.current_val ≡ audit.new_value
    pub type_name : m.type_name ≡ audit.type_name
    pub next : m.version ≡ version_after found

  -- The parts that `Rollback` sets.
  abbrev IsRestored : FeatureAudit → Option FeatureMaster → FeatureMaster → Type 0
  IsRestored audit found m =
      (m.current_val ≡ audit.new_value)
      × (m.type_name ≡ audit.type_name)
      × (m.version ≡ version_after found)

  restored-IsRestored :
      (audit : FeatureAudit) (found : Option FeatureMaster)
      → IsRestored audit found (restored namespace env key audit found)
  unfolding restored
  restored-IsRestored audit none = (refl, refl, refl)
  restored-IsRestored audit (some master) = (refl, refl, refl)

  write_restored-IsRestored :
      (audit : FeatureAudit) (found : Option FeatureMaster) (m : FeatureMaster) (d : D)
      → (write_restored db namespace env key audit found d).0 ≡ some m
      → IsRestored audit found m
  unfolding write_restored
  write_restored-IsRestored audit found m d h =
      elim (Bool-cases (db.masters.save (restored namespace env key audit found) d).0) [
        | inl ok ↦ rw (sym (some-injective _ _ (rw ok at h))) (restored-IsRestored audit found)
        | inr bad ↦ absurd (none-ne-some m (rw bad at h))
      ]

  or_error_inv :
      {A : Type 0} (r : Option (Option A)) (a : A) → or_error r ≡ some a → r ≡ some (some a)
  or_error_inv none a h = absurd (cc)
  or_error_inv (some o) a h = ap some h

  read_audit :
      (version : ℕ) (m : FeatureMaster) (d : D) (audit : FeatureAudit)
      → (find_by_id db version d).0 ≡ some (some audit)
      → (restore_from db namespace env key audit (find_by_id db version d).1).0 ≡ some m
      → Restored version m d
  unfolding restore_from
  read_audit version m d audit read h = elim (Bool-cases (str_eq audit.key key)) [
    | inr other ↦ absurd (none-ne-some m (rw other at h))
    | inl same ↦
        elim (Option-cases (get_by_key db namespace env key (find_by_id db version d).1).0) [
          | inl failed ↦ absurd (none-ne-some m (rw (same, failed) at h))
          | inr (found, back) ↦
              let (value, type_name, next) =
                write_restored-IsRestored audit found m
                  (get_by_key db namespace env key (find_by_id db version d).1).1
                  (rw (same, back) at h) in
              record {
                audit = audit;
                read = read;
                same_key = (eq_iff audit.key key).0 same;
                found = found;
                found_by = back;
                value = value;
                type_name = type_name;
                next = next;
              }
        ]
  ]

  -- A rollback of the repository that returns a master record has read the audit record of the number and the
  -- current master; it asks for the key alone, and takes the audit record's new value, its type, and the version after
  -- the one found.
  pub rollback-Restored :
      (version : ℕ) (m : FeatureMaster) (d : D)
      → (rollback db namespace env key version d).0 ≡ some m
      → Restored version m d
  unfolding rollback restore_from
  rollback-Restored version m d h = elim (Option-cases (or_error (find_by_id db version d).0)) [
    | inl missing ↦ absurd (none-ne-some m (rw (missing, rollback) at h))
    | inr (audit, read) ↦
        read_audit version m d audit (or_error_inv _ audit read) (rw (read, rollback) at h)
  ]
