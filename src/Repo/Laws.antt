-- ===== src/Repo/Laws.antt =====
-- What the repositories rely on of gorm and MySQL, for the statements that read.
use mizuflow.Base.{
  ℕ, String, Bool, true, false, ◌&&◌, ◌==◌, ◌≡◌, ◌⊎◌, str_eq, if◌then◌else◌, none, some, List, [],
  ◌∷◌,
}
use mizuflow.Db.{FeatureMaster, FeatureAudit}
use mizuflow.Repo.{SdkClient, Where, text_is, like, number_is, Orm}

-- How MySQL compares texts, which depends on the collation, and reads a pattern.
pub record Collation : Type 0 where
  pub same : String → String → Bool
  pub is_like : String → String → Bool

abbrev pub Occurs : {A : Type 0} → A → List A → Type 0
Occurs x [] = ⊥
Occurs x (y ∷ ys) = (y ≡ x) ⊎ Occurs x ys

-- The columns of a table, a text or a number by its name.
pub record Columns (A : Type 0) : Type 0 where
  pub text : A → String → String
  pub number : A → String → ℕ

module _ {A : Type 0} (collation : Collation) (columns : Columns A) where
  unfoldable pub meets : A → Where → Bool
  meets x (text_is column s) = collation.same (columns.text x column) s
  meets x (like column s) = collation.is_like (columns.text x column) s
  meets x (number_is column n) = columns.number x column == n

  unfoldable pub meets_all : A → List Where → Bool
  unfolding meets
  meets_all x [] = true
  meets_all x (w ∷ ws) = meets x w && meets_all x ws

  -- A query without a page gives the rows that meet its conditions, and `First` one of them where there is one.
  pub record Reads {D : Type 0} (orm : Orm D A) : Type 0 where
    pub rows : D → List A
    pub find_gives :
        (wheres : List Where) (order : String) (d : D) (found : List A)
        → (orm.find (record { wheres = wheres; order = order; offset = none; limit = none }) d).0
          ≡ some found
        → (x : A) → Occurs x found
        → Occurs x (rows d) × (meets_all x wheres ≡ true)
    pub find_gives_all :
        (wheres : List Where) (order : String) (d : D) (found : List A)
        → (orm.find (record { wheres = wheres; order = order; offset = none; limit = none }) d).0
          ≡ some found
        → (x : A) → Occurs x (rows d)
        → meets_all x wheres ≡ true
        → Occurs x found
    pub first_gives :
        (wheres : List Where) (order : String) (d : D) (x : A)
        → (orm.first (record { wheres = wheres; order = order; offset = none; limit = none }) d).0
          ≡ some (some x)
        → Occurs x (rows d) × (meets_all x wheres ≡ true)
    pub first_misses :
        (wheres : List Where) (order : String) (d : D)
        → (orm.first (record { wheres = wheres; order = order; offset = none; limit = none }) d).0
          ≡ some none
        → (x : A) → Occurs x (rows d)
        → meets_all x wheres ≡ false

abbrev pub master_columns : Columns FeatureMaster
master_columns = record {
  text = λ m column.
      if str_eq column "namespace"
      then m.namespace
      else if str_eq column "env"
      then m.env
      else if str_eq column "key"
      then m.key
      else m.current_val;
  number = λ m column. m.id;
}

abbrev pub client_columns : Columns SdkClient
client_columns = record {
  text = λ c column.
      if str_eq column "api_key"
      then c.api_key
      else if str_eq column "env"
      then c.env
      else c.app_id;
  number = λ c column. if str_eq column "status" then c.status else c.id;
}

abbrev pub audit_columns : Columns FeatureAudit
audit_columns = record {
  text = λ a column.
      if str_eq column "namespace"
      then a.namespace
      else if str_eq column "env"
      then a.env
      else a.key;
  number = λ a column. a.id;
}
