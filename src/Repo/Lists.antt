-- ===== src/Repo/Lists.antt =====
-- internal/repository/feature.go, `List`: the rows that a search finds.
use Prim.Native.String.{◌++◌}
use mizuflow.Base.{String, ◌≡◌, sym, ◌∙◌, Bool, true, ◌&&◌, ◌||◌, ◌↔◌, some, List, str_eq, arith}
use mizuflow.Db.{FeatureMaster}
use mizuflow.Repo.{Where, Tables, list_wheres, and_where, list_masters}
use mizuflow.Repo.Laws.{Collation, Occurs, Reads, meets, meets_all, master_columns}

-- Whether a row is one of those that the filters ask for; an empty filter asks for nothing.
abbrev pub is_listed : Collation → String → String → String → FeatureMaster → Bool
is_listed collation namespace env search m =
    (str_eq namespace "" || collation.same m.namespace namespace)
    && (str_eq env "" || collation.same m.env env)
    && (str_eq search "" || collation.is_like m.key ("%" ++ (search ++ "%")))

module _ {D : Type 0} (collation : Collation) (db : Tables D)
    (laws : Reads collation master_columns db.masters) where
  meets-and_where :
      (m : FeatureMaster) (filter : String) (w : Where) (ws : List Where)
      → meets_all collation master_columns m (and_where filter w ws) ≡ (
          (str_eq filter "" || meets collation master_columns m w)
          && meets_all collation master_columns m ws)
  unfolding and_where meets_all
  meets-and_where m filter w ws = ground arith

  meets-list_wheres :
      (m : FeatureMaster) (namespace env search : String)
      → meets_all collation master_columns m (list_wheres namespace env search)
        ≡ is_listed collation namespace env search m
  unfolding list_wheres meets_all meets
  meets-list_wheres m namespace env search = ground (arith)

  -- Where a read gives the rows of the table that meet its conditions: a search that succeeds finds every row
  -- with the namespace and the environment that it names and a key that is like its text, and no other; what it
  -- leaves empty does not count.
  pub list_masters_found :
      (namespace env search : String) (d : D) (found : List FeatureMaster) (m : FeatureMaster)
      → (list_masters db namespace env search d).0 ≡ some found
      → Occurs m found
        ↔ (Occurs m (laws.rows d) × (is_listed collation namespace env search m ≡ true))
  unfolding list_masters
  list_masters_found namespace env search d found m h =
      let wheres = list_wheres namespace env search in
      let same = meets-list_wheres m namespace env search in
      (
        λ occurs.
            let (row, meets_it) = laws.find_gives wheres "updated_at DESC" d found h m occurs in
            (row, sym same ∙ meets_it),
        λ listed.
            laws.find_gives_all wheres "updated_at DESC" d found h m listed.0 (same ∙ listed.1),
      )
