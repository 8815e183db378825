-- ===== src/Etcd/Returns.antt =====
-- internal/repository/etcd.go, `SaveFeatureIfNewer`: when it returns a revision.
use mizuflow.Base.{String, ◌≡◌, true, Option, none, some}
use mizuflow.Base.Int.{ℤ}
use mizuflow.Api.{FeatureFlag}
use mizuflow.Json.{Json}
use mizuflow.Etcd.{
  KeyValue, Compare, absent, unmodified_since, TxnResponse, EtcdClient, Round, returns, ok,
}

-- There is no entry, or one whose value reads as a flag.
abbrev pub IsReadable : Json → Option KeyValue → Type 0
IsReadable json none = Unit
IsReadable json (some kv) = (flag : FeatureFlag) × (json.decode kv.value ≡ some flag)

-- The condition of the transaction that follows a read.
abbrev pub compare_of : Option KeyValue → Compare
compare_of none = absent
compare_of (some kv) = unmodified_since kv.mod_revision

module _ {E : Type 0} (client : EtcdClient E) (json : Json) (key : String) (new : FeatureFlag) where
  -- The transaction under the condition is applied.
  abbrev pub Commits : Compare → E → Type 0
  Commits compare e =
      (r : TxnResponse) × ((client.commit compare key (json.encode new) e).0 ≡ some r)
      × (r.succeeded ≡ true)

  abbrev Ends : Round × E → Type 0
  Ends r = (rev : ℤ) × (r.0 ≡ returns (ok rev))
