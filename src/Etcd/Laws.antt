-- ===== src/Etcd/Laws.antt =====
-- What the repository relies on of etcd, whose other clients act between any two calls.
use mizuflow.Base.{String, ◌≡◌, ◌≢◌, Option, none, some, true, false, ◌⊎◌}
use mizuflow.Base.Int.{ℤ, ◌≤ℤ◌}
use mizuflow.Api.{FeatureFlag}
use mizuflow.Json.{Json}
use mizuflow.Etcd.Client.{KeyValue, Compare, absent, unmodified_since, TxnResponse, EtcdClient}

-- The entry holds a readable flag of version `v` or a later one.
pub record AtLeast (json : Json) (v : ℤ) (o : Option KeyValue) : Type 0 where
  pub kv : KeyValue
  pub flag : FeatureFlag
  pub entry : o ≡ some kv
  pub reads : json.decode kv.value ≡ some flag
  pub version : v ≤ℤ flag.version

abbrev pub Holds : Compare → Option KeyValue → Type 0
Holds absent o = o ≡ none
Holds (unmodified_since r) o = (kv : KeyValue) × (o ≡ some kv) × (kv.mod_revision ≡ r)

module _ {E : Type 0} (entry : E → String → Option KeyValue) where
  -- The transaction was applied: its condition held in `e`, and `e'` has the new entry and all others.
  pub record Applied (compare : Compare) (key value : String) (e e' : E) : Type 0 where
    pub held : Holds compare (entry e key)
    pub written : (kv : KeyValue) × (entry e' key ≡ some kv) × (kv.value ≡ value)
    pub others : (j : String) → key ≢ j → entry e' j ≡ entry e j

  abbrev pub Same : E → E → Type 0
  Same e e' = (j : String) → entry e' j ≡ entry e j

-- `entry` is what etcd holds at a key. `before` is the state in which a transaction is evaluated: the one that
-- the caller left, moved on by other clients.
pub record EtcdLaws {E : Type 0} (client : EtcdClient E) (json : Json) : Type 0 where
  pub entry : E → String → Option KeyValue
  pub before : Compare → String → String → E → E
  -- A read gives the entry of the key.
  pub get_reads :
      (key : String) (e : E) (o : Option KeyValue)
      → (client.get key e).0 ≡ some o
      → entry (client.get key e).1 key ≡ o
  -- Other clients replace a flag only by one of the same or a later version.
  pub get_keeps :
      (key : String) (e : E) (j : String) (v : ℤ)
      → AtLeast json v (entry e j)
      → AtLeast json v (entry (client.get key e).1 j)
  pub before_keeps :
      (compare : Compare) (key value : String) (e : E) (j : String) (v : ℤ)
      → AtLeast json v (entry e j)
      → AtLeast json v (entry (before compare key value e) j)
  -- Every write of a key has a revision of its own.
  pub before_revision :
      (compare : Compare) (key value : String) (e : E) (kv kv' : KeyValue)
      → entry e key ≡ some kv
      → entry (before compare key value e) key ≡ some kv'
      → kv'.mod_revision ≡ kv.mod_revision
      → kv' ≡ kv
  -- A transaction that succeeded was applied, one that did not changed nothing; of one that came back with an
  -- error either may be true.
  pub commit_succeeded :
      (compare : Compare) (key value : String) (e : E) (r : TxnResponse)
      → (client.commit compare key value e).0 ≡ some r
      → r.succeeded ≡ true
      → Applied entry compare key value
          (before compare key value e)
          (client.commit compare key value e).1
  pub commit_refused :
      (compare : Compare) (key value : String) (e : E) (r : TxnResponse)
      → (client.commit compare key value e).0 ≡ some r
      → r.succeeded ≡ false
      → Same entry (before compare key value e) (client.commit compare key value e).1
  pub commit_failed :
      (compare : Compare) (key value : String) (e : E)
      → (client.commit compare key value e).0 ≡ none
      → Applied entry compare key value
          (before compare key value e)
          (client.commit compare key value e).1
        ⊎ Same entry (before compare key value e) (client.commit compare key value e).1
