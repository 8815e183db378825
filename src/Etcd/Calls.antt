-- ===== src/Etcd/Calls.antt =====
-- The methods of internal/repository/etcd.go that only call the client: `SaveFeature`, which nothing calls, and
-- `Health`.
use mizuflow.Base.{String, Option, none, some, Bool}
use mizuflow.Base.Int.{ℤ}
use mizuflow.Etcd.{Result, ok, err, etcd_failed}

-- `client.Put`, with the revision of its answer, and `client.Get` of a key, of which the error alone is looked at.
pub record EtcdCalls (E : Type 0) : Type 0 where
  pub put : String → String → E → Option ℤ × E
  pub reads : String → E → Bool × E

-- What `SaveFeature` makes of the answer.
unfoldable pub revision_of : Option ℤ → Result ℤ
revision_of none = err etcd_failed
revision_of (some rev) = ok rev

module _ {E : Type 0} (calls : EtcdCalls E) where
  unfoldable pub put_feature : String → String → E → Result ℤ × E
  unfolding revision_of
  put_feature key value e = let (r, e') = calls.put key value e in (revision_of r, e')

  -- `true` without an error.
  unfoldable pub etcd_health : E → Bool × E
  etcd_health e = calls.reads "health_check" e
