-- ===== src/Etcd/Client.antt =====
-- The calls of `clientv3` that the repository makes. A call may fail, and other clients may act before it.
use mizuflow.Base.{ℕ, String, Option, Bool}
use mizuflow.Base.Int.{ℤ, pos}
use mizuflow.Api.{FeatureFlag}

-- `mvccpb.KeyValue`: what is read of it.
pub record KeyValue : Type 0 where
  pub key : String
  pub value : String
  pub mod_revision : ℤ

-- The conditions of the two transactions, `CreateRevision(key) = 0` and `ModRevision(key) = r`.
pub data Compare : Type 0 where
  absent : Compare
  unmodified_since : ℤ → Compare

pub record TxnResponse : Type 0 where
  pub succeeded : Bool
  pub revision : ℤ

-- `E` is the state of etcd. `get` gives the entry of the key if there is one, `commit` puts a value under the
-- condition; `none` is an error.
pub record EtcdClient (E : Type 0) : Type 0 where
  pub get : String → E → Option (Option KeyValue) × E
  pub commit : Compare → String → String → E → Option TxnResponse × E

-- `const maxRetries = 3`
abbrev pub max_retries : ℕ
max_retries = 3

-- The flag that `GetFeature` builds of an entry.
abbrev pub raw_flag : KeyValue → FeatureFlag
raw_flag kv = record {
  namespace = "";
  env = "";
  key = kv.key;
  value = kv.value;
  version = pos 0;
  revision = kv.mod_revision;
  type_name = "";
}
