-- ===== src/Etcd.antt =====
-- internal/repository/etcd.go: `FeatureRepository`, over a client of etcd that is a parameter.
mod Client
pub mod Laws
pub mod Calls
pub mod Keeps
pub mod Publishes
pub mod Returns
pub mod Store
mod Tests
unfoldable pub use Client.*
use mizuflow.Base.{ℕ, zero, suc, String, Option, none, some, Bool, true, false, if◌then◌else◌}
use mizuflow.Base.Int.{ℤ, pos, leb_ℤ}
use mizuflow.Api.{FeatureFlag}
use mizuflow.Json.{Json}

-- The errors that the methods return; `etcd_failed` is any error of the client.
pub data RepositoryError : Type 0 where
  etcd_failed unreadable max_retries_exceeded feature_not_found : RepositoryError

pub data Result (A : Type 0) : Type 0 where
  ok : A → Result A
  err : RepositoryError → Result A

-- How one round of the loop of `SaveFeatureIfNewer` ends: with a return, or in contention.
pub data Round : Type 0 where
  returns : Result ℤ → Round
  contended : Round

-- A round that returns ends the loop; after contention it goes round again.
unfoldable pub after_round : {E : Type 0} → (E → Result ℤ × E) → Round × E → Result ℤ × E
after_round again (returns result, e) = (result, e)
after_round again (contended, e) = again e

-- What is made of the answer to a transaction.
unfoldable pub after_commit : Option TxnResponse → Round
after_commit none = returns (err etcd_failed)
after_commit (some r) = if r.succeeded then returns (ok r.revision) else contended

module _ {E : Type 0} (client : EtcdClient E) (json : Json) where
  -- The value is not decoded: the flag has the etcd key, the raw value and no version.
  unfoldable pub get_feature : String → E → Result FeatureFlag × E
  get_feature key e =
      let (r, e') = client.get key e in
      elim r [
        | none ↦ (err etcd_failed, e')
        | some none ↦ (err feature_not_found, e')
        | some (some kv) ↦ (ok (raw_flag kv), e')
      ]

  -- `r.client.Txn(ctx).If(compare).Then(OpPut(key, val)).Commit()` and the tests on its answer.
  unfoldable pub put_if : Compare → String → FeatureFlag → E → Round × E
  unfolding after_commit
  put_if compare key new_value e =
      let (r, e') = client.commit compare key (json.encode new_value) e in (after_commit r, e')

  unfoldable pub update_if_newer : KeyValue → String → FeatureFlag → E → Round × E
  unfolding put_if
  update_if_newer kv key new_value e = elim (json.decode kv.value) [
    | none ↦ (returns (err unreadable), e)
    | some current ↦
        if leb_ℤ new_value.version current.version
        then (returns (ok kv.mod_revision), e)
        else put_if (unmodified_since kv.mod_revision) key new_value e
  ]

  -- What the body of the `for` loop does with the entry that it read.
  unfoldable pub answer : String → FeatureFlag → Option KeyValue → E → Round × E
  unfolding update_if_newer put_if
  answer key new_value none e = put_if absent key new_value e
  answer key new_value (some kv) e = update_if_newer kv key new_value e

  -- The body of the `for` loop.
  unfoldable pub save_round : String → FeatureFlag → E → Round × E
  unfolding answer
  save_round key new_value e =
      let (r, e') = client.get key e in
      elim r [ none ↦ (returns (err etcd_failed), e') | some o ↦ answer key new_value o e' ]

  -- `rounds` is `maxRetries + 1 - retries`: at 0 the count of retries has passed `maxRetries`.
  unfoldable pub save_loop : ℕ → String → FeatureFlag → E → Result ℤ × E
  unfolding after_round
  save_loop zero key new_value e = (err max_retries_exceeded, e)
  save_loop (suc rounds) key new_value e =
      after_round (save_loop rounds key new_value) (save_round key new_value e)

  unfoldable pub save_feature_if_newer : String → FeatureFlag → E → Result ℤ × E
  unfolding save_loop
  save_feature_if_newer = save_loop (suc max_retries)
