-- ===== src/Sdk/Storage.antt =====
-- client/client.go: the options, `Start`, the file of the snapshot, and the waits of the two loops. The file system and
-- the JSON of a snapshot are parameters, and a random number is an input.
use Prim.Native.String.{◌++◌}
use mizuflow.Base.{
  ℕ, zero, suc, ◌+◌, ◌-◌, ◌*◌, ◌/◌, String, Bool, true, false, Option, none, some, List, [], ◌∷◌,
  ltb, if◌then◌else◌,
}
use mizuflow.Base.Int.{ℤ, pos}
use mizuflow.Base.Dict.{Dict}
use mizuflow.Api.{FeatureFlag}
use mizuflow.Sdk.Client.{MizuClient, SnapshotResponse, fetch_features}

abbrev pub second : ℕ
second = 1000000000

-- The fields of a client that `NewMizuClient` sets and no method changes.
pub record Settings : Type 0 where
  pub cache_file : String
  pub snapshot_interval_min : ℕ
  pub snapshot_interval_max : ℕ

pub data ClientOption : Type 0 where
  with_cache_file : String → ClientOption
  with_snapshot_interval : ℕ → ℕ → ClientOption
  with_http_client : ClientOption

unfoldable pub apply_option : ClientOption → Settings → Settings
apply_option (with_cache_file path) s = record s { cache_file = path }
apply_option (with_snapshot_interval least most) s = record s {
  snapshot_interval_min = least;
  snapshot_interval_max = most;
}
apply_option with_http_client s = s

unfoldable pub apply_options : List ClientOption → Settings → Settings
unfolding apply_option
apply_options [] s = s
apply_options (opt ∷ opts) s = apply_options opts (apply_option opt s)

unfoldable pub new_mizu_client : List ClientOption → Settings × MizuClient
unfolding apply_options
new_mizu_client opts = (
  apply_options opts (record {
    cache_file = ".mizu_cache.json";
    snapshot_interval_min = 10 * second;
    snapshot_interval_max = 30 * second;
  }),
  record { features = []; last_rev = pos 0; is_dirty = false },
)

-- `snapshot`
pub record Snapshot : Type 0 where
  pub features : Dict FeatureFlag
  pub revision : ℤ

pub record SnapshotJson : Type 0 where
  pub marshal : Snapshot → Option String
  pub unmarshal : String → Option Snapshot

-- `os.WriteFile`, `os.Rename` and `os.ReadFile`, where `false` and `none` are errors.
pub record Files (F : Type 0) : Type 0 where
  pub write_file : String → String → F → Bool × F
  pub rename : String → String → F → Bool × F
  pub read_file : String → F → Option String × F

abbrev pub snapshot_of : MizuClient → Snapshot
snapshot_of c = record { features = c.features; revision = c.last_rev }

abbrev pub temp_file : Settings → String
temp_file s = s.cache_file ++ ".tmp"

module _ {F : Type 0} (json : SnapshotJson) (files : Files F) (settings : Settings) where
  unfoldable pub write_snapshot : String → F → F
  write_snapshot bytes f =
      let (written, f1) = files.write_file (temp_file settings) bytes f in
      let (renamed, f2) = files.rename (temp_file settings) settings.cache_file f1 in
      if written then f2 else f1

  unfoldable pub save_snapshot : MizuClient → F → F
  unfolding write_snapshot
  save_snapshot c f = elim (json.marshal (snapshot_of c)) [
    | none ↦ f
    | some bytes ↦ write_snapshot bytes f
  ]

  abbrev pub loaded : MizuClient → Option Snapshot → Bool × MizuClient
  loaded c none = (false, c)
  loaded c (some s) = (true, record c { features = s.features; last_rev = s.revision })

  abbrev pub load_text : MizuClient → Option String → Bool × MizuClient
  load_text c none = (false, c)
  load_text c (some data_read) = loaded c (json.unmarshal data_read)

  unfoldable pub load_saved : MizuClient → F → (Bool × MizuClient) × F
  load_saved c f = let (text, f') = files.read_file settings.cache_file f in (load_text c text, f')

  -- `Start` up to its two loops; `false` is an error.
  unfoldable pub start_client : Option SnapshotResponse → MizuClient → F → (Bool × MizuClient) × F
  start_client response c f =
      let (fetched, c') = fetch_features response c in
      if fetched then ((true, c'), f) else load_saved c' f

  -- A tick of `runSnapshotLoop`.
  unfoldable pub snapshot_tick : MizuClient → F → MizuClient × F
  snapshot_tick c f =
      if c.is_dirty
      then (record c { is_dirty = false }, save_snapshot (record c { is_dirty = false }) f)
      else (c, f)

-- `rand.Int63n(n)` of a random number: it panics, `none`, where `n` is not positive.
unfoldable pub int63n : (ℕ → ℕ) → ℕ → Option ℕ
int63n rand zero = none
int63n rand (suc n) = some (rand (suc n))

-- The wait before a tick; on ℕ the difference is 0 also where Go's is negative, and both panic.
unfoldable pub snapshot_wait : (ℕ → ℕ) → Settings → Option ℕ
unfolding int63n
snapshot_wait rand s = elim (int63n rand (s.snapshot_interval_max - s.snapshot_interval_min)) [
  | none ↦ none
  | some r ↦ some (s.snapshot_interval_min + r)
]

abbrev pub max_backoff : ℕ
max_backoff = 30 * second

-- The wait after a failed connection, and the back-off that follows.
unfoldable pub reconnect_wait : (ℕ → ℕ) → ℕ → Option ℕ
unfolding int63n
reconnect_wait rand backoff = elim (int63n rand (backoff / 2)) [
  | none ↦ none
  | some jitter ↦ some (backoff + jitter)
]

unfoldable pub next_backoff : ℕ → ℕ
next_backoff backoff = if ltb max_backoff (backoff * 2) then max_backoff else backoff * 2

-- The back-off after a number of failed connections in a row.
unfoldable pub backoff_after : ℕ → ℕ
unfolding next_backoff
backoff_after zero = second
backoff_after (suc n) = next_backoff (backoff_after n)
