-- ===== src/Sdk/Waits.antt =====
-- client/client.go, `runWatchLoop` and `runSnapshotLoop`: how long they wait.
use mathlib.Core.Option.{none-ne-some}
use mizuflow.Base.{
  leb, sym, ℕ, zero, suc, ◌+◌, ◌-◌, ◌*◌, ◌/◌, ◌≡◌, ◌≤◌, ◌<◌, ◌↔◌, refl, none, some, inl, inr,
  Bool-cases, arith,
}
use mizuflow.Sdk.{
  Settings, second, max_backoff, int63n, snapshot_wait, reconnect_wait, next_backoff, backoff_after,
}

pub next_backoff_lem :
    (b : ℕ)
    → second ≤ b
    → b ≤ max_backoff
    → (second ≤ next_backoff b) × (next_backoff b ≤ max_backoff) × (b ≤ next_backoff b)
unfolding next_backoff
next_backoff_lem b low high = ground arith

backoff_lem : (n : ℕ) → (second ≤ backoff_after n) × (backoff_after n ≤ max_backoff)
unfolding backoff_after
backoff_lem zero = (omega arith, omega arith)
backoff_lem (suc n) =
    let (low, high) = backoff_lem n in
    let (low', high', _) = next_backoff_lem (backoff_after n) low high in (low', high')

int63n_lem :
    (rand : ℕ → ℕ) (n : ℕ)
    → ((k : ℕ) → 0 < k → rand k < k)
    → 0 < n
    → (r : ℕ) × (int63n rand n ≡ some r) × (r < n)
unfolding int63n
int63n_lem rand zero small positive = absurd (omega arith)
int63n_lem rand (suc n) small positive = (rand (suc n), refl, small (suc n) positive)

pub reconnect_wait_lem :
    (rand : ℕ → ℕ) (b : ℕ)
    → ((k : ℕ) → 0 < k → rand k < k)
    → second ≤ b
    → b ≤ max_backoff
    → (wait : ℕ) × (reconnect_wait rand b ≡ some wait) × (second ≤ wait) × (wait < 45 * second)
unfolding reconnect_wait
reconnect_wait_lem rand b small low high =
    let (r, gives, less) = int63n_lem rand (b / 2) small (omega arith) in
    (b + r, rw (gives, reconnect_wait) refl, omega arith, omega arith)

-- After any number of failed connections in a row, where random numbers below a bound are below it, the client waits
-- without a panic, for a second or more and for less than 45.
pub reconnect_wait_bounds :
    (rand : ℕ → ℕ) (n : ℕ)
    → ((k : ℕ) → 0 < k → rand k < k)
    → (wait : ℕ) × (reconnect_wait rand (backoff_after n) ≡ some wait)
      × (second ≤ wait)
      × (wait < 45 * second)
reconnect_wait_bounds rand n small =
    let (low, high) = backoff_lem n in reconnect_wait_lem rand (backoff_after n) small low high

int63n-none : (rand : ℕ → ℕ) (n : ℕ) → n ≤ 0 → int63n rand n ≡ none
unfolding int63n
int63n-none rand zero le = refl
int63n-none rand (suc n) le = absurd (omega arith)

int63n-some : (rand : ℕ → ℕ) (n : ℕ) → 0 < n → int63n rand n ≡ some (rand n)
unfolding int63n
int63n-some rand zero positive = absurd (omega arith)
int63n-some rand (suc n) positive = refl

-- The wait of the snapshot loop panics exactly where the longest interval is not longer than the shortest.
pub snapshot_wait_panics :
    (rand : ℕ → ℕ) (s : Settings)
    → (snapshot_wait rand s ≡ none) ↔ (s.snapshot_interval_max ≤ s.snapshot_interval_min)
unfolding snapshot_wait
snapshot_wait_panics rand s =
    let span = s.snapshot_interval_max - s.snapshot_interval_min in
    (
      λ h. elim (Bool-cases (leb s.snapshot_interval_max s.snapshot_interval_min)) [
        | inl t ↦ ground arith
        | inr t ↦ absurd (
            none-ne-some (s.snapshot_interval_min + rand span)
              (sym (rw (int63n-some rand span (ground arith), snapshot_wait) at h)))
      ],
      λ le. rw (int63n-none rand span (omega arith), snapshot_wait) refl,
    )
