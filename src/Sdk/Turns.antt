-- ===== src/Sdk/Turns.antt =====
-- The sleeps of `runWatchLoop` over any connections.
use mizuflow.Base.{ℕ, ◌+◌, ◌*◌, ◌≤◌, ◌<◌, String, ◌≡◌, Option, some, List, [], ◌∷◌, length}
use mizuflow.Api.{Message}
use mizuflow.Sdk.{second, Connection, fails, responds, closes, WatchState, connect_all}

-- The connections that fail before the context ends.
abbrev pub failures : List Connection → ℕ
failures [] = 0
failures (fails ∷ connections) = failures connections + 1
failures (responds lines fetched ∷ connections) = failures connections
failures (closes ∷ connections) = 0

-- A second or more, and less than 45.
abbrev pub AllModerate : List ℕ → Type 0
AllModerate [] = Unit
AllModerate (w ∷ ws) = (second ≤ w) × (w < 45 * second) × AllModerate ws

module _ (decode_message : String → Option Message) (trim_space : String → String) (rand : ℕ → ℕ)
    (small : (k : ℕ) → 0 < k → rand k < k) where
  abbrev Ends : List Connection → WatchState → Type 0
  Ends connections s =
      (s' : WatchState) × (connect_all decode_message trim_space rand connections s ≡ some s')
      × AllModerate s'.sleeps
      × (length s'.sleeps ≡ length s.sleeps + failures connections)
