-- ===== src/Sdk/Loop.antt =====
-- client/client.go: the requests of a client, the loop of `runWatchLoop` over its connections, and the watchdog.
use Prim.Native.String.{◌++◌}
use mizuflow.Base.{ℕ, ◌-◌, String, Option, none, some, List, [], ◌∷◌, ltb, if◌then◌else◌}
use mizuflow.Base.Int.{ℤ}
use mizuflow.Api.{Message}
use mizuflow.Sdk.Client.{MizuClient, SnapshotResponse}
use mizuflow.Sdk.Lines.{scan_lines, cleared}
use mizuflow.Sdk.Storage.{second, reconnect_wait, next_backoff}

-- The fields that say where the client connects.
pub record Target : Type 0 where
  pub addr : String
  pub env : String
  pub namespaces : List String

-- `strings.Join(parts, ",")`
unfoldable pub join_comma : List String → String
join_comma [] = ""
join_comma (s ∷ []) = s
join_comma (s ∷ t ∷ ts) = s ++ ("," ++ join_comma (t ∷ ts))

-- The addresses that `fetchAll` and `runWatchLoop` ask for; `show` writes an integer in decimal.
unfoldable pub snapshot_url : Target → String
unfolding join_comma
snapshot_url t =
    t.addr ++ ("/v1/stream/snapshot?env=" ++ (t.env ++ ("&namespace=" ++ join_comma t.namespaces)))

unfoldable pub watch_url : (ℤ → String) → Target → ℤ → String
unfolding join_comma
watch_url show t last_rev =
    t.addr
    ++ ("/v1/stream/watch?last_rev="
        ++ (show last_rev ++ ("&env=" ++ (t.env ++ ("&namespace=" ++ join_comma t.namespaces)))))

-- What becomes of a connection: an error of the request, or lines until the response ends, with the response that a
-- `fetchAll` on the way would get. The loop ends with the client's context.
pub data Connection : Type 0 where
  fails : Connection
  responds : List String → Option SnapshotResponse → Connection
  closes : Connection

-- The loop's variables: the client, the back-off, and its sleeps, oldest last.
pub record WatchState : Type 0 where
  pub client : MizuClient
  pub backoff : ℕ
  pub sleeps : List ℕ

abbrev pub started : MizuClient → WatchState
started c = record { client = c; backoff = second; sleeps = [] }

-- After an error: the sleep, and the next back-off; `none` is a panic of `rand.Int63n`.
unfoldable pub after_error : Option ℕ → WatchState → Option WatchState
after_error none s = none
after_error (some wait) s =
    some (record s { backoff = next_backoff s.backoff; sleeps = wait ∷ s.sleeps })

module _ (decode_message : String → Option Message) (trim_space : String → String)
    (rand : ℕ → ℕ) where
  -- One round of the loop. The status of a response is not looked at.
  unfoldable pub connect : Connection → WatchState → Option WatchState
  unfolding after_error
  connect fails s = after_error (reconnect_wait rand s.backoff) s
  connect (responds lines fetched) s = some (record s {
    client = scan_lines decode_message trim_space fetched lines (cleared s.client);
    backoff = second;
  })
  connect closes s = some s

  unfoldable pub connect_all : List Connection → WatchState → Option WatchState
  unfolding connect
  connect_all [] s = some s
  connect_all (closes ∷ connections) s = some s
  connect_all (fails ∷ connections) s = elim (connect fails s) [
    | none ↦ none
    | some s' ↦ connect_all connections s'
  ]
  connect_all (responds lines fetched ∷ connections) s = elim (connect (responds lines fetched) s) [
    | none ↦ none
    | some s' ↦ connect_all connections s'
  ]

-- What happens on one connection, with the clock in seconds: a line is read, or the watchdog's ticker fires.
pub data Moment : Type 0 where
  line_at : ℕ → String → Moment
  tick_at : ℕ → Moment

-- The lines read before the watchdog cancels the request; `last` is the time of the last activity.
unfoldable pub lines_read : ℕ → List Moment → List String
lines_read last [] = []
lines_read last (line_at now line ∷ moments) = line ∷ lines_read now moments
lines_read last (tick_at now ∷ moments) =
    let rest = lines_read last moments in if ltb 25 (now - last) then [] else rest
