-- ===== src/Sdk/Lines.antt =====
-- The loop of `runWatchLoop` over the lines of one response.
use Prim.Native.Char.{code}
use Prim.Native.String.{◌++◌}
use mizuflow.Base.{String, Option, none, some, List, [], ◌∷◌, str_eq, ◌==◌, if◌then◌else◌}
use mizuflow.Api.{Message}
use mizuflow.Sdk.Client.{MizuClient, SnapshotResponse, fetch_features, handle_update}

-- What follows a prefix, where the text has it: `strings.HasPrefix` and `strings.TrimPrefix`.
unfoldable pub strip_prefix : String → String → Option String
strip_prefix String.[] s = some s
strip_prefix (String.◌∷◌ p ps) String.[] = none
strip_prefix (String.◌∷◌ p ps) (String.◌∷◌ c s) =
    let rest = strip_prefix ps s in if code p == code c then rest else none

-- The loop's variables and the client.
pub record Scan : Type 0 where
  pub event_type : String
  pub data_buffer : String
  pub client : MizuClient

abbrev pub cleared : MizuClient → Scan
cleared c = record { event_type = ""; data_buffer = ""; client = c }

-- A line is followed by the next one, or ends the loop.
pub data Step : Type 0 where
  goes_on : Scan → Step
  breaks : MizuClient → Step

-- What follows a line; `again` reads the lines after it.
unfoldable pub after_line : (Scan → MizuClient) → Step → MizuClient
after_line again (goes_on s) = again s
after_line again (breaks c) = c

-- `decode_message` is `json.Unmarshal` into a message, `trim_space` is `strings.TrimSpace`, and `fetched` is the
-- response that a `fetchAll` would get.
module _ (decode_message : String → Option Message) (trim_space : String → String)
    (fetched : Option SnapshotResponse) where
  unfoldable pub dispatch : Scan → Step
  dispatch s =
      if str_eq s.event_type "reset"
      then breaks (fetch_features fetched s.client).1
      else if str_eq s.event_type "ping"
      then goes_on (cleared s.client)
      else if str_eq s.data_buffer ""
      then goes_on (cleared s.client)
      else elim (decode_message s.data_buffer) [
        | none ↦ goes_on (cleared s.client)
        | some msg ↦ goes_on (cleared (handle_update s.client msg))
      ]

  unfoldable pub append_data : Scan → String → Scan
  append_data s text = record s {
    data_buffer =
        if str_eq s.data_buffer ""
        then trim_space text
        else s.data_buffer ++ ("\n" ++ trim_space text);
  }

  -- A line with a space after `event:` gives the type, one with `data:` is added to the data.
  unfoldable pub read_field : String → Scan → Scan
  unfolding append_data
  read_field line s = elim (strip_prefix "event: " line) [
    | some _ ↦ elim (strip_prefix "event:" line) [
      | some name ↦ record s { event_type = trim_space name }
      | none ↦ s
    ]
    | none ↦ elim (strip_prefix "data:" line) [ some text ↦ append_data s text | none ↦ s ]
  ]

  unfoldable pub scan_line : String → Scan → Step
  unfolding dispatch read_field
  scan_line line s = if str_eq line "" then dispatch s else goes_on (read_field line s)

  unfoldable pub scan_lines : List String → Scan → MizuClient
  unfolding after_line
  scan_lines [] s = s.client
  scan_lines (line ∷ lines) s = after_line (scan_lines lines) (scan_line line s)
