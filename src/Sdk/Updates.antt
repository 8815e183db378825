-- ===== src/Sdk/Updates.antt =====
-- How the client's features follow the messages, and how the messages come out of the lines.
use Prim.Native.String.{◌++◌, count}
use text.Mathlib.TextLemmas.{nil-append, cons-append, length-append}
use mizuflow.Base.{
  String, ◌≡◌, refl, ap, ◌∙◌, Option, none, some, true, false, inl, inr, Bool-cases, List, [], ◌∷◌,
  arith, str_eq, eq_iff,
}
use mizuflow.Base.Int.{ℤ, ◌≤ℤ◌, leb_ℤ}
use mizuflow.Api.{Message}
use mizuflow.Sdk.{
  MizuClient, SnapshotResponse, handle_update, cleared, strip_prefix, scan_line, scan_lines,
  after_line, goes_on, dispatch,
}

abbrev pub handle_updates : MizuClient → List Message → MizuClient
handle_updates c [] = c
handle_updates c (m ∷ ms) = handle_updates (handle_update c m) ms

handle_update-seen :
    (c : MizuClient) (m : Message) → m.revision ≤ℤ c.last_rev → handle_update c m ≡ c
unfolding handle_update
handle_update-seen c m h = let t : leb_ℤ m.revision c.last_rev ≡ true = ground arith in rw t

handle_update-rises :
    (c : MizuClient) (m : Message)
    → (c.last_rev ≤ℤ (handle_update c m).last_rev) × (m.revision ≤ℤ (handle_update c m).last_rev)
unfolding handle_update
handle_update-rises c m = elim (Bool-cases (leb_ℤ m.revision c.last_rev)) [
  | inl t ↦ rw t (omega arith, ground arith)
  | inr t ↦ rw t (ground arith, omega arith)
]

handle_updates-rises :
    (c : MizuClient) (ms : List Message) → c.last_rev ≤ℤ (handle_updates c ms).last_rev
handle_updates-rises c [] = omega arith
handle_updates-rises c (m ∷ ms) =
    omega (arith, (handle_update-rises c m).0, handle_updates-rises (handle_update c m) ms)

abbrev AllSeen : ℤ → List Message → Type 0
AllSeen r [] = Unit
AllSeen r (m ∷ ms) = (m.revision ≤ℤ r) × AllSeen r ms

AllSeen-handle_updates :
    (c : MizuClient) (ms : List Message) → AllSeen (handle_updates c ms).last_rev ms
AllSeen-handle_updates c [] = _
AllSeen-handle_updates c (m ∷ ms) = (
  omega (arith, (handle_update-rises c m).1, handle_updates-rises (handle_update c m) ms),
  AllSeen-handle_updates (handle_update c m) ms,
)

handle_updates-seen :
    (c : MizuClient) (ms : List Message) → AllSeen c.last_rev ms → handle_updates c ms ≡ c
handle_updates-seen c [] h = refl
handle_updates-seen c (m ∷ ms) h =
    ap (λ x. handle_updates x ms) (handle_update-seen c m h.0) ∙ handle_updates-seen c ms h.1

-- Messages that the client has handled, in whatever order they came, change nothing when they are delivered again.
pub handle_updates_again :
    (c : MizuClient) (ms : List Message)
    → handle_updates (handle_updates c ms) ms ≡ handle_updates c ms
handle_updates_again c ms =
    handle_updates-seen (handle_updates c ms) ms (AllSeen-handle_updates c ms)

some_data : (s : String) → str_eq ("data:" ++ s) "" ≡ false
some_data s = elim (Bool-cases (str_eq ("data:" ++ s) "")) [
  | inl t ↦
      absurd (omega (arith, ap count ((eq_iff ("data:" ++ s) "").0 t), length-append "data:" s))
  | inr t ↦ t
]

-- The lines that the server writes.
abbrev pub lines_of : List (Message × String) → List String
lines_of [] = []
lines_of ((m, text) ∷ fs) = "event:message" ∷ ("data:" ++ text) ∷ "" ∷ lines_of fs

abbrev pub messages_in : List (Message × String) → List Message
messages_in [] = []
messages_in ((m, text) ∷ fs) = m ∷ messages_in fs

module _ (decode_message : String → Option Message) (trim_space : String → String)
    (fetched : Option SnapshotResponse) where
  data_line :
      (c : MizuClient) (t : String)
      → scan_line decode_message trim_space fetched ("data:" ++ t) (cleared c)
        ≡ goes_on (record { event_type = ""; data_buffer = trim_space t; client = c })
  unfolding scan_line strip_prefix
  data_line c t = rw (
    some_data t,
    cons-append "d" "ata:" t,
    cons-append "a" "ta:" t,
    cons-append "t" "a:" t,
    cons-append "a" ":" t,
    cons-append ":" "" t,
    nil-append t,
  )

  -- The text of a message: one line of data that reads back.
  pub record IsFrame (m : Message) (text : String) : Type 0 where
    pub trimmed : trim_space text ≡ text
    pub reads : decode_message text ≡ some m
    pub some_text : str_eq text "" ≡ false

  abbrev pub AllFrames : List (Message × String) → Type 0
  AllFrames [] = Unit
  AllFrames ((m, text) ∷ fs) = IsFrame m text × AllFrames fs

  blank_line :
      (c : MizuClient) (m : Message) (text : String)
      → IsFrame m text
      → scan_line decode_message trim_space fetched ""
          (record { event_type = ""; data_buffer = trim_space text; client = c })
        ≡ goes_on (cleared (handle_update c m))
  unfolding scan_line dispatch
  blank_line c m text f = rw (f.trimmed, f.some_text, f.reads)

  -- A client that reads the lines of messages, each with one line of data that reads back, handles these messages in
  -- order and no other.
  pub scan_lines_of :
      (c : MizuClient) (fs : List (Message × String))
      → AllFrames fs
      → scan_lines decode_message trim_space fetched (lines_of fs) (cleared c)
        ≡ handle_updates c (messages_in fs)
  unfolding scan_lines after_line scan_line strip_prefix
  scan_lines_of c [] h = refl
  scan_lines_of c ((m, text) ∷ fs) h =
      ap
        (after_line (λ s.
          after_line
            (λ s'.
              after_line (scan_lines decode_message trim_space fetched (lines_of fs))
                (scan_line decode_message trim_space fetched "" s'))
            (scan_line decode_message trim_space fetched ("data:" ++ text) s)))
        (event_line c)
      ∙ ap
          (after_line (λ s'.
            after_line (scan_lines decode_message trim_space fetched (lines_of fs))
              (scan_line decode_message trim_space fetched "" s')))
          (data_line c text)
      ∙ ap (after_line (scan_lines decode_message trim_space fetched (lines_of fs)))
          (blank_line c m text h.0)
      ∙ scan_lines_of (handle_update c m) fs h.1
    where
      event_line :
          (c : MizuClient)
          → scan_line decode_message trim_space fetched "event:message" (cleared c)
            ≡ goes_on (cleared c)
      event_line c = refl

  blank_unread :
      (c : MizuClient) (text : String)
      → decode_message text ≡ none
      → str_eq text "" ≡ false
      → scan_line decode_message trim_space fetched ""
          (record { event_type = ""; data_buffer = text; client = c })
        ≡ goes_on (cleared c)
  unfolding scan_line dispatch
  blank_unread c text unread some_text = rw (some_text, unread)

  -- The lines of a reset, written without a space after `event:`, are passed over where their data is no message: the
  -- client goes on as it was, with nothing fetched.
  pub scan_lines_reset :
      (c : MizuClient) (lines : List String)
      → decode_message (trim_space "revision_too_old") ≡ none
      → str_eq (trim_space "revision_too_old") "" ≡ false
      → scan_lines decode_message trim_space fetched
          ("event:reset" ∷ "data:revision_too_old" ∷ "" ∷ lines)
          (cleared c)
        ≡ scan_lines decode_message trim_space fetched lines (cleared c)
  unfolding scan_lines after_line scan_line strip_prefix dispatch
  scan_lines_reset c lines unread some_text =
      ap (after_line (scan_lines decode_message trim_space fetched lines))
        (blank_unread c (trim_space "revision_too_old") unread some_text)
