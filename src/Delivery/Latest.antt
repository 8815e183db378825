-- ===== src/Delivery/Latest.antt =====
-- What a history of messages says of one key, and the client's features after the history.
use mizuflow.Base.{
  String, Bool, ◌≡◌, refl, ap, ◌∙◌, none, some, Option, false, inl, inr, Bool-cases, List, [], ◌∷◌,
  ◌++◌, arith, str_eq, if◌then◌else◌, select,
}
use mizuflow.Base.Int.{ℤ, ◌≤ℤ◌, ◌<ℤ◌, leb_ℤ}
use mizuflow.Base.Dict.{Dict, lookup, lookup-insert, lookup-delete}
use mizuflow.Api.{FeatureFlag, Message, Action, delete, put, other}
use mizuflow.Buffer.Since.{newer}
use mizuflow.Stream.Gapless.{Rising}
use mizuflow.Sdk.{MizuClient, message_flag, act, handle_update}
use mizuflow.Sdk.Updates.{handle_updates}

-- What an action on its key leaves there.
unfoldable pub applied : Action → Message → Option FeatureFlag → Option FeatureFlag
applied delete m o = none
applied put m o = some (message_flag m)
applied (other _) m o = o

-- The flag of a key after messages in order: the last message on the key decides.
unfoldable pub latest : String → List Message → Option FeatureFlag → Option FeatureFlag
latest key [] o = o
latest key (m ∷ ms) o = latest key ms (if str_eq m.key key then applied m.action m o else o)

pub latest-append :
    (key : String) (ms ns : List Message) (o : Option FeatureFlag)
    → latest key (ms ++ ns) o ≡ latest key ns (latest key ms o)
unfolding latest
latest-append key [] ns o = refl
latest-append key (m ∷ ms) ns o =
    latest-append key ms ns (if str_eq m.key key then applied m.action m o else o)

lookup-act :
    (key : String) (a : Action) (m : Message) (d : Dict FeatureFlag)
    → lookup key (act a m d)
      ≡ (if str_eq m.key key then applied a m (lookup key d) else lookup key d)
unfolding act applied
lookup-act key delete m d = lookup-delete m.key key d
lookup-act key put m d = lookup-insert m.key key (message_flag m) d
lookup-act key (other n) m d = ground arith

handle_update-new :
    (c : MizuClient) (m : Message)
    → c.last_rev <ℤ m.revision
    → ((handle_update c m).features ≡ act m.action m c.features)
      × ((handle_update c m).last_rev ≡ m.revision)
unfolding handle_update
handle_update-new c m h =
    let t : leb_ℤ m.revision c.last_rev ≡ false = ground arith in rw t (refl, refl)

Rising-weaker : (q r : ℤ) (ms : List Message) → q ≤ℤ r → Rising r ms → Rising q ms
Rising-weaker q r [] le h = _
Rising-weaker q r (m ∷ ms) le h = (omega (arith, h.0), h.1, h.2)

-- What a test keeps of rising messages rises.
pub Rising-select :
    (p : Message → Bool) (r : ℤ) (ms : List Message) → Rising r ms → Rising r (select p ms)
Rising-select p r [] h = _
Rising-select p r (m ∷ ms) h = elim (Bool-cases (p m)) [
  | inl t ↦ rw t (h.0, h.1, Rising-select p m.revision ms h.2)
  | inr t ↦ rw t (
      Rising-weaker r m.revision (select p ms) (omega (arith, h.0))
        (Rising-select p m.revision ms h.2))
]

-- From any lower bound to the revision that a test asks for.
pub Rising-newer : (q r : ℤ) (ms : List Message) → Rising q ms → Rising r (select (newer r) ms)
Rising-newer q r [] h = _
Rising-newer q r (m ∷ ms) h = elim (Bool-cases (newer r m)) [
  | inl t ↦ rw t (ground arith, h.1, Rising-select (newer r) m.revision ms h.2)
  | inr t ↦ rw t (Rising-newer m.revision r ms h.2)
]

-- A client that handles messages whose revisions rise from above its own has, under every key, what the last message
-- on the key left.
pub lookup-handle_updates :
    (key : String) (c : MizuClient) (ms : List Message)
    → Rising c.last_rev ms
    → lookup key (handle_updates c ms).features ≡ latest key ms (lookup key c.features)
unfolding latest
lookup-handle_updates key c [] h = refl
lookup-handle_updates key c (m ∷ ms) h =
    let new = handle_update-new c m h.0 in
    lookup-handle_updates key (handle_update c m) ms (rw (new.1) (h.2))
    ∙ ap (latest key ms) (rw (new.0) (lookup-act key m.action m c.features))
