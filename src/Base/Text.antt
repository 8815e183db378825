-- ===== src/Base/Text.antt =====
-- Go's `strings` functions that the program calls, over the characters of a text.
use Prim.Native.Char.{Char, code}
use Prim.Native.String.{String, ◌++◌}
use text.Mathlib.TextLemmas.{nil-append, cons-append}
use mathlib.Core.Path.{◌≡◌, refl}
use mathlib.Core.Bool.{false}
use mathlib.Core.List.{List, [], ◌∷◌}
use native.Mathlib.Omega.{arith}
use mizuflow.Base.Tests.{◌==◌, if◌then◌else◌}

push_char : Char → List String → List String
push_char c [] = (String.◌∷◌ c String.[]) ∷ []
push_char c (p ∷ ps) = (String.◌∷◌ c p) ∷ ps

-- `strings.Split(s, sep)` for a separator of one character.
unfoldable pub split : Char → String → List String
unfolding push_char
split sep String.[] = String.[] ∷ []
split sep (String.◌∷◌ c s) =
    let rest = split sep s in if code c == code sep then String.[] ∷ rest else push_char c rest

-- The character stands nowhere in the text.
abbrev pub Lacks : Char → String → Type 0
Lacks sep String.[] = Unit
Lacks sep (String.◌∷◌ c s) = ((code c == code sep) ≡ false) × Lacks sep s

pub split_sep : (sep : Char) (t : String) → split sep (String.◌∷◌ sep t) ≡ String.[] ∷ split sep t
unfolding split
split_sep sep t = ground arith

pub split-append :
    (sep : Char) (s t : String) → Lacks sep s → split sep (s ++ String.◌∷◌ sep t) ≡ s ∷ split sep t
unfolding split
split-append sep String.[] t h = rw nil-append (ground arith)
split-append sep (String.◌∷◌ c s) t h =
    rw (cons-append c s (String.◌∷◌ sep t)) (rw (split-append sep s t h.1) (ground arith))

pub split_last : (sep : Char) (s : String) → Lacks sep s → split sep s ≡ s ∷ []
unfolding split
split_last sep String.[] h = refl
split_last sep (String.◌∷◌ c s) h = rw (split_last sep s h.1) (ground arith)
