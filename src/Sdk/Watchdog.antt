-- ===== src/Sdk/Watchdog.antt =====
-- The watchdog of `runWatchLoop` and the lines of a connection.
use mizuflow.Base.{
  ℕ, ◌+◌, ◌-◌, ◌≤◌, ◌<◌, String, ◌≡◌, refl, ap, inl, inr, Bool-cases, List, [], ◌∷◌, arith, ltb,
}
use mizuflow.Sdk.{Moment, line_at, tick_at, lines_read}

-- All lines that the server writes.
abbrev pub lines_in : List Moment → List String
lines_in [] = []
lines_in (line_at now line ∷ moments) = line ∷ lines_in moments
lines_in (tick_at now ∷ moments) = lines_in moments

-- The next line, if there is one, does not come before a time.
abbrev pub NextLineFrom : ℕ → List Moment → Type 0
NextLineFrom now [] = Unit
NextLineFrom now (line_at t line ∷ moments) = now ≤ t
NextLineFrom now (tick_at t ∷ moments) = NextLineFrom now moments

-- The moments are in the order of time, and each line comes at most 25 seconds after the activity before it.
abbrev pub IsSteady : ℕ → List Moment → Type 0
IsSteady last [] = Unit
IsSteady last (line_at now line ∷ moments) = (now ≤ last + 25) × IsSteady now moments
IsSteady last (tick_at now ∷ moments) = NextLineFrom now moments × IsSteady last moments

no_line_left :
    (last now : ℕ) (moments : List Moment)
    → NextLineFrom now moments
    → IsSteady last moments
    → 25 < now - last
    → [] ≡ lines_in moments
no_line_left last now [] next steady late = refl
no_line_left last now (line_at t line ∷ moments) next steady late = absurd (omega (arith, steady.0))
no_line_left last now (tick_at t ∷ moments) next steady late =
    no_line_left last now moments next steady.1 late

-- Where each line of a response, a ping too, comes at most 25 seconds after the one before it, the watchdog ends the
-- request before no line, whenever its ticker fires.
pub lines_read_steady :
    (last : ℕ) (moments : List Moment)
    → IsSteady last moments
    → lines_read last moments ≡ lines_in moments
unfolding lines_read
lines_read_steady last [] h = refl
lines_read_steady last (line_at now line ∷ moments) h =
    ap (λ l. line ∷ l) (lines_read_steady now moments h.1)
lines_read_steady last (tick_at now ∷ moments) h = elim (Bool-cases (ltb 25 (now - last))) [
  | inl t ↦ rw t (no_line_left last now moments h.0 h.1 (ground arith))
  | inr t ↦ rw t (lines_read_steady last moments h.1)
]
