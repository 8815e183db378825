-- ===== src/Sdk/Targets.antt =====
-- The namespaces that a client names, and those that the server takes from its request.
use mizuflow.Base.{String, ◌≡◌, false, List, [], ◌∷◌, str_eq}
use mizuflow.Base.Text.{Lacks}

module _ (trim_space : String → String) where
  -- Names without a comma, that are not empty and that trimming leaves as they are.
  abbrev pub AllNames : List String → Type 0
  AllNames [] = Unit
  AllNames (s ∷ ss) = Lacks "," s × (trim_space s ≡ s) × (str_eq s "" ≡ false) × AllNames ss
