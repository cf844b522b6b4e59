-- ===== src/Common/Text.antt =====
-- Template strings and joins over the native strings.
use Prim.Native.String
use Prim.Native.String.{String}
use mathlib.Core.List.{List, [], ◌∷◌}

-- A template string, by its parts.
abbrev pub concat : List String → String
concat [] = ""
concat (s ∷ []) = s
concat (s ∷ ss) = String.◌++◌ s (concat ss)

-- `parts.join(separator)`
abbrev pub join : String → List String → String
join separator [] = ""
join separator (s ∷ []) = s
join separator (s ∷ ss) = String.◌++◌ s (String.◌++◌ separator (join separator ss))
