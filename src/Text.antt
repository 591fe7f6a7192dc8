-- ===== src/Text.antt =====
-- Texts as lists of bytes, for src/wireless.c and src/utilities.c.
use vita_mtp.Base.{ℕ, Option, none, some, List, [], ◌∷◌, ◌==◌, if◌then◌else◌}

-- What follows a text in front; `none` where another text stands there.
unfoldable pub behind : List ℕ → List ℕ → Option (List ℕ)
behind [] s = some s
behind (p ∷ ps) [] = none
behind (p ∷ ps) (c ∷ cs) = let rest = behind ps cs in if p == c then rest else none
