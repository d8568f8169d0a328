-- ===== src/Text/Examples.antt =====
-- src/strscpy.c and src/strtok.c: short strings.
use libuv.Prelude.{ℕ, ◌≡◌, refl, none, some, List, [], ◌∷◌}
use libuv.Text.{strtok, strtok_scan, is_sep}

abbrev abc : List ℕ
abc = 97 ∷ 98 ∷ 99 ∷ []

abbrev buffer : List ℕ
buffer = 1 ∷ 2 ∷ 3 ∷ 4 ∷ []

strtok_first : strtok (some (97 ∷ 44 ∷ 98 ∷ [])) (44 ∷ []) none ≡ (some (97 ∷ []), some (98 ∷ []))
unfolding strtok strtok_scan is_sep
strtok_first = refl
