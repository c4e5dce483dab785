-- ===== src/Strings/Examples.antt =====
-- Tests and witnesses of the string functions.
use plenjos_kernel.Strings.Tokens.{strtok, token_from, skip_delims, span_token, is_delim}
use plenjos_kernel.Prelude.{ℕ, List, [], ◌∷◌, some, none, ◌≡◌, refl, ◌+◌}
use plenjos_kernel.Strings.{Memory}

abbrev ramp : Memory
ramp a = a + 1

-- ",,ab,c" at its start
abbrev list_text : List ℕ
list_text = 44 ∷ 44 ∷ 97 ∷ 98 ∷ 44 ∷ 99 ∷ []

first_token : strtok (some list_text) none (44 ∷ []) ≡ (some (97 ∷ 98 ∷ []), some (99 ∷ []))
unfolding strtok token_from skip_delims span_token is_delim
first_token = refl
