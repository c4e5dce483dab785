-- ===== src/Paths/Examples.antt =====
-- Tests and witnesses of the paths.
use plenjos_kernel.Prelude.{ℕ, ◌≡◌, refl, some, List, [], ◌∷◌}
use plenjos_kernel.Paths.{slash, dot, collapse_path, reverse_onto}
use plenjos_kernel.Paths.Names.{words, resolve, text}
use plenjos_kernel.Paths.Collapse.Resolve.{collapse_path_resolves}

-- "/ab//../c/./d/" reads "/c/d".
abbrev long_path : List ℕ
long_path =
    97 ∷ 98 ∷ slash ∷ slash ∷ dot ∷ dot ∷ slash ∷ 99 ∷ slash ∷ dot ∷ slash ∷ 100 ∷ slash ∷ []

long_path-text :
    reverse_onto (text (resolve (words [] long_path) [])) [] ≡ slash ∷ 99 ∷ slash ∷ 100 ∷ []
unfolding words
long_path-text = refl

collapse_path_resolves_example :
    collapse_path (slash ∷ long_path)
    ≡ some (reverse_onto (text (resolve (words [] long_path) [])) [])
collapse_path_resolves_example = collapse_path_resolves long_path
