-- ===== src/Paths.antt =====
-- syscall/syscall_helpers.c: relative paths and the collapsing of paths. A string is the list of its
-- bytes without the final 0, shorter than `PATH_MAX`; what `collapse_path` has written to `temp` is kept
-- last byte first, so that its head is `temp[out_idx - 1]`.
use plenjos_kernel.Prelude.{
  ℕ, zero, suc, ◌+◌, ◌-◌, ◌≤◌, ◌<◌, ◌≡◌, refl, Bool, true, false, Option, none, some, List, [], ◌∷◌,
  ◌++◌, ◌==◌, ltb, ◌&&◌, if◌then◌else◌, length, take, drop,
}
pub mod Names
pub mod Collapse
pub mod Relative
mod Examples

abbrev pub path_max : ℕ
path_max = 4096

-- '/' and '.'
abbrev pub slash : ℕ
slash = 47

abbrev pub dot : ℕ
dot = 46

-- `while (i < len && path_in[i] == '/') i++`
unfoldable pub skip_slashes : List ℕ → List ℕ
skip_slashes [] = []
skip_slashes (c ∷ cs) = let rest = skip_slashes cs in if c == slash then rest else c ∷ cs

-- `if (out_idx == 0 || temp[out_idx - 1] != '/') temp[out_idx++] = '/'`
unfoldable pub put_slash : List ℕ → List ℕ
put_slash [] = slash ∷ []
put_slash (c ∷ cs) = if c == slash then c ∷ cs else slash ∷ c ∷ cs

-- the loop that copies up to the next slash: the path left, and the output
unfoldable pub copy_name : List ℕ → List ℕ → List ℕ × List ℕ
copy_name [] out = ([], out)
copy_name (c ∷ cs) out =
    let rest = copy_name cs (c ∷ out) in if c == slash then (c ∷ cs, out) else rest

-- `while (out_idx > 0 && temp[out_idx - 1] != '/') out_idx--`
unfoldable pub drop_name : List ℕ → List ℕ
drop_name [] = []
drop_name (c ∷ cs) = let rest = drop_name cs in if c == slash then c ∷ cs else rest

-- what a double dot does to the output
unfoldable pub remove_last : List ℕ → List ℕ
remove_last [] = []
remove_last (c ∷ []) = c ∷ []
remove_last (c ∷ d ∷ ds) = drop_name (d ∷ ds)

-- the four branches of the loop
pub data Token : Type 0 where
  at_slash : Token
  single_dot : Token
  double_dot : Token
  at_name : Token

-- `i == len || path_in[i] == '/'`
abbrev pub at_end : List ℕ → Bool
at_end [] = true
at_end (c ∷ cs) = c == slash

unfoldable pub second_token : List ℕ → Token
second_token [] = at_name
second_token (c ∷ cs) = if (c == dot) && at_end cs then double_dot else at_name

unfoldable pub token : ℕ → List ℕ → Token
token c cs =
    if c == slash
    then at_slash
    else (if c == dot then (if at_end cs then single_dot else second_token cs) else at_name)

-- the loop over the path, for at most `fuel` rounds
unfoldable pub collapse_from : ℕ → List ℕ → List ℕ → Option (List ℕ)
collapse_from zero [] out = some out
collapse_from zero (c ∷ cs) out = none
collapse_from (suc fuel) [] out = some out
collapse_from (suc fuel) (c ∷ cs) out =
    let copied = copy_name (c ∷ cs) out in
    elim (token c cs) [
      | at_slash ↦ collapse_from fuel (skip_slashes (c ∷ cs)) (put_slash out)
      | single_dot ↦ collapse_from fuel cs out
      | double_dot ↦ collapse_from fuel (drop 1 cs) (remove_last out)
      | at_name ↦ collapse_from fuel copied.0 copied.1
    ]

-- `if (out_idx > 1 && temp[out_idx - 1] == '/') out_idx--`
unfoldable pub drop_slash : List ℕ → List ℕ
drop_slash [] = []
drop_slash (c ∷ []) = c ∷ []
drop_slash (c ∷ d ∷ ds) = if c == slash then d ∷ ds else c ∷ d ∷ ds

abbrev pub reverse_onto : List ℕ → List ℕ → List ℕ
reverse_onto [] ys = ys
reverse_onto (x ∷ xs) ys = reverse_onto xs (x ∷ ys)

-- the end of `collapse_path`
abbrev pub finished : Option (List ℕ) → Option (List ℕ)
finished none = none
finished (some out) = some (reverse_onto (drop_slash out) [])

-- `collapse_path` once `temp` is allocated; `none` is a loop that has not ended.
unfoldable pub collapse_path : List ℕ → Option (List ℕ)
collapse_path path = finished (collapse_from (length path) path [])

pub data PathResult : Type 0 where
  enametoolong : PathResult
  written : List ℕ → PathResult

-- the branch of a relative path
unfoldable pub from_cwd : List ℕ → List ℕ → PathResult
from_cwd [] rel =
    if ltb path_max (length rel + 2)
    then enametoolong
    else written (take (path_max - 1) (slash ∷ rel))
from_cwd (d ∷ ds) rel =
    if ltb path_max (length (d ∷ ds) + length rel + 2)
    then enametoolong
    else written (d ∷ ds ++ (slash ∷ rel))

-- `handle_relative_path`, for a path, a working directory and a buffer that are not NULL
unfoldable pub handle_relative_path : List ℕ → List ℕ → PathResult
handle_relative_path (c ∷ cs) cwd =
    if c == slash then written (take (path_max - 1) (c ∷ cs)) else from_cwd cwd (c ∷ cs)
handle_relative_path [] cwd = from_cwd cwd []
