-- ===== src/Tetris/Lines.antt =====
-- Clearing the lines takes out the full rows and puts as many empty ones on top.
use plenjos_kernel.Prelude.{
  ℕ, zero, suc, ◌+◌, ◌≤◌, ◌≡◌, refl, sym, ap, ap₂, ◌∙◌, arith, false, some, List, [], ◌∷◌, ◌++◌,
  append_assoc, append-nil, if◌then◌else◌, replicate, length, Bool-cases, inl, inr,
}
use plenjos_kernel.Tetris.{
  Board, board_h, row_full, empty_row, clear_from, clear_lines, reverse_onto,
}

-- the rows that are not full, and the number of the others
abbrev pub keep : Board → Board
keep [] = []
keep (r ∷ rs) = if row_full r then keep rs else r ∷ keep rs

abbrev pub full_count : Board → ℕ
full_count [] = 0
full_count (r ∷ rs) = if row_full r then suc (full_count rs) else full_count rs

empty-open : row_full empty_row ≡ false
unfolding row_full
empty-open = refl

replicate-behind :
    {A : Type 0} (k : ℕ) (a : A) (xs : List A) → replicate k a ++ (a ∷ xs) ≡ a ∷ replicate k a ++ xs
replicate-behind zero a xs = refl
replicate-behind (suc k) a xs = ap (λ r. a ∷ r) (replicate-behind k a xs)

full_count-fits : (rows : Board) → full_count rows ≤ length rows
full_count-fits [] = omega arith
full_count-fits (r ∷ rows) = let h = full_count-fits rows in ground arith

clear-empty :
    (fuel k : ℕ) (below : Board)
    → k ≤ fuel
    → clear_from fuel (replicate k empty_row) below ≡ some (replicate k empty_row ++ below)
unfolding clear_from
clear-empty zero zero below enough = refl
clear-empty zero (suc k) below enough = absurd (omega (arith, enough))
clear-empty (suc fuel) zero below enough = refl
clear-empty (suc fuel) (suc k) below enough = rw (empty-open) (
    clear-empty fuel k (empty_row ∷ below) (omega (arith, enough))
    ∙ ap some (replicate-behind k empty_row below))

-- The rows above, with the empty rows that have come in, are all gone through.
clear-rows :
    (fuel k : ℕ) (rows below : Board)
    → length rows + k + full_count rows ≤ fuel
    → clear_from fuel (rows ++ replicate k empty_row) below
      ≡ some (replicate (full_count rows + k) empty_row ++ reverse_onto (keep rows) below)
unfolding clear_from
clear-rows fuel k [] below enough =
    clear-empty fuel k below (omega (arith, enough))
    ∙ ap some (ap (λ n. replicate n empty_row ++ below) (omega arith))
clear-rows zero k (r ∷ rows) below enough = absurd (omega (arith, enough))
clear-rows (suc fuel) k (r ∷ rows) below enough = elim (Bool-cases (row_full r)) [
  | inr open_row ↦ rw open_row (clear-rows fuel k rows (r ∷ below) (ground (arith, enough)))
  | inl full_row ↦
      let snoc : (rows ++ replicate k empty_row) ++ (empty_row ∷ [])
          ≡ rows ++ replicate (suc k) empty_row =
        append_assoc rows (replicate k empty_row) (empty_row ∷ [])
        ∙ ap (λ e. rows ++ e)
            (replicate-behind k empty_row []
              ∙ ap (λ e. empty_row ∷ e) (append-nil (replicate k empty_row))) in
      let few : length rows + suc k + full_count rows ≤ fuel = ground (arith, enough) in
      rw full_row (
        ap (λ b. clear_from fuel b below) snoc
        ∙ clear-rows fuel (suc k) rows below few
        ∙ ap some (ap (λ n. replicate n empty_row ++ reverse_onto (keep rows) below) (omega arith)))
]

keep-reverse :
    (rows acc below : Board)
    → reverse_onto (keep (reverse_onto rows acc)) below
      ≡ reverse_onto (keep acc) (keep rows ++ below)
keep-reverse [] acc below = refl
keep-reverse (r ∷ rows) acc below = elim (Bool-cases (row_full r)) [
  | inl e ↦ keep-reverse rows (r ∷ acc) below ∙ rw e
  | inr e ↦ keep-reverse rows (r ∷ acc) below ∙ rw e
]

full_count-reverse :
    (rows acc : Board) → full_count (reverse_onto rows acc) ≡ full_count rows + full_count acc
full_count-reverse [] acc = omega arith
full_count-reverse (r ∷ rows) acc = elim (Bool-cases (row_full r)) [
  | inl e ↦ full_count-reverse rows (r ∷ acc) ∙ rw e (omega arith)
  | inr e ↦ full_count-reverse rows (r ∷ acc) ∙ rw e (omega arith)
]

length-reverse :
    {A : Type 0} (xs acc : List A) → length (reverse_onto xs acc) ≡ length xs + length acc
length-reverse [] acc = omega arith
length-reverse (x ∷ xs) acc = omega (arith, length-reverse xs (x ∷ acc))

-- On a board of 20 rows the loop ends, the rows that are not full stay in their order, and as many
-- empty rows as were full come in at the top.
pub clear_lines_lem :
    (board : Board)
    → length board ≡ board_h
    → clear_lines board ≡ some (replicate (full_count board) empty_row ++ keep board)
unfolding clear_lines
clear_lines_lem board twenty =
    let rows = reverse_onto board [] in
    let long : length rows ≡ 20 = length-reverse board [] ∙ omega (arith, twenty) in
    let count : full_count rows + 0 ≡ full_count board =
      omega (arith, full_count-reverse board []) in
    let few : length rows + 0 + full_count rows ≤ 40 = omega (arith, long, full_count-fits rows) in
    ap (λ b. clear_from 40 b []) (sym (append-nil rows))
    ∙ clear-rows 40 0 rows [] few
    ∙ ap some (
        ap₂ (λ n b. replicate n empty_row ++ b) count
          (keep-reverse board [] [] ∙ append-nil (keep board)))
