-- ===== src/Tetris/Shapes.antt =====
-- usr/shell/src/tetris.c: the tetrominoes, by kind, rotation, row and column.
use plenjos_kernel.Prelude.{ℕ, List, [], ◌∷◌}

abbrev pub row : ℕ → ℕ → ℕ → ℕ → List ℕ
row a b c d = a ∷ b ∷ c ∷ d ∷ []

abbrev pub shape : List ℕ → List ℕ → List ℕ → List ℕ → List (List ℕ)
shape a b c d = a ∷ b ∷ c ∷ d ∷ []

abbrev pub tetrominoes : List (List (List (List ℕ)))
tetrominoes =
    (shape (row 0 0 0 0) (row 1 1 1 1) (row 0 0 0 0) (row 0 0 0 0)
      ∷ shape (row 0 0 1 0) (row 0 0 1 0) (row 0 0 1 0) (row 0 0 1 0)
      ∷ shape (row 0 0 0 0) (row 1 1 1 1) (row 0 0 0 0) (row 0 0 0 0)
      ∷ shape (row 0 1 0 0) (row 0 1 0 0) (row 0 1 0 0) (row 0 1 0 0)
      ∷ [])
    ∷ (shape (row 0 0 0 0) (row 0 1 1 0) (row 0 1 1 0) (row 0 0 0 0)
        ∷ shape (row 0 0 0 0) (row 0 1 1 0) (row 0 1 1 0) (row 0 0 0 0)
        ∷ shape (row 0 0 0 0) (row 0 1 1 0) (row 0 1 1 0) (row 0 0 0 0)
        ∷ shape (row 0 0 0 0) (row 0 1 1 0) (row 0 1 1 0) (row 0 0 0 0)
        ∷ [])
    ∷ (shape (row 0 0 0 0) (row 1 1 1 0) (row 0 1 0 0) (row 0 0 0 0)
        ∷ shape (row 0 1 0 0) (row 1 1 0 0) (row 0 1 0 0) (row 0 0 0 0)
        ∷ shape (row 0 1 0 0) (row 1 1 1 0) (row 0 0 0 0) (row 0 0 0 0)
        ∷ shape (row 0 1 0 0) (row 0 1 1 0) (row 0 1 0 0) (row 0 0 0 0)
        ∷ [])
    ∷ (shape (row 0 0 0 0) (row 0 1 1 0) (row 1 1 0 0) (row 0 0 0 0)
        ∷ shape (row 1 0 0 0) (row 1 1 0 0) (row 0 1 0 0) (row 0 0 0 0)
        ∷ shape (row 0 0 0 0) (row 0 1 1 0) (row 1 1 0 0) (row 0 0 0 0)
        ∷ shape (row 1 0 0 0) (row 1 1 0 0) (row 0 1 0 0) (row 0 0 0 0)
        ∷ [])
    ∷ (shape (row 0 0 0 0) (row 1 1 0 0) (row 0 1 1 0) (row 0 0 0 0)
        ∷ shape (row 0 1 0 0) (row 1 1 0 0) (row 1 0 0 0) (row 0 0 0 0)
        ∷ shape (row 0 0 0 0) (row 1 1 0 0) (row 0 1 1 0) (row 0 0 0 0)
        ∷ shape (row 0 1 0 0) (row 1 1 0 0) (row 1 0 0 0) (row 0 0 0 0)
        ∷ [])
    ∷ (shape (row 0 0 0 0) (row 1 1 1 0) (row 0 0 1 0) (row 0 0 0 0)
        ∷ shape (row 0 1 0 0) (row 0 1 0 0) (row 1 1 0 0) (row 0 0 0 0)
        ∷ shape (row 1 0 0 0) (row 1 1 1 0) (row 0 0 0 0) (row 0 0 0 0)
        ∷ shape (row 0 1 1 0) (row 0 1 0 0) (row 0 1 0 0) (row 0 0 0 0)
        ∷ [])
    ∷ (shape (row 0 0 0 0) (row 1 1 1 0) (row 1 0 0 0) (row 0 0 0 0)
        ∷ shape (row 1 1 0 0) (row 0 1 0 0) (row 0 1 0 0) (row 0 0 0 0)
        ∷ shape (row 0 0 1 0) (row 1 1 1 0) (row 0 0 0 0) (row 0 0 0 0)
        ∷ shape (row 0 1 0 0) (row 0 1 0 0) (row 0 1 1 0) (row 0 0 0 0)
        ∷ [])
    ∷ []
