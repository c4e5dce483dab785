-- ===== src/Tetris/Examples.antt =====
-- Tests and witnesses of the game.
use plenjos_kernel.Prelude.{ℕ, ◌≡◌, refl, some, List, [], ◌∷◌, ◌++◌, replicate}
use plenjos_kernel.Prelude.Int.{pos, ◌+ℤ◌}
use plenjos_kernel.Tetris.{
  Board, Game, goes_on, game_round, check_collision, empty_row, fresh, moved, hits, cell,
  collides_at,
}
use plenjos_kernel.Tetris.Play.{IsFree}

abbrev full_row : List ℕ
full_row = replicate 10 1

-- a full row between two that are not
abbrev three_rows : Board
three_rows =
    replicate 17 empty_row ++ ((1 ∷ 1 ∷ replicate 8 0) ∷ full_row ∷ (0 ∷ replicate 9 1) ∷ [])

abbrev start : Game
start = record { board = replicate 20 empty_row; current = fresh 1; tick = 1; next = 1 }

abbrev to_left : Game
to_left = record start {
  current = record { kind = 1; rotation = 0; x = pos 2; y = pos 0 };
  tick = 2;
}

start-IsFree : IsFree start.board start.current
unfolding check_collision collides_at hits cell ◌+ℤ◌
start-IsFree = refl

start_left : game_round start 1 ≡ some (goes_on to_left)
unfolding game_round moved check_collision collides_at hits cell ◌+ℤ◌
start_left = refl
