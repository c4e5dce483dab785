-- ===== src/Tetris.antt =====
-- usr/shell/src/tetris.c: the game's board, the moves of the falling piece, and the rounds of its main
-- loop. Drawing is left out; what it marks as dirty is not kept. The numbers are in range of `int`.
use plenjos_kernel.Prelude.{
  ℕ, zero, suc, ◌+◌, ◌-◌, ◌*◌, ◌/◌, ◌%◌, ◌^◌, ◌≡◌, refl, Bool, true, false, Option, none, some,
  List, [], ◌∷◌, ◌++◌, ◌==◌, ltb, leb, not, ◌&&◌, ◌||◌, if◌then◌else◌, take, drop, get_or, set,
  replicate,
}
use plenjos_kernel.Prelude.Int.{ℤ, pos, negsuc, ◌+ℤ◌}
use plenjos_kernel.Keyboard.{KbdEvent}
pub mod Shapes
pub mod Lines
pub mod Play
mod Examples
use Shapes.{tetrominoes}

abbrev pub board_w : ℕ
board_w = 10

abbrev pub board_h : ℕ
board_h = 20

-- rows of cells; a cell is 0 where it is free
abbrev pub Board : Type 0
Board = List (List ℕ)

-- `Tetromino`
pub record Tetromino : Type 0 where
  pub kind : ℕ
  pub rotation : ℕ
  pub x : ℤ
  pub y : ℤ

abbrev pub block : ℕ → ℕ → ℕ → ℕ → ℕ
block kind rot j i = get_or (get_or (get_or (get_or tetrominoes kind []) rot []) j []) i 0

-- `rand`: the next state, and the number
unfoldable pub rand : ℕ → ℕ × ℕ
rand next =
    let next1 = (next * 1103515245 + 12345) % 2 ^ 64 in (next1, next1 / 65536 % 2 ^ 32 % 32768)

-- the cell at a place, `none` outside the board
unfoldable pub cell : Board → ℤ → ℤ → Option ℕ
cell board (pos bx) (pos by) =
    if ltb bx board_w && ltb by board_h then some (get_or (get_or board by []) bx 0) else none
cell board (pos bx) (negsuc n) = none
cell board (negsuc n) by = none

-- A block meets the edge of the board, or a cell that is taken.
unfoldable pub hits : Board → ℤ → ℤ → Bool
hits board bx by = elim (cell board bx by) [ none ↦ true | some c ↦ not (c == 0) ]

-- the 16 places of a piece, in the order of the two loops
abbrev pub places : List (ℕ × ℕ)
places =
    (0, 0)
    ∷ (0, 1)
    ∷ (0, 2)
    ∷ (0, 3)
    ∷ (1, 0)
    ∷ (1, 1)
    ∷ (1, 2)
    ∷ (1, 3)
    ∷ (2, 0)
    ∷ (2, 1)
    ∷ (2, 2)
    ∷ (2, 3)
    ∷ (3, 0)
    ∷ (3, 1)
    ∷ (3, 2)
    ∷ (3, 3)
    ∷ []

unfoldable pub collides_at : Board → ℕ → ℕ → ℤ → ℤ → List (ℕ × ℕ) → Bool
collides_at board kind rot x y [] = false
collides_at board kind rot x y ((j, i) ∷ ps) =
    let rest = collides_at board kind rot x y ps in
    if block kind rot j i == 0
    then rest
    else (if hits board (x +ℤ pos i) (y +ℤ pos j) then true else rest)

unfoldable pub check_collision : Board → Tetromino → ℤ → ℤ → ℕ → Bool
check_collision board t dx dy dr =
    collides_at board t.kind ((t.rotation + dr) % 4) (t.x +ℤ dx) (t.y +ℤ dy) places

-- `board[by][bx] = 1`, inside the board
unfoldable pub fill : Board → ℤ → ℤ → Board
fill board (pos bx) (pos by) =
    if ltb bx board_w && ltb by board_h then set board by (set (get_or board by []) bx 1) else board
fill board (pos bx) (negsuc n) = board
fill board (negsuc n) by = board

unfoldable pub place_at : Board → Tetromino → List (ℕ × ℕ) → Board
place_at board t [] = board
place_at board t ((j, i) ∷ ps) =
    if block t.kind t.rotation j i == 0
    then place_at board t ps
    else place_at (fill board (t.x +ℤ pos i) (t.y +ℤ pos j)) t ps

unfoldable pub place_tetromino : Board → Tetromino → Board
place_tetromino board t = place_at board t places

-- a row without a free cell
unfoldable pub row_full : List ℕ → Bool
row_full [] = true
row_full (c ∷ cs) = let rest = row_full cs in if c == 0 then false else rest

abbrev pub empty_row : List ℕ
empty_row = replicate board_w 0

-- The loop of `clear_lines` from row `y` up, for at most `fuel` rounds: `above` are the rows up to `y`,
-- the nearest first, and `below` those behind it. A full row goes, the rows above it move down, and an
-- empty one comes in at the top.
unfoldable pub clear_from : ℕ → List (List ℕ) → List (List ℕ) → Option Board
clear_from zero [] below = some below
clear_from zero (r ∷ above) below = none
clear_from (suc fuel) [] below = some below
clear_from (suc fuel) (r ∷ above) below =
    let again = clear_from fuel (above ++ (empty_row ∷ [])) below in
    let up = clear_from fuel above (r ∷ below) in if row_full r then again else up

abbrev pub reverse_onto : {A : Type 0} → List A → List A → List A
reverse_onto [] ys = ys
reverse_onto (x ∷ xs) ys = reverse_onto xs (x ∷ ys)

-- Each of the 20 rows takes one round, and each full one a second.
unfoldable pub clear_lines : Board → Option Board
clear_lines board = clear_from 40 (reverse_onto board []) []

pub record Game : Type 0 where
  pub board : Board
  pub current : Tetromino
  pub tick : ℕ
  pub next : ℕ

-- the key codes of A, D, W and S, and the state of a key that is pressed
abbrev pub key_pressed : ℕ
key_pressed = 1

abbrev pub input_of : ℕ → ℕ
input_of code =
    if code == 0x80
    then 1
    else (if code == 0x83 then 2 else (if code == 0x96 then 3 else (if code == 0x92 then 4 else 0)))

-- `get_input`, on the event that is taken from the keyboard's buffer; `none` where it is empty
unfoldable pub get_input : Option KbdEvent → ℕ
get_input none = 0
get_input (some event) = if not (event.state == key_pressed) then 0 else input_of event.code

-- The piece after one of the inputs 1 (left), 2 (right), 3 (rotate) and 4 (down), where it collides
-- with nothing; the four tests exclude each other.
unfoldable pub moved : Board → Tetromino → ℕ → Tetromino
moved board t input =
    if (input == 1) && not (check_collision board t (negsuc 0) (pos 0) 0)
    then record t { x = t.x +ℤ negsuc 0 }
    else (if (input == 2) && not (check_collision board t (pos 1) (pos 0) 0)
        then record t { x = t.x +ℤ pos 1 }
        else (if (input == 3) && not (check_collision board t (pos 0) (pos 0) 1)
            then record t { rotation = (t.rotation + 1) % 4 }
            else (if (input == 4) && not (check_collision board t (pos 0) (pos 1) 0)
                then record t { y = t.y +ℤ pos 1 }
                else t)))

-- what the loop ends a round with
pub data Round : Type 0 where
  goes_on : Game → Round
  game_over : Round

abbrev pub fresh : ℕ → Tetromino
fresh kind = record { kind = kind; rotation = 0; x = pos (board_w / 2 - 2); y = pos 0 }

-- the branch in which the piece has landed on the board `cleared`
unfoldable pub landed : Board → ℕ → ℕ → Round
landed cleared tick next =
    let r = rand next in
    let t = fresh (r.1 % 7) in
    if check_collision cleared t (pos 0) (pos 0) 0
    then game_over
    else goes_on (record { board = cleared; current = t; tick = tick; next = r.0 })

-- a round of the main loop; `none` is a clearing of lines that has not ended
unfoldable pub game_round : Game → ℕ → Option Round
game_round g input =
    let t = moved g.board g.current input in
    if g.tick % 20 == 0
    then (if check_collision g.board t (pos 0) (pos 1) 0
        then elim (clear_lines (place_tetromino g.board t)) [
          | none ↦ none
          | some cleared ↦ some (landed cleared (g.tick + 1) g.next)
        ]
        else some
            (goes_on (record g { current = record t { y = t.y +ℤ pos 1 }; tick = g.tick + 1 })))
    else some (goes_on (record g { current = t; tick = g.tick + 1 }))
