-- ===== src/Tetris/Play.antt =====
-- The falling piece never overlaps the board.
use plenjos_kernel.Prelude.{
  ℕ, ◌+◌, ◌%◌, ◌≡◌, refl, sym, ap, subst, ◌∙◌, arith, Bool, true, false, Option, none, some, ◌==◌,
  ◌&&◌, not, if◌then◌else◌, Bool-cases, inl, inr,
}
use plenjos_kernel.Prelude.Int.{ℤ, pos, negsuc, ◌+ℤ◌}
use plenjos_kernel.Tetris.{
  Board, Tetromino, Game, Round, goes_on, game_over, check_collision, moved, landed, fresh,
  game_round, rand, clear_lines, place_tetromino,
}

-- The piece lies inside the board, on free cells.
abbrev pub IsFree : Board → Tetromino → Type 0
IsFree board t = check_collision board t (pos 0) (pos 0) 0 ≡ false

+ℤ-zero : (z : ℤ) → z +ℤ pos 0 ≡ z
unfolding ◌+ℤ◌
+ℤ-zero (pos n) = ground arith
+ℤ-zero (negsuc n) = ground arith

-- A piece that was tested at a place is free once it is there.
tested-IsFree :
    (board : Board) (t s : Tetromino) (dx dy : ℤ) (dr : ℕ)
    → check_collision board t dx dy dr ≡ false
    → s.kind ≡ t.kind
    → s.rotation % 4 ≡ (t.rotation + dr) % 4
    → s.x ≡ t.x +ℤ dx
    → s.y ≡ t.y +ℤ dy
    → IsFree board s
unfolding check_collision
tested-IsFree board t s dx dy dr free k r x y =
    let r0 : (s.rotation + 0) % 4 ≡ (t.rotation + dr) % 4 = ap (λ n. n % 4) (omega arith) ∙ r in
    rw (k, r0, +ℤ-zero s.x, +ℤ-zero s.y, x, y) free

pick :
    (board : Board) (s r : Tetromino) (wanted hit : Bool)
    → (hit ≡ false → IsFree board s)
    → IsFree board r
    → IsFree board (if wanted && not hit then s else r)
pick board s r true true clear rest = rest
pick board s r true false clear rest = clear refl
pick board s r false hit clear rest = rest

moved-IsFree :
    (board : Board) (t : Tetromino) (input : ℕ)
    → IsFree board t
    → IsFree board (moved board t input)
unfolding moved
moved-IsFree board t input free =
    pick board _ _ (input == 1) _
      (λ c.
        tested-IsFree board t (record t { x = t.x +ℤ negsuc 0 }) (negsuc 0) (pos 0) 0 c refl
          (omega arith) refl (sym (+ℤ-zero t.y)))
      (pick board _ _ (input == 2) _
        (λ c.
          tested-IsFree board t (record t { x = t.x +ℤ pos 1 }) (pos 1) (pos 0) 0 c refl
            (omega arith) refl (sym (+ℤ-zero t.y)))
        (pick board _ _ (input == 3) _
          (λ c.
            tested-IsFree board t (record t { rotation = (t.rotation + 1) % 4 }) (pos 0) (pos 0) 1 c
              refl (omega arith) (sym (+ℤ-zero t.x)) (sym (+ℤ-zero t.y)))
          (pick board _ _ (input == 4) _
            (λ c.
              tested-IsFree board t (record t { y = t.y +ℤ pos 1 }) (pos 0) (pos 1) 0 c refl
                (omega arith) (sym (+ℤ-zero t.x)) refl)
            free)))

-- what a round may end with
abbrev Safe : Option Round → Type 0
Safe none = Unit {0}
Safe (some game_over) = Unit {0}
Safe (some (goes_on h)) = IsFree h.board h.current

landed-Safe : (cleared : Board) (tick next : ℕ) → Safe (some (landed cleared tick next))
unfolding landed
landed-Safe cleared tick next =
    elim (Bool-cases (check_collision cleared (fresh ((rand next).1 % 7)) (pos 0) (pos 0) 0)) [
      | inl hit ↦ rw hit tt
      | inr clear ↦ rw clear clear
    ]

cleared-Safe :
    (o : Option Board) (tick next : ℕ)
    → Safe (elim o [ none ↦ none | some cleared ↦ some (landed cleared tick next) ])
cleared-Safe none tick next = tt
cleared-Safe (some cleared) tick next = landed-Safe cleared tick next

round-Safe : (g : Game) (input : ℕ) → IsFree g.board g.current → Safe (game_round g input)
unfolding game_round
round-Safe g input free =
    let t = moved g.board g.current input in
    let t_free = moved-IsFree g.board g.current input free in
    elim (Bool-cases (g.tick % 20 == 0)) [
      | inr no_fall ↦ rw no_fall t_free
      | inl fall ↦ elim (Bool-cases (check_collision g.board t (pos 0) (pos 1) 0)) [
        | inl hit ↦
            rw (fall, hit)
              (cleared-Safe (clear_lines (place_tetromino g.board t)) (g.tick + 1) g.next)
        | inr clear ↦
            rw (fall, clear)
              (tested-IsFree g.board t (record t { y = t.y +ℤ pos 1 }) (pos 0) (pos 1) 0 clear refl
                (omega arith) (sym (+ℤ-zero t.x)) refl)
      ]
    ]

-- After a round that does not end the game, the piece lies inside the board on free cells, if it did
-- before the round.
pub game_round-IsFree :
    (g h : Game) (input : ℕ)
    → IsFree g.board g.current
    → game_round g input ≡ some (goes_on h)
    → IsFree h.board h.current
game_round-IsFree g h input free e = subst Safe e (round-Safe g input free)
