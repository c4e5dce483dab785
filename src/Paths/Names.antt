-- ===== src/Paths/Names.antt =====
-- Paths as sequences of names: the names of a path, what they resolve to, and how the result reads.
-- Names and texts are written last byte first.
use plenjos_kernel.Prelude.{
  ℕ, ◌≡◌, ◌≢◌, refl, arith, true, false, List, [], ◌∷◌, ◌++◌, ◌==◌, ◌&&◌, if◌then◌else◌, Bool-cases,
  inl, inr, ne→==,
}
use plenjos_kernel.Paths.{slash, dot, skip_slashes, at_end}

-- the names between the slashes, empty ones included
unfoldable pub words : List ℕ → List ℕ → List (List ℕ)
words cur [] = cur ∷ []
words cur (c ∷ cs) =
    let next = words [] cs in
    let more = words (c ∷ cur) cs in if c == slash then cur ∷ next else more

abbrev pub parent : List (List ℕ) → List (List ℕ)
parent [] = []
parent (n ∷ ns) = ns

-- An empty name and "." stay in the directory, ".." goes to its parent, which for the root is the
-- root, and every other name is entered.
abbrev pub enter : List ℕ → List (List ℕ) → List (List ℕ)
enter [] ns = ns
enter (a ∷ []) ns = if a == dot then ns else (a ∷ []) ∷ ns
enter (a ∷ b ∷ []) ns = if (a == dot) && (b == dot) then parent ns else (a ∷ b ∷ []) ∷ ns
enter (a ∷ b ∷ c ∷ n) ns = (a ∷ b ∷ c ∷ n) ∷ ns

abbrev pub resolve : List (List ℕ) → List (List ℕ) → List (List ℕ)
resolve [] ns = ns
resolve (w ∷ ws) ns = resolve ws (enter w ns)

-- the text of a directory, with a slash behind it
abbrev pub closed : List (List ℕ) → List ℕ
closed [] = slash ∷ []
closed (n ∷ ns) = slash ∷ n ++ closed ns

-- without one, but for the root
abbrev pub text : List (List ℕ) → List ℕ
text [] = slash ∷ []
text (n ∷ ns) = n ++ closed ns

pub words-skip :
    (cs : List ℕ) (ns : List (List ℕ))
    → resolve (words [] (skip_slashes cs)) ns ≡ resolve (words [] cs) ns
unfolding words skip_slashes
words-skip [] ns = refl
words-skip (c ∷ cs) ns = elim (Bool-cases (c == slash)) [
  | inl e ↦ rw e (words-skip cs ns)
  | inr e ↦ rw (e, e)
]

-- A name ends where the path is at an end.
pub words-at_end :
    (cur cs : List ℕ) (ns : List (List ℕ))
    → at_end cs ≡ true
    → resolve (words cur cs) ns ≡ resolve (words [] cs) (enter cur ns)
unfolding words
words-at_end cur [] ns e = refl
words-at_end cur (c ∷ cs) ns e = rw e

pub enter-first :
    (ys : List ℕ) (c : ℕ) (ns : List (List ℕ))
    → c ≢ dot
    → enter (ys ++ (c ∷ [])) ns ≡ (ys ++ (c ∷ [])) ∷ ns
enter-first [] c ns ne = rw (ne→== c dot ne)
enter-first (y ∷ []) c ns ne = let e : ((y == dot) && (c == dot)) ≡ false = ground arith in rw e
enter-first (y ∷ z ∷ []) c ns ne = refl
enter-first (y ∷ z ∷ w ∷ ys) c ns ne = refl

pub enter-second :
    (ys : List ℕ) (d c : ℕ) (ns : List (List ℕ))
    → d ≢ dot
    → enter (ys ++ (d ∷ c ∷ [])) ns ≡ (ys ++ (d ∷ c ∷ [])) ∷ ns
enter-second [] d c ns ne = let e : ((d == dot) && (c == dot)) ≡ false = ground arith in rw e
enter-second (y ∷ []) d c ns ne = refl
enter-second (y ∷ z ∷ []) d c ns ne = refl
enter-second (y ∷ z ∷ w ∷ ys) d c ns ne = refl

pub enter-third :
    (ys : List ℕ) (e d c : ℕ) (ns : List (List ℕ))
    → enter (ys ++ (e ∷ d ∷ c ∷ [])) ns ≡ (ys ++ (e ∷ d ∷ c ∷ [])) ∷ ns
enter-third [] e d c ns = refl
enter-third (y ∷ []) e d c ns = refl
enter-third (y ∷ z ∷ []) e d c ns = refl
enter-third (y ∷ z ∷ w ∷ ys) e d c ns = refl
