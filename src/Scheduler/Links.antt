-- ===== src/Scheduler/Links.antt =====
-- Lists of threads that are linked through their field `next` (proc/scheduler.c, proc/thread.c).
use plenjos_kernel.Prelude.{
  ℕ, zero, suc, ◌≡◌, ◌≢◌, refl, sym, ◌∙◌, subst, arith, Option, none, some, List, [], ◌∷◌, ◌++◌,
  ◌==◌, if◌then◌else◌, All, ne→==, ==_refl,
}

abbrev pub start_of : List ℕ → Option ℕ
start_of [] = none
start_of (x ∷ xs) = some x

abbrev pub last_from : ℕ → List ℕ → ℕ
last_from x [] = x
last_from x (y ∷ ys) = last_from y ys

abbrev pub last_of : List ℕ → Option ℕ
last_of [] = none
last_of (x ∷ xs) = some (last_from x xs)

-- Each thread of the list points to the one behind it, the last to none, and they are different.
abbrev pub Chain : (ℕ → Option ℕ) → List ℕ → Type 0
Chain next [] = Unit {0}
Chain next (x ∷ xs) = (next x ≡ start_of xs) × All (λ y. y ≢ x) xs × Chain next xs

-- the links with one changed
abbrev pub relink : (ℕ → Option ℕ) → ℕ → Option ℕ → ℕ → Option ℕ
relink next t n u = if u == t then n else next u

pub relink_self : (next : ℕ → Option ℕ) (t : ℕ) (n : Option ℕ) → relink next t n t ≡ n
relink_self next t n = rw (==_refl t)

pub relink_ne : (next : ℕ → Option ℕ) (t u : ℕ) (n : Option ℕ) → u ≢ t → relink next t n u ≡ next u
relink_ne next t u n ne = rw (ne→== u t ne)

pub Chain-relink :
    (next : ℕ → Option ℕ) (t : ℕ) (n : Option ℕ) (q : List ℕ)
    → All (λ y. y ≢ t) q
    → Chain next q
    → Chain (relink next t n) q
Chain-relink next t n [] apart c = tt
Chain-relink next t n (x ∷ xs) (ne, apart) (nx, ax, c) =
    (relink_ne next t x n ne ∙ nx, ax, Chain-relink next t n xs apart c)

-- what holds of a list holds of its last item, and of the list without one of its items
pub All-last_from :
    (P : ℕ → Type 0) (x : ℕ) (xs rest : List ℕ) → All P (x ∷ (xs ++ rest)) → P (last_from x xs)
All-last_from P x [] rest a = a.0
All-last_from P x (y ∷ ys) rest a = All-last_from P y ys rest a.1

pub All-without :
    (P : ℕ → Type 0) (xs : List ℕ) (y : ℕ) (ys : List ℕ) → All P (xs ++ (y ∷ ys)) → All P (xs ++ ys)
All-without P [] y ys a = a.1
All-without P (x ∷ xs) y ys a = (a.0, All-without P xs y ys a.1)

pub All-at : (P : ℕ → Type 0) (xs : List ℕ) (y : ℕ) (ys : List ℕ) → All P (xs ++ (y ∷ ys)) → P y
All-at P [] y ys a = a.0
All-at P (x ∷ xs) y ys a = All-at P xs y ys a.1

pub All-snoc : (P : ℕ → Type 0) (xs : List ℕ) (y : ℕ) → All P xs → P y → All P (xs ++ (y ∷ []))
All-snoc P [] y a py = (py, tt)
All-snoc P (x ∷ xs) y a py = (a.0, All-snoc P xs y a.1 py)

pub All-last : (P : ℕ → Type 0) (x : ℕ) (xs : List ℕ) → All P (x ∷ xs) → P (last_from x xs)
All-last P x [] a = a.0
All-last P x (y ∷ ys) a = All-last P y ys a.1

-- Linking the last thread to a new one.
pub Chain-snoc :
    (next : ℕ → Option ℕ) (x : ℕ) (xs : List ℕ) (t : ℕ)
    → Chain next (x ∷ xs)
    → All (λ y. y ≢ t) (x ∷ xs)
    → next t ≡ none
    → Chain (relink next (last_from x xs) (some t)) (x ∷ (xs ++ (t ∷ [])))
Chain-snoc next x [] t (nx, ax, c) (ne, apart) free = (
  relink_self next x (some t),
  ((λ e. ne (sym e)), tt),
  (relink_ne next x t (some t) (λ e. ne (sym e)) ∙ free, tt, tt),
)
Chain-snoc next x (y ∷ ys) t (nx, ax, c) (ne, apart) free =
    let away = λ (e : x ≡ last_from y ys). All-last (λ z. z ≢ x) y ys ax (sym e) in
    (
      relink_ne next (last_from y ys) x (some t) away ∙ nx,
      All-snoc (λ z. z ≢ x) (y ∷ ys) t ax (λ e. ne (sym e)),
      Chain-snoc next y ys t c apart free,
    )

-- Taking a thread out behind another.
pub Chain-cut :
    (next : ℕ → Option ℕ) (c : ℕ) (ps : List ℕ) (x : ℕ) (rest : List ℕ)
    → Chain next (c ∷ (ps ++ (x ∷ rest)))
    → Chain (relink next (last_from c ps) (next x)) (c ∷ (ps ++ rest))
Chain-cut next c [] x rest (nc, ac, (nx, ax, ch)) =
    (relink_self next c (next x) ∙ nx, ac.1, Chain-relink next c (next x) rest ac.1 ch)
Chain-cut next c (p ∷ ps) x rest (nc, ac, ch) = (
  relink_ne next (last_from p ps) c (next x)
        (λ e. All-last_from (λ z. z ≢ c) p ps (x ∷ rest) ac (sym e))
      ∙ nc,
  All-without (λ z. z ≢ c) (p ∷ ps) x rest ac,
  Chain-cut next p ps x rest ch,
)

-- The threads before one are different from it.
pub before_apart :
    (next : ℕ → Option ℕ) (c : ℕ) (ps : List ℕ) (x : ℕ) (rest : List ℕ)
    → Chain next (c ∷ (ps ++ (x ∷ rest)))
    → All (λ y. y ≢ x) (c ∷ ps)
before_apart next c [] x rest (nc, ac, ch) = ((λ e. ac.0 (sym e)), tt)
before_apart next c (p ∷ ps) x rest (nc, ac, ch) =
    ((λ e. All-at (λ z. z ≢ c) (p ∷ ps) x rest ac (sym e)), before_apart next p ps x rest ch)

pub last_from-snoc : (x : ℕ) (xs : List ℕ) (t : ℕ) → last_from x (xs ++ (t ∷ [])) ≡ t
last_from-snoc x [] t = refl
last_from-snoc x (y ∷ ys) t = last_from-snoc y ys t

pub last_from-cut :
    (c : ℕ) (ps : List ℕ) (x y : ℕ) (rest : List ℕ)
    → last_from c (ps ++ (x ∷ y ∷ rest)) ≡ last_from c (ps ++ (y ∷ rest))
last_from-cut c [] x y rest = refl
last_from-cut c (p ∷ ps) x y rest = last_from-cut p ps x y rest

-- Following the links `n` times from a thread.
abbrev pub follow : ℕ → (ℕ → Option ℕ) → Option ℕ → Option ℕ
follow n next none = none
follow zero next (some u) = some u
follow (suc n) next (some u) = follow n next (next u)

-- The links of the list go round, from its last thread to `x`.
abbrev pub Round : (ℕ → Option ℕ) → ℕ → List ℕ → Type 0
Round next x [] = Unit {0}
Round next x (u ∷ []) = next u ≡ some x
Round next x (u ∷ w ∷ ws) = (next u ≡ some w) × Round next x (w ∷ ws)

pub Chain-Round :
    (next : ℕ → Option ℕ) (x u : ℕ) (us : List ℕ)
    → Chain next (u ∷ us)
    → Round (relink next (last_from u us) (some x)) x (u ∷ us)
Chain-Round next x u [] c = relink_self next u (some x)
Chain-Round next x u (w ∷ ws) (nu, au, c) = (
  relink_ne next (last_from w ws) u (some x) (λ e. All-last (λ z. z ≢ u) w ws au (sym e)) ∙ nu,
  Chain-Round next x w ws c,
)

pub Round-step :
    (P : Option ℕ → Type 0) (next : ℕ → Option ℕ) (x u : ℕ) (us : List ℕ)
    → Round next x (u ∷ us)
    → All (λ w. P (some w)) (u ∷ us)
    → P (some x)
    → All (λ w. P (next w)) (u ∷ us)
Round-step P next x u [] r a px = (subst P (sym r) px, tt)
Round-step P next x u (w ∷ ws) (r, rs) (pu, a) px =
    (subst P (sym r) a.0, Round-step P next x w ws rs a px)

pub none-some : (w : ℕ) → some w ≢ none
none-some w e = ground arith

pub Round-follow :
    (n : ℕ) (next : ℕ → Option ℕ) (x : ℕ) (us : List ℕ)
    → Round next x (x ∷ us)
    → All (λ w. follow n next (some w) ≢ none) (x ∷ us)
Round-follow zero next x us r = (none-some x, all_some us)
  where
    all_some : (ws : List ℕ) → All (λ w. some w ≢ none) ws
    all_some [] = tt
    all_some (w ∷ ws) = (none-some w, all_some ws)
Round-follow (suc n) next x us r =
    let a = Round-follow n next x us r in
    Round-step (λ o. follow n next o ≢ none) next x x us r a a.0
