-- ===== src/Ring.antt =====
-- Circular arrays: the items of an array from an index on, going round at its capacity. Shared by
-- the keyboard buffer and the queue of kernel tasks.
use native.Mathlib.Nat.{mod-add-mod, mod-eq_of_lt, mod-eq-sub-mod}
use native.Mathlib.Decide.{dec_lt}
use plenjos_kernel.Prelude.{
  ℕ, zero, suc, ◌+◌, ◌-◌, ◌%◌, ◌≤◌, ◌<◌, ◌≡◌, ◌≢◌, refl, ap, ap₂, ◌∙◌, subst, List, [], ◌∷◌, ◌++◌,
  arith, length, get_or, set, get_or-set_self, get_or-set_ne,
}

-- one step round the ring, on an index inside it
pub round-step : (room h n : ℕ) → ((h + 1) % room + n) % room ≡ (h + suc n) % room
round-step room h n = mod-add-mod (h + 1) room n ∙ ap (λ k. k % room) (omega arith)

-- A place fewer than `room` steps ahead is not the place itself.
pub round-ne : (room h n : ℕ) → h < room → suc n < room → (h + suc n) % room ≢ h
round-ne room h n inside few = elim (dec_lt (h + suc n) room) [
  | yes flat ↦ omega (arith, mod-eq_of_lt flat)
  | no over ↦
      let once = mod-eq-sub-mod {n = h + suc n} {m = room} (omega arith) in
      let small = mod-eq_of_lt {n = h + suc n - room} {m = room} (omega arith) in omega arith
]

module _ {A : Type 0} (d : A) (room : ℕ) where
  -- the `n` items from index `h` on
  abbrev pub items : List A → ℕ → ℕ → List A
  items buf h zero = []
  items buf h (suc n) = get_or buf h d ∷ items buf ((h + 1) % room) n

  pub length-items : (buf : List A) (h n : ℕ) → length (items buf h n) ≡ n
  length-items buf h zero = refl
  length-items buf h (suc n) = ap suc (length-items buf ((h + 1) % room) n)

  -- Writing the place behind the items leaves them, and puts the new one behind them.
  pub items-set :
      (buf : List A) (v : A) (h n : ℕ)
      → room ≤ length buf
      → h < room
      → n < room
      → items (set buf ((h + n) % room) v) h (suc n) ≡ items buf h n ++ (v ∷ [])
  items-set buf v h zero long inside few =
      let e : (h + 0) % room ≡ h = ap (λ k. k % room) (omega arith) ∙ mod-eq_of_lt inside in
      rw (e, get_or-set_self buf h v d (omega arith))
  items-set buf v h (suc n) long inside few =
      let here =
        get_or-set_ne buf ((h + suc n) % room) h v d (round-ne room h n inside (omega arith)) in
      let rest = items-set buf v ((h + 1) % room) n long (omega arith) (omega arith) in
      ap₂ ◌∷◌ here (
        subst
          (λ i.
            items (set buf i v) ((h + 1) % room) (suc n) ≡ items buf ((h + 1) % room) n ++ (v ∷ []))
          (round-step room h n) rest)
