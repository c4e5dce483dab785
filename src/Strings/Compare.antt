-- ===== src/Strings/Compare.antt =====
-- What the comparisons decide, and what the string functions write.
use plenjos_kernel.Prelude.{
  ℕ, zero, suc, ◌+◌, ◌≡◌, ◌↔◌, refl, arith, ◌==◌, List, [], ◌∷◌, if◌then◌else◌,
}
use plenjos_kernel.Prelude.Int.{pos, ◌-ℤ◌}
use plenjos_kernel.Strings.{Memory, memcmp, strncmp}

-- the `n` bytes at `p`
abbrev pub bytes : Memory → ℕ → ℕ → List ℕ
bytes m p zero = []
bytes m p (suc n) = m p ∷ bytes m (p + 1) n

-- the string at `p`, of at most `n` bytes
abbrev pub string : Memory → ℕ → ℕ → List ℕ
string m p zero = []
string m p (suc n) = if m p == 0 then [] else m p ∷ string m (p + 1) n

-- memcmp returns 0 exactly on equal ranges.
pub memcmp_decides :
    (m : Memory) (p1 p2 n : ℕ) → (memcmp m p1 p2 n ≡ pos 0) ↔ (bytes m p1 n ≡ bytes m p2 n)
unfolding memcmp
memcmp_decides m p1 p2 zero = (λ _. refl, λ _. refl)
memcmp_decides m p1 p2 (suc n) = let rest = memcmp_decides m (p1 + 1) (p2 + 1) n in ground arith

-- strncmp returns 0 exactly on strings that agree up to their ends or to `n` bytes.
pub strncmp_decides :
    (m : Memory) (s1 s2 n : ℕ) → (strncmp m s1 s2 n ≡ pos 0) ↔ (string m s1 n ≡ string m s2 n)
unfolding strncmp ◌-ℤ◌
strncmp_decides m s1 s2 zero = (λ _. refl, λ _. refl)
strncmp_decides m s1 s2 (suc n) = let rest = strncmp_decides m (s1 + 1) (s2 + 1) n in ground arith
