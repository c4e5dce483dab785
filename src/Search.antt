-- ===== src/Search.antt =====
-- usr/libc/src/stdlib/ssort.c: the binary search. The array is known by what the comparison of the key
-- with each of its elements answers.
use plenjos_kernel.Prelude.{
  ℕ, zero, suc, ◌+◌, ◌-◌, ◌/◌, ◌≤◌, ◌<◌, ◌≡◌, ◌≢◌, refl, sym, ◌∙◌, arith, Bool, true, false, ltb,
  ◌==◌, if◌then◌else◌, lt→ltb, ge→ltb, ne→==, ◌⊎◌, inl, inr,
}
use native.Mathlib.Decide.{dec_lt}
mod Examples

-- the sign of `compar(key, element)`: the key is less, equal or greater
pub data Comparison : Type 0 where
  less : Comparison
  same : Comparison
  greater : Comparison

pub data Answer : Type 0 where
  found : ℕ → Answer
  absent : Answer
  running : Answer

-- the loop over [left, right), for at most `fuel` rounds
unfoldable pub bsearch_from : (ℕ → Comparison) → ℕ → ℕ → ℕ → Answer
bsearch_from compar zero left right = if ltb left right then running else absent
bsearch_from compar (suc fuel) left right =
    let mid = left + (right - left) / 2 in
    let lower = bsearch_from compar fuel left mid in
    let upper = bsearch_from compar fuel (mid + 1) right in
    if ltb left right
    then elim (compar mid) [ less ↦ lower | greater ↦ upper | same ↦ found mid ]
    else absent

-- Each round leaves less than half, so `nmemb` rounds are enough; `absent` is NULL.
unfoldable pub bsearch : (ℕ → Comparison) → ℕ → Answer
bsearch compar nmemb = if nmemb == 0 then absent else bsearch_from compar nmemb 0 nmemb

-- The elements stand in order: from one that the key is less than on, it is less than all.
pub record Sorted (compar : ℕ → Comparison) (nmemb : ℕ) : Type 0 where
  pub less_on : (i j : ℕ) → i ≤ j → j < nmemb → compar i ≡ less → compar j ≡ less
  pub greater_on : (i j : ℕ) → j ≤ i → i < nmemb → compar i ≡ greater → compar j ≡ greater

-- what the answer says about the array
abbrev pub Right : (ℕ → Comparison) → ℕ → Answer → Type 0
Right compar nmemb (found i) = (i < nmemb) × (compar i ≡ same)
Right compar nmemb absent = (k : ℕ) → k < nmemb → compar k ≢ same
Right compar nmemb running = ⊥

less≢same : {c : Comparison} → c ≡ less → c ≢ same
less≢same {c = less} e = cc
less≢same {c = same} e = cc
less≢same {c = greater} e = cc

greater≢same : {c : Comparison} → c ≡ greater → c ≢ same
greater≢same {c = less} e = cc
greater≢same {c = same} e = cc
greater≢same {c = greater} e = cc

Comparison-cases : (c : Comparison) → (c ≡ less) ⊎ ((c ≡ same) ⊎ (c ≡ greater))
Comparison-cases less = inl refl
Comparison-cases same = inr (inl refl)
Comparison-cases greater = inr (inr refl)

module _ (compar : ℕ → Comparison) (nmemb : ℕ) (sorted : Sorted compar nmemb) where
  rounds-Right :
      (fuel left right : ℕ)
      → right - left ≤ fuel
      → right ≤ nmemb
      → ((k : ℕ) → k < left → compar k ≢ same)
      → ((k : ℕ) → right ≤ k → k < nmemb → compar k ≢ same)
      → Right compar nmemb (bsearch_from compar fuel left right)
  unfolding bsearch_from
  rounds-Right zero left right enough within below above =
      rw (ge→ltb left right (omega (arith, enough))) (λ k small. covered k small)
    where
      covered : (k : ℕ) → k < nmemb → compar k ≢ same
      covered k small = elim (dec_lt k left) [
        | yes low ↦ below k low
        | no high ↦ above k (omega (arith, enough)) small
      ]
  rounds-Right (suc fuel) left right enough within below above = elim (dec_lt left right) [
    | no ended ↦ rw (ge→ltb left right (omega arith)) (λ k small. elim (dec_lt k left) [
      | yes low ↦ below k low
      | no high ↦ above k (omega arith) small
    ])
    | yes more ↦
        let mid = left + (right - left) / 2 in
        elim (Comparison-cases (compar mid)) [
          | inl e ↦
              rw (lt→ltb left right more, e)
                (rounds-Right fuel left mid (omega (arith, enough)) (omega (arith, within)) below
                  (λ k high small. less≢same (sorted.less_on mid k high small e)))
          | inr (inl e) ↦ rw (lt→ltb left right more, e) (omega (arith, within), e)
          | inr (inr e) ↦
              rw (lt→ltb left right more, e)
                (rounds-Right fuel (mid + 1) right (omega (arith, enough)) within
                  (λ k low.
                    greater≢same
                      (sorted.greater_on mid k (omega (arith, low)) (omega (arith, within)) e))
                  above)
        ]
  ]

-- On a sorted array bsearch ends: with the index of an element equal to the key, or with NULL where no
-- element is.
pub bsearch_lem :
    (compar : ℕ → Comparison) (nmemb : ℕ)
    → Sorted compar nmemb
    → Right compar nmemb (bsearch compar nmemb)
unfolding bsearch
bsearch_lem compar zero sorted = λ k small. absurd (omega (arith, small))
bsearch_lem compar (suc n) sorted = rw (ne→== (suc n) 0 (omega arith)) (
    rounds-Right compar (suc n) sorted (suc n) 0 (suc n) (omega arith) (omega arith)
      (λ k low. absurd (omega (arith, low))) (λ k high small. absurd (omega (arith, high, small))))
