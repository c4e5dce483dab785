-- ===== src/Strings/Copy.antt =====
-- What the copying loops leave in memory, overlapping ranges included.
use plenjos_kernel.Prelude.{
  ℕ, zero, suc, ◌+◌, ◌-◌, ◌≤◌, ◌<◌, ◌≡◌, ◌≢◌, refl, sym, ap, subst, ◌∙◌, arith, false, ◌&&◌, ltb,
  leb, if◌then◌else◌, ne→==, ==_refl, ◌⊎◌, inl, inr, lt→ltb, ge→ltb, le→leb,
}
use native.Mathlib.Decide.{dec_lt}
use plenjos_kernel.Strings.{Memory, store, copy_up, copy_down, memcpy, memmove}

store_self : (m : Memory) (a v : ℕ) → store m a v a ≡ v
unfolding store
store_self m a v = rw (==_refl a)

store-ne : (m : Memory) (a v x : ℕ) → x ≢ a → store m a v x ≡ m x
unfolding store
store-ne m a v x ne = rw (ne→== x a ne)

-- The upward loop leaves what is below or behind its destination.
pub copy_up-out :
    (m : Memory) (dest src i n x : ℕ)
    → (x < dest + i) ⊎ (dest + i + n ≤ x)
    → copy_up m dest src i n x ≡ m x
unfolding copy_up
copy_up-out m dest src i zero x out = refl
copy_up-out m dest src i (suc n) x out =
    copy_up-out (store m (dest + i) (m (src + i))) dest src (i + 1) n x (ground arith)
    ∙ store-ne m (dest + i) (m (src + i)) x (ground arith)

-- The upward loop is right where the source does not lie below the destination and reach into it.
pub copy_up-in :
    (m : Memory) (dest src i n k : ℕ)
    → (dest ≤ src) ⊎ (src + i + n ≤ dest + i)
    → i ≤ k
    → k < i + n
    → copy_up m dest src i n (dest + k) ≡ m (src + k)
unfolding copy_up
copy_up-in m dest src i zero k apart low high = omega arith
copy_up-in m dest src i (suc n) k apart low high = elim (dec_lt i k) [
  | no e ↦
      let same : k ≡ i = omega arith in
      rw same (
        copy_up-out (store m (dest + i) (m (src + i))) dest src (i + 1) n (dest + i) (ground arith)
        ∙ store_self m (dest + i) (m (src + i)))
  | yes ne ↦
      copy_up-in (store m (dest + i) (m (src + i))) dest src (i + 1) n k (ground arith)
        (omega arith) (omega arith)
      ∙ store-ne m (dest + i) (m (src + i)) (src + k) (ground arith)
]

-- The downward loop leaves what is below or behind its destination.
copy_down-out :
    (m : Memory) (dest src n x : ℕ) → (x < dest) ⊎ (dest + n ≤ x) → copy_down m dest src n x ≡ m x
unfolding copy_down
copy_down-out m dest src zero x out = refl
copy_down-out m dest src (suc n) x out =
    copy_down-out (store m (dest + n) (m (src + n))) dest src n x (ground arith)
    ∙ store-ne m (dest + n) (m (src + n)) x (ground arith)

-- The downward loop is right where the source does not lie above the destination.
copy_down-in :
    (m : Memory) (dest src n k : ℕ)
    → src ≤ dest
    → k < n
    → copy_down m dest src n (dest + k) ≡ m (src + k)
unfolding copy_down
copy_down-in m dest src zero k apart high = omega arith
copy_down-in m dest src (suc n) k apart high = elim (dec_lt k n) [
  | no e ↦
      let same : k ≡ n = omega arith in
      rw same (
        copy_down-out (store m (dest + n) (m (src + n))) dest src n (dest + n) (ground arith)
        ∙ store_self m (dest + n) (m (src + n)))
  | yes ne ↦
      copy_down-in (store m (dest + n) (m (src + n))) dest src n k apart ne
      ∙ store-ne m (dest + n) (m (src + n)) (src + k) (omega arith)
]

-- The memory in which `n` bytes at `dest` are what the bytes at `src` were.
unfoldable pub moved : Memory → ℕ → ℕ → ℕ → Memory
moved m dest src n x = if leb dest x && ltb x (dest + n) then m (src + (x - dest)) else m x

moved-in : (m : Memory) (dest src n k : ℕ) → k < n → moved m dest src n (dest + k) ≡ m (src + k)
unfolding moved
moved-in m dest src n k small =
    rw (le→leb dest (dest + k) (omega arith), lt→ltb (dest + k) (dest + n) (omega arith))
      (ap m (omega arith))

moved-out :
    (m : Memory) (dest src n x : ℕ) → (x < dest) ⊎ (dest + n ≤ x) → moved m dest src n x ≡ m x
unfolding moved
moved-out m dest src n x out =
    let e : (leb dest x && ltb x (dest + n)) ≡ false = ground arith in rw e

-- A memory that has the source's bytes inside, and what was there outside, is the moved one.
moved-by :
    (m r : Memory) (dest src n x : ℕ)
    → ((k : ℕ) → k < n → r (dest + k) ≡ m (src + k))
    → ((y : ℕ) → (y < dest) ⊎ (dest + n ≤ y) → r y ≡ m y)
    → r x ≡ moved m dest src n x
moved-by m r dest src n x inside outside = elim (dec_lt x dest) [
  | yes low ↦ outside x (inl low) ∙ sym (moved-out m dest src n x (inl low))
  | no high ↦ elim (dec_lt x (dest + n)) [
    | no far ↦ outside x (inr (omega arith)) ∙ sym (moved-out m dest src n x (inr (omega arith)))
    | yes near ↦
        let e : dest + (x - dest) ≡ x = omega arith in
        subst (λ y. r y ≡ moved m dest src n y) e
          (inside (x - dest) (omega arith) ∙ sym (moved-in m dest src n (x - dest) (omega arith)))
  ]
]

-- memcpy moves the bytes where the destination lies at or below the source, or behind its end.
pub memcpy_moves :
    (m : Memory) (dest src n x : ℕ)
    → (dest ≤ src) ⊎ (src + n ≤ dest)
    → memcpy m dest src n x ≡ moved m dest src n x
unfolding memcpy
memcpy_moves m dest src n x apart =
    moved-by m (copy_up m dest src 0 n) dest src n x
      (λ k h. copy_up-in m dest src 0 n k (ground arith) (omega arith) (omega arith))
      (λ y out. copy_up-out m dest src 0 n y (ground arith))

-- memmove moves the bytes for every overlap of the two ranges, and leaves every other byte.
pub memmove_moves : (m : Memory) (dest src n x : ℕ) → memmove m dest src n x ≡ moved m dest src n x
unfolding memmove
memmove_moves m dest src n x = elim (dec_lt dest src) [
  | yes low ↦ rw (lt→ltb dest src low) (
      moved-by m (copy_up m dest src 0 n) dest src n x
        (λ k h. copy_up-in m dest src 0 n k (ground arith) (omega arith) (omega arith))
        (λ y out. copy_up-out m dest src 0 n y (ground arith)))
  | no high ↦ elim (dec_lt src dest) [
    | yes above ↦
        rw (ge→ltb dest src (omega arith), lt→ltb src dest above)
          (moved-by m (copy_down m dest src n) dest src n x
            (λ k h. copy_down-in m dest src n k (omega arith) h)
            (λ y out. copy_down-out m dest src n y out))
    | no same ↦
        let e : src ≡ dest = omega arith in
        rw (ge→ltb dest src (omega arith), ge→ltb src dest (omega arith))
          (moved-by m m dest src n x (λ k h. rw e) (λ y out. refl))
  ]
]
