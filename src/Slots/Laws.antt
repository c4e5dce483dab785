-- ===== src/Slots/Laws.antt =====
-- A descriptor or a timeout goes to the lowest free slot, and every other slot keeps its entry.
use plenjos_kernel.Prelude.{
  ℕ, zero, suc, ◌+◌, ◌-◌, ◌<◌, ◌≡◌, ◌≢◌, inl, inr, refl, ap, subst, sym, ◌∙◌, arith, Option, none,
  some, List, [], ◌∷◌, ◌==◌, get_or, set, length, length-set, get_or-set_self, get_or-set_ne, ne→==,
  ==_refl, Bool-cases, gt→leb, ==_iff,
}
use plenjos_kernel.Prelude.Int.{pos}
use plenjos_kernel.Slots.{
  proc_get_fd, first_free, proc_alloc_fd, proc_free_fd, Timeout, claim_slot, set_timeout,
}

-- the slots below `n` are taken
abbrev pub Full : List ℕ → ℕ → Type 0
Full fds n = (k : ℕ) → k < n → get_or fds k 0 ≢ 0

-- what the search may answer, for the table behind the first `i` slots
abbrev Searched : List ℕ → ℕ → Option ℕ → Type 0
Searched xs i none = Full xs (length xs)
Searched xs i (some j) = (k : ℕ) × (j ≡ i + k) × (k < length xs) × (get_or xs k 0 ≡ 0) × Full xs k

Full-cons : (x : ℕ) (xs : List ℕ) (n : ℕ) → x ≢ 0 → Full xs n → Full (x ∷ xs) (suc n)
Full-cons x xs n ne rest zero small = ne
Full-cons x xs n ne rest (suc k) small = rest k (omega arith)

Searched-cons :
    (x : ℕ) (xs : List ℕ) (i : ℕ) (o : Option ℕ)
    → x ≢ 0
    → Searched xs (i + 1) o
    → Searched (x ∷ xs) i o
Searched-cons x xs i none ne h = Full-cons x xs (length xs) ne h
Searched-cons x xs i (some j) ne h =
    let (k, at, inside, free, below) = h in
    (suc k, omega (arith, at), omega arith, free, Full-cons x xs k ne below)

first_free-Searched : (xs : List ℕ) (i : ℕ) → Searched xs i (first_free 0 xs i)
unfolding first_free
first_free-Searched [] i = λ k small. absurd (omega arith)
first_free-Searched (x ∷ xs) i = elim (Bool-cases (x == 0)) [
  | inl free ↦
      rw free (zero, omega arith, omega arith, (==_iff x 0).0 free, λ k small. absurd (omega arith))
  | inr taken ↦ rw taken (
      Searched-cons x xs i (first_free 0 xs (i + 1)) (λ e. ground (arith, ==_refl x))
        (first_free-Searched xs (i + 1)))
]

-- what a call of `proc_alloc_fd` may do to the table
pub data Allocated (fds : List ℕ) (handle : ℕ) : Option ℕ × List ℕ → Type 0 where
  all_taken : Full fds (length fds) → Allocated fds handle (none, fds)
  lowest :
      (fd : ℕ)
      → fd < length fds
      → get_or fds fd 0 ≡ 0
      → Full fds fd
      → Allocated fds handle (some fd, set fds fd handle)

alloc-cases :
    (fds : List ℕ) (handle : ℕ) (o : Option ℕ)
    → Searched fds 0 o
    → Allocated fds handle (elim o [ none ↦ (none, fds) | some i ↦ (some i, set fds i handle) ])
alloc-cases fds handle none h = all_taken h
alloc-cases fds handle (some i) h =
    let (k, at, inside, free, below) = h in
    subst (λ j. Allocated fds handle (some j, set fds j handle)) (sym (at ∙ omega arith))
      (lowest k inside free below)

-- A handle that is not NULL goes to the lowest free descriptor, and the call fails only on a full table, which it
-- then leaves.
pub proc_alloc_fd_lem :
    (fds : List ℕ) (handle : ℕ) → handle ≢ 0 → Allocated fds handle (proc_alloc_fd fds handle)
unfolding proc_alloc_fd
proc_alloc_fd_lem fds handle some_handle =
    rw (ne→== handle 0 some_handle)
      (alloc-cases fds handle (first_free 0 fds 0) (first_free-Searched fds 0))

-- A descriptor of the table that is freed reads as NULL, and every other one reads as before.
pub proc_free_fd_lem :
    (fds : List ℕ) (fd other : ℕ)
    → fd < length fds
    → other ≢ fd
    → (rest : List ℕ) × (proc_free_fd fds (pos fd) ≡ some rest)
      × (proc_get_fd rest (pos fd) ≡ 0)
      × (proc_get_fd rest (pos other) ≡ proc_get_fd fds (pos other))
unfolding proc_free_fd proc_get_fd
proc_free_fd_lem fds fd other inside apart = (
  set fds fd 0,
  rw (gt→leb (length fds) fd inside),
  rw (length-set fds fd 0, get_or-set_self fds fd 0 0 inside, gt→leb (length fds) fd inside),
  rw (length-set fds fd 0, get_or-set_ne fds fd other 0 0 (λ e. apart (sym e))),
)

-- the delays of the slots, and what a claimed slot's fields become
abbrev pub delays : List Timeout → List ℕ
delays [] = []
delays (t ∷ ts) = t.milliseconds ∷ delays ts

-- the delays with the slot that a search from `i` on has found set
abbrev pub stored : List ℕ → ℕ → ℕ → Option ℕ → List ℕ
stored ds ms i none = ds
stored ds ms i (some j) = set ds (j - i) ms

stored-cons :
    (x : ℕ) (ds : List ℕ) (ms i : ℕ) (o : Option ℕ)
    → Searched ds (i + 1) o
    → x ∷ stored ds ms (i + 1) o ≡ stored (x ∷ ds) ms i o
stored-cons x ds ms i none h = refl
stored-cons x ds ms i (some j) h =
    let (k, at, inside, free, below) = h in
    let e1 : j - i ≡ suc k = omega (arith, at) in
    let e2 : j - (i + 1) ≡ k = omega (arith, at) in rw (e1, e2)

module _ (fill : Timeout → Timeout) (ms : ℕ)
    (fills : (t : Timeout) → (fill t).milliseconds ≡ ms) where
  claim_slot-index :
      (i : ℕ) (ts : List Timeout) → (claim_slot fill i ts).0 ≡ first_free 0 (delays ts) i
  unfolding claim_slot first_free
  claim_slot-index i [] = refl
  claim_slot-index i (t ∷ ts) = elim (Bool-cases (t.milliseconds == 0)) [
    | inl free ↦ rw free
    | inr taken ↦ rw taken (claim_slot-index (i + 1) ts)
  ]

  claim_slot-delays :
      (i : ℕ) (ts : List Timeout)
      → delays (claim_slot fill i ts).1 ≡ stored (delays ts) ms i (first_free 0 (delays ts) i)
  unfolding claim_slot first_free
  claim_slot-delays i [] = refl
  claim_slot-delays i (t ∷ ts) = elim (Bool-cases (t.milliseconds == 0)) [
    | inl free ↦ let z : i - i ≡ 0 = omega arith in rw (free, z) (ap (λ d. d ∷ delays ts) (fills t))
    | inr taken ↦ rw taken (
        ap (λ ds. t.milliseconds ∷ ds) (claim_slot-delays (i + 1) ts)
        ∙ stored-cons t.milliseconds (delays ts) ms i (first_free 0 (delays ts) (i + 1))
            (first_free-Searched (delays ts) (i + 1)))
  ]

-- The slot that set_timeout claims is the lowest one whose delay is 0, its delay becomes the one
-- asked for, and all other delays stay; without such a slot the table stays.
pub set_timeout_lem :
    (ts : List Timeout) (now milliseconds callback data_ptr : ℕ)
    → ((set_timeout ts now milliseconds callback data_ptr).0 ≡ first_free 0 (delays ts) 0)
      × (delays (set_timeout ts now milliseconds callback data_ptr).1
          ≡ stored (delays ts) milliseconds 0 (first_free 0 (delays ts) 0))
unfolding set_timeout
set_timeout_lem ts now milliseconds callback data_ptr = (
  claim_slot-index _ milliseconds (λ t. refl) 0 ts,
  claim_slot-delays _ milliseconds (λ t. refl) 0 ts,
)
