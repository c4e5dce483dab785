-- ===== src/Kernelfs/Create.antt =====
-- A directory that `kernelfs_create_child` (vfs/kernelfs.c) makes is found again under its name.
use plenjos_kernel.Prelude.{
  ℕ, zero, suc, ◌≤◌, ◌<◌, ◌≡◌, ◌≢◌, ◌⊎◌, refl, sym, ap, ap₂, ◌∙◌, arith, Bool, true, false, Option,
  none, some, List, [], ◌∷◌, ◌++◌, if◌then◌else◌, take, length, All, Bool-cases, inl, inr, ==_refl,
  ne→==, ltb, ltb→lt, ltb→ge,
}
use plenjos_kernel.Prelude.Int.{pos}
use plenjos_kernel.Fscache.{same_text, dt_dir, enoent}
use plenjos_kernel.Kernelfs.{
  Entry, Store, put, same_name, find_child, new_entry, add_child, kernelfs_create_node, Load,
  Populated, populated, fails, populate, kernelfs_load, kernelfs_create_child,
}

-- A place for a new node: it is neither the parent nor one of its children.
pub record Fresh (s : Store) (parent k : ℕ) : Type 0 where
  pub apart : k ≢ parent
  pub no_child : All (λ c. c ≢ k) (s parent).children
  pub no_loop : All (λ c. c ≢ parent) (s parent).children

find-append :
    (s : Store) (ks : List ℕ) (k : ℕ) (name : List ℕ)
    → find_child s ks name ≡ none
    → find_child s (ks ++ k ∷ []) name ≡ (if same_name (s k).name name then some k else none)
unfolding find_child
find-append s [] k name e = refl
find-append s (c ∷ ks) k name e = elim (Bool-cases (same_name (s c).name name)) [
  | inl y ↦ absurd (ground arith)
  | inr n ↦ rw n (find-append s ks k name (ground arith))
]

find-same :
    (s t : Store) (ks : List ℕ) (name : List ℕ)
    → All (λ c. t c ≡ s c) ks
    → find_child t ks name ≡ find_child s ks name
unfolding find_child
find-same s t [] name a = refl
find-same s t (c ∷ ks) name a =
    ap₂ (λ e r. if same_name e.name name then some c else r) a.0 (find-same s t ks name a.1)

same_text_refl : (t : List ℕ) → same_text t t ≡ true
same_text_refl [] = refl
same_text_refl (c ∷ cs) = rw (==_refl c) (same_text_refl cs)

take-take : (m n : ℕ) (xs : List ℕ) → n ≤ m → take m (take n xs) ≡ take n xs
take-take zero zero xs h = refl
take-take (suc m) zero xs h = refl
take-take zero (suc n) xs h = absurd (omega arith)
take-take (suc m) (suc n) [] h = refl
take-take (suc m) (suc n) (x ∷ xs) h = ap (◌∷◌ x) (take-take m n xs (omega arith))

take_short : (n : ℕ) (xs : List ℕ) → length xs ≤ n → take n xs ≡ xs
take_short zero [] h = refl
take_short zero (x ∷ xs) h = absurd (omega arith)
take_short (suc n) [] h = refl
take_short (suc n) (x ∷ xs) h = ap (◌∷◌ x) (take_short n xs (omega arith))

-- a cut name is not the name, when it is longer
same_text-take :
    (n : ℕ) (xs : List ℕ) → n < length xs → same_text (take n xs) (take (suc n) xs) ≡ false
same_text-take zero [] h = absurd (omega arith)
same_text-take zero (x ∷ xs) h = refl
same_text-take (suc n) [] h = absurd (omega arith)
same_text-take (suc n) (x ∷ xs) h = rw (==_refl x) (same_text-take n xs (omega arith))

added_children :
    (s : Store) (parent k : ℕ) (e : Entry)
    → k ≢ parent
    → (add_child s parent k e parent).children ≡ (s parent).children ++ k ∷ []
unfolding add_child put
added_children s parent k e ne = rw (==_refl parent, ne→== parent k (λ x. ne (sym x))) refl

added_new : (s : Store) (parent k : ℕ) (e : Entry) → k ≢ parent → add_child s parent k e k ≡ e
unfolding add_child put
added_new s parent k e ne = rw (==_refl k, ne→== k parent ne) refl

added_other :
    (s : Store) (parent k : ℕ) (e : Entry) (ks : List ℕ)
    → All (λ c. c ≢ k) ks
    → All (λ c. c ≢ parent) ks
    → All (λ c. add_child s parent k e c ≡ s c) ks
unfolding add_child put
added_other s parent k e [] a b = tt
added_other s parent k e (c ∷ ks) a b =
    (rw (ne→== c k a.0, ne→== c parent b.0) refl, added_other s parent k e ks a.1 b.1)

-- the search after a node was added
found_added :
    (s : Store) (parent k : ℕ) (e : Entry) (name : List ℕ)
    → Fresh s parent k
    → find_child s (s parent).children name ≡ none
    → (let t = add_child s parent k e in
        find_child t (t parent).children name ≡ (if same_name e.name name then some k else none))
found_added s parent k e name f none_yet =
    let t = add_child s parent k e in
    let ks = (s parent).children in
    ap (λ l. find_child t l name) (added_children s parent k e f.apart)
    ∙ find-append t ks k name
        (find-same s t ks name (added_other s parent k e ks f.no_child f.no_loop) ∙ none_yet)
    ∙ ap (λ x. if same_name x.name name then some k else none) (added_new s parent k e f.apart)

-- the nodes after a call that makes a directory
abbrev pub with_child : Store → ℕ → ℕ → List ℕ → ℕ → ℕ → ℕ → Store
with_child s parent k name uid gid mode = add_child s parent k (new_entry name 4 uid gid mode)

-- a node of the cache over the new node
abbrev pub over : ℕ → ℕ → List ℕ → ℕ → ℕ → ℕ → Populated
over k type name u g m = record {
  node = record {
    type = type;
    name = name;
    uid = u;
    gid = g;
    mode = m;
    parent_node = none;
    children = [];
  };
  internal_data = k;
}

module _ (s : Store) (parent k c : ℕ) (cs : List ℕ) (uid gid mode : ℕ) (fresh : Fresh s parent k)
    (none_yet : find_child s (s parent).children (c ∷ cs) ≡ none)
    (dir : (s parent).type ≡ dt_dir) where
  create_node-run :
      kernelfs_create_node (some k) parent (c ∷ cs) 4 uid gid mode s
      ≡ record { code = pos 0; out = some k; nodes = (with_child s parent k (c ∷ cs) uid gid mode) }
  unfolding kernelfs_create_node
  create_node-run = rw (none_yet, dir, kernelfs_create_node) refl

  create_child-run : kernelfs_create_child true (some k) 4 parent (c ∷ cs) 4 uid gid mode s ≡ (
    kernelfs_load true (with_child s parent k (c ∷ cs) uid gid mode) parent (c ∷ cs),
    (with_child s parent k (c ∷ cs) uid gid mode),
  )
  unfolding kernelfs_create_child
  create_child-run =
      ap
        (λ m. elim m.out as (λ o. Load × Store) [
          | none ↦ (fails m.code, m.nodes)
          | some k ↦ (kernelfs_load true m.nodes parent (c ∷ cs), m.nodes)
        ])
        create_node-run

  load-run :
      (o : Option ℕ)
      → find_child
          (with_child s parent k (c ∷ cs) uid gid mode)
          ((with_child s parent k (c ∷ cs) uid gid mode) parent).children
          (c ∷ cs)
        ≡ o
      → kernelfs_load true (with_child s parent k (c ∷ cs) uid gid mode) parent (c ∷ cs)
        ≡ elim o as (λ x. Load) [
          | none ↦ fails enoent
          | some j ↦ populated (populate (with_child s parent k (c ∷ cs) uid gid mode) j)
        ]
  unfolding kernelfs_load
  load-run none e = rw (e, kernelfs_load) refl
  load-run (some j) e = rw (e, kernelfs_load) refl

  entry_there : (with_child s parent k (c ∷ cs) uid gid mode) k ≡ new_entry (c ∷ cs) 4 uid gid mode
  entry_there = added_new s parent k (new_entry (c ∷ cs) 4 uid gid mode) fresh.apart

  search :
      (b : Bool)
      → same_name (take 255 (c ∷ cs)) (c ∷ cs) ≡ b
      → find_child
          (with_child s parent k (c ∷ cs) uid gid mode)
          ((with_child s parent k (c ∷ cs) uid gid mode) parent).children
          (c ∷ cs)
        ≡ (if b then some k else none)
  search b e =
      found_added s parent k (new_entry (c ∷ cs) 4 uid gid mode) (c ∷ cs) fresh none_yet
      ∙ ap (λ x. if x then some k else none) e

  kernelfs_create_child_finds :
      length (c ∷ cs) ≤ 255
      → (kernelfs_create_child true (some k) 4 parent (c ∷ cs) 4 uid gid mode s ≡ (
        populated (populate (with_child s parent k (c ∷ cs) uid gid mode) k),
        (with_child s parent k (c ∷ cs) uid gid mode),
      ))
        × (populate (with_child s parent k (c ∷ cs) uid gid mode) k
            ≡ over k 4 (c ∷ cs) uid gid mode)
  kernelfs_create_child_finds short =
      let cut = take_short 255 (c ∷ cs) short in
      let same : same_name (take 255 (c ∷ cs)) (c ∷ cs) ≡ true =
        ap (λ x. same_name x (c ∷ cs)) cut ∙ same_text_refl (take 256 (c ∷ cs)) in
      (
        create_child-run
            ∙ ap (λ l. (l, (with_child s parent k (c ∷ cs) uid gid mode)))
                (load-run (some k) (search true same)),
        ap (λ e. over k e.type (take 255 e.name) e.uid e.gid e.mode) entry_there
            ∙ ap (λ n. over k 4 n uid gid mode) (ap (take 255) cut ∙ cut),
      )

  kernelfs_create_child_cuts :
      255 < length (c ∷ cs)
      → (kernelfs_create_child true (some k) 4 parent (c ∷ cs) 4 uid gid mode s
          ≡ (fails enoent, (with_child s parent k (c ∷ cs) uid gid mode)))
        × (((with_child s parent k (c ∷ cs) uid gid mode) parent).children
            ≡ (s parent).children ++ k ∷ [])
  kernelfs_create_child_cuts large =
      let differs : same_name (take 255 (c ∷ cs)) (c ∷ cs) ≡ false =
        ap (λ x. same_text x (take 256 (c ∷ cs))) (take-take 256 255 (c ∷ cs) (omega arith))
        ∙ same_text-take 255 (c ∷ cs) large in
      (
        create_child-run
            ∙ ap (λ l. (l, (with_child s parent k (c ∷ cs) uid gid mode)))
                (load-run none (search false differs)),
        added_children s parent k (new_entry (c ∷ cs) 4 uid gid mode) fresh.apart,
      )

  -- In a directory where no child has the name, which is not empty, with memory for the node and its
  -- operations, `kernelfs_create_child` makes a directory behind the others. If the name has at most 255
  -- bytes it is found again: the node that the cache gets has the name, the user, the group and the mode
  -- given, and leads to the new node. If the name is longer, it is not found, and the call returns
  -- -ENOENT with the directory made.
  pub kernelfs_create_child_lem :
      (((with_child s parent k (c ∷ cs) uid gid mode) parent).children
        ≡ (s parent).children ++ k ∷ [])
      × (((length (c ∷ cs) ≤ 255)
            × (kernelfs_create_child true (some k) 4 parent (c ∷ cs) 4 uid gid mode s ≡ (
              populated (over k 4 (c ∷ cs) uid gid mode),
              (with_child s parent k (c ∷ cs) uid gid mode),
            )))
          ⊎ ((255 < length (c ∷ cs))
              × (kernelfs_create_child true (some k) 4 parent (c ∷ cs) 4 uid gid mode s
                  ≡ (fails enoent, (with_child s parent k (c ∷ cs) uid gid mode)))))
  kernelfs_create_child_lem = (
    added_children s parent k (new_entry (c ∷ cs) 4 uid gid mode) fresh.apart,
    elim (Bool-cases (ltb 255 (length (c ∷ cs)))) [
      | inl e ↦ inr (
        ltb→lt 255 (length (c ∷ cs)) e,
        (kernelfs_create_child_cuts (ltb→lt 255 (length (c ∷ cs)) e)).0,
      )
      | inr e ↦
          let (run, same) = kernelfs_create_child_finds (ltb→ge 255 (length (c ∷ cs)) e) in
          inl (
            ltb→ge 255 (length (c ∷ cs)) e,
            run ∙ ap (λ p. (populated p, (with_child s parent k (c ∷ cs) uid gid mode))) same,
          )
    ],
  )
