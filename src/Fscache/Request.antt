-- ===== src/Fscache/Request.antt =====
-- `fscache_request_node` as a whole: it returns, with one reader on the node that it gives.
use plenjos_kernel.Prelude.{
  ℕ, ◌≡◌, ◌≢◌, ◌⊎◌, refl, ap, ◌∙◌, arith, Bool, true, false, none, some, List, [], ◌∷◌, ◌==◌,
  bit_and, ==_refl, inl, inr,
}
use plenjos_kernel.Prelude.Int.{ℤ, pos, negsuc}
use plenjos_kernel.Fscache.Links.{Under, at_root, IsTree}
use plenjos_kernel.Access.{access_check}
use plenjos_kernel.Fscache.{
  same_text, answers, hangs, set_and_return, fscache_request_node, path_tokens, split_path, slash,
  dot, dt_dir, Cache, set_lock, remove_reader, Token, stops, to_parent, Loaded, follow_token,
  follow_tokens, enoent,
}
use plenjos_kernel.Fscache.Locks.{OneReader, AboveRoot, Grows, Loads, locked-IsTree}
use plenjos_kernel.Fscache.Steps.{answered, follow_tokens-ends, follow_tokens-Left}

-- the root read-locked, as the call begins
locked_root :
    (s : Cache) (r : ℕ)
    → ((u : ℕ) → ((s.nodes u).type ≡ 0) ⊎ (s.locks u ≡ pos 0))
    → (s.nodes r).type ≢ 0
    → OneReader (set_lock s r (pos 1)) r
unfolding set_lock
locked_root s r idle used = record {
  in_use = used;
  reader = ground arith;
  others = λ u h. ground (arith, idle u);
}

pub request-run :
    (load_node : Cache → ℕ → List ℕ → Loaded) (uid r : ℕ) (s : Cache) (wanted : Bool)
    (path : List ℕ)
    → same_text path [] ≡ false
    → s.locks r ≡ pos 0
    → fscache_request_node load_node uid (some r) s wanted path
      ≡ set_and_return wanted path
          (follow_tokens load_node uid (path_tokens path) (set_lock s r (pos 1)) r)
unfolding fscache_request_node
request-run load_node uid r s wanted path some_path free =
    rw (some_path, free, fscache_request_node) refl

-- Where the file systems load only nodes that are in use and not yet in the tree, the nodes under
-- the root are a tree (each is in use, and each child has just the node above it as its parent), and
-- the locks of all nodes in use are free, a call for a path that is not empty, from the root,
-- returns, with a code and a node under the root. The nodes under the root are again a tree, with
-- all nodes of before, and the only lock of a node in use that is held is that of the node given, by
-- one reader; but when the path goes above the root, the code is -ENOENT, the root is given, and all
-- locks are free.
pub fscache_request_node_locks :
    (load_node : Cache → ℕ → List ℕ → Loaded) (uid r : ℕ) (s : Cache) (path : List ℕ)
    → Loads load_node
    → IsTree s r
    → ((u : ℕ) → ((s.nodes u).type ≡ 0) ⊎ (s.locks u ≡ pos 0))
    → same_text path [] ≡ false
    → (code : ℤ) × (n : ℕ) × (s' : Cache) × (fscache_request_node load_node uid (some r) s true path
        ≡ answers code (some n) s')
      × IsTree s' r
      × Grows r s s'
      × Under s' r n
      × (OneReader s' n ⊎ AboveRoot s' r code n)
fscache_request_node_locks load_node uid r s path loads t idle some_path =
    let free : s.locks r ≡ pos 0 = elim (idle r) [ inl z ↦ absurd (t.in_use z) | inr e ↦ e ] in
    let (t₁, locked) = locked-IsTree s r (pos 1) t in
    let o₁ = locked_root s r idle t.in_use in
    let w = follow_tokens load_node uid (path_tokens path) (set_lock s r (pos 1)) r in
    let (code, n, s', run, tree, grows, under, held) =
      answered load_node uid loads r (set_lock s r (pos 1)) path w
        (follow_tokens-Left load_node uid loads r (path_tokens path) (set_lock s r (pos 1)) r t₁
          at_root o₁)
        (follow_tokens-ends load_node uid loads r (path_tokens path) (set_lock s r (pos 1)) r) in
    (
      code,
      n,
      s',
      request-run load_node uid r s true path some_path free ∙ run,
      tree,
      (λ m u. grows m (locked m u)),
      under,
      held,
    )

abbrev pub parent_token : Token
parent_token = record { text = dot ∷ dot ∷ []; at_end = true }

pub parent_path : path_tokens (slash ∷ dot ∷ dot ∷ []) ≡ parent_token ∷ []
unfolding path_tokens split_path
parent_path = refl

pub up_from_root :
    (load_node : Cache → ℕ → List ℕ → Loaded) (uid r : ℕ) (s : Cache)
    → (s.nodes r).type ≡ dt_dir
    → (s.nodes r).parent_node ≡ none
    → (bit_and (access_check (s.nodes r).mode (s.nodes r).uid (s.nodes r).gid uid) 1 == 0) ≡ false
    → follow_token load_node uid s r parent_token
      ≡ stops enoent r (set_lock s r (remove_reader (s.locks r)))
unfolding follow_token to_parent
up_from_root load_node uid r s dir root may = rw (dir, may, root, follow_token, to_parent) refl

pub tokens_stop :
    (load_node : Cache → ℕ → List ℕ → Loaded) (uid r : ℕ) (s : Cache) (token : Token)
    (ts : List Token) (e : ℤ) (n : ℕ) (s' : Cache)
    → follow_token load_node uid s r token ≡ stops e n s'
    → follow_tokens load_node uid (token ∷ ts) s r ≡ stops e n s'
unfolding follow_tokens
tokens_stop load_node uid r s token ts e n s' run = rw (run, follow_tokens) refl

-- the cache after two releases
abbrev pub released_twice : Cache → ℕ → Cache
released_twice s r =
    let s₁ = set_lock s r (pos 1) in
    let s₂ = set_lock s₁ r (remove_reader (s₁.locks r)) in
    set_lock s₂ r (remove_reader (s₂.locks r))

pub looks_written : (s : Cache) (r : ℕ) → (released_twice s r).locks r ≡ negsuc 0
unfolding set_lock
looks_written s r = rw (==_refl r)

pub request_hangs :
    (load_node : Cache → ℕ → List ℕ → Loaded) (uid r : ℕ) (s : Cache) (wanted : Bool)
    (path : List ℕ)
    → same_text path [] ≡ false
    → s.locks r ≡ negsuc 0
    → fscache_request_node load_node uid (some r) s wanted path ≡ hangs
unfolding fscache_request_node
request_hangs load_node uid r s wanted path some_path taken =
    rw (some_path, taken, fscache_request_node) refl

-- When the root is a directory with no parent that the user may search, and its lock is free, a
-- call for `/..` without a place for the node returns -ENOENT and has released the root's lock
-- twice: the next call, for any path that is not empty, hangs.
pub fscache_request_node_jams :
    (load_node : Cache → ℕ → List ℕ → Loaded) (uid r : ℕ) (s : Cache) (wanted : Bool)
    (path : List ℕ)
    → s.locks r ≡ pos 0
    → (s.nodes r).type ≡ dt_dir
    → (s.nodes r).parent_node ≡ none
    → (bit_and (access_check (s.nodes r).mode (s.nodes r).uid (s.nodes r).gid uid) 1 == 0) ≡ false
    → same_text path [] ≡ false
    → (s' : Cache) × (fscache_request_node load_node uid (some r) s false (slash ∷ dot ∷ dot ∷ [])
        ≡ answers enoent none s')
      × (fscache_request_node load_node uid (some r) s' wanted path ≡ hangs)
unfolding set_lock set_and_return
fscache_request_node_jams load_node uid r s wanted path free dir root may some_path =
    let s₁ = set_lock s r (pos 1) in
    let s₂ = set_lock s₁ r (remove_reader (s₁.locks r)) in
    (
      released_twice s r,
      request-run load_node uid r s false (slash ∷ dot ∷ dot ∷ []) refl free
          ∙ ap
              (λ ts.
                set_and_return false (slash ∷ dot ∷ dot ∷ []) (follow_tokens load_node uid ts s₁ r))
              parent_path
          ∙ ap (set_and_return false (slash ∷ dot ∷ dot ∷ [])) (
              tokens_stop load_node uid r s₁ parent_token [] enoent r s₂
                (up_from_root load_node uid r s₁ dir root may)),
      request_hangs load_node uid r (released_twice s r) wanted path some_path (looks_written s r),
    )
