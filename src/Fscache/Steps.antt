-- ===== src/Fscache/Steps.antt =====
-- What each step of `fscache_request_node` (vfs/fscache.c) leaves of the tree and its locks.
use plenjos_kernel.Prelude.{
  ℕ, ◌≡◌, ◌⊎◌, refl, sym, ap, subst, arith, Bool, true, false, Option, none, some, List, [], ◌∷◌,
  ◌==◌, bit_and, Bool-cases, inl, inr,
}
use plenjos_kernel.Prelude.Int.{ℤ, pos, negsuc}
use plenjos_kernel.Fscache.Links.{Under, below, IsTree, Under-used, child_parent, Under-apart}
use plenjos_kernel.Access.{access_check}
use plenjos_kernel.Fscache.{
  final_code, answers, set_and_return, dt_dir, enomem, is_dot, is_dot_dot, Cache, set_lock, Token,
  find_in_children, first_free, fscache_allocate_node, Outcome, stops, goes_on, waits, Loaded,
  loaded, load_error, load_child, missing_child, to_child, follow_token, follow_tokens,
}
use plenjos_kernel.Fscache.Locks.{
  OneReader, AboveRoot, Grows, Left, Loads, move_to-Left, to_parent-Left, find-Memᴰ,
  first_free-free,
}
use plenjos_kernel.Fscache.Loading.{
  reserved, given_back_lem, taken_in_lem, allocate-none, allocate-some, same_slots, locked_type,
  relock_lem,
}

abbrev pub going : Outcome → Bool
going (stops e n s) = false
going (goes_on n s) = true
going waits = false

module _ (load_node : Cache → ℕ → List ℕ → Loaded) (uid : ℕ) (loads : Loads load_node)
    (root : ℕ) where
  load_child-Left :
      (s : Cache) (cur : ℕ) (token : Token) (n : ℕ) (r : Loaded)
      → IsTree s root
      → Under s root cur
      → OneReader s cur
      → (s.nodes n).type ≡ 0
      → load_node (reserved s cur n) cur token.text ≡ r
      → Left root s (load_child load_node uid (reserved s cur n) cur token n)
  unfolding load_child
  load_child-Left s cur token n (load_error e) t under o free r =
      let (tree, keeps, up, one) = given_back_lem s cur n t under o free in
      rw (r, load_child) (tree, keeps, up, inl one)
  load_child-Left s cur token n (loaded node) t under o free r =
      let text = token.text in
      let c = reserved s cur n in
      rw (r, load_child)
        (taken_in_lem s cur n node t under o free (loads.in_use c cur text node r)
          (loads.no_child c cur text node r))

  missing_child-full :
      (s : Cache) (cur : ℕ) (token : Token)
      → s.locks cur ≡ pos 1
      → fscache_allocate_node (set_lock s cur (negsuc 0)) ≡ none
      → missing_child load_node uid s cur token ≡ stops enomem cur (set_lock s cur (pos 1))
  unfolding missing_child
  missing_child-full s cur token e a = rw (e, a, missing_child) refl

  missing_child-room :
      (s : Cache) (cur : ℕ) (token : Token) (n : ℕ) (s' : Cache)
      → s.locks cur ≡ pos 1
      → fscache_allocate_node (set_lock s cur (negsuc 0)) ≡ some (n, s')
      → missing_child load_node uid s cur token ≡ load_child load_node uid s' cur token n
  unfolding missing_child
  missing_child-room s cur token n s' e a = rw (e, a, missing_child) refl

  missing_child-Left :
      (s : Cache) (cur : ℕ) (token : Token) (slot : Option ℕ)
      → IsTree s root
      → Under s root cur
      → OneReader s cur
      → first_free (set_lock s cur (negsuc 0)) s.slots ≡ slot
      → Left root s (missing_child load_node uid s cur token)
  missing_child-Left s cur token none t under o e =
      subst (Left root s)
        (sym (
          missing_child-full s cur token o.reader
            (allocate-none (set_lock s cur (negsuc 0)) (same_slots s cur (negsuc 0) none e))))
        (relock_lem s cur t under o)
  missing_child-Left s cur token (some n) t under o e =
      let m = set_lock s cur (negsuc 0) in
      let free = first_free-free m s.slots n e in
      subst (Left root s)
        (sym (
          missing_child-room s cur token n (reserved s cur n) o.reader
            (allocate-some m n (same_slots s cur (negsuc 0) (some n) e))))
        (load_child-Left s cur token n (load_node (reserved s cur n) cur token.text) t under o
          (locked_type s cur n (negsuc 0) free) refl)

  to_child-Left :
      (s : Cache) (cur : ℕ) (token : Token) (c : Option ℕ)
      → IsTree s root
      → Under s root cur
      → OneReader s cur
      → find_in_children s (s.nodes cur).children token.text ≡ c
      → Left root s (to_child load_node uid s cur token)
  unfolding to_child
  to_child-Left s cur token none t under o e =
      rw (e, to_child)
        (missing_child-Left s cur token (first_free (set_lock s cur (negsuc 0)) s.slots) t under o
          refl)
  to_child-Left s cur token (some c) t under o e =
      let found = find-Memᴰ s (s.nodes cur).children token.text c e in
      let up = below cur c under found in
      let parent = child_parent s root t cur c under found in
      rw (e, to_child)
        (move_to-Left s cur c t up o (Under-used s root t c up)
          (λ is_cur. Under-apart s root t c cur up parent (sym is_cur)))

  follow_token-Left :
      (s : Cache) (cur : ℕ) (token : Token)
      → IsTree s root
      → Under s root cur
      → OneReader s cur
      → Left root s (follow_token load_node uid s cur token)
  unfolding follow_token
  follow_token-Left s cur token t under o = elim (Bool-cases ((s.nodes cur).type == dt_dir)) [
    | inr other ↦ rw (other, follow_token) (t, (λ n u. u), under, inl o)
    | inl dir ↦
        elim (Bool-cases (
          bit_and (access_check (s.nodes cur).mode (s.nodes cur).uid (s.nodes cur).gid uid) 1
          == 0)) [
            | inl denied ↦ rw (dir, denied, follow_token) (t, (λ n u. u), under, inl o)
            | inr ok ↦ elim (Bool-cases (is_dot_dot token.text)) [
              | inl up ↦
                  rw (dir, ok, up, follow_token)
                    (to_parent-Left s cur (s.nodes cur).parent_node t under o refl)
              | inr not_up ↦ elim (Bool-cases (is_dot token.text)) [
                | inl here ↦ rw (dir, ok, not_up, here, follow_token) (t, (λ n u. u), under, o)
                | inr name ↦
                    rw (dir, ok, not_up, name, follow_token)
                      (to_child-Left s cur token
                        (find_in_children s (s.nodes cur).children token.text) t under o refl)
              ]
            ]
          ]
  ]

  Left-from : (s s₁ : Cache) (r : Outcome) → Grows root s s₁ → Left root s₁ r → Left root s r
  Left-from s s₁ (stops e n s') g (t, h, up, held) = (t, (λ m u. h m (g m u)), up, held)
  Left-from s s₁ (goes_on n s') g (t, h, up, held) = (t, (λ m u. h m (g m u)), up, held)
  Left-from s s₁ waits g left = left

  next-Left :
      (s : Cache) (ts : List Token) (r : Outcome)
      → Left root s r
      → ((s₁ : Cache) (n : ℕ)
          → IsTree s₁ root
          → Under s₁ root n
          → OneReader s₁ n
          → Left root s₁ (follow_tokens load_node uid ts s₁ n))
      → Left root s (elim r as (λ x. Outcome) [
        | stops e n s' ↦ stops e n s'
        | goes_on n s' ↦ follow_tokens load_node uid ts s' n
        | waits ↦ waits
      ])
  next-Left s ts (stops e n s') left rest = left
  next-Left s ts (goes_on n s') left rest =
      Left-from s s' (follow_tokens load_node uid ts s' n) left.1 (rest s' n left.0 left.2 left.3)
  next-Left s ts waits left rest = left

  pub follow_tokens-Left :
      (ts : List Token) (s : Cache) (cur : ℕ)
      → IsTree s root
      → Under s root cur
      → OneReader s cur
      → Left root s (follow_tokens load_node uid ts s cur)
  unfolding follow_tokens
  follow_tokens-Left [] s cur t under o = (t, (λ n u. u), under, inl o)
  follow_tokens-Left (tok ∷ ts) s cur t under o =
      next-Left s ts (follow_token load_node uid s cur tok) (follow_token-Left s cur tok t under o)
        (λ s' n t' u' o'. follow_tokens-Left ts s' n t' u' o')

  -- what a call returns that is given a place for the node
  pub answered :
      (s : Cache) (path : List ℕ) (w : Outcome)
      → Left root s w
      → going w ≡ false
      → (code : ℤ) × (n : ℕ) × (s' : Cache) × (set_and_return true path w
          ≡ answers code (some n) s')
        × IsTree s' root
        × Grows root s s'
        × Under s' root n
        × (OneReader s' n ⊎ AboveRoot s' root code n)
  unfolding set_and_return
  answered s path (stops e n s') (t, g, under, inl o) h =
      (final_code e (s'.nodes n).type path, n, s', refl, t, g, under, inl o)
  answered s path (stops e n s') (t, g, under, inr a) h = (
    final_code e (s'.nodes n).type path,
    n,
    s',
    refl,
    t,
    g,
    under,
    inr (record {
      code = ap (λ x. final_code x (s'.nodes n).type path) a.code;
      is_root = a.is_root;
      idle = a.idle;
      released = a.released;
    }),
  )
  answered s path (goes_on n s') left h = absurd (ground arith)
  answered s path waits left h = absurd left

  next-going :
      (ts : List Token) (r : Outcome)
      → ((s : Cache) (n : ℕ) → going (follow_tokens load_node uid ts s n) ≡ false)
      → going (elim r as (λ x. Outcome) [
        | stops e n s' ↦ stops e n s'
        | goes_on n s' ↦ follow_tokens load_node uid ts s' n
        | waits ↦ waits
      ])
        ≡ false
  next-going ts (stops e n s') rest = refl
  next-going ts (goes_on n s') rest = rest s' n
  next-going ts waits rest = refl

  pub follow_tokens-ends :
      (ts : List Token) (s : Cache) (cur : ℕ) → going (follow_tokens load_node uid ts s cur) ≡ false
  unfolding follow_tokens
  follow_tokens-ends [] s cur = refl
  follow_tokens-ends (tok ∷ ts) s cur =
      next-going ts (follow_token load_node uid s cur tok) (λ s' n. follow_tokens-ends ts s' n)
