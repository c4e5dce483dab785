-- ===== src/Paths/Collapse/Resolve.antt =====
-- `collapse_path` resolves the names of an absolute path.
use plenjos_kernel.Prelude.{
  ℕ, zero, suc, ◌≤◌, ◌≡◌, ◌≢◌, refl, sym, subst, ap, ap₂, ◌∙◌, arith, Bool, true, false, Option,
  some, List, [], ◌∷◌, ◌++◌, ◌==◌, Bool-cases, inl, inr, ==_iff, All, length, drop, ==_refl,
}
use plenjos_kernel.Paths.{
  slash, dot, skip_slashes, at_end, put_slash, copy_name, remove_last, at_slash, single_dot,
  double_dot, at_name, token, second_token, collapse_from, collapse_path, drop_slash, reverse_onto,
  finished,
}
use plenjos_kernel.Paths.Names.{
  words, parent, resolve, closed, text, words-skip, words-at_end, enter-first, enter-second,
  enter-third,
}
use plenjos_kernel.Paths.Collapse.{
  Plain, length-skip, remove_last-closed, Named, Named-by, Shape, at_closed, at_open, finish-text,
  put_slash-closed, Shape-closed,
}

true_is_not : (b : Bool) → b ≡ true → b ≡ false → ⊥
true_is_not b p q = ground (arith)

Named-first :
    (c : ℕ) (cs : List ℕ) (ns : List (List ℕ)) → (c == slash) ≡ false → c ≢ dot → Named c cs ns
unfolding copy_name words
Named-first c cs ns e ne =
    Named-by c cs ns c [] cs (rw e) (rw e) (λ k. ground (arith, ==_refl c), tt) (omega arith)
      (λ ys. enter-first ys c ns ne)

Named-second :
    (d : ℕ) (ds : List ℕ) (ns : List (List ℕ))
    → (d == slash) ≡ false
    → d ≢ dot
    → Named dot (d ∷ ds) ns
unfolding copy_name words
Named-second d ds ns e ne =
    Named-by dot (d ∷ ds) ns d (dot ∷ []) ds (rw e) (rw e)
      (λ k. ground (arith, ==_refl d), (omega arith, tt)) (omega arith)
      (λ ys. enter-second ys d dot ns ne)

Named-third :
    (f : ℕ) (fs : List ℕ) (ns : List (List ℕ)) → (f == slash) ≡ false → Named dot (dot ∷ f ∷ fs) ns
unfolding copy_name words
Named-third f fs ns e =
    Named-by dot (dot ∷ f ∷ fs) ns f (dot ∷ dot ∷ []) fs (rw e) (rw e)
      (λ k. ground (arith, ==_refl f), (omega arith, (omega arith, tt))) (omega arith)
      (λ ys. enter-third ys f dot dot ns)

-- the loop has ended with the text of these names
abbrev Reaches : List (List ℕ) → Option (List ℕ) → Type 0
Reaches ns o = (out : List ℕ) × (o ≡ some out) × (drop_slash out ≡ text ns)

-- the four branches
data Branch (c : ℕ) (cs : List ℕ) (ns : List (List ℕ)) : Type 0 where
  is_slash : (c == slash) ≡ true → Branch c cs ns
  is_single : (c == slash) ≡ false → (c == dot) ≡ true → at_end cs ≡ true → Branch c cs ns
  is_double : (ds : List ℕ) → c ≡ dot → cs ≡ dot ∷ ds → at_end ds ≡ true → Branch c cs ns
  is_name : (c == slash) ≡ false → token c cs ≡ at_name → Named c cs ns → Branch c cs ns

double-or-name :
    (c : ℕ) (cs : List ℕ) (ns : List (List ℕ)) → c ≡ dot → at_end cs ≡ false → Branch c cs ns
unfolding token second_token
double-or-name c [] ns e more = absurd (true_is_not true refl more)
double-or-name c (d ∷ ds) ns e more = elim (Bool-cases (d == dot)) [
  | inr other ↦
      let named = Named-second d ds ns more (λ k. ground (arith, ==_refl d)) in
      subst (λ x. Branch x (d ∷ ds) ns) (sym e) (is_name refl (rw (more, other)) named)
  | inl same ↦
      let d_is = (==_iff d dot).0 same in
      subst (λ x. Branch c (x ∷ ds) ns) (sym d_is)
        (subst (λ x. Branch x (dot ∷ ds) ns) (sym e) (behind ds))
]
  where
    behind : (ds : List ℕ) → Branch dot (dot ∷ ds) ns
    behind [] = is_double [] refl refl refl
    behind (f ∷ fs) = elim (Bool-cases (f == slash)) [
      | inl end ↦ is_double (f ∷ fs) refl refl end
      | inr longer ↦ is_name refl (rw longer) (Named-third f fs ns longer)
    ]

branch : (c : ℕ) (cs : List ℕ) (ns : List (List ℕ)) → Branch c cs ns
unfolding token
branch c cs ns = elim (Bool-cases (c == slash)) [
  | inl e ↦ is_slash e
  | inr e ↦ elim (Bool-cases (c == dot)) [
    | inr other ↦ is_name e (rw (e, other)) (Named-first c cs ns e (λ k. ground (arith, ==_refl c)))
    | inl same ↦ elim (Bool-cases (at_end cs)) [
      | inl end ↦ is_single e same end
      | inr more ↦ double-or-name c cs ns ((==_iff c dot).0 same) more
    ]
  ]
]

parent-Plain : (ns : List (List ℕ)) → All Plain ns → All Plain (parent ns)
parent-Plain [] p = p
parent-Plain (n ∷ ns) p = p.1

reach :
    {ms ns : List (List ℕ)} {o p : Option (List ℕ)} → Reaches ms o → ms ≡ ns → p ≡ o → Reaches ns p
reach (out, e, t) same step = (out, step ∙ e, t ∙ ap text same)

token-slash : (c : ℕ) (cs : List ℕ) → (c == slash) ≡ true → token c cs ≡ at_slash
unfolding token
token-slash c cs e = rw e

token-single :
    (c : ℕ) (cs : List ℕ)
    → (c == slash) ≡ false
    → (c == dot) ≡ true
    → at_end cs ≡ true
    → token c cs ≡ single_dot
unfolding token
token-single c cs not_slash e end = rw (not_slash, e, end)

token-double : (ds : List ℕ) → at_end ds ≡ true → token dot (dot ∷ ds) ≡ double_dot
unfolding token second_token
token-double ds end = rw end

skip-slash : (c : ℕ) (cs : List ℕ) → (c == slash) ≡ true → skip_slashes (c ∷ cs) ≡ skip_slashes cs
unfolding skip_slashes
skip-slash c cs e = rw e

words-slash : (c : ℕ) (cs : List ℕ) → (c == slash) ≡ true → words [] (c ∷ cs) ≡ [] ∷ words [] cs
unfolding words
words-slash c cs e = rw e

words-single :
    (c : ℕ) (cs : List ℕ) (ns : List (List ℕ))
    → (c == slash) ≡ false
    → (c == dot) ≡ true
    → at_end cs ≡ true
    → resolve (words [] cs) ns ≡ resolve (words [] (c ∷ cs)) ns
unfolding words
words-single c cs ns not_slash e end = rw not_slash (sym (words-at_end (c ∷ []) cs ns end ∙ rw e))

words-double :
    (ds : List ℕ) (ns : List (List ℕ))
    → at_end ds ≡ true
    → resolve (words [] ds) (parent ns) ≡ resolve (words [] (dot ∷ dot ∷ ds)) ns
unfolding words
words-double ds ns end = sym (words-at_end (dot ∷ dot ∷ []) ds ns end)

module _ (fuel c : ℕ) (cs out : List ℕ) where
  from-slash :
      token c cs ≡ at_slash
      → collapse_from (suc fuel) (c ∷ cs) out
        ≡ collapse_from fuel (skip_slashes (c ∷ cs)) (put_slash out)
  unfolding collapse_from
  from-slash e = rw (collapse_from, e)

  from-single :
      token c cs ≡ single_dot → collapse_from (suc fuel) (c ∷ cs) out ≡ collapse_from fuel cs out
  unfolding collapse_from
  from-single e = rw (collapse_from, e)

  from-double :
      token c cs ≡ double_dot
      → collapse_from (suc fuel) (c ∷ cs) out ≡ collapse_from fuel (drop 1 cs) (remove_last out)
  unfolding collapse_from
  from-double e = rw (collapse_from, e)

  from-name :
      token c cs ≡ at_name
      → collapse_from (suc fuel) (c ∷ cs) out
        ≡ collapse_from fuel (copy_name (c ∷ cs) out).0 (copy_name (c ∷ cs) out).1
  unfolding collapse_from
  from-name e = rw (collapse_from, e)

from-nil : (fuel : ℕ) (out : List ℕ) → collapse_from fuel [] out ≡ some out
unfolding collapse_from
from-nil zero out = refl
from-nil (suc fuel) out = refl

words-nil : (ns : List (List ℕ)) → text ns ≡ text (resolve (words [] []) ns)
unfolding words
words-nil ns = refl

-- The loop ends, and with the text of the names that the path left resolves to.
runs :
    (fuel : ℕ) (path out : List ℕ) (ns : List (List ℕ))
    → Shape path out ns
    → length path ≤ fuel
    → All Plain ns
    → Reaches (resolve (words [] path) ns) (collapse_from fuel path out)
runs fuel [] out ns shape enough plain =
    (out, from-nil fuel out, finish-text out ns shape plain ∙ words-nil ns)
runs zero (c ∷ cs) out ns shape enough plain = absurd (omega (arith, enough))
runs (suc fuel) (c ∷ cs) out ns shape enough plain = elim (branch c cs ns) [
  | is_slash e ↦
      reach
        (runs fuel (skip_slashes cs) (closed ns) ns (at_closed refl)
          (omega (arith, length-skip cs, enough)) plain)
        (words-skip cs ns ∙ ap (λ ws. resolve ws ns) (sym (words-slash c cs e)))
        (from-slash fuel c cs out (token-slash c cs e)
          ∙ ap₂ (collapse_from fuel) (skip-slash c cs e)
              (put_slash-closed (c ∷ cs) out ns shape plain))
  | is_single not_slash e end ↦
      reach (runs fuel cs (closed ns) ns (at_closed refl) (omega (arith, enough)) plain)
        (words-single c cs ns not_slash e end)
        (from-single fuel c cs out (token-single c cs not_slash e end)
          ∙ ap (collapse_from fuel cs) (Shape-closed c cs out ns shape not_slash))
  | is_double ds c_is cs_is end ↦
      let short : length ds ≤ fuel = omega (arith, enough, ap length cs_is) in
      let not_slash : (c == slash) ≡ false = rw c_is in
      reach
        (runs fuel ds (closed (parent ns)) (parent ns) (at_closed refl) short
          (parent-Plain ns plain))
        (words-double ds ns end ∙ rw (c_is, cs_is))
        (from-double fuel c cs out (rw (c_is, cs_is) (token-double ds end))
          ∙ ap₂ (collapse_from fuel) (ap (drop 1) cs_is) (
              ap remove_last (Shape-closed c cs out ns shape not_slash)
              ∙ remove_last-closed ns plain))
  | is_name not_slash is_token named ↦
      reach
        (runs fuel named.left (named.m ∷ named.n ++ closed ns) ((named.m ∷ named.n) ∷ ns)
          (at_open named.ends refl) (omega (arith, named.shorter, enough)) (named.plain, plain))
        (sym named.enters)
        (from-name fuel c cs out is_token
          ∙ ap (λ r. collapse_from fuel r.0 r.1)
              (ap (copy_name (c ∷ cs)) (Shape-closed c cs out ns shape not_slash) ∙ named.copied))
]

put-first : (path : List ℕ) → skip_slashes (slash ∷ path) ≡ skip_slashes path
unfolding skip_slashes
put-first path = refl

put-root : put_slash [] ≡ closed []
unfolding put_slash
put-root = refl

collapsed :
    {o : Option (List ℕ)} (ns : List (List ℕ))
    → Reaches ns o
    → finished o ≡ some (reverse_onto (text ns) [])
collapsed ns (out, e, t) = rw (e, t)

-- An absolute path collapses to the text of the directory that its names lead to from the root.
pub collapse_path_resolves :
    (path : List ℕ)
    → collapse_path (slash ∷ path) ≡ some (reverse_onto (text (resolve (words [] path) [])) [])
unfolding collapse_path
collapse_path_resolves path = collapsed (resolve (words [] path) []) (
    reach
      (runs (length path) (skip_slashes path) (closed []) [] (at_closed refl) (length-skip path) tt)
      (words-skip path [])
      (from-slash (length path) slash path [] (token-slash slash path refl)
        ∙ ap₂ (collapse_from (length path)) (put-first path) put-root))
