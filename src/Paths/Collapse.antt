-- ===== src/Paths/Collapse.antt =====
-- The single steps of `collapse_path`: what each leaves of the text of a directory.
pub mod Resolve
use plenjos_kernel.Prelude.{
  ℕ, zero, suc, ◌+◌, ◌-◌, ◌≤◌, ◌<◌, ◌≡◌, ◌≢◌, refl, sym, subst, ap, ◌∙◌, arith, Bool, true, false,
  Option, none, some, List, [], ◌∷◌, ◌++◌, ◌==◌, ltb, ◌&&◌, if◌then◌else◌, Bool-cases, inl, inr,
  ne→==, ==_iff, ==_refl, All, length, drop, append_assoc,
}
use plenjos_kernel.Paths.{
  slash, dot, skip_slashes, at_end, put_slash, copy_name, drop_name, remove_last, Token, at_slash,
  single_dot, double_dot, at_name, token, second_token, collapse_from, collapse_path, drop_slash,
  reverse_onto,
}
use plenjos_kernel.Paths.Names.{
  words, parent, enter, resolve, closed, text, words-skip, words-at_end, enter-first, enter-second,
  enter-third,
}

abbrev pub Plain : List ℕ → Type 0
Plain = All (λ c. c ≢ slash)

Plain-append : (xs ys : List ℕ) → Plain xs → Plain ys → Plain (xs ++ ys)
Plain-append [] ys p q = q
Plain-append (x ∷ xs) ys p q = (p.0, Plain-append xs ys p.1 q)

pub length-skip : (cs : List ℕ) → length (skip_slashes cs) ≤ length cs
unfolding skip_slashes
length-skip [] = omega arith
length-skip (c ∷ cs) = let rest = length-skip cs in ground arith

-- Copying a name leaves the path at an end, and puts plain bytes before what the output holds.
record Copied (cs out : List ℕ) (cur : List ℕ) (r : List ℕ × List ℕ) : Type 0 where
  more : List ℕ
  out_is : r.1 ≡ more ++ out
  plain : Plain more
  ends : at_end r.0 ≡ true
  shorter : length r.0 ≤ length cs
  names : words cur cs ≡ words (more ++ cur) r.0

copy-Copied : (cs out cur : List ℕ) → Copied cs out cur (copy_name cs out)
unfolding copy_name words
copy-Copied [] out cur = record {
  more = [];
  out_is = refl;
  plain = tt;
  ends = refl;
  shorter = omega arith;
  names = refl;
}
copy-Copied (c ∷ cs) out cur = elim (Bool-cases (c == slash)) [
  | inl e ↦ rw e (record {
    more = [];
    out_is = refl;
    plain = tt;
    ends = e;
    shorter = omega arith;
    names = rw e;
  })
  | inr e ↦
      let h = copy-Copied cs (c ∷ out) (c ∷ cur) in
      rw e (record {
        more = h.more ++ (c ∷ []);
        out_is = h.out_is ∙ sym (append_assoc h.more (c ∷ []) out);
        plain = Plain-append h.more (c ∷ []) h.plain (λ k. ground (arith, ==_refl c), tt);
        ends = h.ends;
        shorter = omega (arith, h.shorter);
        names = rw e (
            h.names
            ∙ ap (λ w. words w (copy_name cs (c ∷ out)).0)
                (sym (append_assoc h.more (c ∷ []) cur)));
      })
]

drop-Plain : (n : List ℕ) (ns : List (List ℕ)) → Plain n → drop_name (n ++ closed ns) ≡ closed ns
unfolding drop_name
drop-Plain [] [] p = refl
drop-Plain [] (m ∷ ns) p = refl
drop-Plain (c ∷ n) ns p = rw (ne→== c slash p.0) (drop-Plain n ns p.1)

-- A double dot leaves the text of the parent.
pub remove_last-closed :
    (ns : List (List ℕ)) → All Plain ns → remove_last (closed ns) ≡ closed (parent ns)
unfolding remove_last
remove_last-closed [] p = refl
remove_last-closed ([] ∷ []) p = drop-Plain [] [] tt
remove_last-closed ([] ∷ (m ∷ ns)) p = drop-Plain [] (m ∷ ns) tt
remove_last-closed ((c ∷ n) ∷ ns) p = drop-Plain (c ∷ n) ns p.0

-- A name behind a closed text: what copying it gives.
pub record Named (c : ℕ) (cs : List ℕ) (ns : List (List ℕ)) : Type 0 where
  pub m : ℕ
  pub n : List ℕ
  pub left : List ℕ
  pub copied : copy_name (c ∷ cs) (closed ns) ≡ (left, m ∷ n ++ closed ns)
  pub plain : Plain (m ∷ n)
  pub ends : at_end left ≡ true
  pub shorter : length left ≤ length cs
  pub enters : resolve (words [] (c ∷ cs)) ns ≡ resolve (words [] left) ((m ∷ n) ∷ ns)

-- The bytes `pre` are copied already, and what is copied on from them is entered as a name.
pub Named-by :
    (c : ℕ) (cs : List ℕ) (ns : List (List ℕ)) (x : ℕ) (pre rest : List ℕ)
    → copy_name (c ∷ cs) (closed ns) ≡ copy_name rest (x ∷ pre ++ closed ns)
    → words [] (c ∷ cs) ≡ words (x ∷ pre) rest
    → Plain (x ∷ pre)
    → length rest ≤ length cs
    → ((ys : List ℕ) → enter (ys ++ (x ∷ pre)) ns ≡ (ys ++ (x ∷ pre)) ∷ ns)
    → Named c cs ns
Named-by c cs ns x pre rest same_copy same_words plain_pre short enters =
    let h = copy-Copied rest (x ∷ pre ++ closed ns) (x ∷ pre) in
    let r = copy_name rest (x ∷ pre ++ closed ns) in
    go h.more h.out_is (Plain-append h.more (x ∷ pre) h.plain plain_pre) h.ends
      (omega (arith, h.shorter, short))
      (ap (λ w. resolve w ns) (same_words ∙ h.names)
        ∙ words-at_end (h.more ++ (x ∷ pre)) r.0 ns h.ends
        ∙ ap (resolve (words [] r.0)) (enters h.more))
  where
    go :
        (more : List ℕ)
        → (copy_name rest (x ∷ pre ++ closed ns)).1 ≡ more ++ (x ∷ pre ++ closed ns)
        → Plain (more ++ (x ∷ pre))
        → at_end (copy_name rest (x ∷ pre ++ closed ns)).0 ≡ true
        → length (copy_name rest (x ∷ pre ++ closed ns)).0 ≤ length cs
        → resolve (words [] (c ∷ cs)) ns
          ≡ resolve (words [] (copy_name rest (x ∷ pre ++ closed ns)).0) ((more ++ (x ∷ pre)) ∷ ns)
        → Named c cs ns
    go [] out plain ends shorter e = record {
      m = x;
      n = pre;
      left = (copy_name rest (x ∷ pre ++ closed ns)).0;
      copied = same_copy ∙ ap (λ o. ((copy_name rest (x ∷ pre ++ closed ns)).0, o)) out;
      plain = plain;
      ends = ends;
      shorter = shorter;
      enters = e;
    }
    go (y ∷ ys) out plain ends shorter e = record {
      m = y;
      n = ys ++ (x ∷ pre);
      left = (copy_name rest (x ∷ pre ++ closed ns)).0;
      copied =
          same_copy
          ∙ ap (λ o. ((copy_name rest (x ∷ pre ++ closed ns)).0, o))
              (out ∙ ap (λ o. y ∷ o) (sym (append_assoc ys (x ∷ pre) (closed ns))));
      plain = plain;
      ends = ends;
      shorter = shorter;
      enters = e;
    }

drop_slash-name :
    (c : ℕ) (n : List ℕ) (ns : List (List ℕ))
    → c ≢ slash
    → drop_slash (c ∷ n ++ closed ns) ≡ c ∷ n ++ closed ns
unfolding drop_slash
drop_slash-name c [] [] ne = rw (ne→== c slash ne)
drop_slash-name c [] (m ∷ ns) ne = rw (ne→== c slash ne)
drop_slash-name c (d ∷ n) ns ne = rw (ne→== c slash ne)

-- between two rounds: the text of a directory with its slash, or without it at the end of a name
pub data Shape (path out : List ℕ) : List (List ℕ) → Type 0 where
  at_closed : {ns : List (List ℕ)} → out ≡ closed ns → Shape path out ns
  at_open :
      {c : ℕ} {n : List ℕ} {ns : List (List ℕ)}
      → at_end path ≡ true
      → out ≡ c ∷ n ++ closed ns
      → Shape path out ((c ∷ n) ∷ ns)

pub finish-text :
    (out : List ℕ) (ns : List (List ℕ)) → Shape [] out ns → All Plain ns → drop_slash out ≡ text ns
unfolding drop_slash
finish-text out [] (at_closed e) p = rw e
finish-text out ([] ∷ []) (at_closed e) p = rw e
finish-text out ([] ∷ (m ∷ ns)) (at_closed e) p = rw e
finish-text out ((c ∷ n) ∷ ns) (at_closed e) p = rw e
finish-text out ((c ∷ n) ∷ ns) (at_open end e) p = rw e (drop_slash-name c n ns p.0.0)

pub put_slash-closed :
    (path out : List ℕ) (ns : List (List ℕ))
    → Shape path out ns
    → All Plain ns
    → put_slash out ≡ closed ns
unfolding put_slash
put_slash-closed path out [] (at_closed e) p = rw e
put_slash-closed path out (m ∷ ns) (at_closed e) p = rw e
put_slash-closed path out ((c ∷ n) ∷ ns) (at_open end e) p = rw (e, ne→== c slash p.0.0)

pub Shape-closed :
    (c : ℕ) (cs out : List ℕ) (ns : List (List ℕ))
    → Shape (c ∷ cs) out ns
    → (c == slash) ≡ false
    → out ≡ closed ns
Shape-closed c cs out ns (at_closed e) ne = e
Shape-closed c cs out ((d ∷ n) ∷ ns) (at_open end e) ne = ground arith
