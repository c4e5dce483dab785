-- ===== src/Strings/Tokens.antt =====
-- usr/libc/src/string/search.c: `strtok`, on the bytes of the string from a pointer on. A token is ended
-- in place by a 0 byte, so what the caller gets is the list of its bytes; the delimiters are not NULL.
use plenjos_kernel.Prelude.{
  ℕ, ◌≡◌, refl, sym, ap, subst, Bool, true, false, Option, none, some, List, [], ◌∷◌, ◌++◌, ◌==◌,
  if◌then◌else◌, Bool-cases, inl, inr, All,
}

-- the inner loop: whether a byte is one of the delimiters
unfoldable pub is_delim : List ℕ → ℕ → Bool
is_delim [] c = false
is_delim (d ∷ ds) c = let rest = is_delim ds c in if c == d then true else rest

-- the first loop: the leading delimiters are skipped
unfoldable pub skip_delims : List ℕ → List ℕ → List ℕ
skip_delims delim [] = []
skip_delims delim (c ∷ cs) =
    let rest = skip_delims delim cs in if is_delim delim c then rest else c ∷ cs

-- the second loop: the token, and what stands behind the delimiter that ends it
unfoldable pub span_token : List ℕ → List ℕ → List ℕ × Option (List ℕ)
span_token delim [] = ([], none)
span_token delim (c ∷ cs) =
    let rest = span_token delim cs in
    if is_delim delim c then ([], some cs) else (c ∷ rest.0, rest.1)

-- the token if one is left, and the new `olds`
unfoldable pub token_from : List ℕ → List ℕ → Option (List ℕ) × Option (List ℕ)
token_from delim [] = (none, none)
token_from delim (c ∷ cs) = let t = span_token delim (c ∷ cs) in (some t.0, t.1)

-- `strtok`: `none` is NULL
unfoldable pub strtok :
    Option (List ℕ) → Option (List ℕ) → List ℕ → Option (List ℕ) × Option (List ℕ)
strtok (some str) olds delim = token_from delim (skip_delims delim str)
strtok none none delim = (none, none)
strtok none (some olds) delim = token_from delim (skip_delims delim olds)

-- what is left of the string behind a token, with the delimiter that ended it
pub data Behind (delim : List ℕ) : List ℕ → Option (List ℕ) → Type 0 where
  at_end : Behind delim [] none
  at_delim : (d : ℕ) (rest : List ℕ) → is_delim delim d ≡ true → Behind delim (d ∷ rest) (some rest)

-- The string is delimiters, then a token without any, then the end or a delimiter; or delimiters only.
pub data Tokenized (delim : List ℕ) : List ℕ → Option (List ℕ) × Option (List ℕ) → Type 0 where
  no_token :
      {str : List ℕ} → All (λ c. is_delim delim c ≡ true) str → Tokenized delim str (none, none)
  one_token :
      {olds : Option (List ℕ)} (skipped : List ℕ) (c : ℕ) (token behind : List ℕ)
      → All (λ b. is_delim delim b ≡ true) skipped
      → All (λ b. is_delim delim b ≡ false) (c ∷ token)
      → Behind delim behind olds
      → Tokenized delim (skipped ++ (c ∷ token ++ behind)) (some (c ∷ token), olds)

module _ (delim : List ℕ) where
  record Spanned (str : List ℕ) (r : List ℕ × Option (List ℕ)) : Type 0 where
    behind : List ℕ
    parts : str ≡ r.0 ++ behind
    plain : All (λ b. is_delim delim b ≡ false) r.0
    ends : Behind delim behind r.1

  span-Spanned : (str : List ℕ) → Spanned str (span_token delim str)
  unfolding span_token
  span-Spanned [] = record { behind = []; parts = refl; plain = tt; ends = at_end }
  span-Spanned (c ∷ cs) = elim (Bool-cases (is_delim delim c)) [
    | inl e ↦ rw e (record { behind = c ∷ cs; parts = refl; plain = tt; ends = at_delim c cs e })
    | inr e ↦
        let h = span-Spanned cs in
        rw e (record {
          behind = h.behind;
          parts = ap (λ s. c ∷ s) h.parts;
          plain = (e, h.plain);
          ends = h.ends;
        })
  ]

  Tokenized-skip :
      (c : ℕ) (str : List ℕ) (r : Option (List ℕ) × Option (List ℕ))
      → is_delim delim c ≡ true
      → Tokenized delim str r
      → Tokenized delim (c ∷ str) r
  Tokenized-skip c str r e (no_token all) = no_token (e, all)
  Tokenized-skip c str r e (one_token skipped d token behind all plain ends) =
      one_token (c ∷ skipped) d token behind (e, all) plain ends

  Tokenized-from : (str : List ℕ) → Tokenized delim str (token_from delim (skip_delims delim str))
  unfolding skip_delims token_from span_token
  Tokenized-from [] = no_token tt
  Tokenized-from (c ∷ cs) = elim (Bool-cases (is_delim delim c)) [
    | inl e ↦ rw e (Tokenized-skip c cs _ e (Tokenized-from cs))
    | inr e ↦
        let h = span-Spanned cs in
        rw (e, e)
          (subst
            (λ s.
              Tokenized delim (c ∷ s) (some (c ∷ (span_token delim cs).0), (span_token delim cs).1))
            (sym h.parts) (one_token [] c (span_token delim cs).0 h.behind tt (e, h.plain) h.ends))
  ]

-- strtok of a string skips its leading delimiters and returns the bytes up to the next one, which is
-- where the following call goes on; without a byte that is no delimiter it returns NULL.
pub strtok_lem :
    (str : List ℕ) (olds : Option (List ℕ)) (delim : List ℕ)
    → Tokenized delim str (strtok (some str) olds delim)
unfolding strtok
strtok_lem str olds delim = Tokenized-from delim str
