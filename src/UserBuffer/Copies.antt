-- ===== src/UserBuffer/Copies.antt =====
-- A copy to the kernel gives the bytes that the process sees at the buffer's addresses.
use plenjos_kernel.Prelude.{
  ℕ, zero, suc, ◌+◌, ◌-◌, ◌*◌, ◌/◌, ◌%◌, ◌≤◌, ◌<◌, ◌≡◌, ◌⊎◌, inl, inr, refl, sym, ap, ap₂, subst,
  fun_ext, ◌∙◌, arith, true, false, some, ltb, leb, ◌&&◌, lt→ltb, ge→ltb, le→leb,
}
use native.Mathlib.Decide.{dec_lt}
use plenjos_kernel.UserBuffer.{
  page_len, Page, PageTable, Memory, blit, chunk, chunk_at, frame_at, Status, done, to_kernel,
  copy_to_kernel_buf,
}
use plenjos_kernel.UserBuffer.Chunks.{Aligned, chunk_lem}

blit-in :
    (m : Memory) (dest : ℕ) (from : Memory) (n k : ℕ)
    → k < n
    → blit m dest from n (dest + k) ≡ from k
unfolding blit
blit-in m dest from n k small =
    rw (le→leb dest (dest + k) (omega arith), lt→ltb (dest + k) (dest + n) (omega arith))
      (ap from (omega arith))

blit-out :
    (m : Memory) (dest : ℕ) (from : Memory) (n x : ℕ)
    → (x < dest) ⊎ (dest + n ≤ x)
    → blit m dest from n x ≡ m x
unfolding blit
blit-out m dest from n x out =
    let e : (leb dest x && ltb x (dest + n)) ≡ false = ground arith in rw e

-- Two copies behind each other are one.
blit-blit :
    (m : Memory) (dest : ℕ) (first from : Memory) (n rest x : ℕ)
    → ((k : ℕ) → k < n → first k ≡ from k)
    → blit (blit m dest first n) (dest + n) (λ k. from (n + k)) rest x
      ≡ blit m dest from (n + rest) x
blit-blit m dest first from n rest x same = elim (dec_lt x dest) [
  | yes low ↦
      blit-out (blit m dest first n) (dest + n) (λ k. from (n + k)) rest x (inl (omega arith))
      ∙ blit-out m dest first n x (inl low)
      ∙ sym (blit-out m dest from (n + rest) x (inl low))
  | no high ↦ at (x - dest) (omega arith)
]
  where
    at :
        (k : ℕ)
        → dest + k ≡ x
        → blit (blit m dest first n) (dest + n) (λ k. from (n + k)) rest x
          ≡ blit m dest from (n + rest) x
    at k e = elim (dec_lt k n) [
      | yes in_first ↦
          subst
            (λ y.
              blit (blit m dest first n) (dest + n) (λ k. from (n + k)) rest y
              ≡ blit m dest from (n + rest) y)
            e
            (blit-out (blit m dest first n) (dest + n) (λ k. from (n + k)) rest (dest + k)
                (inl (omega arith))
              ∙ blit-in m dest first n k in_first
              ∙ same k in_first
              ∙ sym (blit-in m dest from (n + rest) k (omega arith)))
      | no behind ↦ elim (dec_lt k (n + rest)) [
        | yes in_rest ↦
            let split : dest + n + (k - n) ≡ x = omega (arith, e) in
            let whole : n + (k - n) ≡ k = omega arith in
            subst
              (λ y.
                blit (blit m dest first n) (dest + n) (λ k. from (n + k)) rest y
                ≡ blit m dest from (n + rest) x)
              split
              (blit-in (blit m dest first n) (dest + n) (λ k. from (n + k)) rest (k - n)
                  (omega arith)
                ∙ ap from whole
                ∙ sym (blit-in m dest from (n + rest) k in_rest)
                ∙ ap (blit m dest from (n + rest)) e)
        | no far ↦
            blit-out (blit m dest first n) (dest + n) (λ k. from (n + k)) rest x
              (inr (omega (arith, e)))
            ∙ blit-out m dest first n x (inr (omega (arith, e)))
            ∙ sym (blit-out m dest from (n + rest) x (inr (omega (arith, e))))
      ]
    ]

-- Every page of the buffer is mapped to the process, as the table of page numbers says.
pub record Readable (pages : PageTable) (table : ℕ → Page) (src count : ℕ) : Type 0 where
  pub maps : (k : ℕ) → k < count → pages (src + k) ≡ some (table ((src + k) / page_len))
  pub permits :
      (k : ℕ)
      → k < count
      → ((table ((src + k) / page_len)).present && (table ((src + k) / page_len)).user) ≡ true

-- the byte that the process sees at an address
abbrev pub seen : (ℕ → Page) → Memory → ℕ → ℕ
seen table frames addr = frames (frame_at (table (addr / page_len)) addr)

-- Inside a page, the frame's bytes are the ones seen.
seen-page :
    (table : ℕ → Page) (frames : Memory) (addr k : ℕ)
    → k < page_len - addr % page_len
    → frames (frame_at (table (addr / page_len)) addr + k) ≡ seen table frames (addr + k)
seen-page table frames addr k inside =
    let same : addr / page_len ≡ (addr + k) / page_len = omega (arith, inside) in
    let at : addr % page_len + k ≡ (addr + k) % page_len = omega (arith, inside) in
    subst
      (λ q.
        frames (frame_at (table (addr / page_len)) addr + k)
        ≡ frames ((table q).frame * page_len + (addr + k) % page_len))
      same (ap frames (omega (arith, at)))

to-aligned :
    (user offs count : ℕ)
    → (offs ≡ count) ⊎ ((user + offs) % page_len ≡ 0)
    → (offs ≡ count) ⊎ Aligned user offs
to-aligned user offs count (inl ended) = inl ended
to-aligned user offs count (inr at) = inr (inr at)

-- Behind the first round the address is at the start of its page.
chunk_at-Aligned :
    (page : Page) (user count offs : ℕ)
    → Aligned user offs
    → chunk_at page (user + offs) count offs ≡ frame_at page (user + offs)
unfolding chunk_at
chunk_at-Aligned page user count offs (inl first) = ground arith
chunk_at-Aligned page user count offs (inr at_start) = ground arith

abbrev Copied : Status × Memory → Memory → Type 0
Copied r m = (r.0 ≡ done) × ((x : ℕ) → r.1 x ≡ m x)

module _ (pages : PageTable) (table : ℕ → Page) (frames : Memory) (dest src count : ℕ)
    (ok : Readable pages table src count) where
  aligned : (offs : ℕ) → offs < count → (offs ≡ count) ⊎ Aligned src offs → Aligned src offs
  aligned offs more (inl ended) = absurd (omega (arith, ended, more))
  aligned offs more (inr al) = al

  abbrev first_copied : Memory → ℕ → Memory
  first_copied m offs =
      blit m (dest + offs)
        (λ k. frames (frame_at (table ((src + offs) / page_len)) (src + offs) + k))
        (chunk src count offs)

  round_step :
      (fuel : ℕ) (m : Memory) (offs : ℕ)
      → offs < count
      → Aligned src offs
      → to_kernel pages frames dest src count (suc fuel) m offs
        ≡ to_kernel pages frames dest src count fuel
            (first_copied m offs)
            (offs + chunk src count offs)
  unfolding to_kernel
  round_step fuel m offs more al = rw (
    lt→ltb offs count more,
    ok.maps offs more,
    ok.permits offs more,
    chunk_at-Aligned (table ((src + offs) / page_len)) src count offs al,
  )

  shifted :
      (m : Memory) (offs n : ℕ)
      → blit
          (first_copied m offs)
          (dest + (offs + n))
          (λ k. seen table frames (src + (offs + n) + k))
          (count - (offs + n))
        ≡ blit
            (first_copied m offs)
            (dest + offs + n)
            (λ k. seen table frames (src + offs + (n + k)))
            (count - (offs + n))
  shifted m offs n =
      ap₂ (λ d f. blit (first_copied m offs) d f (count - (offs + n))) (omega arith)
        (fun_ext (λ k. ap (seen table frames) (omega arith)))

  rounds :
      (fuel : ℕ) (m : Memory) (offs : ℕ)
      → count - offs ≤ fuel
      → offs ≤ count
      → (offs ≡ count) ⊎ Aligned src offs
      → Copied
          (to_kernel pages frames dest src count fuel m offs)
          (blit m (dest + offs) (λ k. seen table frames (src + offs + k)) (count - offs))
  unfolding to_kernel
  rounds zero m offs enough within at =
      rw (ge→ltb offs count (omega (arith, enough)))
        (refl, λ x. sym (blit-out m (dest + offs) _ (count - offs) x (ground (arith, enough))))
  rounds (suc fuel) m offs enough within at = elim (dec_lt offs count) [
    | no ended ↦
        rw (ge→ltb offs count (omega arith))
          (refl, λ x. sym (blit-out m (dest + offs) _ (count - offs) x (ground arith)))
    | yes more ↦
        let al = aligned offs more at in
        let n = chunk src count offs in
        let (n_is, one, short, next) = chunk_lem src count offs al more in
        let ih =
          rounds fuel (first_copied m offs) (offs + n) (omega (arith, enough, one)) short
            (to-aligned src (offs + n) count next) in
        let e = round_step fuel m offs more al in
        (
          ap (λ r. r.0) e ∙ ih.0,
          λ x.
              ap (λ r. r.1 x) e
              ∙ ih.1 x
              ∙ ap (λ b. b x) (shifted m offs n)
              ∙ blit-blit m (dest + offs) _ (λ k. seen table frames (src + offs + k)) n
                  (count - (offs + n)) x
                  (λ k small. seen-page table frames (src + offs) k (omega (arith, small, n_is)))
              ∙ ap (λ c. blit m (dest + offs) (λ k. seen table frames (src + offs + k)) c x)
                  (omega (arith, short)),
        )
  ]

-- A copy from a buffer whose pages the process may use returns 0, the kernel's buffer then holds the
-- bytes that the process sees at the addresses, and the rest of the kernel's memory is left.
pub copy_to_kernel_buf_lem :
    (pages : PageTable) (table : ℕ → Page) (frames m : Memory) (dest src count x : ℕ)
    → Readable pages table src count
    → ((copy_to_kernel_buf pages frames m dest src count).0 ≡ done)
      × ((copy_to_kernel_buf pages frames m dest src count).1 x
          ≡ blit m dest (λ k. seen table frames (src + k)) count x)
unfolding copy_to_kernel_buf
copy_to_kernel_buf_lem pages table frames m dest src count x ok =
    let r =
      rounds pages table frames dest src count ok count m 0 (omega arith) (omega arith)
        (inr (inl refl)) in
    (
      r.0,
      r.1 x
          ∙ ap (λ c. blit m (dest + 0) (λ k. seen table frames (src + 0 + k)) c x) (omega arith)
          ∙ ap (λ b. b x)
              (ap₂ (λ d f. blit m d f count) (omega arith)
                (fun_ext (λ k. ap (seen table frames) (omega arith)))),
    )
