-- ===== src/Paging/Translate.antt =====
-- What the walks leave behind: the address is translated, and the others as they were.
use plenjos_kernel.Prelude.{
  ℕ, ◌+◌, ◌<◌, ◌≡◌, ◌≢◌, refl, sym, ap, ◌∙◌, subst, arith, true, Option, none, some, ◌>>=◌,
  Option-cases, inl, inr,
}
use plenjos_kernel.Paging.{
  Entry, Paging, Indices, addr_split, present_entry, lookup, place_in, get_physaddr,
}
use plenjos_kernel.Paging.Tree.{IsPaging, Kept}
use plenjos_kernel.Paging.Path.{Found}

present_some : (e : Entry) → e.flag.present ≡ true → present_entry e ≡ some e
present_some e h = simp h

some_present : (e x : Entry) → present_entry e ≡ some x → (e.flag.present ≡ true) × (e ≡ x)
some_present e x h = ground arith

bind_some :
    {A B : Type 0} (o : Option A) (f : A → Option B) (b : B)
    → (o >>= f) ≡ some b
    → (a : A) × (o ≡ some a) × (f a ≡ some b)
bind_some none f b h = absurd (ground arith)
bind_some (some a) f b h = (a, refl, h)

then_some : {A B : Type 0} (o : Option A) (f : A → Option B) (a : A) → o ≡ some a → (o >>= f) ≡ f a
then_some o f a e = rw e refl

pub Found-lookup :
    (m : Paging) (pml4 : ℕ) (ix : Indices) (t : ℕ)
    → Found m pml4 ix t
    → lookup m pml4 ix ≡ some (m.tables t (ix.pt))
unfolding lookup
Found-lookup m pml4 ix t f = simp (
  f.top_present, f.top_base, f.mid_present, f.mid_base, f.low_present, f.low_base, f.page_present,
)

pub lookup-Found :
    (m : Paging) (pml4 : ℕ) (ix : Indices) (e : Entry)
    → lookup m pml4 ix ≡ some e
    → (t : ℕ) × Found m pml4 ix t × (m.tables t (ix.pt) ≡ e)
unfolding lookup
lookup-Found m pml4 ix e h =
    let page = λ (c : Entry). present_entry (m.tables (c.base) (ix.pt)) in
    let low = λ (b : Entry). present_entry (m.tables (b.base) (ix.pd)) >>= page in
    let mid = λ (a : Entry). present_entry (m.tables (a.base) (ix.pdpt)) >>= low in
    let (a, ea, ra) = bind_some (present_entry (m.tables pml4 (ix.pml4))) mid e h in
    let (b, eb, rb) = bind_some (present_entry (m.tables (a.base) (ix.pdpt))) low e ra in
    let (c, ec, rc) = bind_some (present_entry (m.tables (b.base) (ix.pd))) page e rb in
    let pa = some_present (m.tables pml4 (ix.pml4)) a ea in
    let pb = some_present (m.tables (a.base) (ix.pdpt)) b eb in
    let pc = some_present (m.tables (b.base) (ix.pd)) c ec in
    let pe = some_present (m.tables (c.base) (ix.pt)) e rc in
    (
      c.base,
      record {
        pdpt = a.base;
        pd = b.base;
        top_present = pa.0;
        top_base = ap (λ x. x.base) pa.1;
        mid_present = pb.0;
        mid_base = ap (λ x. x.base) pb.1;
        low_present = pc.0;
        low_base = ap (λ x. x.base) pc.1;
        page_present = pe.0;
      },
      pe.1,
    )

-- An entry that leads down from a table is kept, to the same table.
pub still_down :
    (m : Paging) (level : ℕ → ℕ) (m' : Paging) (level' : ℕ → ℕ) (t i n : ℕ)
    → IsPaging m level
    → Kept m level m' level'
    → 1 < level t
    → (m.tables t i).flag.present ≡ true
    → (m.tables t i).base ≡ n
    → ((m'.tables t i).flag.present ≡ true) × ((m'.tables t i).base ≡ n) × (level n + 1 ≡ level t)
still_down m level m' level' t i n p k high e b =
    let lower = subst (λ x. level x + 1 ≡ level t) b (p.down t i high e) in
    let r =
      k.still t i (omega arith) e (λ z. let l = ap level (sym b ∙ z) ∙ p.no_table in omega arith) in
    (r.0, r.1 ∙ b, lower)

-- A page that was mapped to a frame still is.
pub lookup-Kept :
    (m : Paging) (level : ℕ → ℕ) (m' : Paging) (level' : ℕ → ℕ) (pml4 : ℕ) (ix : Indices)
    (e : Entry)
    → IsPaging m level
    → Kept m level m' level'
    → level pml4 ≡ 4
    → lookup m pml4 ix ≡ some e
    → e.base ≢ 0
    → (e' : Entry) × (lookup m' pml4 ix ≡ some e') × (e'.base ≡ e.base)
lookup-Kept m level m' level' pml4 ix e p k four h nz =
    let (t, f, same) = lookup-Found m pml4 ix e h in
    let same_base = ap (λ x. x.base) same in
    let top =
      still_down m level m' level' pml4 (ix.pml4) f.pdpt p k (omega arith) f.top_present
        f.top_base in
    let mid =
      still_down m level m' level' f.pdpt (ix.pdpt) f.pd p k (omega (arith, top.2)) f.mid_present
        f.mid_base in
    let low =
      still_down m level m' level' f.pd (ix.pd) t p k (omega (arith, top.2, mid.2)) f.low_present
        f.low_base in
    let page =
      k.still t (ix.pt) (omega (arith, top.2, mid.2, low.2)) f.page_present
        (λ z. nz (sym same_base ∙ z)) in
    (
      m'.tables t (ix.pt),
      Found-lookup m' pml4 ix t (record {
        pdpt = f.pdpt;
        pd = f.pd;
        top_present = top.0;
        top_base = top.1;
        mid_present = mid.0;
        mid_base = mid.1;
        low_present = low.0;
        low_base = low.1;
        page_present = page.0;
      }),
      page.1 ∙ same_base,
    )

Found-same :
    (m m' : Paging) (level : ℕ → ℕ) (pml4 : ℕ) (ix : Indices) (t : ℕ)
    → IsPaging m level
    → ((u j : ℕ) → level u ≢ 0 → m'.tables u j ≡ m.tables u j)
    → level pml4 ≡ 4
    → Found m pml4 ix t
    → Found m' pml4 ix t × (m'.tables t (ix.pt) ≡ m.tables t (ix.pt))
Found-same m m' level pml4 ix t p same four f =
    let mid =
      subst (λ x. level x + 1 ≡ level pml4) f.top_base
        (p.down pml4 (ix.pml4) (omega arith) f.top_present) in
    let low =
      subst (λ x. level x + 1 ≡ level f.pdpt) f.mid_base
        (p.down f.pdpt (ix.pdpt) (omega arith) f.mid_present) in
    let page =
      subst (λ x. level x + 1 ≡ level f.pd) f.low_base
        (p.down f.pd (ix.pd) (omega arith) f.low_present) in
    let s₁ = same pml4 (ix.pml4) (omega arith) in
    let s₂ = same f.pdpt (ix.pdpt) (omega arith) in
    let s₃ = same f.pd (ix.pd) (omega arith) in
    let s₄ = same t (ix.pt) (omega arith) in
    (
      record {
        pdpt = f.pdpt;
        pd = f.pd;
        top_present = ap (λ e. e.flag.present) s₁ ∙ f.top_present;
        top_base = ap (λ e. e.base) s₁ ∙ f.top_base;
        mid_present = ap (λ e. e.flag.present) s₂ ∙ f.mid_present;
        mid_base = ap (λ e. e.base) s₂ ∙ f.mid_base;
        low_present = ap (λ e. e.flag.present) s₃ ∙ f.low_present;
        low_base = ap (λ e. e.base) s₃ ∙ f.low_base;
        page_present = ap (λ e. e.flag.present) s₄ ∙ f.page_present;
      },
      s₄,
    )

-- Where nothing is mapped, nothing is mapped in memory that has the same tables.
pub unmapped_same :
    (m m' : Paging) (level : ℕ → ℕ) (virt pml4 : ℕ)
    → IsPaging m' level
    → ((u j : ℕ) → level u ≢ 0 → m'.tables u j ≡ m.tables u j)
    → level pml4 ≡ 4
    → get_physaddr m virt pml4 ≡ 0
    → get_physaddr m' virt pml4 ≡ 0
unfolding get_physaddr
unmapped_same m m' level virt pml4 p same four zero_before =
    elim (Option-cases (lookup m' pml4 (addr_split virt))) [
      | inl none_there ↦ ap (place_in virt) none_there
      | inr (e, here) ↦
          let (t, f, is_e) = lookup-Found m' pml4 (addr_split virt) e here in
          let (f', s) =
            Found-same m' m level pml4 (addr_split virt) t p (λ u j h. sym (same u j h)) four f in
          ap (place_in virt) (
            here
            ∙ ap some (sym is_e)
            ∙ ap some (sym s)
            ∙ sym (Found-lookup m pml4 (addr_split virt) t f'))
          ∙ zero_before
    ]
