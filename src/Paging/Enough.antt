-- ===== src/Paging/Enough.antt =====
-- How many frames a walk takes from the free ones (memory/mm_page.c).
use plenjos_kernel.Prelude.{
  ℕ, suc, ◌+◌, ◌≤◌, ◌≡◌, refl, ◌∙◌, subst, arith, Bool, true, List, [], ◌∷◌, length, Bool-cases,
  inl, inr,
}
use plenjos_kernel.Paging.{
  Flags, Paging, at, and_then, descend, Indices, page_table, write_entry, zero_table,
}
use plenjos_kernel.Paging.Tree.{
  IsPaging, Arrives, Available, descend-Arrives, descend_here, descend-made, made, opened,
}
use plenjos_kernel.Paging.Path.{and_then-at}

-- A step that may make a table arrives, and takes one frame at most.
descend_frames :
    (user : Bool) (flags : Flags) (m : Paging) (level : ℕ → ℕ) (t i n : ℕ) (free : List ℕ)
    → IsPaging m level
    → m.free ≡ free
    → suc n ≤ length free
    → (m' : Paging) × (k : ℕ) × (descend true user flags m t i ≡ at m' k) × (n ≤ length m'.free)
unfolding write_entry zero_table
descend_frames user flags m level t i n [] p f few = absurd (omega arith)
descend_frames user flags m level t i n (x ∷ rest) p f few =
    let (fresh, nz, apart, a) = subst (Available level) f p.available in
    elim (Bool-cases (m.tables t i).flag.present) [
      | inl here ↦ (
        opened user m t i,
        (m.tables t i).base,
        descend_here true user flags m t i here,
        ground arith,
      )
      | inr absent ↦ (
        made m t i flags x rest,
        x,
        descend-made user flags m t i x rest absent f nz.0,
        omega arith,
      )
    ]

-- The three steps take three frames at most.
pub page_table_frames :
    (user : Bool) (flags : Flags) (m : Paging) (level : ℕ → ℕ) (pml4 n : ℕ) (ix : Indices)
    → IsPaging m level
    → level pml4 ≡ 4
    → flags.present ≡ true
    → n + 3 ≤ length m.free
    → (m' : Paging) × (t : ℕ) × (page_table true user flags m pml4 ix ≡ at m' t)
      × (n ≤ length m'.free)
unfolding page_table
page_table_frames user flags m level pml4 n ix p four pres few =
    let third = λ (m₂ : Paging) (pd : ℕ). descend true user flags m₂ pd (ix.pd) in
    let second =
      λ (m₁ : Paging) (pdpt : ℕ). and_then (descend true user flags m₁ pdpt (ix.pdpt)) third in
    let (m₁, pdpt, e₁, few₁) =
      descend_frames user flags m level pml4 (ix.pml4) (n + 2) m.free p refl (omega arith) in
    let g₁ =
      subst (Arrives flags m level pml4 ix.pml4) e₁
        (descend-Arrives true user flags m level pml4 (ix.pml4) p (omega arith) pres) in
    let (m₂, pd, e₂, few₂) =
      descend_frames user flags m₁ g₁.level' pdpt (ix.pdpt) (n + 1) m₁.free g₁.is_paging refl
        (omega arith) in
    let g₂ = subst (Arrives flags m₁ g₁.level' pdpt ix.pdpt) e₂ (
      descend-Arrives true user flags m₁ g₁.level' pdpt (ix.pdpt) g₁.is_paging
        (omega (arith, g₁.down_one)) pres) in
    let (m₃, t, e₃, few₃) =
      descend_frames user flags m₂ g₂.level' pd (ix.pd) n m₂.free g₂.is_paging refl (omega arith) in
    (
      m₃,
      t,
      and_then-at (descend true user flags m pml4 (ix.pml4)) second m₁ pdpt e₁
          ∙ and_then-at (descend true user flags m₁ pdpt (ix.pdpt)) third m₂ pd e₂
          ∙ e₃,
      few₃,
    )
