-- ===== src/Paging/Alloc.antt =====
-- `alloc_virtual_memory` (memory/mm_virt.c): a page with the rights that were asked for.
use plenjos_kernel.Prelude.{
  ℕ, ◌+◌, ◌*◌, ◌%◌, ◌^◌, ◌≤◌, ◌≡◌, refl, ap, ◌∙◌, arith, Bool, true, not, some, length,
}
use plenjos_kernel.Paging.{
  Entry, Paging, at, Indices, addr_split, lookup, get_physaddr, write_entry, find_page_using_alloc,
  placed, alloc_virtual_memory,
}
use plenjos_kernel.Paging.Tree.{IsPaging}
use plenjos_kernel.Paging.Path.{Found}
use plenjos_kernel.Paging.Translate.{Found-lookup}
use plenjos_kernel.Paging.FindPage.{find_page_using_alloc-Maps, get_physaddr-Found}

-- the entry with the rights set
abbrev with_rights : Entry → Bool → Bool → Entry
with_rights e ex ro = record e { flag = record (e.flag) { write = not ro; nx = not ex } }

alloc-run :
    (m : Paging) (virt : ℕ) (ex ro user : Bool) (pml4 : ℕ) (m' : Paging) (t : ℕ)
    → find_page_using_alloc m virt true user pml4 ≡ at m' t
    → alloc_virtual_memory m virt ex ro user pml4
      ≡ placed ((m'.tables t (addr_split virt).pt).base * 2 ^ 12) (
          write_entry m' t
            (addr_split virt).pt
            (with_rights (m'.tables t (addr_split virt).pt) ex ro))
unfolding alloc_virtual_memory
alloc-run m virt ex ro user pml4 m' t e = rw (e, alloc_virtual_memory) refl

rights_there : (m : Paging) (t i : ℕ) (e : Entry) → (write_entry m t i e).tables t i ≡ e
unfolding write_entry
rights_there m t i e = ground arith

-- An entry's presence and frame are what they were.
rights_same :
    (m : Paging) (t i : ℕ) (ex ro : Bool) (u j : ℕ)
    → (((write_entry m t i (with_rights (m.tables t i) ex ro)).tables u j).flag.present
        ≡ (m.tables u j).flag.present)
      × (((write_entry m t i (with_rights (m.tables t i) ex ro)).tables u j).base
          ≡ (m.tables u j).base)
unfolding write_entry
rights_same m t i ex ro u j = (ground arith, ground arith)

rights-Found :
    (m : Paging) (pml4 : ℕ) (ix : Indices) (t k i : ℕ) (ex ro : Bool)
    → Found m pml4 ix t
    → Found (write_entry m k i (with_rights (m.tables k i) ex ro)) pml4 ix t
rights-Found m pml4 ix t k i ex ro f =
    let top = rights_same m k i ex ro pml4 (ix.pml4) in
    let mid = rights_same m k i ex ro f.pdpt (ix.pdpt) in
    let low = rights_same m k i ex ro f.pd (ix.pd) in
    record {
      pdpt = f.pdpt;
      pd = f.pd;
      top_present = top.0 ∙ f.top_present;
      top_base = top.1 ∙ f.top_base;
      mid_present = mid.0 ∙ f.mid_present;
      mid_base = mid.1 ∙ f.mid_base;
      low_present = low.0 ∙ f.low_present;
      low_base = low.1 ∙ f.low_base;
      page_present = (rights_same m k i ex ro t (ix.pt)).0 ∙ f.page_present;
    }

-- In a tree of tables, while four frames are free, `alloc_virtual_memory` returns the address of a
-- frame, to which the address is then translated, by an entry that can be written or executed as
-- the flags say.
pub alloc_virtual_memory_places :
    (m : Paging) (level : ℕ → ℕ) (virt : ℕ) (ex ro user : Bool) (pml4 : ℕ)
    → IsPaging m level
    → level pml4 ≡ 4
    → 4 ≤ length m.free
    → (m' : Paging) × (phys : ℕ) × (e : Entry) × (alloc_virtual_memory m virt ex ro user pml4
        ≡ placed phys m')
      × (get_physaddr m' virt pml4 ≡ phys + virt % 4096)
      × (lookup m' pml4 (addr_split virt) ≡ some e)
      × (e.flag.write ≡ not ro)
      × (e.flag.nx ≡ not ex)
alloc_virtual_memory_places m level virt ex ro user pml4 p four few =
    let (m₁, t, run, maps) = find_page_using_alloc-Maps m level virt user pml4 p four few in
    let i = (addr_split virt).pt in
    let e = with_rights (m₁.tables t i) ex ro in
    let m₂ = write_entry m₁ t i e in
    let found = rights-Found m₁ pml4 (addr_split virt) t t i ex ro maps.found in
    let there = rights_there m₁ t i e in
    (
      m₂,
      e.base * 2 ^ 12,
      e,
      alloc-run m virt ex ro user pml4 m₁ t run,
      get_physaddr-Found m₂ virt pml4 t found ∙ ap (λ x. x.base * 2 ^ 12 + virt % 4096) there,
      Found-lookup m₂ pml4 (addr_split virt) t found ∙ ap some there,
      refl,
      refl,
    )
