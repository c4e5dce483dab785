-- ===== src/Paging/MapPage.antt =====
-- One page of `map_virtual_memory_using_alloc`: three free frames are enough, and the address is then
-- translated to the frame given.
use plenjos_kernel.Prelude.{
  ℕ, ◌+◌, ◌*◌, ◌/◌, ◌%◌, ◌^◌, ◌≤◌, ◌≡◌, ◌≢◌, refl, ap, ◌∙◌, subst, arith, true, length,
}
use plenjos_kernel.Paging.{
  Flags, Entry, Paging, at, Indices, addr_split, page_table, get_physaddr, write_entry, map_page,
}
use plenjos_kernel.Paging.Tree.{IsPaging, Kept}
use plenjos_kernel.Paging.Path.{
  Found, Reaches, TableAt, and_then-at, Kept-trans, page_table-TableAt,
}
use plenjos_kernel.Paging.FindPage.{get_physaddr-Found}
use plenjos_kernel.Paging.Enough.{page_table_frames}

-- Writing an entry of a table of pages leaves the tables above it.
write-IsPaging :
    (m : Paging) (level : ℕ → ℕ) (t i : ℕ) (e : Entry)
    → IsPaging m level
    → level t ≡ 1
    → IsPaging (write_entry m t i e) level
unfolding write_entry
write-IsPaging m level t i e p one =
    let down = p.down in
    record {
      down = λ u j h k. ground (arith, down u j);
      no_table = p.no_table;
      available = p.available;
    }

write-Kept :
    (m : Paging) (level : ℕ → ℕ) (t i : ℕ) (e : Entry)
    → ((m.tables t i).flag.present ≡ true → (m.tables t i).base ≡ 0)
    → Kept m level (write_entry m t i e) level
unfolding write_entry
write-Kept m level t i e unmapped = record {
  same_level = λ u h. refl;
  still = λ u j h k b. (ground arith, ground arith);
}

write-Found :
    {flags : Flags} (m : Paging) (level : ℕ → ℕ) (pml4 : ℕ) (ix : Indices) (m₁ : Paging) (t : ℕ)
    (e : Entry)
    → level pml4 ≡ 4
    → Reaches flags m level pml4 ix m₁ t
    → e.flag.present ≡ true
    → Found (write_entry m₁ t (ix.pt) e) pml4 ix t
unfolding write_entry
write-Found m level pml4 ix m₁ t e four r here =
    let l' = r.level' in
    let root = r.kept.same_level pml4 (omega arith) in
    let mid = r.is_paging.down pml4 (ix.pml4) (omega arith) r.top_present in
    let mid' : l' r.pdpt + 1 ≡ l' pml4 = subst (λ x. l' x + 1 ≡ l' pml4) r.top_base mid in
    let low = r.is_paging.down r.pdpt (ix.pdpt) (omega arith) r.mid_present in
    let low' : l' r.pd + 1 ≡ l' r.pdpt = subst (λ x. l' x + 1 ≡ l' r.pdpt) r.mid_base low in
    let one = r.is_table in
    let apart₁ : pml4 ≢ t = (λ same. let k = ap l' same in omega arith) in
    let apart₂ : r.pdpt ≢ t = (λ same. let k = ap l' same in omega arith) in
    let apart₃ : r.pd ≢ t = (λ same. let k = ap l' same in omega arith) in
    record {
      pdpt = r.pdpt;
      pd = r.pd;
      top_present = ground arith;
      top_base = ground arith;
      mid_present = ground arith;
      mid_base = ground arith;
      low_present = ground arith;
      low_base = ground arith;
      page_present = ground arith;
    }

-- what mapping one page makes of the tables: those of an address that was not mapped are kept
pub record MapsPage (m : Paging) (level : ℕ → ℕ) (phys virt : ℕ) (flags : Flags) (pml4 : ℕ)
    (m' : Paging) (t : ℕ) : Type 0 where
  pub level' : ℕ → ℕ
  pub is_paging : IsPaging m' level'
  pub same_level : (u : ℕ) → level u ≢ 0 → level' u ≡ level u
  pub found : Found m' pml4 (addr_split virt) t
  pub entry :
      m'.tables t (addr_split virt).pt ≡ record { flag = flags; base = phys / 2 ^ 12 % 2 ^ 40 }
  pub old_top :
      (m.tables pml4 (addr_split virt).pml4).flag.present ≡ true
      → ((m'.tables pml4 (addr_split virt).pml4).flag.write
          ≡ (m.tables pml4 (addr_split virt).pml4).flag.write)
        × ((m'.tables pml4 (addr_split virt).pml4).flag.nx
            ≡ (m.tables pml4 (addr_split virt).pml4).flag.nx)
  pub kept_if_new : get_physaddr m virt pml4 ≡ 0 → Kept m level m' level'

write_entry_self : (m : Paging) (t i : ℕ) (e : Entry) → (write_entry m t i e).tables t i ≡ e
unfolding write_entry
write_entry_self m t i e = ground arith

write_entry_ne :
    (m : Paging) (t i : ℕ) (e : Entry) (u j : ℕ)
    → u ≢ t
    → (write_entry m t i e).tables u j ≡ m.tables u j
unfolding write_entry
write_entry_ne m t i e u j ne = ground arith

pub map_page_Maps :
    (m : Paging) (level : ℕ → ℕ) (phys virt : ℕ) (flags : Flags) (pml4 n : ℕ)
    → IsPaging m level
    → level pml4 ≡ 4
    → flags.present ≡ true
    → n + 3 ≤ length m.free
    → (m' : Paging) × (t : ℕ) × (map_page m phys virt flags pml4 ≡ at m' t)
      × MapsPage m level phys virt flags pml4 m' t
      × (n ≤ length m'.free)
unfolding map_page write_entry
map_page_Maps m level phys virt flags pml4 n p four pres few =
    let ix = addr_split virt in
    let e : Entry = record { flag = flags; base = phys / 2 ^ 12 % 2 ^ 40 } in
    let (m₁, t, e₁, few₁) = page_table_frames flags.user flags m level pml4 n ix p four pres few in
    let r =
      subst (TableAt flags m level pml4 ix) e₁
        (page_table-TableAt true flags.user flags m level pml4 ix p four pres) in
    (
      write_entry m₁ t ix.pt e,
      t,
      and_then-at (page_table true flags.user flags m pml4 ix)
          (λ m' u. at (write_entry m' u ix.pt e) u) m₁ t e₁,
      record {
        level' = r.level';
        is_paging = write-IsPaging m₁ r.level' t ix.pt e r.is_paging r.is_table;
        same_level = r.kept.same_level;
        found = write-Found m level pml4 ix m₁ t e four r pres;
        entry = write_entry_self m₁ t ix.pt e;
        old_top = λ h.
            let root = r.kept.same_level pml4 (omega arith) in
            let same =
              write_entry_ne m₁ t ix.pt e pml4 ix.pml4
                (λ s. let l = ap r.level' s in let one = r.is_table in omega arith) in
            let old = r.old_top h in
            (ap (λ x. x.flag.write) same ∙ old.0, ap (λ x. x.flag.nx) same ∙ old.1);
        kept_if_new = λ unmapped.
            Kept-trans m m₁ (write_entry m₁ t ix.pt e) level r.level' r.level' r.kept (
              write-Kept m₁ r.level' t ix.pt e (λ here.
                let (f, same) = r.unless_new here in
                let base_zero = get_physaddr-Found m virt pml4 t f in omega arith));
      },
      few₁,
    )

-- While three frames are free, mapping a page succeeds, the tables stay trees, and the address is then
-- translated to its place in the frame given.
pub map_page_translates :
    (m : Paging) (level : ℕ → ℕ) (phys virt : ℕ) (flags : Flags) (pml4 : ℕ)
    → IsPaging m level
    → level pml4 ≡ 4
    → flags.present ≡ true
    → 3 ≤ length m.free
    → (m' : Paging) × (t : ℕ) × (level' : ℕ → ℕ) × (map_page m phys virt flags pml4 ≡ at m' t)
      × IsPaging m' level'
      × (get_physaddr m' virt pml4 ≡ phys / 2 ^ 12 % 2 ^ 40 * 2 ^ 12 + virt % 4096)
map_page_translates m level phys virt flags pml4 p four pres few =
    let (m', t, run, maps, few') = map_page_Maps m level phys virt flags pml4 0 p four pres few in
    (
      m',
      t,
      maps.level',
      run,
      maps.is_paging,
      get_physaddr-Found m' virt pml4 t maps.found
          ∙ ap (λ e. e.base * 2 ^ 12 + virt % 4096) maps.entry,
    )

-- In a tree of tables with three free frames, mapping a page, with any flags, leaves the bits for
-- writing and executing of an entry of the top table that is there: it does not add the rights of
-- the page to an entry that forbids them.
pub map_page_stays_narrow :
    (m : Paging) (level : ℕ → ℕ) (phys virt : ℕ) (flags : Flags) (pml4 : ℕ)
    → IsPaging m level
    → level pml4 ≡ 4
    → flags.present ≡ true
    → 3 ≤ length m.free
    → (m.tables pml4 (addr_split virt).pml4).flag.present ≡ true
    → (m' : Paging) × (t : ℕ) × (map_page m phys virt flags pml4 ≡ at m' t)
      × ((m'.tables pml4 (addr_split virt).pml4).flag.write
          ≡ (m.tables pml4 (addr_split virt).pml4).flag.write)
      × ((m'.tables pml4 (addr_split virt).pml4).flag.nx
          ≡ (m.tables pml4 (addr_split virt).pml4).flag.nx)
map_page_stays_narrow m level phys virt flags pml4 p four pres few there =
    let (m', t, run, maps, left) = map_page_Maps m level phys virt flags pml4 0 p four pres few in
    let same = maps.old_top there in (m', t, run, same.0, same.1)
