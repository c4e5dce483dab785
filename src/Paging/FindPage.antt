-- ===== src/Paging/FindPage.antt =====
-- `find_page` with `autocreate`: it succeeds while four frames are free, and what the tables then hold.
use plenjos_kernel.Prelude.{
  ℕ, ◌+◌, ◌*◌, ◌%◌, ◌^◌, ◌≤◌, ◌≡◌, ◌≢◌, refl, sym, ap, ◌∙◌, subst, arith, Bool, true, false, some,
  List, [], ◌∷◌, length, Bool-cases, inl, inr,
}
use plenjos_kernel.Paging.{
  Flags, Entry, Paging, at, Indices, addr_split, page_table, lookup, place_in, get_physaddr,
  write_entry, alloc_page_frame, take_frame, find_entry, find_page_using_alloc, find_page,
  is_userspace, table_flags,
}
use plenjos_kernel.Paging.Tree.{IsPaging, Kept, Available}
use plenjos_kernel.Paging.Path.{
  Found, Reaches, TableAt, and_then-at, Kept-refl, Kept-trans, page_table-TableAt,
}
use plenjos_kernel.Paging.Translate.{Found-lookup, still_down, lookup-Kept}
use plenjos_kernel.Paging.Enough.{page_table_frames}

-- a table of pages where the page is present, and the tables before are kept
pub record PageReady (m : Paging) (level : ℕ → ℕ) (t i : ℕ) (m' : Paging) : Type 0 where
  pub is_paging : IsPaging m' level
  pub kept : Kept m level m' level
  pub page_present : (m'.tables t i).flag.present ≡ true
  pub above : (u j : ℕ) → level u ≢ 1 → m'.tables u j ≡ m.tables u j

find_entry_made :
    (user : Bool) (m : Paging) (level : ℕ → ℕ) (t i n : ℕ) (rest : List ℕ)
    → IsPaging m level
    → level t ≡ 1
    → m.free ≡ n ∷ rest
    → (m.tables t i).flag.present ≡ false
    → n ≢ 0
    → PageReady m level t i (alloc_page_frame m t i user true)
      × (find_entry true user m t i ≡ at (alloc_page_frame m t i user true) t)
unfolding find_entry alloc_page_frame take_frame write_entry
find_entry_made user m level t i n rest p one f absent nz =
    let a = subst (Available level) f p.available in
    let down = p.down in
    (
      record {
        is_paging = record {
          down = λ u j h e. ground (arith, down u j);
          no_table = p.no_table;
          available = rw f a.3;
        };
        kept = record {
          same_level = λ u h. refl;
          still = λ u j h e b. (ground arith, ground arith);
        };
        page_present = ground arith;
        above = λ u j h. ground arith;
      },
      ground arith,
    )

pub find_entry_here :
    (autocreate user : Bool) (m : Paging) (t i : ℕ)
    → (m.tables t i).flag.present ≡ true
    → find_entry autocreate user m t i ≡ at m t
unfolding find_entry
find_entry_here autocreate user m t i e = ground arith

find_entry_frames :
    (user : Bool) (m : Paging) (level : ℕ → ℕ) (t i : ℕ) (free : List ℕ)
    → IsPaging m level
    → level t ≡ 1
    → m.free ≡ free
    → 1 ≤ length free
    → (m' : Paging) × (find_entry true user m t i ≡ at m' t) × PageReady m level t i m'
find_entry_frames user m level t i [] p one f few = absurd (omega arith)
find_entry_frames user m level t i (n ∷ rest) p one f few =
    let (fresh, nz, apart, a) = subst (Available level) f p.available in
    elim (Bool-cases (m.tables t i).flag.present) [
      | inl here ↦ (
        m,
        find_entry_here true user m t i here,
        record {
          is_paging = p;
          kept = Kept-refl m level;
          page_present = here;
          above = λ u j h. refl;
        },
      )
      | inr absent ↦
          let (ready, run) = find_entry_made user m level t i n rest p one f absent nz.0 in
          (alloc_page_frame m t i user true, run, ready)
    ]

-- A page that stands in the table that a walk reached is found from the top, after a step at that
-- table that keeps the tables.
pub Reaches-Found :
    {flags : Flags} (m : Paging) (level : ℕ → ℕ) (pml4 : ℕ) (ix : Indices) (m₁ : Paging) (t : ℕ)
    (m₂ : Paging)
    → level pml4 ≡ 4
    → (r : Reaches flags m level pml4 ix m₁ t) → Kept m₁ r.level' m₂ r.level'
    → (m₂.tables t (ix.pt)).flag.present ≡ true
    → Found m₂ pml4 ix t
Reaches-Found m level pml4 ix m₁ t m₂ four r k here =
    let root = r.kept.same_level pml4 (omega arith) in
    let top =
      still_down m₁ r.level' m₂ r.level' pml4 (ix.pml4) r.pdpt r.is_paging k (omega arith)
        r.top_present r.top_base in
    let mid =
      still_down m₁ r.level' m₂ r.level' r.pdpt (ix.pdpt) r.pd r.is_paging k (omega (arith, top.2))
        r.mid_present r.mid_base in
    let low =
      still_down m₁ r.level' m₂ r.level' r.pd (ix.pd) t r.is_paging k (omega (arith, top.2, mid.2))
        r.low_present r.low_base in
    record {
      pdpt = r.pdpt;
      pd = r.pd;
      top_present = top.0;
      top_base = top.1;
      mid_present = mid.0;
      mid_base = mid.1;
      low_present = low.0;
      low_base = low.1;
      page_present = here;
    }

pub get_physaddr-Found :
    (m : Paging) (virt pml4 t : ℕ)
    → Found m pml4 (addr_split virt) t
    → get_physaddr m virt pml4 ≡ (m.tables t (addr_split virt).pt).base * 2 ^ 12 + virt % 4096
unfolding get_physaddr
get_physaddr-Found m virt pml4 t f = ap (place_in virt) (Found-lookup m pml4 (addr_split virt) t f)

-- what `find_page` makes of the tables
pub record Maps (m : Paging) (level : ℕ → ℕ) (virt pml4 : ℕ) (m' : Paging) (t : ℕ) : Type 0 where
  pub level' : ℕ → ℕ
  pub is_paging : IsPaging m' level'
  pub kept : Kept m level m' level'
  pub found : Found m' pml4 (addr_split virt) t
  pub new_top :
      (m.tables pml4 (addr_split virt).pml4).flag.present ≡ false
      → (m'.tables pml4 (addr_split virt).pml4).flag ≡ table_flags

pub find_page_using_alloc-Maps :
    (m : Paging) (level : ℕ → ℕ) (virt : ℕ) (user : Bool) (pml4 : ℕ)
    → IsPaging m level
    → level pml4 ≡ 4
    → 4 ≤ length m.free
    → (m' : Paging) × (t : ℕ) × (find_page_using_alloc m virt true user pml4 ≡ at m' t)
      × Maps m level virt pml4 m' t
unfolding find_page_using_alloc
find_page_using_alloc-Maps m level virt user pml4 p four few =
    let ix = addr_split virt in
    let (m₁, t, e₁, few₁) =
      page_table_frames user table_flags m level pml4 1 ix p four refl (omega arith) in
    let r =
      subst (TableAt table_flags m level pml4 ix) e₁
        (page_table-TableAt true user table_flags m level pml4 ix p four refl) in
    let (m₂, e₂, ready) =
      find_entry_frames user m₁ r.level' t (ix.pt) m₁.free r.is_paging r.is_table refl few₁ in
    (
      m₂,
      t,
      and_then-at (page_table true user table_flags m pml4 ix)
            (λ m' u. find_entry true user m' u ix.pt) m₁ t e₁
          ∙ e₂,
      record {
        level' = r.level';
        is_paging = ready.is_paging;
        kept = Kept-trans m m₁ m₂ level r.level' r.level' r.kept ready.kept;
        found = Reaches-Found m level pml4 ix m₁ t m₂ four r ready.kept ready.page_present;
        new_top = λ h.
            let root = r.kept.same_level pml4 (omega arith) in
            ap (λ e. e.flag) (ready.above pml4 (ix.pml4) (omega arith)) ∙ r.new_top h;
      },
    )

find_page-Maps :
    (m : Paging) (level : ℕ → ℕ) (virt pml4 : ℕ)
    → IsPaging m level
    → level pml4 ≡ 4
    → 4 ≤ length m.free
    → (m' : Paging) × (t : ℕ) × (find_page m virt true pml4 ≡ at m' t) × Maps m level virt pml4 m' t
unfolding find_page
find_page-Maps m level virt pml4 p four few =
    find_page_using_alloc-Maps m level virt (is_userspace virt) pml4 p four few

-- In a tree of tables, while four frames are free, `find_page` with `autocreate` finds or makes a
-- page. The tables are then a tree in which each table is on the level that it had, with every entry
-- that led to a frame other than 0 leading there still, and `get_physaddr` gives the address's place in
-- that page's frame.
pub find_page_translates :
    (m : Paging) (level : ℕ → ℕ) (virt pml4 : ℕ)
    → IsPaging m level
    → level pml4 ≡ 4
    → 4 ≤ length m.free
    → (m' : Paging) × (t : ℕ) × (level' : ℕ → ℕ) × (find_page m virt true pml4 ≡ at m' t)
      × IsPaging m' level'
      × Kept m level m' level'
      × (get_physaddr m' virt pml4 ≡ (m'.tables t (addr_split virt).pt).base * 2 ^ 12 + virt % 4096)
find_page_translates m level virt pml4 p four few =
    let (m', t, run, maps) = find_page-Maps m level virt pml4 p four few in
    (
      m',
      t,
      maps.level',
      run,
      maps.is_paging,
      maps.kept,
      get_physaddr-Found m' virt pml4 t maps.found,
    )

-- In a tree of tables, while four frames are free, `find_page` with `autocreate` returns a page and
-- changes no translation: an address that is mapped to a frame other than 0, in any of the address
-- spaces that share the tables, stays mapped to the same place.
pub find_page_keeps :
    (m : Paging) (level : ℕ → ℕ) (virt pml4 other root : ℕ) (e : Entry)
    → IsPaging m level
    → level pml4 ≡ 4
    → 4 ≤ length m.free
    → level root ≡ 4
    → lookup m root (addr_split other) ≡ some e
    → e.base ≢ 0
    → (m' : Paging) × (t : ℕ) × (find_page m virt true pml4 ≡ at m' t)
      × (get_physaddr m' other root ≡ get_physaddr m other root)
unfolding get_physaddr
find_page_keeps m level virt pml4 other root e p four few root4 h nz =
    let (m', t, run, maps) = find_page-Maps m level virt pml4 p four few in
    let (e', h', same) =
      lookup-Kept m level m' maps.level' root (addr_split other) e p maps.kept root4 h nz in
    (
      m',
      t,
      run,
      ap (place_in other) h'
          ∙ ap (λ b. b * 2 ^ 12 + other % 4096) same
          ∙ sym (ap (place_in other) h),
    )

-- In a tree of tables with four free frames, when the top table has no entry for an address of user
-- space, `find_page` with `autocreate` makes one without the bit for user access: `user &&
-- PAGE_FLAG_USER` is 1 and not the bit.
pub find_page_hides :
    (m : Paging) (level : ℕ → ℕ) (virt pml4 : ℕ)
    → IsPaging m level
    → level pml4 ≡ 4
    → 4 ≤ length m.free
    → is_userspace virt ≡ true
    → (m.tables pml4 (addr_split virt).pml4).flag.present ≡ false
    → (m' : Paging) × (t : ℕ) × (find_page m virt true pml4 ≡ at m' t)
      × ((m'.tables pml4 (addr_split virt).pml4).flag.user ≡ false)
find_page_hides m level virt pml4 p four few user absent =
    let (m', t, run, maps) = find_page-Maps m level virt pml4 p four few in
    (m', t, run, ap (λ f. f.user) (maps.new_top absent))
