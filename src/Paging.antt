-- ===== src/Paging.antt =====
-- memory/mm_page.c and the layouts of memory/mm_common.h: tables of four levels, of 512 entries
-- each, that translate virtual addresses. A table is named by the number of its frame, and
-- `phys_to_virt` and `virt_to_phys` only change the name; invalidating the TLB is left out. A frame
-- allocation takes the head of a list of free frames (see Frames), and gives 0 when it is empty.
use plenjos_kernel.Prelude.{
  ℕ, zero, suc, ◌+◌, ◌*◌, ◌/◌, ◌%◌, ◌^◌, Bool, true, false, Option, none, some, List, [], ◌∷◌, ◌==◌,
  leb, not, ◌&&◌, if◌then◌else◌, ◌>>=◌,
}
pub mod Tree
pub mod Path
pub mod Translate
pub mod Enough
pub mod FindPage
pub mod MapPage
pub mod Alloc
pub mod Sample
mod Examples

-- The bits of an entry that the kernel sets: `present`, `rw`, `user` and `nx` (`xd`).
pub record Flags : Type 0 where
  pub present : Bool
  pub write : Bool
  pub user : Bool
  pub nx : Bool

-- `dir_entry_t` and `page_t`, with the number of the frame they point to.
pub record Entry : Type 0 where
  pub flag : Flags
  pub base : ℕ

-- all tables, by frame and index, and the free frames in the order in which they are handed out
pub record Paging : Type 0 where
  pub tables : ℕ → ℕ → Entry
  pub free : List ℕ

abbrev pub no_flags : Flags
no_flags = record { present = false; write = false; user = false; nx = false }

abbrev pub no_entry : Entry
no_entry = record { flag = no_flags; base = 0 }

unfoldable pub write_entry : Paging → ℕ → ℕ → Entry → Paging
write_entry m t i e = record m { tables = λ u j. if (u == t) && (j == i) then e else m.tables u j }

unfoldable pub zero_table : Paging → ℕ → Paging
zero_table m t = record m { tables = λ u j. if u == t then no_entry else m.tables u j }

-- `is_userspace`
unfoldable pub is_userspace : ℕ → Bool
is_userspace virt = not (leb 0xFFFF800000001000 virt)

-- `addr_split`: the indices at the four levels
pub record Indices : Type 0 where
  pub pml4 : ℕ
  pub pdpt : ℕ
  pub pd : ℕ
  pub pt : ℕ

unfoldable pub addr_split : ℕ → Indices
addr_split virt = record {
  pml4 = virt / 2 ^ 39 % 512;
  pdpt = virt / 2 ^ 30 % 512;
  pd = virt / 2 ^ 21 % 512;
  pt = virt / 2 ^ 12 % 512;
}

-- the number of the frame that an allocation hands out, 0 when there is none
unfoldable pub take_frame : Paging → ℕ × Paging
take_frame m = elim m.free [ [] ↦ (0, m) | n ∷ rest ↦ (n, record m { free = rest }) ]

-- `alloc_paging_node`: a table of zeros, or NULL
unfoldable pub alloc_paging_node : Paging → Option (ℕ × Paging)
alloc_paging_node m =
    let (n, m') = take_frame m in if n == 0 then none else some (n, zero_table m' n)

-- How a walk ends: at a table, at an absent entry (the caller returns NULL), or in the access through
-- the NULL that a failed allocation of a table gives, which nothing checks.
pub data Walk : Type 0 where
  at : Paging → ℕ → Walk
  missing : Paging → Walk
  fault : Walk

abbrev pub and_then : Walk → (Paging → ℕ → Walk) → Walk
and_then (at m t) f = f m t
and_then (missing m) f = missing m
and_then fault f = fault

-- One level down: an absent table is made with the flags given, and the entry of a present one gets
-- the bit for user access when the walk is for the user.
unfoldable pub descend : Bool → Bool → Flags → Paging → ℕ → ℕ → Walk
descend autocreate user flags m t i =
    let e = m.tables t i in
    if not e.flag.present
    then (if not autocreate then missing m else elim (alloc_paging_node m) [
      | none ↦ fault
      | some (n, m') ↦ at (write_entry m' t i (record { flag = flags; base = n })) n
    ])
    else at
        (if user
          then write_entry m t i (record e { flag = record (e.flag) { user = true } })
          else m)
        e.base

-- the three levels above the pages, which both walks go down
unfoldable pub page_table : Bool → Bool → Flags → Paging → ℕ → Indices → Walk
page_table autocreate user flags m pml4 ix =
    and_then (descend autocreate user flags m pml4 (ix.pml4)) (λ m₁ pdpt.
      and_then (descend autocreate user flags m₁ pdpt (ix.pdpt))
        (λ m₂ pd. descend autocreate user flags m₂ pd (ix.pd)))

-- `user && PAGE_FLAG_USER` is 0 or 1, the bit for presence, so that the bit for the user is not set.
abbrev pub table_flags : Flags
table_flags = record { present = true; write = true; user = false; nx = false }

-- `alloc_page_frame`
unfoldable pub alloc_page_frame : Paging → ℕ → ℕ → Bool → Bool → Paging
alloc_page_frame m t i user writeable =
    let (n, m') = take_frame m in
    let e = m.tables t i in
    write_entry m' t i (record {
      flag = record (e.flag) { present = true; write = writeable; user = user };
      base = n;
    })

-- the entry of the page in its table
unfoldable pub find_entry : Bool → Bool → Paging → ℕ → ℕ → Walk
find_entry autocreate user m t i =
    if not (m.tables t i).flag.present
    then (if not autocreate
        then missing m
        else (let made = alloc_page_frame m t i user true in
            let e = made.tables t i in
            if (e.base == 0) && not e.flag.nx then missing made else at made t))
    else at m t

-- `find_page_using_alloc` with `alloc_paging_node`; the page is the entry of the table it ends at,
-- at the last index of the address.
unfoldable pub find_page_using_alloc : Paging → ℕ → Bool → Bool → ℕ → Walk
find_page_using_alloc m virt autocreate user pml4 =
    let ix = addr_split virt in
    and_then (page_table autocreate user table_flags m pml4 ix)
      (λ m' t. find_entry autocreate user m' t ix.pt)

unfoldable pub find_page : Paging → ℕ → Bool → ℕ → Walk
find_page m virt autocreate pml4 = find_page_using_alloc m virt autocreate (is_userspace virt) pml4

-- one pass of the loop of `map_virtual_memory_using_alloc`, for one page
unfoldable pub map_page : Paging → ℕ → ℕ → Flags → ℕ → Walk
map_page m phys virt flags pml4 =
    let ix = addr_split virt in
    and_then (page_table true flags.user flags m pml4 ix) (λ m' t.
      at (write_entry m' t ix.pt (record { flag = flags; base = phys / 2 ^ 12 % 2 ^ 40 })) t)

-- the passes from the offset `i` on, each with the address of its page
unfoldable pub map_pages : ℕ → ℕ → Paging → ℕ → ℕ → Flags → ℕ → Walk
map_pages zero i m phys virt flags pml4 = at m pml4
map_pages (suc n) i m phys virt flags pml4 =
    and_then (map_page m ((phys + i) % 2 ^ 64) ((virt + i) % 2 ^ 64) flags pml4)
      (λ m' t. map_pages n (i + 4096) m' phys virt flags pml4)

unfoldable pub map_virtual_memory_using_alloc : Paging → ℕ → ℕ → ℕ → Flags → ℕ → Walk
map_virtual_memory_using_alloc m phys virt len flags pml4 =
    map_pages ((len + 4095) / 4096) 0 m phys virt flags pml4

-- the frame behind a present entry
abbrev pub present_entry : Entry → Option Entry
present_entry e = if e.flag.present then some e else none

-- the page's entry, where every level is present
unfoldable pub lookup : Paging → ℕ → Indices → Option Entry
lookup m pml4 ix = do
  a ← present_entry (m.tables pml4 (ix.pml4))
  b ← present_entry (m.tables (a.base) (ix.pdpt))
  c ← present_entry (m.tables (b.base) (ix.pd))
  present_entry (m.tables (c.base) (ix.pt))

-- `get_physaddr`: 0 for an address that is not mapped
abbrev pub place_in : ℕ → Option Entry → ℕ
place_in virt none = 0
place_in virt (some e) = e.base * 2 ^ 12 + virt % 4096

unfoldable pub get_physaddr : Paging → ℕ → ℕ → ℕ
get_physaddr m virt pml4 = place_in virt (lookup m pml4 (addr_split virt))

-- `get_physaddr32`
unfoldable pub get_physaddr32 : Paging → ℕ → ℕ → ℕ
get_physaddr32 m virt pml4 =
    let phys = get_physaddr m virt pml4 in if not (phys / 2 ^ 32 == 0) then 0 else phys % 2 ^ 32

-- What `alloc_virtual_memory` ends with: the address of the frame, or 1; or a page fault.
pub data Placed : Type 0 where
  placed : ℕ → Paging → Placed
  crashed : Placed

-- `alloc_virtual_memory` (mm_virt.c), with the flags ALLOCATE_VM_EX, _RO and _USER
unfoldable pub alloc_virtual_memory : Paging → ℕ → Bool → Bool → Bool → ℕ → Placed
alloc_virtual_memory m virt ex ro user pml4 = elim (find_page_using_alloc m virt true user pml4) [
  | at m' t ↦
      let i = (addr_split virt).pt in
      let e = m'.tables t i in
      placed (e.base * 2 ^ 12)
        (write_entry m' t i (record e { flag = record (e.flag) { write = not ro; nx = not ex } }))
  | missing m' ↦ placed 1 m'
  | fault ↦ crashed
]
