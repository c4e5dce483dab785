-- ===== src/Memmap.antt =====
-- syscall/mem/memmap.c: mapping fresh memory for a process, and taking permissions away from it.
pub mod Pages
pub mod Range
pub mod Protect
mod Examples
use plenjos_kernel.Prelude.{
  ℕ, zero, suc, ◌+◌, ◌-◌, ◌*◌, ◌/◌, ◌%◌, ◌^◌, Bool, true, false, not, List, [], ◌∷◌, ◌==◌, ◌&&◌,
  ◌||◌, if◌then◌else◌,
}
use plenjos_kernel.Prelude.Int.{ℤ, pos, negsuc}
use plenjos_kernel.Paging.{
  Flags, Entry, Paging, zero_table, take_frame, Walk, at, missing, fault, addr_split, find_page,
  get_physaddr, map_virtual_memory_using_alloc,
}

-- SYSCALL_MEMMAP_FLAG_WR and SYSCALL_MEMMAP_FLAG_EX
pub record MemmapFlags : Type 0 where
  pub wr : Bool
  pub ex : Bool

-- How a system call ends: it returns 0 or a negative number, or the kernel stops in a page fault.
pub data Reply : Type 0 where
  done : Paging → Reply
  failed : ℤ → Paging → Reply
  faults : Reply

abbrev pub eexist : ℤ
eexist = negsuc 16

abbrev pub enomem : ℤ
enomem = negsuc 11

abbrev pub efault : ℤ
efault = negsuc 13

abbrev pub einval : ℤ
einval = negsuc 21

-- what a mapping makes of the call; the return value of the mapping is not looked at
abbrev pub mapped : Walk → Reply
mapped (at m t) = done m
mapped (missing m) = done m
mapped fault = faults

abbrev pub on_done : Reply → (Paging → Reply) → Reply
on_done (done m) f = f m
on_done (failed e m) f = failed e m
on_done faults f = faults

-- The pages that both calls go through: the first, and how many there are up to the end computed
-- from the address and the rounded length. (An end inside the last page of all addresses, behind
-- which the loop's counter would go round, is not modelled.)
abbrev pub first_page : ℕ → ℕ
first_page addr = addr - addr % 4096

unfoldable pub round_length : ℕ → ℕ → ℕ
round_length addr length =
    let l = (if not (addr % 4096 == 0) then (length + addr % 4096) % 2 ^ 64 else length) in
    if not (l % 4096 == 0) then (l + (4096 - l % 4096)) % 2 ^ 64 else l

unfoldable pub passes : ℕ → ℕ → ℕ
passes addr length = ((addr + round_length addr length) % 2 ^ 64 + 4095 - first_page addr) / 4096

-- the flags of a new page
abbrev pub fresh_flags : MemmapFlags → Flags
fresh_flags f = record { present = true; write = f.wr; user = true; nx = not (f.ex) }

-- one pass of the loop of `syscall_routine_memmap`
unfoldable pub memmap_page : Paging → ℕ → MemmapFlags → ℕ → Reply
memmap_page m voffs flags pml4 =
    let (frame, m') = take_frame m in
    if not (get_physaddr m voffs pml4 == 0)
    then failed eexist m
    else (if frame == 0
        then failed enomem m'
        else mapped (
            map_virtual_memory_using_alloc (zero_table m' frame) (frame * 2 ^ 12) voffs 4096
              (fresh_flags flags) pml4))

unfoldable pub memmap_pages : ℕ → ℕ → Paging → MemmapFlags → ℕ → Reply
memmap_pages zero voffs m flags pml4 = done m
memmap_pages (suc n) voffs m flags pml4 =
    on_done (memmap_page m voffs flags pml4) (λ m'. memmap_pages n (voffs + 4096) m' flags pml4)

unfoldable pub syscall_routine_memmap : Paging → ℕ → ℕ → MemmapFlags → ℕ → Reply
syscall_routine_memmap m addr length flags pml4 =
    memmap_pages (passes addr length) (first_page addr) m flags pml4

-- the flags that `syscall_routine_memprotect` gives a page: never more than the page has
abbrev pub reduced_flags : Entry → MemmapFlags → Flags
reduced_flags e f = record {
  present = true;
  write = e.flag.write && f.wr;
  user = true;
  nx = e.flag.nx || not (f.ex);
}

-- the part of the pass that works on the page's entry
unfoldable pub protect_entry : Paging → ℕ → Entry → MemmapFlags → ℕ → Reply
protect_entry m voffs e flags pml4 =
    if e.base == 0
    then failed efault m
    else (if not e.flag.user
        then failed efault m
        else (if flags.wr && not e.flag.write
            then failed einval m
            else (if flags.ex && e.flag.nx
                then failed einval m
                else mapped (
                    map_virtual_memory_using_alloc m (e.base * 2 ^ 12) voffs 4096
                      (reduced_flags e flags) pml4))))

-- one pass of the loop of `syscall_routine_memprotect`; the page found is always present
unfoldable pub memprotect_page : Paging → ℕ → MemmapFlags → ℕ → Reply
memprotect_page m voffs flags pml4 = elim (find_page m voffs false pml4) [
  | at m' t ↦ protect_entry m' voffs (m'.tables t (addr_split voffs).pt) flags pml4
  | missing m' ↦ failed efault m'
  | fault ↦ faults
]

unfoldable pub memprotect_pages : ℕ → ℕ → Paging → MemmapFlags → ℕ → Reply
memprotect_pages zero voffs m flags pml4 = done m
memprotect_pages (suc n) voffs m flags pml4 =
    on_done (memprotect_page m voffs flags pml4)
      (λ m'. memprotect_pages n (voffs + 4096) m' flags pml4)

unfoldable pub syscall_routine_memprotect : Paging → ℕ → ℕ → MemmapFlags → ℕ → Reply
syscall_routine_memprotect m addr length flags pml4 =
    memprotect_pages (passes addr length) (first_page addr) m flags pml4
