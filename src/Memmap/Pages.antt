-- ===== src/Memmap/Pages.antt =====
-- `syscall_routine_memmap`: it maps every page of the range, or finds one mapped already.
use plenjos_kernel.Prelude.{
  ℕ, zero, suc, ◌+◌, ◌*◌, ◌/◌, ◌%◌, ◌^◌, ◌<◌, ◌≡◌, ◌≢◌, ap₂, ◌∙◌, arith, some,
}
use plenjos_kernel.Paging.{
  Flags, Entry, Paging, at, addr_split, lookup, get_physaddr, map_page, map_pages,
  map_virtual_memory_using_alloc,
}
use plenjos_kernel.Paging.Tree.{IsPaging, Kept}
use plenjos_kernel.Paging.Path.{and_then-at}
use plenjos_kernel.Memmap.{Reply, done, failed, faults, eexist}

-- A mapping of one page's length is one pass.
wrap_small : (x : ℕ) → x < 2 ^ 64 → (x + 0) % 2 ^ 64 ≡ x
wrap_small x h = omega arith

pub map_one :
    (m : Paging) (phys virt : ℕ) (flags : Flags) (pml4 : ℕ) (m' : Paging) (t : ℕ)
    → phys < 2 ^ 64
    → virt < 2 ^ 64
    → map_page m phys virt flags pml4 ≡ at m' t
    → (k : ℕ) × (map_virtual_memory_using_alloc m phys virt 4096 flags pml4 ≡ at m' k)
unfolding map_virtual_memory_using_alloc map_pages
map_one m phys virt flags pml4 m' t hp hv e = (
  pml4,
  and_then-at (map_page m ((phys + 0) % 2 ^ 64) ((virt + 0) % 2 ^ 64) flags pml4) (λ a k. at a pml4)
      m' t (ap₂ (λ x y. map_page m x y flags pml4) (wrap_small phys hp) (wrap_small virt hv) ∙ e),
)

-- A page of the range either is mapped already, or gets the first free frame.
pub record PageMapped (m : Paging) (level : ℕ → ℕ) (voffs pml4 : ℕ) (m' : Paging) : Type 0 where
  pub level' : ℕ → ℕ
  pub is_paging : IsPaging m' level'
  pub kept : Kept m level m' level'
  pub place : (e : Entry) × (lookup m' pml4 (addr_split voffs) ≡ some e) × (e.base ≢ 0)

pub frame_base : (n : ℕ) → n < 2 ^ 40 → n * 2 ^ 12 / 2 ^ 12 % 2 ^ 40 ≡ n
frame_base n h = omega arith

-- Every page of the range is mapped.
abbrev pub PagesMapped : Paging → ℕ → ℕ → ℕ → Type 0
PagesMapped m pml4 voffs zero = Unit {0}
PagesMapped m pml4 voffs (suc n) =
    (get_physaddr m voffs pml4 ≢ 0) × PagesMapped m pml4 (voffs + 4096) n

-- how the loop ends: at the pages all mapped, or at one that was mapped before
pub record Ends (m : Paging) (level : ℕ → ℕ) (m' : Paging) : Type 0 where
  pub level' : ℕ → ℕ
  pub is_paging : IsPaging m' level'
  pub kept : Kept m level m' level'

abbrev pub Served : Paging → (ℕ → ℕ) → ℕ → ℕ → ℕ → Reply → Type 0
Served m level pml4 voffs n (done m') = Ends m level m' × PagesMapped m' pml4 voffs n
Served m level pml4 voffs n (failed e m') = Ends m level m' × (e ≡ eexist)
Served m level pml4 voffs n faults = ⊥
