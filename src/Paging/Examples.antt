-- ===== src/Paging/Examples.antt =====
-- Witnesses of the walks, at the sample tables.
use plenjos_kernel.Prelude.{ℕ, ◌+◌, ◌*◌, ◌%◌, ◌^◌, ◌≡◌, refl, arith, true, false}
use plenjos_kernel.Paging.{Paging, at, addr_split, get_physaddr, find_page, map_page, is_userspace}
use plenjos_kernel.Paging.Tree.{IsPaging, Kept}
use plenjos_kernel.Paging.Sample.{
  user_flags, to_frame, one_page, levels, one_page-IsPaging, zero_mapped,
}
use plenjos_kernel.Paging.FindPage.{find_page_translates, find_page_keeps, find_page_hides}
use plenjos_kernel.Paging.MapPage.{map_page_stays_narrow}

find_page_translates_example :
    (m' : Paging) × (t : ℕ) × (level' : ℕ → ℕ) × (find_page one_page 4197 true 1 ≡ at m' t)
    × IsPaging m' level'
    × Kept one_page levels m' level'
    × (get_physaddr m' 4197 1 ≡ (m'.tables t (addr_split 4197).pt).base * 2 ^ 12 + 4197 % 4096)
find_page_translates_example =
    find_page_translates one_page levels 4197 1 one_page-IsPaging refl (omega arith)

find_page_keeps_example :
    (m' : Paging) × (t : ℕ) × (find_page one_page 4197 true 1 ≡ at m' t)
    × (get_physaddr m' 123 1 ≡ get_physaddr one_page 123 1)
find_page_keeps_example =
    find_page_keeps one_page levels 4197 1 123 1 (to_frame 20) one_page-IsPaging refl (omega arith)
      refl zero_mapped (omega arith)

far_absent : (one_page.tables 1 (addr_split (2 ^ 39)).pml4).flag.present ≡ false
unfolding addr_split
far_absent = refl

far_user : is_userspace (2 ^ 39) ≡ true
unfolding is_userspace
far_user = refl

find_page_hides_example :
    (m' : Paging) × (t : ℕ) × (find_page one_page (2 ^ 39) true 1 ≡ at m' t)
    × ((m'.tables 1 (addr_split (2 ^ 39)).pml4).flag.user ≡ false)
find_page_hides_example =
    find_page_hides one_page levels (2 ^ 39) 1 one_page-IsPaging refl (omega arith) far_user
      far_absent

near_present : (one_page.tables 1 (addr_split 4197).pml4).flag.present ≡ true
unfolding addr_split
near_present = refl

map_page_stays_narrow_example :
    (m' : Paging) × (t : ℕ) × (map_page one_page 40960 4197 user_flags 1 ≡ at m' t)
    × ((m'.tables 1 (addr_split 4197).pml4).flag.write
        ≡ (one_page.tables 1 (addr_split 4197).pml4).flag.write)
    × ((m'.tables 1 (addr_split 4197).pml4).flag.nx
        ≡ (one_page.tables 1 (addr_split 4197).pml4).flag.nx)
map_page_stays_narrow_example =
    map_page_stays_narrow one_page levels 40960 4197 user_flags 1 one_page-IsPaging refl refl
      (omega arith) near_present
