-- ===== src/Memmap/Examples.antt =====
-- Witnesses of the calls, at the sample tables.
use plenjos_kernel.Prelude.{
  ◌+◌, ◌-◌, ◌*◌, ◌^◌, ◌/◌, ◌%◌, ◌≡◌, ◌⊎◌, refl, arith, true, false, not, ◌&&◌, ◌||◌, some, ◌==◌,
  if◌then◌else◌,
}
use plenjos_kernel.Prelude.Int.{ℤ}
use plenjos_kernel.Paging.{Paging, addr_split, lookup}
use plenjos_kernel.Paging.Sample.{to_frame, one_page, levels, one_page-IsPaging, first_mapped}
use plenjos_kernel.Memmap.{MemmapFlags, done, failed, passes, round_length, memprotect_page}
use plenjos_kernel.Memmap.Range.{loop_pages, touched, pages_from, loop_pages_lem}
use plenjos_kernel.Memmap.Protect.{memprotect_page_reduces}

abbrev writable : MemmapFlags
writable = record { wr = true; ex = false }

abbrev read_only : MemmapFlags
read_only = record { wr = false; ex = false }

two_passes : passes 4097 100 ≡ 2
unfolding passes round_length
two_passes = refl

loop_pages_lem_example :
    (loop_pages 9 (4097 - 4097 % 4096) ((4097 + round_length 4097 100) % 2 ^ 64)
      ≡ pages_from (4097 / 4096 * 4096) (touched 4097 100 + (if 4097 % 4096 == 0 then 0 else 1)))
    × (passes 4097 100 ≡ touched 4097 100 + (if 4097 % 4096 == 0 then 0 else 1))
loop_pages_lem_example =
    loop_pages_lem 9 4097 100 (omega arith) (omega arith) (omega (arith, two_passes))

memprotect_page_reduces_example :
    (m' : Paging) × (((memprotect_page one_page 0 read_only 1 ≡ done m')
        × (true ≡ true)
        × (lookup m' 1 (addr_split 0)
            ≡ some (record {
              flag = record {
                present = true;
                write = true && false;
                user = true;
                nx = false || not false;
              };
              base = 20;
            })))
      ⊎ ((c : ℤ) × (memprotect_page one_page 0 read_only 1 ≡ failed c m')
          × (lookup m' 1 (addr_split 0) ≡ some (to_frame 20))))
memprotect_page_reduces_example =
    memprotect_page_reduces one_page levels 0 (to_frame 20) read_only 1 one_page-IsPaging refl
      (omega arith) (omega arith) first_mapped (omega arith)
