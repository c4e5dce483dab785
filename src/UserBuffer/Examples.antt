-- ===== src/UserBuffer/Examples.antt =====
-- Tests and witnesses of the copies.
use plenjos_kernel.Prelude.{ℕ, ◌+◌, ◌-◌, ◌/◌, ◌%◌, ◌≡◌, refl, true, some}
use plenjos_kernel.UserBuffer.{page_len, Page, PageTable, Memory, blit, done, copy_to_kernel_buf}
use plenjos_kernel.UserBuffer.Copies.{Readable, seen, copy_to_kernel_buf_lem}

abbrev reversed : ℕ → Page
reversed n = record { present = true; user = true; rw_flag = true; frame = 1000 - n }

abbrev pages : PageTable
pages addr = some (reversed (addr / page_len))

abbrev frames : Memory
frames a = a % 256

-- a buffer over three pages
pages-Readable : Readable pages reversed 4000 5000
pages-Readable = record { maps = λ k small. refl; permits = λ k small. refl }

copy_to_kernel_buf_lem_example :
    ((copy_to_kernel_buf pages frames frames 9 4000 5000).0 ≡ done)
    × ((copy_to_kernel_buf pages frames frames 9 4000 5000).1 200
        ≡ blit frames 9 (λ k. seen reversed frames (4000 + k)) 5000 200)
copy_to_kernel_buf_lem_example =
    copy_to_kernel_buf_lem pages reversed frames frames 9 4000 5000 200 pages-Readable
