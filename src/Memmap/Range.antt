-- ===== src/Memmap/Range.antt =====
-- The loops `for (; voffs < (uint64_t)addr + length; voffs += PAGE_LEN)` of memmap and memprotect
-- (syscall/mem/memmap.c): the pages that they visit while no pass ends the call.
use plenjos_kernel.Prelude.{
  ℕ, zero, suc, ◌+◌, ◌-◌, ◌*◌, ◌/◌, ◌%◌, ◌^◌, ◌≤◌, ◌<◌, ◌≡◌, ap, arith, true, List, [], ◌∷◌, ◌==◌,
  ltb, if◌then◌else◌,
}
use plenjos_kernel.Memmap.{round_length, passes}

-- the values of `voffs` in the body, for at most `fuel` passes
unfoldable pub loop_pages : ℕ → ℕ → ℕ → List ℕ
loop_pages zero voffs end = []
loop_pages (suc fuel) voffs end =
    let rest = loop_pages fuel ((voffs + 4096) % 2 ^ 64) end in
    if ltb voffs end then voffs ∷ rest else []

-- the pages that hold the bytes of a range that is not empty
abbrev pub touched : ℕ → ℕ → ℕ
touched addr length = (addr + length - 1) / 4096 - addr / 4096 + 1

-- so many pages, one behind the other
abbrev pub pages_from : ℕ → ℕ → List ℕ
pages_from voffs zero = []
pages_from voffs (suc n) = voffs ∷ pages_from (voffs + 4096) n

loop_pages-pages_from :
    (n fuel voffs end : ℕ)
    → n < fuel
    → end ≤ voffs + n * 4096
    → voffs + n * 4096 < end + 4096
    → voffs + n * 4096 < 2 ^ 64
    → loop_pages fuel voffs end ≡ pages_from voffs n
unfolding loop_pages
loop_pages-pages_from n zero voffs end enough over last small = absurd (omega arith)
loop_pages-pages_from zero (suc fuel) voffs end enough over last small = ground arith
loop_pages-pages_from (suc n) (suc fuel) voffs end enough over last small =
    let later =
      loop_pages-pages_from n fuel (voffs + 4096) end (omega arith) (omega arith) (omega arith)
        (omega arith) in
    let next : (voffs + 4096) % 2 ^ 64 ≡ voffs + 4096 = omega arith in
    let inside : ltb voffs end ≡ true = ground arith in
    rw (inside, next) (ap (λ l. voffs ∷ l) later)

-- The length is rounded up to whole pages behind the first byte's offset.
round_length_lem :
    (addr length : ℕ)
    → addr + length + 8192 ≤ 2 ^ 64
    → round_length addr length ≡ (addr % 4096 + length + 4095) / 4096 * 4096
unfolding round_length
round_length_lem addr length small = ground arith

passes_lem :
    (addr length : ℕ)
    → addr + length + 8192 ≤ 2 ^ 64
    → 1 ≤ length
    → passes addr length ≡ touched addr length + (if addr % 4096 == 0 then 0 else 1)
unfolding passes
passes_lem addr length small some_bytes = ground (arith, round_length_lem addr length)

-- For a range of at least one byte, where no sum goes round and with more fuel than `passes`, the loop
-- visits just the pages that hold a byte of the range, in their order from the one of its first byte,
-- and one page more when the address is not at the start of a page. `passes` is the number of them.
pub loop_pages_lem :
    (fuel addr length : ℕ)
    → addr + length + 8192 ≤ 2 ^ 64
    → 1 ≤ length
    → passes addr length < fuel
    → (loop_pages fuel (addr - addr % 4096) ((addr + round_length addr length) % 2 ^ 64)
        ≡ pages_from
            (addr / 4096 * 4096)
            (touched addr length + (if addr % 4096 == 0 then 0 else 1)))
      × (passes addr length ≡ touched addr length + (if addr % 4096 == 0 then 0 else 1))
loop_pages_lem fuel addr length small some_bytes enough =
    let count = passes_lem addr length small some_bytes in
    let round = round_length_lem addr length small in
    let n = touched addr length + (if addr % 4096 == 0 then 0 else 1) in
    let start : addr - addr % 4096 ≡ addr / 4096 * 4096 = omega arith in
    (
      rw (start, round)
          (loop_pages-pages_from n fuel (addr / 4096 * 4096)
            ((addr + (addr % 4096 + length + 4095) / 4096 * 4096) % 2 ^ 64) (omega (arith, count))
            (ground arith) (ground arith) (ground arith)),
      count,
    )
