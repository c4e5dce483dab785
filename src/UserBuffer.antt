-- ===== src/UserBuffer.antt =====
-- syscall/syscall_helpers.c: copies between the kernel and a buffer of a process, page by page. A page
-- table is the function behind `find_page`, and the frames are one memory, which the kernel's buffer is
-- not part of. No address wraps.
use plenjos_kernel.Prelude.{
  ℕ, zero, suc, ◌+◌, ◌-◌, ◌*◌, ◌/◌, ◌%◌, ◌≡◌, refl, Bool, true, false, Option, none, some, ◌==◌,
  ltb, leb, not, ◌&&◌, ◌||◌, if◌then◌else◌,
}
pub mod Chunks
pub mod Copies
mod Examples

abbrev pub page_len : ℕ
page_len = 4096

-- `page_t`, the fields that are used
pub record Page : Type 0 where
  pub present : Bool
  pub user : Bool
  pub rw_flag : Bool
  pub frame : ℕ

abbrev pub PageTable : Type 0
PageTable = ℕ → Option Page

abbrev pub Memory : Type 0
Memory = ℕ → ℕ

-- `memcpy` between two memories: `n` bytes, `from` giving the byte at each distance
unfoldable pub blit : Memory → ℕ → Memory → ℕ → Memory
blit m dest from n x = if leb dest x && ltb x (dest + n) then from (x - dest) else m x

-- The number of bytes of one round, for a user address `user`, `count` bytes in all, `offs` of them done.
unfoldable pub chunk : ℕ → ℕ → ℕ → ℕ
chunk user count offs =
    let first_page_len = page_len - user % page_len in
    let last_page_len = (user + count) % page_len in
    if offs == 0
    then (if ltb count first_page_len then count else first_page_len)
    else (if ltb count (offs + page_len) then last_page_len else page_len)

-- where the frame's byte of an address stands
abbrev pub frame_at : Page → ℕ → ℕ
frame_at page addr = page.frame * page_len + addr % page_len

-- Where the bytes of one round stand: a full page behind the first round starts at its frame.
unfoldable pub chunk_at : Page → ℕ → ℕ → ℕ → ℕ
chunk_at page addr count offs =
    if offs == 0
    then frame_at page addr
    else (if ltb count (offs + page_len) then frame_at page addr else page.frame * page_len)

-- what a copy returns, beside the memory: 0, or -EFAULT
pub data Status : Type 0 where
  done : Status
  efault : Status
  running : Status

abbrev pub allowed : Bool → Page → Bool
allowed override_write_check page =
    page.present && page.user && (page.rw_flag || override_write_check)

-- the loop of `copy_to_user_buf`, for at most `fuel` rounds
unfoldable pub to_user : PageTable → ℕ → Memory → ℕ → Bool → ℕ → Memory → ℕ → Status × Memory
to_user pages dest src count override zero m offs =
    if ltb offs count then (running, m) else (done, m)
to_user pages dest src count override (suc fuel) m offs =
    let addr = dest + offs in
    let n = chunk dest count offs in
    if ltb offs count
    then elim (pages addr) [
      | none ↦ (efault, m)
      | some page ↦
          let rest =
            to_user pages dest src count override fuel
              (blit m (chunk_at page addr count offs) (λ k. src (offs + k)) n) (offs + n) in
          if allowed override page then rest else (efault, m)
    ]
    else (done, m)

-- Every round but the first copies a page or ends the copy, so `count` rounds are enough.
unfoldable pub copy_to_user_buf : PageTable → Memory → ℕ → Memory → ℕ → Bool → Status × Memory
copy_to_user_buf pages m dest src count override_write_check =
    to_user pages dest src count override_write_check count m 0

-- the loop of `copy_to_kernel_buf`: `frames` is read, and `m` is the kernel's memory
unfoldable pub to_kernel : PageTable → Memory → ℕ → ℕ → ℕ → ℕ → Memory → ℕ → Status × Memory
to_kernel pages frames dest src count zero m offs =
    if ltb offs count then (running, m) else (done, m)
to_kernel pages frames dest src count (suc fuel) m offs =
    let addr = src + offs in
    let n = chunk src count offs in
    if ltb offs count
    then elim (pages addr) [
      | none ↦ (efault, m)
      | some page ↦
          let rest =
            to_kernel pages frames dest src count fuel
              (blit m (dest + offs) (λ k. frames (chunk_at page addr count offs + k)) n)
              (offs + n) in
          if page.present && page.user then rest else (efault, m)
    ]
    else (done, m)

unfoldable pub copy_to_kernel_buf : PageTable → Memory → Memory → ℕ → ℕ → ℕ → Status × Memory
copy_to_kernel_buf pages frames m dest src count = to_kernel pages frames dest src count count m 0
