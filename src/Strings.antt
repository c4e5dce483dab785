-- ===== src/Strings.antt =====
-- usr/libc/src/string (comp.c, copy.c, misc.c): the operations on the bytes of one memory, which is a
-- function from addresses. A null pointer does not occur here.
use plenjos_kernel.Prelude.{
  ℕ, zero, suc, ◌+◌, ◌-◌, ◌%◌, Bool, true, false, Option, none, some, ◌==◌, ltb, leb, if◌then◌else◌,
  ◌&&◌, not,
}
use plenjos_kernel.Prelude.Int.{ℤ, pos, negsuc, ◌-ℤ◌}
pub mod Copy
pub mod Compare
pub mod Tokens
mod Examples

abbrev pub Memory : Type 0
Memory = ℕ → ℕ

unfoldable pub store : Memory → ℕ → ℕ → Memory
store m a v x = if x == a then v else m x

-- `for (i = from; i < from + n; i++) dest[i] = src[i]`
unfoldable pub copy_up : Memory → ℕ → ℕ → ℕ → ℕ → Memory
copy_up m dest src i zero = m
copy_up m dest src i (suc n) = copy_up (store m (dest + i) (m (src + i))) dest src (i + 1) n

-- `for (i = n; i > 0; i--) dest[i - 1] = src[i - 1]`
unfoldable pub copy_down : Memory → ℕ → ℕ → ℕ → Memory
copy_down m dest src zero = m
copy_down m dest src (suc n) = copy_down (store m (dest + n) (m (src + n))) dest src n

unfoldable pub memcpy : Memory → ℕ → ℕ → ℕ → Memory
memcpy m dest src n = copy_up m dest src 0 n

unfoldable pub memmove : Memory → ℕ → ℕ → ℕ → Memory
memmove m dest src n =
    if ltb dest src
    then copy_up m dest src 0 n
    else (if ltb src dest then copy_down m dest src n else m)

-- `p[i] = (uint8_t)c`, from `i` on
unfoldable pub memset_from : Memory → ℕ → ℕ → ℕ → ℕ → Memory
memset_from m s c i zero = m
memset_from m s c i (suc n) = memset_from (store m (s + i) (c % 256)) s c (i + 1) n

unfoldable pub memset : Memory → ℕ → ℕ → ℕ → Memory
memset m s c n = memset_from m s c 0 n

-- `strlen`, on `fuel` bytes; `none` where no byte of them is 0
unfoldable pub strlen_fuel : ℕ → Memory → ℕ → Option ℕ
strlen_fuel zero m s = none
strlen_fuel (suc fuel) m s =
    let rest = strlen_fuel fuel m (s + 1) in
    if m s == 0 then some 0 else elim rest [ none ↦ none | some n ↦ some (suc n) ]

-- `memcmp`: the sign of the first difference
unfoldable pub memcmp : Memory → ℕ → ℕ → ℕ → ℤ
memcmp m p1 p2 zero = pos 0
memcmp m p1 p2 (suc n) =
    let rest = memcmp m (p1 + 1) (p2 + 1) n in
    if not (m p1 == m p2) then (if ltb (m p1) (m p2) then negsuc 0 else pos 1) else rest

-- `strncmp`
unfoldable pub strncmp : Memory → ℕ → ℕ → ℕ → ℤ
strncmp m s1 s2 zero = pos 0
strncmp m s1 s2 (suc n) =
    let rest = strncmp m (s1 + 1) (s2 + 1) n in
    if not (m s1 == 0) && (m s1 == m s2) then rest else (pos (m s1) -ℤ pos (m s2))

-- the loop that fills `dest[len]` to `dest[n - 1]` with 0
unfoldable pub pad : Memory → ℕ → ℕ → ℕ → Memory
pad m dest len zero = m
pad m dest len (suc k) = pad (store m (dest + len) 0) dest (len + 1) k

-- `strncpy`, of a string whose length `len` `strlen` has found
unfoldable pub strncpy_of_len : Memory → ℕ → ℕ → ℕ → ℕ → Memory
strncpy_of_len m dest src n len =
    if n == 0
    then m
    else (if leb n len then memcpy m dest src n else pad (memcpy m dest src len) dest len (n - len))

-- `strcpy`, of a string whose length `len` `strlen` has found
unfoldable pub strcpy_of_len : Memory → ℕ → ℕ → ℕ → Memory
strcpy_of_len m dest src len = memcpy m dest src (len + 1)
