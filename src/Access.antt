-- ===== src/Access.antt =====
-- lib/mode.c: what a process may do with a file, from the mode's bits. Flags as in lib/mode.h and
-- include/plenjos/posix_stat.h.
use plenjos_kernel.Prelude.{
  ℕ, zero, suc, ◌+◌, ◌*◌, ◌/◌, ◌%◌, ◌<◌, ◌≡◌, ◌≢◌, refl, ◌∙◌, arith, Bool, true, false, ◌==◌, ◌&&◌,
  if◌then◌else◌, bit_and, bit_or, ==_iff, ne→==, ==_refl, Bool-cases, inl, inr,
}
mod Examples

abbrev pub access_read : ℕ
access_read = 4

abbrev pub access_write : ℕ
access_write = 2

abbrev pub access_execute : ℕ
access_execute = 1

-- `if (mode & bit) access |= flag`
unfoldable pub grant : ℕ → ℕ → ℕ → ℕ → ℕ
grant mode bit flag access = if bit_and mode bit == 0 then access else bit_or access flag

-- the three tests of one class of users; `unit` is the class's execute bit
unfoldable pub class_access : ℕ → ℕ → ℕ
class_access mode unit =
    grant mode unit access_execute
      (grant mode (unit * 2) access_write (grant mode (unit * 4) access_read 0))

-- 0o111 is `S_IXUSR | S_IXGRP | S_IXOTH`.
unfoldable pub access_check : ℕ → ℕ → ℕ → ℕ → ℕ
access_check original_mode file_uid file_gid process_uid =
    if process_uid == 0
    then grant original_mode 0x49 access_execute (bit_or 0 (bit_or access_read access_write))
    else (if process_uid == file_uid
        then class_access original_mode 64
        else class_access original_mode 1)

-- some execute bit, among the nine bits of a mode
abbrev pub some_execute : ℕ → Bool
some_execute mode =
    if mode % 2 == 1 then true else (if mode / 8 % 2 == 1 then true else mode / 64 % 2 == 1)

-- the bits of the user's own class, or everything but execute for root
abbrev pub allowed : ℕ → ℕ → ℕ → ℕ
allowed mode file_uid process_uid =
    if process_uid == 0
    then (if some_execute mode then 7 else 6)
    else (if process_uid == file_uid then mode / 64 % 8 else mode % 8)

-- the test of every class of users on a mode
every_class : ℕ → Bool
every_class mode =
    (access_check mode 1 0 0 == allowed mode 1 0)
    && (access_check mode 1 0 1 == allowed mode 1 1)
    && (access_check mode 1 0 2 == allowed mode 1 2)

passes_below : ℕ → Bool
passes_below zero = true
passes_below (suc mode) = if every_class mode then passes_below mode else false

passes_below_all :
    (count mode : ℕ) → passes_below count ≡ true → mode < count → every_class mode ≡ true
unfolding passes_below
passes_below_all zero mode all inside = absurd (omega (arith, inside))
passes_below_all (suc count) mode all inside = ground (arith, passes_below_all count mode)

nine_bits : passes_below 512 ≡ true
unfolding passes_below every_class access_check class_access grant
nine_bits = refl

and_parts : {a b c : Bool} → (a && b && c) ≡ true → (a ≡ true) × (b ≡ true) × (c ≡ true)
and_parts {a = a} {b = b} {c = c} h = ground arith

classes :
    (mode : ℕ)
    → every_class mode ≡ true
    → (access_check mode 1 0 0 ≡ allowed mode 1 0)
      × (access_check mode 1 0 1 ≡ allowed mode 1 1)
      × (access_check mode 1 0 2 ≡ allowed mode 1 2)
unfolding every_class
classes mode h =
    let (root, owner, others) = and_parts h in
    ((==_iff _ _).0 root, (==_iff _ _).0 owner, (==_iff _ _).0 others)

-- On the nine bits of a mode, root may read and write, and execute what somebody may execute; the
-- owner has the owner's bits, and everyone else the others' bits, whatever the group is.
pub access_check_lem :
    (mode file_uid file_gid process_uid : ℕ)
    → mode < 512
    → access_check mode file_uid file_gid process_uid ≡ allowed mode file_uid process_uid
unfolding access_check
access_check_lem mode file_uid file_gid process_uid small =
    let (as_root, as_owner, as_other) = classes mode (passes_below_all 512 mode nine_bits small) in
    elim (Bool-cases (process_uid == 0)) [
      | inl root ↦ rw root as_root
      | inr other ↦ elim (Bool-cases (process_uid == file_uid)) [
        | inl owner ↦ rw (other, owner) as_owner
        | inr others ↦ rw (other, others) as_other
      ]
    ]
