-- ===== src/Access/Examples.antt =====
-- Tests and witnesses of the access check.
use plenjos_kernel.Prelude.{◌≡◌, arith}
use plenjos_kernel.Access.{access_check, allowed, access_check_lem}

-- 0640 for the owner
access_check_lem_example : access_check 0x1a0 1000 1000 1000 ≡ allowed 0x1a0 1000 1000
access_check_lem_example = access_check_lem 0x1a0 1000 1000 1000 (omega arith)
