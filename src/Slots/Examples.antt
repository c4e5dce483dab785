-- ===== src/Slots/Examples.antt =====
-- Tests and witnesses of the slot tables.
use plenjos_kernel.Prelude.{ℕ, List, [], ◌∷◌}
use plenjos_kernel.Slots.{Timeout}

abbrev three_fds : List ℕ
three_fds = 0x100 ∷ 0 ∷ 0x200 ∷ []

abbrev slot : ℕ → Timeout
slot ms = record { milliseconds = ms; start_time = 7; callback = 0x400; argument = 0 }

abbrev two_slots : List Timeout
two_slots = slot 20 ∷ slot 0 ∷ []
