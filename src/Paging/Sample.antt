-- ===== src/Paging/Sample.antt =====
-- Sample tables: one page is mapped, at address 0, through the tables 1, 2, 3 and 4, to frame 20.
use plenjos_kernel.Prelude.{
  ℕ, ◌+◌, ◌*◌, ◌≡◌, refl, arith, true, false, some, [], ◌∷◌, ◌==◌, if◌then◌else◌,
}
use plenjos_kernel.Paging.{Flags, Entry, Paging, no_entry, addr_split, lookup, get_physaddr}
use plenjos_kernel.Paging.Tree.{IsPaging}

abbrev pub user_flags : Flags
user_flags = record { present = true; write = true; user = true; nx = false }

abbrev pub to_frame : ℕ → Entry
to_frame n = record { flag = user_flags; base = n }

abbrev pub one_page : Paging
one_page = record {
  tables = λ t i.
      if i == 0
      then (if t == 1
          then to_frame 2
          else (if t == 2
              then to_frame 3
              else (if t == 3 then to_frame 4 else (if t == 4 then to_frame 20 else no_entry))))
      else no_entry;
  free = 30 ∷ 31 ∷ 32 ∷ 33 ∷ [];
}

abbrev pub levels : ℕ → ℕ
levels t =
    if t == 1 then 4 else (if t == 2 then 3 else (if t == 3 then 2 else (if t == 4 then 1 else 0)))

pub one_page-IsPaging : IsPaging one_page levels
one_page-IsPaging = record {
  down = λ t i h e. ground arith;
  no_table = refl;
  available = ground arith;
}

test_mapped : get_physaddr one_page 123 1 ≡ 20 * 4096 + 123
unfolding get_physaddr lookup addr_split
test_mapped = refl

pub zero_mapped : lookup one_page 1 (addr_split 123) ≡ some (to_frame 20)
unfolding lookup addr_split
zero_mapped = refl

pub first_mapped : lookup one_page 1 (addr_split 0) ≡ some (to_frame 20)
unfolding lookup addr_split
first_mapped = refl
