-- ===== src/Frames/Examples.antt =====
-- Frames 2, 5 and 3 are free, in this order.
use plenjos_kernel.Prelude.{
  ℕ, ◌≡◌, refl, arith, [], ◌∷◌, none, some, true, false, if◌then◌else◌, ◌==◌,
}
use plenjos_kernel.Frames.{Frame, Pmm, handed, no_frame, waits, find_next_free_frame}
use plenjos_kernel.Frames.FreeList.{IsPmm, find_next_free_frame_pops, find_next_free_frame_jams}

abbrev three_frames : ℕ → Frame
three_frames i = record {
  prev_free = (if i == 5 then 2 else (if i == 3 then 5 else 0));
  next_free = (if i == 2 then 5 else (if i == 5 then 3 else 0));
  usable = true;
  refcnt = (if i == 4 then 7 else 0);
}

abbrev three_free : Pmm
three_free = record { frames = three_frames; size = 8; next_free = some 2; locked = false }

abbrev none_free : Pmm
none_free = record { frames = three_frames; size = 8; next_free = none; locked = false }

three_free-IsPmm : IsPmm three_free (2 ∷ 5 ∷ 3 ∷ [])
three_free-IsPmm = record {
  starts = refl;
  linked = (
    record { inside = omega arith; is_usable = refl; unused = refl; next_is = refl },
    ((ground arith, ground arith), ((ground arith, ground arith), tt)),
    (
      record { inside = omega arith; is_usable = refl; unused = refl; next_is = refl },
      ((ground arith, ground arith), tt),
      (record { inside = omega arith; is_usable = refl; unused = refl; next_is = refl }, tt, tt),
    ),
  );
  first = λ x e. ground arith;
  unlocked = refl;
}

none_free-IsPmm : IsPmm none_free []
none_free-IsPmm = record {
  starts = refl;
  linked = tt;
  first = λ x e. ground arith;
  unlocked = refl;
}

find_next_free_frame_pops_example :
    (t : Pmm) × (find_next_free_frame three_free ≡ handed 2 t)
    × IsPmm t (5 ∷ 3 ∷ [])
    × ((t.frames 2).refcnt ≡ 1)
    × ((t.frames 4).refcnt ≡ 7)
find_next_free_frame_pops_example =
    find_next_free_frame_pops three_free 2 4 (5 ∷ 3 ∷ []) three_free-IsPmm (ground arith)

find_next_free_frame_jams_example :
    (t : Pmm) × (find_next_free_frame none_free ≡ no_frame t) × (find_next_free_frame t ≡ waits)
find_next_free_frame_jams_example = find_next_free_frame_jams none_free none_free-IsPmm
