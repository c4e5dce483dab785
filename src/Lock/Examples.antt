-- ===== src/Lock/Examples.antt =====
-- A run of two threads over one lock, and the theorems at its states.
use plenjos_kernel.Prelude.{◌≡◌, refl, arith, [], ◌∷◌}
use plenjos_kernel.Prelude.Int.{pos, negsuc}
use plenjos_kernel.Lock.{
  idle, spinning, acquired, write_announce, step, write_lock, System, run, call, Reach, start, next,
}
use plenjos_kernel.Lock.Invariant.{reads, writes}
use plenjos_kernel.Lock.Safety.{writer_excludes}

-- thread 0 has announced a write and has not yet tried its exchange
abbrev announced : System
announced = record {
  mem = record { state = pos 0; writers_waiting = 1 };
  pcs = spinning ∷ idle ∷ [];
}

-- thread 0 holds the lock for writing, thread 1 stands outside
abbrev held : System
held = record { mem = record { state = negsuc 0; writers_waiting = 1 }; pcs = acquired ∷ idle ∷ [] }

announced_reach : Reach 2 announced
unfolding step
announced_reach =
    next (next start (call 0 idle write_announce refl write_lock)) (run 0 write_announce refl)

held_reach : Reach 2 held
unfolding step
held_reach = next announced_reach (run 0 spinning refl)

writer_excludes_example : (reads idle ≡ 0) × (writes idle ≡ 0)
writer_excludes_example =
    writer_excludes 0 1 acquired idle held_reach (λ e. omega arith) refl refl refl
