-- ===== src/Keyboard/Examples.antt =====
-- Tests and witnesses of the keyboard buffer.
use plenjos_kernel.Prelude.{ℕ, ◌≡◌, refl, arith, replicate, length-replicate, true, false, inl, inr}
use plenjos_kernel.Keyboard.{KbdEvent, KbdBuffer, kbd_buffer_push, kbd_buffer_pop}
use plenjos_kernel.Keyboard.Refine.{IsBuffer, events, enqueue, dequeue, push_refines, pop_refines}

abbrev key : ℕ → KbdEvent
key c = record { code = c; state = 1; mods = 0 }

-- one event, in the last place of the array
abbrev one_key : KbdBuffer
one_key = record { head = 0; tail = 127; buffer = replicate 128 (key 30); full = false }

one_key-IsBuffer : IsBuffer one_key
one_key-IsBuffer = record {
  storage = length-replicate 128 (key 30);
  head_in = omega arith;
  tail_in = omega arith;
  full_means = inl refl;
}

abbrev full_buffer : KbdBuffer
full_buffer = record { head = 5; tail = 5; buffer = replicate 128 (key 30); full = true }

full_buffer-IsBuffer : IsBuffer full_buffer
full_buffer-IsBuffer = record {
  storage = length-replicate 128 (key 30);
  head_in = omega arith;
  tail_in = omega arith;
  full_means = inr refl;
}

push_refines_example :
    IsBuffer (kbd_buffer_push (key 44) full_buffer)
    × (events (kbd_buffer_push (key 44) full_buffer) ≡ enqueue (key 44) (events full_buffer))
push_refines_example = push_refines (key 44) full_buffer full_buffer-IsBuffer

pop_refines_example :
    IsBuffer (kbd_buffer_pop one_key).1
    × (((kbd_buffer_pop one_key).0, events (kbd_buffer_pop one_key).1) ≡ dequeue (events one_key))
pop_refines_example = pop_refines one_key one_key-IsBuffer
