-- ===== src/Keyboard.antt =====
-- devices/input/keyboard/keyboard.c and include/plenjos/dev/kbd.h: the buffer of key events. It is
-- full or not by a flag, and a push to a full buffer overwrites the oldest event.
pub mod Refine
mod Examples
use plenjos_kernel.Prelude.{
  ℕ, ◌+◌, ◌-◌, ◌%◌, Bool, true, false, Option, none, some, List, ◌==◌, if◌then◌else◌, ◌&&◌, not,
  get_elem?, set,
}

abbrev pub kbd_buffer_size : ℕ
kbd_buffer_size = 128

-- `kbd_event_t`
pub record KbdEvent : Type 0 where
  pub code : ℕ
  pub state : ℕ
  pub mods : ℕ

-- `kbd_buffer_state_t`
pub record KbdBuffer : Type 0 where
  pub head : ℕ
  pub tail : ℕ
  pub buffer : List KbdEvent
  pub full : Bool

abbrev pub advance_tail : KbdBuffer → KbdBuffer
advance_tail s = record s { tail = (s.tail + 1) % kbd_buffer_size }

abbrev pub advance_head : KbdBuffer → KbdBuffer
advance_head s = record s { head = (s.head + 1) % kbd_buffer_size }

pub kbd_buffer_empty : KbdBuffer → Bool
kbd_buffer_empty s = not s.full && (s.head == s.tail)

pub kbd_buffer_full : KbdBuffer → Bool
kbd_buffer_full s = s.full

pub kbd_buffer_push : KbdEvent → KbdBuffer → KbdBuffer
kbd_buffer_push event s =
    let s1 : KbdBuffer = record s { buffer = set s.buffer s.head event } in
    let s2 : KbdBuffer = if s.full then advance_tail s1 else s1 in
    let s3 : KbdBuffer = advance_head s2 in record s3 { full = s3.head == s3.tail }

-- `none` is the result -1, beside an unchanged buffer.
pub kbd_buffer_pop : KbdBuffer → Option KbdEvent × KbdBuffer
unfolding kbd_buffer_empty
kbd_buffer_pop s =
    if kbd_buffer_empty s
    then (none, s)
    else (get_elem? s.buffer s.tail, record (advance_tail s) { full = false })

-- `init_keyboard`; the array keeps what it holds.
pub init_keyboard : KbdBuffer → KbdBuffer
init_keyboard s = record s { head = 0; tail = 0; full = false }
