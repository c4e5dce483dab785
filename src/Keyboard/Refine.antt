-- ===== src/Keyboard/Refine.antt =====
-- The keyboard buffer is the queue of the newest events, at most 128 of them.
use plenjos_kernel.Prelude.{
  ℕ, zero, suc, ◌+◌, ◌-◌, ◌%◌, ◌<◌, ◌≡◌, refl, ◌∙◌, ◌⊎◌, sym, subst, List, [], ◌∷◌, ◌++◌, arith,
  length, get_or, set, length-set, get_elem?-eq-get_or, lt→ltb, ge→ltb, not, ◌&&◌, true, false,
  Option, some, none, if◌then◌else◌, ◌==◌, Bool-cases, inl, inr, ltb,
}
use plenjos_kernel.Ring.{items, length-items, items-set}
use plenjos_kernel.Keyboard.{
  KbdEvent, KbdBuffer, kbd_buffer_size, kbd_buffer_empty, kbd_buffer_push, kbd_buffer_pop,
}

abbrev pub no_event : KbdEvent
no_event = record { code = 0; state = 0; mods = 0 }

pub record IsBuffer (s : KbdBuffer) : Type 0 where
  pub storage : length s.buffer ≡ kbd_buffer_size
  pub head_in : s.head < kbd_buffer_size
  pub tail_in : s.tail < kbd_buffer_size
  pub full_means : (s.full ≡ false) ⊎ (s.head ≡ s.tail)

-- how many events the buffer holds
abbrev pub count : KbdBuffer → ℕ
count s = if s.full then kbd_buffer_size else (s.head + kbd_buffer_size - s.tail) % kbd_buffer_size

-- the events, oldest first
unfoldable pub events : KbdBuffer → List KbdEvent
events s = items no_event kbd_buffer_size s.buffer s.tail (count s)

-- the queue that drops its oldest event to make room
abbrev pub drop_first : List KbdEvent → List KbdEvent
drop_first [] = []
drop_first (x ∷ xs) = xs

abbrev pub enqueue : KbdEvent → List KbdEvent → List KbdEvent
enqueue e xs =
    if ltb (length xs) kbd_buffer_size then xs ++ (e ∷ []) else drop_first (xs ++ (e ∷ []))

push-IsBuffer : (e : KbdEvent) (s : KbdBuffer) → IsBuffer s → IsBuffer (kbd_buffer_push e s)
unfolding kbd_buffer_push
push-IsBuffer e s v = ground (arith, length-set s.buffer s.head e)

-- The place that a push writes lies behind the events.
head-count : (s : KbdBuffer) → IsBuffer s → (s.tail + count s) % kbd_buffer_size ≡ s.head
head-count s v = ground arith

length-events : (s : KbdBuffer) → length (events s) ≡ count s
unfolding events
length-events s = length-items no_event kbd_buffer_size s.buffer s.tail (count s)

events-of :
    (s : KbdBuffer) {b : List KbdEvent} {t c : ℕ}
    → s.buffer ≡ b
    → s.tail ≡ t
    → count s ≡ c
    → events s ≡ items no_event kbd_buffer_size b t c
unfolding events
events-of s same_b same_t same_c = rw (same_c, same_b, same_t)

-- A push to a buffer with room puts the event behind the others.
push-not_full :
    (e : KbdEvent) (s : KbdBuffer)
    → IsBuffer s
    → s.full ≡ false
    → events (kbd_buffer_push e s) ≡ events s ++ (e ∷ [])
unfolding events kbd_buffer_push
push-not_full e s v few =
    let at = head-count s v in
    let n : count (kbd_buffer_push e s) ≡ suc (count s) = ground (arith) in
    let few_n : count s < kbd_buffer_size = ground (arith) in
    let t : (kbd_buffer_push e s).tail ≡ s.tail = rw few in
    let b : (kbd_buffer_push e s).buffer ≡ set s.buffer s.head e = rw few in
    let put =
      items-set no_event kbd_buffer_size s.buffer e s.tail (count s) (omega (arith, v.storage))
        v.tail_in few_n in
    events-of (kbd_buffer_push e s) b t n
    ∙ (subst
        (λ h.
          items no_event kbd_buffer_size (set s.buffer h e) s.tail (suc (count s))
          ≡ events s ++ (e ∷ []))
        at put)

-- A push to a full buffer overwrites the oldest event.
push-full :
    (e : KbdEvent) (s : KbdBuffer)
    → IsBuffer s
    → s.full ≡ true
    → events (kbd_buffer_push e s) ≡ drop_first (events s ++ (e ∷ []))
unfolding events kbd_buffer_push
push-full e s v whole =
    let same : s.head ≡ s.tail = ground arith in
    let c : count s ≡ kbd_buffer_size = rw whole in
    let t : (kbd_buffer_push e s).tail ≡ (s.tail + 1) % kbd_buffer_size = rw whole in
    let b : (kbd_buffer_push e s).buffer ≡ set s.buffer s.head e = rw whole in
    let n : count (kbd_buffer_push e s) ≡ kbd_buffer_size = ground arith in
    let put =
      items-set no_event kbd_buffer_size s.buffer e ((s.tail + 1) % kbd_buffer_size) 127
        (omega (arith, v.storage)) (omega arith) (omega arith) in
    let at : ((s.tail + 1) % kbd_buffer_size + 127) % kbd_buffer_size ≡ s.head =
      omega (arith, same, v.tail_in) in
    rw (events-of s refl refl c) (
      events-of (kbd_buffer_push e s) b t n
      ∙ (subst
          (λ h.
            items no_event kbd_buffer_size (set s.buffer h e) ((s.tail + 1) % kbd_buffer_size)
              kbd_buffer_size
            ≡ items no_event kbd_buffer_size s.buffer ((s.tail + 1) % kbd_buffer_size) 127
              ++ (e ∷ []))
          at put))

-- On a well-formed buffer, a push adds an event to the queue of the last 128 events: behind the others when there is room,
-- and in place of the oldest one when there is none; the buffer stays well formed.
pub push_refines :
    (e : KbdEvent) (s : KbdBuffer)
    → IsBuffer s
    → IsBuffer (kbd_buffer_push e s) × (events (kbd_buffer_push e s) ≡ enqueue e (events s))
push_refines e s v = (
  push-IsBuffer e s v,
  elim (Bool-cases s.full) [
    | inr few ↦
        let small : count s < kbd_buffer_size = ground arith in
        rw (length-events s, lt→ltb (count s) kbd_buffer_size small) (push-not_full e s v few)
    | inl whole ↦
        let c : count s ≡ kbd_buffer_size = rw whole in
        rw (length-events s, ge→ltb (count s) kbd_buffer_size (omega (arith, c)))
          (push-full e s v whole)
  ],
)

-- what a pop takes from a queue
abbrev pub dequeue : List KbdEvent → Option KbdEvent × List KbdEvent
dequeue [] = (none, [])
dequeue (x ∷ xs) = (some x, xs)

abbrev popped : KbdBuffer → KbdBuffer
popped s = record s { tail = (s.tail + 1) % kbd_buffer_size; full = false }

pop-some :
    (s : KbdBuffer) (m : ℕ)
    → IsBuffer s
    → count s ≡ suc m
    → kbd_buffer_pop s ≡ (some (get_or s.buffer s.tail no_event), popped s)
unfolding kbd_buffer_pop kbd_buffer_empty
pop-some s m v c =
    let e : (not s.full && (s.head == s.tail)) ≡ false = ground arith in
    rw (e, get_elem?-eq-get_or s.buffer s.tail no_event (omega (arith, v.storage, v.tail_in)))

pop-none : (s : KbdBuffer) → IsBuffer s → count s ≡ 0 → kbd_buffer_pop s ≡ (none, s)
unfolding kbd_buffer_pop kbd_buffer_empty
pop-none s v c = let e : (not s.full && (s.head == s.tail)) ≡ true = ground arith in rw e

abbrev Popped : KbdBuffer → Option KbdEvent × KbdBuffer → Type 0
Popped s r = IsBuffer r.1 × ((r.0, events r.1) ≡ dequeue (events s))

pop-Popped : (s : KbdBuffer) (c : ℕ) → IsBuffer s → count s ≡ c → Popped s (kbd_buffer_pop s)
pop-Popped s zero v e = subst (Popped s) (sym (pop-none s v e)) (v, rw (events-of s refl refl e))
pop-Popped s (suc m) v e =
    let e1 : count (popped s) ≡ m = ground arith in
    subst (Popped s) (sym (pop-some s m v e))
      (ground arith, rw (events-of s refl refl e, events-of (popped s) refl refl e1))

-- From a well-formed buffer, a pop takes the oldest event, or reports that there is none and changes nothing; the buffer stays
-- well formed.
pub pop_refines :
    (s : KbdBuffer)
    → IsBuffer s
    → IsBuffer (kbd_buffer_pop s).1
      × (((kbd_buffer_pop s).0, events (kbd_buffer_pop s).1) ≡ dequeue (events s))
pop_refines s v = pop-Popped s (count s) v refl
