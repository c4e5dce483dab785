-- ===== src/Frames/FreeList.antt =====
-- The free frames as a list: an allocation takes its head, and one that fails keeps the lock.
use plenjos_kernel.Prelude.{
  ℕ, ◌+◌, ◌<◌, ◌≡◌, ◌≢◌, refl, ap, ◌∙◌, arith, true, false, Option, none, some, List, [], ◌∷◌, ◌==◌,
  if◌then◌else◌, All, ne→==, ==_refl, gt→leb,
}
use plenjos_kernel.Frames.{
  Frame, Pmm, update, phys_mem_ref_frame, handed, no_frame, waits, unlink_next, take_frame,
  first_frame, find_next_free_frame,
}

-- the index that stands for the list's head, 0 at its end
abbrev pub head_of : List ℕ → ℕ
head_of [] = 0
head_of (x ∷ xs) = x

-- frame `x` is free, and the frame behind it is the next of the list
pub record IsFree (frames : ℕ → Frame) (size x : ℕ) (behind : List ℕ) : Type 0 where
  pub inside : x < size
  pub is_usable : (frames x).usable ≡ true
  pub unused : (frames x).refcnt ≡ 0
  pub next_is : (frames x).next_free ≡ head_of behind

-- The frames of the list are linked, free and different, and none behind the first has index 0.
abbrev pub Linked : (ℕ → Frame) → ℕ → List ℕ → Type 0
Linked frames size [] = Unit {0}
Linked frames size (x ∷ xs) =
    IsFree frames size x xs × All (λ y. (y ≢ x) × (y ≢ 0)) xs × Linked frames size xs

abbrev pub start_of : List ℕ → Option ℕ
start_of [] = none
start_of (x ∷ xs) = some x

-- The free list of the allocator, whose first frame has nothing before it, while no one holds the lock.
pub record IsPmm (s : Pmm) (free : List ℕ) : Type 0 where
  pub starts : s.next_free ≡ start_of free
  pub linked : Linked s.frames s.size free
  pub first : (x : ℕ) → s.next_free ≡ some x → (s.frames x).prev_free ≡ 0
  pub unlocked : s.locked ≡ false

update_self : (frames : ℕ → Frame) (i : ℕ) (f : Frame) → update frames i f i ≡ f
unfolding update
update_self frames i f = rw (==_refl i)

update-ne : (frames : ℕ → Frame) (i j : ℕ) (f : Frame) → j ≢ i → update frames i f j ≡ frames j
unfolding update
update-ne frames i j f ne = rw (ne→== j i ne)

-- The frames of the list are the same in two maps, but for what stands before them.
abbrev SameLinks : (ℕ → Frame) → (ℕ → Frame) → ℕ → Type 0
SameLinks old new y =
    ((new y).usable ≡ (old y).usable)
    × ((new y).refcnt ≡ (old y).refcnt)
    × ((new y).next_free ≡ (old y).next_free)

SameLinks-Linked :
    (old new : ℕ → Frame) (size : ℕ) (xs : List ℕ)
    → All (SameLinks old new) xs
    → Linked old size xs
    → Linked new size xs
SameLinks-Linked old new size [] same l = tt
SameLinks-Linked old new size (x ∷ xs) (s, same) (f, apart, l) = (
  record {
    inside = f.inside;
    is_usable = s.0 ∙ f.is_usable;
    unused = s.1 ∙ f.unused;
    next_is = s.2 ∙ f.next_is;
  },
  apart,
  SameLinks-Linked old new size xs same l,
)

-- what a successful allocation leaves
abbrev pub referenced : Frame → Frame
referenced f = record f { refcnt = f.refcnt + 1 }

abbrev pub popped : Pmm → ℕ → Pmm
popped s x =
    let next = (s.frames x).next_free in
    record s {
      frames =
          update (unlink_next (update s.frames x (referenced (s.frames x))) next) x
            (record (s.frames x) {
              refcnt = (s.frames x).refcnt + 1;
              next_free = 0;
              prev_free = 0;
            });
      next_free = (if next == 0 then none else some next);
      locked = false;
    }

SameLinks-unlink : (frames : ℕ → Frame) (n y : ℕ) → SameLinks frames (unlink_next frames n) y
unfolding update
SameLinks-unlink frames n y = ground arith

SameLinks-update :
    (frames : ℕ → Frame) (x y : ℕ) (f : Frame) → y ≢ x → SameLinks frames (update frames x f) y
SameLinks-update frames x y f ne =
    let e = update-ne frames x y f ne in
    (ap (λ g. g.usable) e, ap (λ g. g.refcnt) e, ap (λ g. g.next_free) e)

SameLinks-popped : (s : Pmm) (x y : ℕ) → y ≢ x → SameLinks s.frames (popped s x).frames y
SameLinks-popped s x y ne =
    let f = s.frames x in
    let a = SameLinks-update s.frames x y (referenced f) ne in
    let b = SameLinks-unlink (update s.frames x (referenced f)) f.next_free y in
    let c =
      SameLinks-update (unlink_next (update s.frames x (referenced f)) f.next_free) x y
        (record f { refcnt = f.refcnt + 1; next_free = 0; prev_free = 0 }) ne in
    (c.0 ∙ b.0 ∙ a.0, c.1 ∙ b.1 ∙ a.1, c.2 ∙ b.2 ∙ a.2)

popped-All :
    (s : Pmm) (x : ℕ) (xs : List ℕ)
    → All (λ y. (y ≢ x) × (y ≢ 0)) xs
    → All (SameLinks s.frames (popped s x).frames) xs
popped-All s x [] a = tt
popped-All s x (y ∷ ys) (ne, a) = (SameLinks-popped s x y ne.0, popped-All s x ys a)

prev_cleared :
    (frames : ℕ → Frame) (x n : ℕ) (f : Frame)
    → f.prev_free ≡ 0
    → (unlink_next (update frames x f) n x).prev_free ≡ 0
unfolding update
prev_cleared frames x n f e = ground arith

take_frame_pops :
    (s : Pmm) (x : ℕ)
    → (s.frames x).prev_free ≡ 0
    → take_frame s x (referenced (s.frames x)) ≡ handed x (popped s x)
unfolding take_frame
take_frame_pops s x p =
    rw (prev_cleared s.frames x (s.frames x).next_free (referenced (s.frames x)) p, take_frame) refl

first_frame_takes :
    (s : Pmm) (x : ℕ) (xs : List ℕ)
    → IsFree s.frames s.size x xs
    → first_frame s x ≡ take_frame s x (referenced (s.frames x))
unfolding first_frame phys_mem_ref_frame
first_frame_takes s x xs f = rw (gt→leb s.size x f.inside, f.is_usable, f.unused) refl

-- The call takes the first frame of the list out.
first_frame_pops :
    (s : Pmm) (x : ℕ) (xs : List ℕ)
    → IsFree s.frames s.size x xs
    → (s.frames x).prev_free ≡ 0
    → first_frame s x ≡ handed x (popped s x)
first_frame_pops s x xs f p = first_frame_takes s x xs f ∙ take_frame_pops s x p

start_of-head_of :
    (xs : List ℕ) (x n : ℕ)
    → n ≡ head_of xs
    → All (λ y. (y ≢ x) × (y ≢ 0)) xs
    → (if n == 0 then none else some n) ≡ start_of xs
start_of-head_of [] x n e a = rw e refl
start_of-head_of (y ∷ ys) x n e a = ground arith

-- The frame at which the list starts after the call has nothing before it.
first_is_first :
    (s : Pmm) (x z : ℕ) (xs : List ℕ)
    → (s.frames x).next_free ≡ head_of xs
    → All (λ y. (y ≢ x) × (y ≢ 0)) xs
    → (popped s x).next_free ≡ some z
    → ((popped s x).frames z).prev_free ≡ 0
unfolding update
first_is_first s x z [] e a h = ground arith
first_is_first s x z (y ∷ ys) e a h = ground arith

-- The list behind the first frame is the allocator's list after the call.
popped-IsPmm : (s : Pmm) (x : ℕ) (xs : List ℕ) → IsPmm s (x ∷ xs) → IsPmm (popped s x) xs
popped-IsPmm s x xs p =
    let (f, apart, l) = p.linked in
    record {
      starts = start_of-head_of xs x (s.frames x).next_free f.next_is apart;
      linked = SameLinks-Linked s.frames (popped s x).frames s.size xs (popped-All s x xs apart) l;
      first = λ z h. first_is_first s x z xs f.next_is apart h;
      unlocked = refl;
    }

-- On a list of free frames that no one holds locked, `find_next_free_frame` hands out the first
-- frame, which then has one reference, and leaves the rest as the list of free frames, unlocked;
-- no other frame's count of references changes.
pub find_next_free_frame_pops :
    (s : Pmm) (x y : ℕ) (xs : List ℕ)
    → IsPmm s (x ∷ xs)
    → y ≢ x
    → (t : Pmm) × (find_next_free_frame s ≡ handed x t)
      × IsPmm t xs
      × ((t.frames x).refcnt ≡ 1)
      × ((t.frames y).refcnt ≡ (s.frames y).refcnt)
unfolding find_next_free_frame
find_next_free_frame_pops s x y xs p ne =
    let f = p.linked.0 in
    (
      popped s x,
      rw (p.unlocked, p.starts)
          (first_frame_pops (record s { locked = true }) x xs f (p.first x p.starts)),
      popped-IsPmm s x xs p,
      ap (λ g. g.refcnt)
            (update_self
              (unlink_next (update s.frames x (referenced (s.frames x))) (s.frames x).next_free) x
              (record (s.frames x) {
                refcnt = (s.frames x).refcnt + 1;
                next_free = 0;
                prev_free = 0;
              }))
          ∙ ap (λ k. k + 1) f.unused,
      (SameLinks-popped s x y ne).1,
    )

-- With no free frame, a call returns 0 and keeps the lock: it is the last call that returns, since
-- the next one waits for the lock for ever.
pub find_next_free_frame_jams :
    (s : Pmm)
    → IsPmm s []
    → (t : Pmm) × (find_next_free_frame s ≡ no_frame t) × (find_next_free_frame t ≡ waits)
unfolding find_next_free_frame
find_next_free_frame_jams s p = (
  record s { locked = true },
  let start = p.starts in let free = p.unlocked in ground arith,
  refl,
)
