-- ===== src/Vfs/Books.antt =====
-- The handles and the reference counts that vfs/vfs.c keeps.
use plenjos_kernel.Prelude.{
  ℕ, zero, suc, ◌^◌, ◌≤◌, ◌≡◌, ◌≢◌, refl, sym, subst, arith, true, false, Option, none, some,
  Bool-cases, inl, inr,
}
use plenjos_kernel.Prelude.Int.{ℤ, pos, negsuc, neg_part}
use plenjos_kernel.Vfs.{
  Vfs, Reply, refused, up, down, set_ref, set_handle, cannot_refer, vfs_helper_create_handle, has,
  allows, handle_access,
}

-- Every reference count is an `int`.
abbrev pub InRange : Vfs → Type 0
InRange s = (u : ℕ) → neg_part (s.refs u) ≤ 2 ^ 31

-- Without a handle, the counts and the handles are those of before. With one, the call returns 0; the
-- handle has the access that the flags ask for, and its node, whose count was neither negative nor the
-- largest `int`, is referred to once more.
abbrev pub Booked : Vfs → ℕ → ℤ → Option ℕ → Vfs → Type 0
Booked s flags code none t = ((u : ℕ) → t.refs u ≡ s.refs u) × ((a : ℕ) → t.handles a ≡ s.handles a)
Booked s flags code (some a) t =
    (code ≡ pos 0)
    × (n : ℕ) × (t.handles a ≡ some (record { backing_node = n; access = handle_access flags }))
    × (cannot_refer (s.refs n) ≡ false)
    × (t.refs n ≡ up (s.refs n))
    × ((u : ℕ) → u ≢ n → t.refs u ≡ s.refs u)
    × ((b : ℕ) → b ≢ a → t.handles b ≡ s.handles b)

abbrev pub Books : Vfs → ℕ → Reply → Type 0
Books s flags r = Booked s flags r.code r.handle r.state

pub refused-Books : (s : Vfs) (flags : ℕ) (e : ℤ) → Books s flags (refused s e)
refused-Books s flags e = (λ u. refl, λ a. refl)

down-up : (r : ℤ) → neg_part r ≤ 2 ^ 31 → down (up r) ≡ r
down-up (pos n) h = ground arith
down-up (negsuc zero) h = refl
down-up (negsuc (suc n)) h = ground arith

-- `vfs_helper_create_handle` leaves the cache alone
pub create_handle-cache :
    (block : Option ℕ) (n access : ℕ) (s : Vfs)
    → (vfs_helper_create_handle block n access s).state.cache ≡ s.cache
unfolding vfs_helper_create_handle set_ref set_handle
create_handle-cache none n access s = refl
create_handle-cache (some a) n access s = ground arith

pub create_handle-full :
    (a n access : ℕ) (s : Vfs)
    → cannot_refer (s.refs n) ≡ true
    → vfs_helper_create_handle (some a) n access s
      ≡ refused
          (set_ref (set_ref s n (up (s.refs n))) n (down ((set_ref s n (up (s.refs n))).refs n)))
          (negsuc 4)
unfolding vfs_helper_create_handle
create_handle-full a n access s e = rw (e, vfs_helper_create_handle) refl

pub create_handle-made :
    (a n access : ℕ) (s : Vfs)
    → cannot_refer (s.refs n) ≡ false
    → vfs_helper_create_handle (some a) n access s ≡ record {
      code = pos 0;
      handle = some a;
      state =
          set_handle
            (set_ref s n (up (s.refs n)))
            a
            (some (record { backing_node = n; access = access }));
    }
unfolding vfs_helper_create_handle
create_handle-made a n access s e = rw (e, vfs_helper_create_handle) refl

restored :
    (s : Vfs) (n u : ℕ)
    → down (up (s.refs n)) ≡ s.refs n
    → (set_ref (set_ref s n (up (s.refs n))) n (down ((set_ref s n (up (s.refs n))).refs n))).refs u
      ≡ s.refs u
unfolding set_ref
restored s n u e = ground (arith, e)

same_handles :
    (s : Vfs) (n m : ℕ) (q r : ℤ) (a : ℕ) → (set_ref (set_ref s n q) m r).handles a ≡ s.handles a
unfolding set_ref
same_handles s n m q r a = refl

made-Books :
    (s : Vfs) (flags a n : ℕ)
    → cannot_refer (s.refs n) ≡ false
    → Booked s flags (pos 0) (some a) (
        set_handle
          (set_ref s n (up (s.refs n)))
          a
          (some (record { backing_node = n; access = handle_access flags })))
unfolding set_ref set_handle
made-Books s flags a n e =
    (refl, n, ground arith, e, ground arith, λ u h. ground arith, λ b h. ground arith)

pub create_handle-Books :
    (block : Option ℕ) (n flags : ℕ) (s : Vfs)
    → InRange s
    → Books s flags (vfs_helper_create_handle block n (handle_access flags) s)
unfolding vfs_helper_create_handle
create_handle-Books none n flags s h = refused-Books s flags (negsuc 11)
create_handle-Books (some a) n flags s h = elim (Bool-cases (cannot_refer (s.refs n))) [
  | inl e ↦ subst (Books s flags) (sym (create_handle-full a n (handle_access flags) s e)) (
    λ u. restored s n u (down-up (s.refs n) (h n)),
    λ b. same_handles s n n (up (s.refs n)) (down ((set_ref s n (up (s.refs n))).refs n)) b,
  )
  | inr e ↦
      subst (Books s flags) (sym (create_handle-made a n (handle_access flags) s e))
        (made-Books s flags a n e)
]

-- A handle allows what the flags ask for, and nothing else.
pub handle_access-allows :
    (flags : ℕ)
    → (allows (handle_access flags) 4 ≡ has flags 4)
      × (allows (handle_access flags) 2 ≡ has flags 2)
      × (allows (handle_access flags) 1 ≡ has flags 1)
unfolding handle_access
handle_access-allows flags = ground arith
