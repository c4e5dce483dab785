-- ===== src/Paging/Tree.antt =====
-- The tables as trees: each table has a level, from 4 at the top down to 1 for tables of pages.
use plenjos_kernel.Prelude.{
  ℕ, ◌+◌, ◌-◌, ◌^◌, ◌<◌, ◌≡◌, ◌≢◌, refl, subst, arith, Bool, true, false, List, [], ◌∷◌, ◌==◌,
  if◌then◌else◌, All, Bool-cases, inl, inr, ne→==,
}
use plenjos_kernel.Paging.{
  Flags, Paging, write_entry, zero_table, take_frame, alloc_paging_node, Walk, at, missing, fault,
  descend,
}

-- The frames are no tables, not frame 0, below the 40 bits of an entry, and different.
abbrev pub Available : (ℕ → ℕ) → List ℕ → Type 0
Available level [] = Unit {0}
Available level (n ∷ ns) =
    (level n ≡ 0) × ((n ≢ 0) × (n < 2 ^ 40)) × All (λ k. k ≢ n) ns × Available level ns

-- An entry that is present leads one level down, and the free frames are no tables.
pub record IsPaging (m : Paging) (level : ℕ → ℕ) : Type 0 where
  pub down :
      (t i : ℕ)
      → 1 < level t
      → (m.tables t i).flag.present ≡ true
      → level (m.tables t i).base + 1 ≡ level t
  pub no_table : level 0 ≡ 0
  pub available : Available level m.free

-- Tables stay tables, and what was mapped still is, to the same frame.
pub record Kept (m : Paging) (level : ℕ → ℕ) (m' : Paging) (level' : ℕ → ℕ) : Type 0 where
  pub same_level : (t : ℕ) → level t ≢ 0 → level' t ≡ level t
  pub still :
      (t i : ℕ)
      → level t ≢ 0
      → (m.tables t i).flag.present ≡ true
      → (m.tables t i).base ≢ 0
      → ((m'.tables t i).flag.present ≡ true) × ((m'.tables t i).base ≡ (m.tables t i).base)

-- A step from entry `i` of table `t` leads to the table `n`, one level down.
pub record Goes (flags : Flags) (m : Paging) (level : ℕ → ℕ) (t i : ℕ) (m' : Paging) (n : ℕ)
    : Type 0 where
  pub level' : ℕ → ℕ
  pub is_paging : IsPaging m' level'
  pub kept : Kept m level m' level'
  pub down_one : level' n + 1 ≡ level t
  pub is_present : (m'.tables t i).flag.present ≡ true
  pub points : (m'.tables t i).base ≡ n
  -- what is present below was so before the step, which only changes the entry it goes through
  pub before :
      (u j : ℕ)
      → level' u ≢ 0
      → u ≢ t
      → (m'.tables u j).flag.present ≡ true
      → (level u ≢ 0)
        × ((m.tables u j).flag.present ≡ true)
        × ((m.tables u j).base ≡ (m'.tables u j).base)
  pub others : (u j : ℕ) → level u ≢ 0 → u ≢ t → m'.tables u j ≡ m.tables u j
  -- The entry gets the flags given if it is new, and else keeps the rights to write and to execute.
  pub new_flags : (m.tables t i).flag.present ≡ false → (m'.tables t i).flag ≡ flags
  pub same_rights :
      (m.tables t i).flag.present ≡ true
      → ((m'.tables t i).flag.write ≡ (m.tables t i).flag.write)
        × ((m'.tables t i).flag.nx ≡ (m.tables t i).flag.nx)
  pub was : level n ≢ 0 → ((m.tables t i).flag.present ≡ true) × ((m.tables t i).base ≡ n)

abbrev pub set_level : (ℕ → ℕ) → ℕ → ℕ → ℕ → ℕ
set_level level n k t = if t == n then k else level t

Available-set_level :
    (level : ℕ → ℕ) (n k : ℕ) (ns : List ℕ)
    → All (λ j. j ≢ n) ns
    → Available level ns
    → Available (set_level level n k) ns
Available-set_level level n k [] apart a = tt
Available-set_level level n k (j ∷ js) (ne, apart) (l, nz, d, a) =
    (rw (ne→== j n ne) l, nz, d, Available-set_level level n k js apart a)

-- a new table under the entry
abbrev pub made : Paging → ℕ → ℕ → Flags → ℕ → List ℕ → Paging
made m t i flags n rest =
    write_entry (zero_table (record m { free = rest }) n) t i (record { flag = flags; base = n })

made-Goes :
    (m : Paging) (level : ℕ → ℕ) (t i : ℕ) (flags : Flags) (n : ℕ) (rest : List ℕ)
    → IsPaging m level
    → m.free ≡ n ∷ rest
    → 1 < level t
    → (m.tables t i).flag.present ≡ false
    → flags.present ≡ true
    → Goes flags m level t i (made m t i flags n rest) n
unfolding write_entry zero_table
made-Goes m level t i flags n rest p f high absent pres =
    let (fresh, nz, apart, a) = subst (Available level) f p.available in
    let down = p.down in
    let level_zero = p.no_table in
    record {
      level' = set_level level n (level t - 1);
      is_paging = record {
        down = λ u j h e. ground (arith, down u j);
        no_table = ground arith;
        available = Available-set_level level n (level t - 1) rest apart a;
      };
      kept = record {
        same_level = λ u h. ground arith;
        still = λ u j h e b. (ground arith, ground arith);
      };
      down_one = ground arith;
      is_present = ground arith;
      points = ground arith;
      before = λ u j h ne e. (ground arith, ground arith, ground arith);
      others = λ u j h ne. ground arith;
      new_flags = λ h. ground arith;
      same_rights = λ h. absurd (ground arith);
      was = λ h. absurd (h fresh);
    }

-- the entry with the bit for the user
abbrev pub opened : Bool → Paging → ℕ → ℕ → Paging
opened user m t i =
    let e = m.tables t i in
    if user then write_entry m t i (record e { flag = record (e.flag) { user = true } }) else m

pub opened-Goes :
    {flags : Flags} (user : Bool) (m : Paging) (level : ℕ → ℕ) (t i : ℕ)
    → IsPaging m level
    → 1 < level t
    → (m.tables t i).flag.present ≡ true
    → Goes flags m level t i (opened user m t i) (m.tables t i).base
unfolding write_entry
opened-Goes user m level t i p high present =
    let down = p.down in
    record {
      level' = level;
      is_paging = record {
        down = λ u j h e. ground (arith, down u j);
        no_table = p.no_table;
        available = ground arith;
      };
      kept = record { same_level = λ u h. refl; still = λ u j h e b. (ground arith, ground arith) };
      down_one = ground (arith, down t i);
      is_present = ground arith;
      points = ground arith;
      before = λ u j h ne e. (h, ground arith, ground arith);
      others = λ u j h ne. ground arith;
      new_flags = λ h. absurd (ground arith);
      same_rights = λ h. (ground arith, ground arith);
      was = λ h. (present, refl);
    }

abbrev pub Arrives : Flags → Paging → (ℕ → ℕ) → ℕ → ℕ → Walk → Type 0
Arrives flags m level t i (at m' n) = Goes flags m level t i m' n
Arrives flags m level t i (missing m') = Unit {0}
Arrives flags m level t i fault = Unit {0}

pub descend_here :
    (autocreate user : Bool) (flags : Flags) (m : Paging) (t i : ℕ)
    → (m.tables t i).flag.present ≡ true
    → descend autocreate user flags m t i ≡ at (opened user m t i) (m.tables t i).base
unfolding descend
descend_here autocreate user flags m t i e = ground arith

descend_fault :
    (user : Bool) (flags : Flags) (m : Paging) (t i : ℕ)
    → (m.tables t i).flag.present ≡ false
    → m.free ≡ []
    → descend true user flags m t i ≡ fault
unfolding descend alloc_paging_node take_frame
descend_fault user flags m t i absent f = ground arith

pub descend-made :
    (user : Bool) (flags : Flags) (m : Paging) (t i n : ℕ) (rest : List ℕ)
    → (m.tables t i).flag.present ≡ false
    → m.free ≡ n ∷ rest
    → n ≢ 0
    → descend true user flags m t i ≡ at (made m t i flags n rest) n
unfolding descend alloc_paging_node take_frame
descend-made user flags m t i n rest absent f nz = ground arith

descend_absent :
    (user : Bool) (flags : Flags) (m : Paging) (level : ℕ → ℕ) (t i : ℕ) (free : List ℕ)
    → IsPaging m level
    → m.free ≡ free
    → 1 < level t
    → (m.tables t i).flag.present ≡ false
    → flags.present ≡ true
    → Arrives flags m level t i (descend true user flags m t i)
descend_absent user flags m level t i [] p f high absent pres =
    rw (descend_fault user flags m t i absent f) tt
descend_absent user flags m level t i (n ∷ rest) p f high absent pres =
    let (fresh, nz, apart, a) = subst (Available level) f p.available in
    rw (descend-made user flags m t i n rest absent f nz.0)
      (made-Goes m level t i flags n rest p f high absent pres)

-- A step that arrives keeps the tables a tree and arrives one level down.
pub descend-Arrives :
    (autocreate user : Bool) (flags : Flags) (m : Paging) (level : ℕ → ℕ) (t i : ℕ)
    → IsPaging m level
    → 1 < level t
    → flags.present ≡ true
    → Arrives flags m level t i (descend autocreate user flags m t i)
unfolding descend
descend-Arrives autocreate user flags m level t i p high pres =
    elim (Bool-cases (m.tables t i).flag.present) [
      | inl here ↦
          rw (descend_here autocreate user flags m t i here)
            (opened-Goes user m level t i p high here)
      | inr absent ↦
          elim autocreate as (λ auto. Arrives flags m level t i (descend auto user flags m t i)) [
            | true ↦ descend_absent user flags m level t i m.free p refl high absent pres
            | false ↦ rw absent tt
          ]
    ]
