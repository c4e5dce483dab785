-- ===== src/Memmap/Protect.antt =====
-- `syscall_routine_memprotect`: what one pass does to the page of its address.
use plenjos_kernel.Prelude.{
  ℕ, ◌+◌, ◌*◌, ◌^◌, ◌<◌, ◌≤◌, ◌≡◌, ◌≢◌, ◌⊎◌, refl, sym, ap, ◌∙◌, subst, arith, Bool, true, false,
  not, ◌&&◌, ◌||◌, ◌==◌, some, length, Bool-cases, inl, inr,
}
use plenjos_kernel.Prelude.Int.{ℤ}
use plenjos_kernel.Paging.{
  Flags, Entry, Paging, at, and_then, descend, Indices, addr_split, page_table, lookup, find_entry,
  map_virtual_memory_using_alloc, find_page, find_page_using_alloc, is_userspace, table_flags,
  write_entry,
}
use plenjos_kernel.Paging.Tree.{IsPaging, Goes, opened, opened-Goes, descend_here}
use plenjos_kernel.Paging.Path.{Found, Reaches, and_then-at, three_steps, Kept-refl}
use plenjos_kernel.Paging.Translate.{Found-lookup, lookup-Found}
use plenjos_kernel.Paging.FindPage.{find_entry_here, Reaches-Found}
use plenjos_kernel.Paging.MapPage.{map_page_Maps}
use plenjos_kernel.Memmap.{
  MemmapFlags, Reply, done, failed, efault, einval, mapped, reduced_flags, protect_entry,
  memprotect_page,
}
use plenjos_kernel.Memmap.Pages.{map_one, frame_base}

opened-same :
    (user : Bool) (m : Paging) (t i u j : ℕ)
    → (((opened user m t i).tables u j).flag.present ≡ (m.tables u j).flag.present)
      × (((opened user m t i).tables u j).base ≡ (m.tables u j).base)
      × ((opened user m t i).free ≡ m.free)
unfolding write_entry
opened-same user m t i u j = (ground arith, ground arith, ground arith)

opened-ne :
    (user : Bool) (m : Paging) (t i u j : ℕ) → u ≢ t → (opened user m t i).tables u j ≡ m.tables u j
unfolding write_entry
opened-ne user m t i u j ne = ground arith

-- the walk to a page that is there, without making tables
pub record Walked (flags : Flags) (m : Paging) (level : ℕ → ℕ) (pml4 : ℕ) (ix : Indices) (t : ℕ)
    (m' : Paging) : Type 0 where
  pub reaches : Reaches flags m level pml4 ix m' t
  pub same_page : m'.tables t (ix.pt) ≡ m.tables t (ix.pt)
  pub same_free : m'.free ≡ m.free

-- One step through an entry that is present.
step_found :
    (user : Bool) (flags : Flags) (m : Paging) (level : ℕ → ℕ) (t i n : ℕ)
    → IsPaging m level
    → 1 < level t
    → (m.tables t i).flag.present ≡ true
    → (m.tables t i).base ≡ n
    → (descend false user flags m t i ≡ at (opened user m t i) n)
      × Goes flags m level t i (opened user m t i) n
step_found user flags m level t i n p high e b = (
  descend_here false user flags m t i e ∙ ap (at (opened user m t i)) b,
  subst (Goes flags m level t i (opened user m t i)) b (opened-Goes user m level t i p high e),
)

walk-Found :
    (user : Bool) (flags : Flags) (m : Paging) (level : ℕ → ℕ) (pml4 : ℕ) (ix : Indices) (t : ℕ)
    → IsPaging m level
    → level pml4 ≡ 4
    → Found m pml4 ix t
    → (m' : Paging) × (page_table false user flags m pml4 ix ≡ at m' t)
      × Walked flags m level pml4 ix t m'
unfolding page_table
walk-Found user flags m level pml4 ix t p four f =
    let m₁ = opened user m pml4 (ix.pml4) in
    let m₂ = opened user m₁ f.pdpt (ix.pdpt) in
    let m₃ = opened user m₂ f.pd (ix.pd) in
    let three' =
      subst (λ x. level x + 1 ≡ level pml4) f.top_base
        (p.down pml4 (ix.pml4) (omega arith) f.top_present) in
    let three : level f.pdpt ≡ 3 = omega arith in
    let two' =
      subst (λ x. level x + 1 ≡ level f.pdpt) f.mid_base
        (p.down f.pdpt (ix.pdpt) (omega arith) f.mid_present) in
    let two : level f.pd ≡ 2 = omega arith in
    let one' =
      subst (λ x. level x + 1 ≡ level f.pd) f.low_base
        (p.down f.pd (ix.pd) (omega arith) f.low_present) in
    let one : level t ≡ 1 = omega arith in
    let third = λ (a : Paging) (pd : ℕ). descend false user flags a pd (ix.pd) in
    let second =
      λ (a : Paging) (pdpt : ℕ). and_then (descend false user flags a pdpt (ix.pdpt)) third in
    let mid₁ = opened-same user m pml4 (ix.pml4) f.pdpt (ix.pdpt) in
    let low₁ = opened-same user m pml4 (ix.pml4) f.pd (ix.pd) in
    let low₂ = opened-same user m₁ f.pdpt (ix.pdpt) f.pd (ix.pd) in
    let free₃ = opened-same user m₂ f.pd (ix.pd) t (ix.pt) in
    let (e₁, g₁) =
      step_found user flags m level pml4 (ix.pml4) f.pdpt p (omega arith) f.top_present
        f.top_base in
    let d₁ = g₁.down_one in
    let (e₂, g₂) =
      step_found user flags m₁ g₁.level' f.pdpt (ix.pdpt) f.pd g₁.is_paging (omega arith)
        (mid₁.0 ∙ f.mid_present) (mid₁.1 ∙ f.mid_base) in
    let d₂ = g₂.down_one in
    let (e₃, g₃) =
      step_found user flags m₂ g₂.level' f.pd (ix.pd) t g₂.is_paging (omega arith)
        (low₂.0 ∙ low₁.0 ∙ f.low_present) (low₂.1 ∙ low₁.1 ∙ f.low_base) in
    let d₃ = g₃.down_one in
    (
      m₃,
      and_then-at (descend false user flags m pml4 (ix.pml4)) second m₁ f.pdpt e₁
          ∙ and_then-at (descend false user flags m₁ f.pdpt (ix.pdpt)) third m₂ f.pd e₂
          ∙ e₃,
      record {
        reaches = three_steps m level pml4 ix m₁ f.pdpt m₂ f.pd m₃ t four g₁ g₂ g₃;
        same_page =
            opened-ne user m₂ f.pd (ix.pd) t (ix.pt) (apart t f.pd 2 one two (omega arith))
            ∙ opened-ne user m₁ f.pdpt (ix.pdpt) t (ix.pt)
                (apart t f.pdpt 3 one three (omega arith))
            ∙ opened-ne user m pml4 (ix.pml4) t (ix.pt) (apart t pml4 4 one four (omega arith));
        same_free = free₃.2 ∙ low₂.2 ∙ low₁.2;
      },
    )
  where
    apart : (u v k : ℕ) → level u ≡ 1 → level v ≡ k → 1 < k → u ≢ v
    apart u v k a b k_high same = let l = ap level same in omega arith

abbrev remap : Paging → ℕ → Entry → MemmapFlags → ℕ → Reply
remap m voffs e flags pml4 =
    mapped
      (map_virtual_memory_using_alloc m (e.base * 2 ^ 12) voffs 4096 (reduced_flags e flags) pml4)

protect_cases :
    (m : Paging) (voffs : ℕ) (e : Entry) (flags : MemmapFlags) (pml4 : ℕ)
    → ((protect_entry m voffs e flags pml4 ≡ remap m voffs e flags pml4) × (e.flag.user ≡ true))
      ⊎ ((c : ℤ) × (protect_entry m voffs e flags pml4 ≡ failed c m))
unfolding protect_entry
protect_cases m voffs e flags pml4 = elim (Bool-cases (e.base == 0)) [
  | inl z ↦ inr (efault, simp z)
  | inr nz ↦ elim (Bool-cases e.flag.user) [
    | inr kernel ↦ inr (efault, simp (nz, kernel))
    | inl user ↦ elim (Bool-cases (flags.wr && not e.flag.write)) [
      | inl more ↦ inr (einval, simp (nz, user, more))
      | inr ok ↦ elim (Bool-cases (flags.ex && e.flag.nx)) [
        | inl more ↦ inr (einval, simp (nz, user, ok, more))
        | inr fine ↦ inl (simp (nz, user, ok, fine), user)
      ]
    ]
  ]
]

find_page-Found :
    (m : Paging) (level : ℕ → ℕ) (virt pml4 : ℕ) (t : ℕ)
    → IsPaging m level
    → level pml4 ≡ 4
    → Found m pml4 (addr_split virt) t
    → (m' : Paging) × (find_page m virt false pml4 ≡ at m' t)
      × Walked table_flags m level pml4 (addr_split virt) t m'
unfolding find_page find_page_using_alloc
find_page-Found m level virt pml4 t p four f =
    let ix = addr_split virt in
    let user = is_userspace virt in
    let (m', e, w) = walk-Found user table_flags m level pml4 ix t p four f in
    (
      m',
      and_then-at (page_table false user table_flags m pml4 ix)
            (λ a u. find_entry false user a u ix.pt) m' t e
          ∙ find_entry_here false user m' t ix.pt
              (ap (λ x. x.flag.present) w.same_page ∙ f.page_present),
      w,
    )

-- what a pass may do to a page with entry `e`
abbrev Reduced : Entry → MemmapFlags → ℕ → Indices → Reply → Type 0
Reduced e flags pml4 ix r =
    (m' : Paging) × (((r ≡ done m')
        × (e.flag.user ≡ true)
        × (lookup m' pml4 ix ≡ some (record { flag = reduced_flags e flags; base = e.base })))
      ⊎ ((c : ℤ) × (r ≡ failed c m') × (lookup m' pml4 ix ≡ some e)))

memprotect_page-at :
    (m : Paging) (voffs : ℕ) (flags : MemmapFlags) (pml4 : ℕ) (m₁ : Paging) (t : ℕ) (e : Entry)
    → find_page m voffs false pml4 ≡ at m₁ t
    → m₁.tables t (addr_split voffs).pt ≡ e
    → memprotect_page m voffs flags pml4 ≡ protect_entry m₁ voffs e flags pml4
unfolding memprotect_page
memprotect_page-at m voffs flags pml4 m₁ t e run same =
    rw (run, memprotect_page) (ap (λ x. protect_entry m₁ voffs x flags pml4) same)

protect_entry-Reduced :
    (m : Paging) (level : ℕ → ℕ) (voffs : ℕ) (e : Entry) (flags : MemmapFlags) (pml4 : ℕ)
    → IsPaging m level
    → level pml4 ≡ 4
    → 3 ≤ length m.free
    → voffs < 2 ^ 64
    → lookup m pml4 (addr_split voffs) ≡ some e
    → e.base < 2 ^ 40
    → Reduced e flags pml4 (addr_split voffs) (protect_entry m voffs e flags pml4)
protect_entry-Reduced m level voffs e flags pml4 p four few small here fits =
    elim (protect_cases m voffs e flags pml4) [
      | inr (c, run) ↦ (m, inr (c, run, here))
      | inl (run, user) ↦
          let (m', t, mapped_at, maps, left) =
            map_page_Maps m level (e.base * 2 ^ 12) voffs (reduced_flags e flags) pml4 0 p four refl
              few in
          let (k, called) =
            map_one m (e.base * 2 ^ 12) voffs (reduced_flags e flags) pml4 m' t (omega arith) small
              mapped_at in
          (
            m',
            inl (
              run ∙ ap mapped called,
              user,
              Found-lookup m' pml4 (addr_split voffs) t maps.found
                  ∙ ap some maps.entry
                  ∙ ap (λ b. some (record { flag = reduced_flags e flags; base = b }))
                      (frame_base e.base fits),
            ),
          )
    ]

-- In a tree of tables with three free frames, a pass of memprotect over a mapped page, whose
-- frame's number has 40 bits, returns. Either it succeeds, and the page of a user stays mapped to
-- its frame, writable or executable only if it was so before and the call asks for it; or it fails,
-- and the page's entry is as before.
pub memprotect_page_reduces :
    (m : Paging) (level : ℕ → ℕ) (voffs : ℕ) (e : Entry) (flags : MemmapFlags) (pml4 : ℕ)
    → IsPaging m level
    → level pml4 ≡ 4
    → 3 ≤ length m.free
    → voffs < 2 ^ 64
    → lookup m pml4 (addr_split voffs) ≡ some e
    → e.base < 2 ^ 40
    → (m' : Paging) × (((memprotect_page m voffs flags pml4 ≡ done m')
          × (e.flag.user ≡ true)
          × (lookup m' pml4 (addr_split voffs)
              ≡ some (record {
                flag = record {
                  present = true;
                  write = e.flag.write && flags.wr;
                  user = true;
                  nx = e.flag.nx || not (flags.ex);
                };
                base = e.base;
              })))
        ⊎ ((c : ℤ) × (memprotect_page m voffs flags pml4 ≡ failed c m')
            × (lookup m' pml4 (addr_split voffs) ≡ some e)))
unfolding memprotect_page
memprotect_page_reduces m level voffs e flags pml4 p four few small here fits =
    let ix = addr_split voffs in
    let (t, f, is_e) = lookup-Found m pml4 ix e here in
    let (m₁, run, w) = find_page-Found m level voffs pml4 t p four f in
    let same = w.same_page ∙ is_e in
    let l = w.reaches.kept.same_level pml4 (omega arith) in
    let here₁ : lookup m₁ pml4 ix ≡ some e =
      Found-lookup m₁ pml4 ix t (
        Reaches-Found m level pml4 ix m₁ t m₁ four w.reaches (Kept-refl m₁ w.reaches.level')
          (ap (λ x. x.flag.present) w.same_page ∙ f.page_present))
      ∙ ap some same in
    subst (Reduced e flags pml4 ix) (sym (memprotect_page-at m voffs flags pml4 m₁ t e run same)) (
      protect_entry-Reduced m₁ w.reaches.level' voffs e flags pml4 w.reaches.is_paging (omega arith)
        (omega (arith, ap length w.same_free)) small here₁ fits)
