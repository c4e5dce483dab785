-- ===== src/Paging/Path.antt =====
-- A walk through the three upper levels ends at the table that the address's page stands in.
use plenjos_kernel.Prelude.{ℕ, ◌<◌, ◌≡◌, ◌≢◌, refl, sym, ap, ◌∙◌, arith, Bool, true, false}
use plenjos_kernel.Paging.{
  Flags, Paging, Walk, at, missing, fault, and_then, descend, Indices, page_table,
}
use plenjos_kernel.Paging.Tree.{IsPaging, Kept, Goes, Arrives, descend-Arrives}

-- the entries that a translation goes through, all of them present
pub record Found (m : Paging) (pml4 : ℕ) (ix : Indices) (t : ℕ) : Type 0 where
  pub pdpt : ℕ
  pub pd : ℕ
  pub top_present : (m.tables pml4 (ix.pml4)).flag.present ≡ true
  pub top_base : (m.tables pml4 (ix.pml4)).base ≡ pdpt
  pub mid_present : (m.tables pdpt (ix.pdpt)).flag.present ≡ true
  pub mid_base : (m.tables pdpt (ix.pdpt)).base ≡ pd
  pub low_present : (m.tables pd (ix.pd)).flag.present ≡ true
  pub low_base : (m.tables pd (ix.pd)).base ≡ t
  pub page_present : (m.tables t (ix.pt)).flag.present ≡ true

-- The tables on the way to `t` are present, in a tree of tables that keeps those before the walk.
pub record Reaches (flags : Flags) (m : Paging) (level : ℕ → ℕ) (pml4 : ℕ) (ix : Indices)
    (m' : Paging) (t : ℕ) : Type 0 where
  pub level' : ℕ → ℕ
  pub is_paging : IsPaging m' level'
  pub kept : Kept m level m' level'
  pub is_table : level' t ≡ 1
  pub pdpt : ℕ
  pub pd : ℕ
  pub top_present : (m'.tables pml4 (ix.pml4)).flag.present ≡ true
  pub top_base : (m'.tables pml4 (ix.pml4)).base ≡ pdpt
  pub mid_present : (m'.tables pdpt (ix.pdpt)).flag.present ≡ true
  pub mid_base : (m'.tables pdpt (ix.pdpt)).base ≡ pd
  pub low_present : (m'.tables pd (ix.pd)).flag.present ≡ true
  pub low_base : (m'.tables pd (ix.pd)).base ≡ t
  -- A new entry of the top table has the flags given; an old one keeps its rights to write and execute.
  pub new_top :
      (m.tables pml4 (ix.pml4)).flag.present ≡ false → (m'.tables pml4 (ix.pml4)).flag ≡ flags
  pub old_top :
      (m.tables pml4 (ix.pml4)).flag.present ≡ true
      → ((m'.tables pml4 (ix.pml4)).flag.write ≡ (m.tables pml4 (ix.pml4)).flag.write)
        × ((m'.tables pml4 (ix.pml4)).flag.nx ≡ (m.tables pml4 (ix.pml4)).flag.nx)
  -- A page that is present at the end was so, in the same tables, before the walk.
  pub unless_new :
      (m'.tables t (ix.pt)).flag.present ≡ true
      → Found m pml4 ix t × ((m.tables t (ix.pt)).base ≡ (m'.tables t (ix.pt)).base)

abbrev pub TableAt : Flags → Paging → (ℕ → ℕ) → ℕ → Indices → Walk → Type 0
TableAt flags m level pml4 ix (at m' t) = Reaches flags m level pml4 ix m' t
TableAt flags m level pml4 ix (missing m') = Unit {0}
TableAt flags m level pml4 ix fault = Unit {0}

pub Kept-refl : (m : Paging) (level : ℕ → ℕ) → Kept m level m level
Kept-refl m level = record { same_level = λ t h. refl; still = λ t i h e nz. (e, refl) }

pub Kept-trans :
    (m₀ m₁ m₂ : Paging) (l₀ l₁ l₂ : ℕ → ℕ) → Kept m₀ l₀ m₁ l₁ → Kept m₁ l₁ m₂ l₂ → Kept m₀ l₀ m₂ l₂
Kept-trans m₀ m₁ m₂ l₀ l₁ l₂ a b = record {
  same_level = λ t h. b.same_level t (λ e. h (sym (a.same_level t h) ∙ e)) ∙ a.same_level t h;
  still = λ t i h e nz.
      let one = a.still t i h e nz in
      let two = b.still t i (λ z. h (sym (a.same_level t h) ∙ z)) one.0 (λ z. nz (sym one.1 ∙ z)) in
      (two.0, two.1 ∙ one.1);
}

pub and_then-at :
    (w : Walk) (f : Paging → ℕ → Walk) (a : Paging) (n : ℕ) → w ≡ at a n → and_then w f ≡ f a n
and_then-at w f a n e = rw e refl

-- what follows a step need only be shown where the step arrives
pub step_then :
    {flags : Flags} (P : Walk → Type 0) (m : Paging) (level : ℕ → ℕ) (t i : ℕ) (w : Walk)
    (f : Paging → ℕ → Walk)
    → ((a : Paging) → P (missing a))
    → P fault
    → Arrives flags m level t i w
    → ((a : Paging) (n : ℕ) → Goes flags m level t i a n → P (f a n))
    → P (and_then w f)
step_then P m level t i (at a n) f absent broken arrives rest = rest a n arrives
step_then P m level t i (missing a) f absent broken arrives rest = absent a
step_then P m level t i fault f absent broken arrives rest = broken

-- The entry that a step went through is kept by the steps after it.
still_points :
    {flags : Flags} (m : Paging) (level : ℕ → ℕ) (t i : ℕ) (m₁ : Paging) (n : ℕ)
    (g : Goes flags m level t i m₁ n) (m₂ : Paging) (l₂ : ℕ → ℕ)
    → 1 < level t
    → Kept m₁ g.level' m₂ l₂
    → ((m₂.tables t i).flag.present ≡ true) × ((m₂.tables t i).base ≡ n)
still_points m level t i m₁ n g m₂ l₂ high k =
    let same = g.kept.same_level t (omega arith) in
    let zero_base : (m₁.tables t i).base ≢ 0 = (λ z.
      let e = ap g.level' (sym g.points ∙ z) ∙ g.is_paging.no_table in omega (arith, g.down_one)) in
    let r = k.still t i (omega arith) g.is_present zero_base in (r.0, r.1 ∙ g.points)

back :
    {flags : Flags} (m : Paging) (level : ℕ → ℕ) (t i : ℕ) (m' : Paging) (n : ℕ)
    (g : Goes flags m level t i m' n) (u j : ℕ)
    → 1 < level t
    → g.level' u ≢ 0
    → g.level' u < level t
    → (m'.tables u j).flag.present ≡ true
    → (g.level' u ≡ level u)
      × ((m.tables u j).flag.present ≡ true)
      × ((m.tables u j).base ≡ (m'.tables u j).base)
back m level t i m' n g u j high h low e =
    let l = g.kept.same_level t (omega arith) in
    let apart : u ≢ t = (λ same. let k = ap g.level' same in omega arith) in
    let r = g.before u j h apart e in (g.kept.same_level u r.0, r.1, r.2)

-- Going back through the steps, a page that is present at the end was so before each.
nothing_new :
    {flags : Flags} (m : Paging) (level : ℕ → ℕ) (pml4 : ℕ) (ix : Indices) (m₁ : Paging) (pdpt : ℕ)
    (m₂ : Paging) (pd : ℕ) (m₃ : Paging) (t : ℕ)
    → level pml4 ≡ 4
    → (g₁ : Goes flags m level pml4 ix.pml4 m₁ pdpt)
    → (g₂ : Goes flags m₁ g₁.level' pdpt ix.pdpt m₂ pd)
    → (g₃ : Goes flags m₂ g₂.level' pd ix.pd m₃ t) → (m₃.tables t (ix.pt)).flag.present ≡ true
    → Found m pml4 ix t × ((m.tables t (ix.pt)).base ≡ (m₃.tables t (ix.pt)).base)
nothing_new m level pml4 ix m₁ pdpt m₂ pd m₃ t four g₁ g₂ g₃ here =
    let d₁ = g₁.down_one in
    let d₂ = g₂.down_one in
    let d₃ = g₃.down_one in
    let leaf₂ =
      back m₂ g₂.level' pd (ix.pd) m₃ t g₃ t (ix.pt) (omega arith) (omega arith) (omega arith)
        here in
    let low₂ = g₃.was (omega (arith, leaf₂.0)) in
    let leaf₁ =
      back m₁ g₁.level' pdpt (ix.pdpt) m₂ pd g₂ t (ix.pt) (omega arith) (omega (arith, leaf₂.0))
        (omega (arith, leaf₂.0)) leaf₂.1 in
    let low₁ =
      back m₁ g₁.level' pdpt (ix.pdpt) m₂ pd g₂ pd (ix.pd) (omega arith) (omega arith) (omega arith)
        low₂.0 in
    let mid₁ = g₂.was (omega (arith, low₁.0)) in
    let leaf =
      back m level pml4 (ix.pml4) m₁ pdpt g₁ t (ix.pt) (omega arith)
        (omega (arith, leaf₁.0, leaf₂.0)) (omega (arith, leaf₁.0, leaf₂.0)) leaf₁.1 in
    let low =
      back m level pml4 (ix.pml4) m₁ pdpt g₁ pd (ix.pd) (omega arith) (omega (arith, low₁.0))
        (omega (arith, low₁.0)) low₁.1 in
    let mid =
      back m level pml4 (ix.pml4) m₁ pdpt g₁ pdpt (ix.pdpt) (omega arith) (omega arith)
        (omega arith) mid₁.0 in
    let top = g₁.was (omega (arith, mid.0)) in
    (
      record {
        pdpt = pdpt;
        pd = pd;
        top_present = top.0;
        top_base = top.1;
        mid_present = mid.1;
        mid_base = mid.2 ∙ mid₁.1;
        low_present = low.1;
        low_base = low.2 ∙ low₁.2 ∙ low₂.1;
        page_present = leaf.1;
      },
      leaf.2 ∙ leaf₁.2 ∙ leaf₂.2,
    )

pub three_steps :
    {flags : Flags} (m : Paging) (level : ℕ → ℕ) (pml4 : ℕ) (ix : Indices) (m₁ : Paging) (pdpt : ℕ)
    (m₂ : Paging) (pd : ℕ) (m₃ : Paging) (t : ℕ)
    → level pml4 ≡ 4
    → (g₁ : Goes flags m level pml4 ix.pml4 m₁ pdpt)
    → (g₂ : Goes flags m₁ g₁.level' pdpt ix.pdpt m₂ pd)
    → (g₃ : Goes flags m₂ g₂.level' pd ix.pd m₃ t) → Reaches flags m level pml4 ix m₃ t
three_steps m level pml4 ix m₁ pdpt m₂ pd m₃ t four g₁ g₂ g₃ =
    let d₁ = g₁.down_one in
    let d₂ = g₂.down_one in
    let root₁ = g₁.kept.same_level pml4 (omega arith) in
    let root₂ = g₂.kept.same_level pml4 (omega arith) in
    let apart₁ : pml4 ≢ pdpt = (λ same. let l = ap g₁.level' same in omega arith) in
    let apart₂ : pml4 ≢ pd = (λ same. let l = ap g₂.level' same in omega arith) in
    let same_top₃ =
      g₃.others pml4 (ix.pml4) (omega arith) apart₂
      ∙ g₂.others pml4 (ix.pml4) (omega arith) apart₁ in
    let later = Kept-trans m₁ m₂ m₃ g₁.level' g₂.level' g₃.level' g₂.kept g₃.kept in
    let top = still_points m level pml4 ix.pml4 m₁ pdpt g₁ m₃ g₃.level' (omega arith) later in
    let mid =
      still_points m₁ g₁.level' pdpt ix.pdpt m₂ pd g₂ m₃ g₃.level' (omega (arith, g₁.down_one))
        g₃.kept in
    record {
      level' = g₃.level';
      is_paging = g₃.is_paging;
      kept = Kept-trans m m₁ m₃ level g₁.level' g₃.level' g₁.kept later;
      is_table = omega (arith, g₁.down_one, g₂.down_one, g₃.down_one);
      pdpt = pdpt;
      pd = pd;
      top_present = top.0;
      top_base = top.1;
      mid_present = mid.0;
      mid_base = mid.1;
      low_present = g₃.is_present;
      low_base = g₃.points;
      new_top = λ h. ap (λ e. e.flag) same_top₃ ∙ g₁.new_flags h;
      old_top = λ h. (
        ap (λ e. e.flag.write) same_top₃ ∙ (g₁.same_rights h).0,
        ap (λ e. e.flag.nx) same_top₃ ∙ (g₁.same_rights h).1,
      );
      unless_new = nothing_new m level pml4 ix m₁ pdpt m₂ pd m₃ t four g₁ g₂ g₃;
    }

last_step :
    (autocreate user : Bool) (flags : Flags) (m : Paging) (level : ℕ → ℕ) (pml4 : ℕ) (ix : Indices)
    (m₁ : Paging) (pdpt : ℕ) (m₂ : Paging) (pd : ℕ)
    → level pml4 ≡ 4
    → flags.present ≡ true
    → (g₁ : Goes flags m level pml4 ix.pml4 m₁ pdpt)
    → (g₂ : Goes flags m₁ g₁.level' pdpt ix.pdpt m₂ pd)
    → TableAt flags m level pml4 ix (descend autocreate user flags m₂ pd (ix.pd))
last_step autocreate user flags m level pml4 ix m₁ pdpt m₂ pd four pres g₁ g₂ =
    into (descend autocreate user flags m₂ pd (ix.pd)) (
      descend-Arrives autocreate user flags m₂ g₂.level' pd (ix.pd) g₂.is_paging
        (omega (arith, g₁.down_one, g₂.down_one)) pres)
  where
    into : (w : Walk) → Arrives flags m₂ g₂.level' pd ix.pd w → TableAt flags m level pml4 ix w
    into (at m₃ t) g₃ = three_steps m level pml4 ix m₁ pdpt m₂ pd m₃ t four g₁ g₂ g₃
    into (missing m₃) g₃ = tt
    into fault g₃ = tt

-- The walk keeps the tables trees, and ends at a table of pages where it ends at a table.
pub page_table-TableAt :
    (autocreate user : Bool) (flags : Flags) (m : Paging) (level : ℕ → ℕ) (pml4 : ℕ) (ix : Indices)
    → IsPaging m level
    → level pml4 ≡ 4
    → flags.present ≡ true
    → TableAt flags m level pml4 ix (page_table autocreate user flags m pml4 ix)
unfolding page_table
page_table-TableAt autocreate user flags m level pml4 ix p four pres =
    let P = TableAt flags m level pml4 ix in
    let third = λ (m₂ : Paging) (pd : ℕ). descend autocreate user flags m₂ pd (ix.pd) in
    let second = λ (m₁ : Paging) (pdpt : ℕ).
      and_then (descend autocreate user flags m₁ pdpt (ix.pdpt)) third in
    step_then P m level pml4 (ix.pml4) (descend autocreate user flags m pml4 (ix.pml4)) second
      (λ a. tt) tt
      (descend-Arrives autocreate user flags m level pml4 (ix.pml4) p (omega arith) pres)
      (λ m₁ pdpt g₁.
        step_then P m₁ g₁.level' pdpt (ix.pdpt) (descend autocreate user flags m₁ pdpt (ix.pdpt))
          third (λ a. tt) tt
          (descend-Arrives autocreate user flags m₁ g₁.level' pdpt (ix.pdpt) g₁.is_paging
            (omega (arith, g₁.down_one)) pres)
          (λ m₂ pd g₂.
            last_step autocreate user flags m level pml4 ix m₁ pdpt m₂ pd four pres g₁ g₂))
