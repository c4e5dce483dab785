-- ===== src/Fat12/Layout.antt =====
-- The layout that the set-up of a volume computes.
use plenjos_kernel.Prelude.{
  ℕ, ◌+◌, ◌-◌, ◌*◌, ◌/◌, ◌≤◌, ◌<◌, ◌≡◌, refl, sym, ap, subst, ◌∙◌, arith, some, ◌==◌, is_some,
  Bool-cases, inl, inr, ==_iff, Bool, true, false,
}
use native.Mathlib.Nat.{mod-lt, div-add-mod, mul-div_left}
use plenjos_kernel.Fat12.{
  Fat12, laid_out, fat12_setup, FatType, fat_type_12, fat_type_16, fat_type_32, fat_detect_type,
}

-- The volume's regions follow each other, the root directory's sectors are just enough for its entries,
-- and the count of clusters is one of a FAT12 volume.
pub record IsLaidOut (fs : Fat12) : Type 0 where
  pub root_behind_fats : fs.root_dir_start_lba ≡ fs.fat_start_lba + fs.num_fats * fs.fat_sectors
  pub heap_behind_root : fs.cluster_heap_start_lba ≡ fs.root_dir_start_lba + fs.root_dir_sectors
  pub root_fits : fs.root_entry_count * 32 ≤ fs.root_dir_sectors * fs.bytes_per_sector
  pub root_tight :
      fs.root_dir_sectors * fs.bytes_per_sector < fs.root_entry_count * 32 + fs.bytes_per_sector
  pub few_clusters : fs.total_clusters < 4085
  pub factor_fits : fs.factor * fs.bytes_per_sector ≡ fs.logical_sector_size

rounded : (n b : ℕ) → 1 ≤ b → (n ≤ (n + (b - 1)) / b * b) × ((n + (b - 1)) / b * b < n + b)
rounded n b one =
    let e = div-add-mod (n + (b - 1)) b in
    let small = mod-lt (n + (b - 1)) {m = b} (omega (arith, one)) in
    (omega (arith, e, small, one), omega (arith, e, small, one))

accepted :
    (fs r : Fat12) (start : ℕ)
    → fat12_setup fs start ≡ some r
    → (laid_out fs start ≡ r) × ((laid_out fs start).total_clusters < 4085)
unfolding fat12_setup
accepted fs r start h = grind arith

factor-fits :
    (fs : Fat12) (start k : ℕ)
    → 1 ≤ fs.bytes_per_sector
    → fs.logical_sector_size ≡ k * fs.bytes_per_sector
    → (laid_out fs start).factor * fs.bytes_per_sector ≡ fs.logical_sector_size
unfolding laid_out
factor-fits fs start k one whole =
    elim (Bool-cases (fs.bytes_per_sector == fs.logical_sector_size)) [
      | inl same ↦
          rw same (omega (arith, (==_iff fs.bytes_per_sector fs.logical_sector_size).0 same))
      | inr other ↦
          let q : fs.logical_sector_size / fs.bytes_per_sector ≡ k =
            ap (λ x. x / fs.bytes_per_sector) whole ∙ mul-div_left k (omega (arith, one)) in
          rw other (ap (λ x. x * fs.bytes_per_sector) q ∙ sym whole)
    ]

-- A volume that is set up, on a drive whose sectors hold a whole number of its own, is laid out.
pub fat12_setup_lem :
    (fs r : Fat12) (start k : ℕ)
    → 1 ≤ fs.bytes_per_sector
    → fs.logical_sector_size ≡ k * fs.bytes_per_sector
    → fat12_setup fs start ≡ some r
    → IsLaidOut r
unfolding laid_out
fat12_setup_lem fs r start k one whole h =
    let (e, few) = accepted fs r start h in
    let fits = factor-fits fs start k one whole in
    let (enough, tight) = rounded (fs.root_entry_count * 32) fs.bytes_per_sector one in
    subst IsLaidOut e (record {
      root_behind_fats = refl;
      heap_behind_root = refl;
      root_fits = enough;
      root_tight = tight;
      few_clusters = few;
      factor_fits = fits;
    })

abbrev pub is_fat_12 : FatType → Bool
is_fat_12 fat_type_12 = true
is_fat_12 fat_type_16 = false
is_fat_12 fat_type_32 = false

-- Where the boot sector is read and signed, the set-up accepts exactly the volumes that are detected as
-- FAT12.
pub fat_detect_type_agrees :
    (fs : Fat12) (start : ℕ)
    → fs.boot_sector_read ≡ true
    → fs.boot_sector_signature ≡ 0xAA55
    → is_some (fat12_setup fs start) ≡ is_fat_12 (fat_detect_type fs)
unfolding fat12_setup laid_out fat_detect_type
fat_detect_type_agrees fs start was_read signed = ground (arith, was_read, signed)
