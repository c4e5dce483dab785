-- ===== src/Fat12/Read.antt =====
-- Reading FAT sectors through drive sectors of another size gives the bytes of the image.
use plenjos_kernel.Prelude.{
  ℕ, zero, suc, ◌+◌, ◌-◌, ◌*◌, ◌/◌, ◌%◌, ◌≤◌, ◌<◌, ◌≡◌, refl, sym, ap, subst, ◌∙◌, arith, ◌++◌,
  take, drop, get_or, some, ◌==◌, min, Bool-cases, inl, inr, ==_iff, ne→==, ge→ltb,
}
use native.Mathlib.Nat.{mod-lt, div-add-mod, mul-le-mul_right}
use plenjos_kernel.Fat12.{
  Fat12, Drive, read_rest, fat12_drive_read, fat12_next_cluster, decode_entry,
}
use plenjos_kernel.Fat12.Image.{range, range-cong, take-range, drop-range, range-append, get-range}

-- The drive reads the image, and the volume's sectors fit its own.
pub record Reads (img : ℕ → ℕ) (read_sectors : Drive) (fs : Fat12) : Type 0 where
  pub reads :
      (lba count : ℕ)
      → read_sectors lba count
        ≡ some (range img (lba * fs.logical_sector_size) (count * fs.logical_sector_size))
  pub sizes : fs.logical_sector_size ≡ fs.factor * fs.bytes_per_sector
  pub factor_one : 1 ≤ fs.factor
  pub sector_one : 1 ≤ fs.bytes_per_sector

-- where FAT sector `lba` stands in the image
abbrev pub sector_at : Fat12 → ℕ → ℕ
sector_at fs lba = (fs.partition_start_lba * fs.factor + lba) * fs.bytes_per_sector

place : (p q r f b c : ℕ) → c ≡ f * q + r → (p + q) * (f * b) + r * b ≡ (p * f + c) * b
place p q r f b c e = rw e (omega arith)

inside : (k r f b : ℕ) → r < f → k ≤ f - r → k * b ≤ 1 * (f * b) - r * b
inside k r f b small fits = let (d, e) = le-split k r f small fits in rw e (omega arith)
  where
    le-split : (k r f : ℕ) → r < f → k ≤ f - r → (d : ℕ) × (f ≡ r + k + d)
    le-split k r f small fits = (f - r - k, omega arith)

inside_low : (r f b : ℕ) → r < f → r * b ≤ 1 * (f * b)
inside_low r f b small = omega (arith, mul-le-mul_right {m = r} {n = f} b (omega arith))

-- The part of a drive sector that holds `k` FAT sectors from `current` on, where it holds that many.
piece :
    (img : ℕ → ℕ) (fs : Fat12) (current k : ℕ)
    → fs.logical_sector_size ≡ fs.factor * fs.bytes_per_sector
    → 1 ≤ fs.factor
    → k ≤ fs.factor - current % fs.factor
    → take (k * fs.bytes_per_sector) (
        drop (current % fs.factor * fs.bytes_per_sector) (
          range img
            ((fs.partition_start_lba + current / fs.factor) * fs.logical_sector_size)
            (1 * fs.logical_sector_size)))
      ≡ range img (sector_at fs current) (k * fs.bytes_per_sector)
piece img fs current k sizes one fits =
    let r = current % fs.factor in
    let b = fs.bytes_per_sector in
    let small = mod-lt current {m = fs.factor} (omega arith) in
    rw
      (
        sizes,
        drop-range img (r * b) ((fs.partition_start_lba + current / fs.factor) * (fs.factor * b))
            (1 * (fs.factor * b)) (inside_low r fs.factor b small),
        take-range img (k * b)
            ((fs.partition_start_lba + current / fs.factor) * (fs.factor * b) + r * b)
            (1 * (fs.factor * b) - r * b) (inside k r fs.factor b small fits),
      )
      (range-cong img
        (place fs.partition_start_lba (current / fs.factor) r fs.factor b current
          (sym (div-add-mod current fs.factor)))
        refl)

next-place :
    (fs : Fat12) (current k : ℕ)
    → sector_at fs (current + k) ≡ sector_at fs current + k * fs.bytes_per_sector
next-place fs current k = omega arith

parts : (k m b : ℕ) → k ≤ m → k * b + (m - k) * b ≡ m * b
parts k m b few =
    let e : m ≡ k + (m - k) = omega (arith, few) in
    subst (λ x. k * b + (m - k) * b ≡ x * b) (sym e) (omega arith)

-- Reading from the volume gives the bytes of the image from that FAT sector on.
rest-range :
    (img : ℕ → ℕ) (read_sectors : Drive) (fs : Fat12)
    → Reads img read_sectors fs
    → (fuel current remaining : ℕ) → remaining ≤ fuel
    → read_rest read_sectors fs fuel current remaining
      ≡ some (range img (sector_at fs current) (remaining * fs.bytes_per_sector))
unfolding read_rest
rest-range img read_sectors fs ok zero current zero enough =
    ap some (range-cong img {n = sector_at fs current} {a = 0} refl (omega arith))
rest-range img read_sectors fs ok zero current (suc m) enough = absurd (omega (arith, enough))
rest-range img read_sectors fs ok (suc fuel) current zero enough =
    ap some (range-cong img {n = sector_at fs current} {a = 0} refl (omega arith))
rest-range img read_sectors fs ok (suc fuel) current (suc m) enough =
    let b = fs.bytes_per_sector in
    let small = mod-lt current {m = fs.factor} (omega (arith, ok.factor_one)) in
    let k = min (fs.factor - current % fs.factor) (suc m) in
    let k_one : 1 ≤ k = omega (arith, small) in
    let k_fits : k ≤ fs.factor - current % fs.factor = omega arith in
    let k_few : k ≤ suc m = omega arith in
    let next =
      rest-range img read_sectors fs ok fuel (current + k) (suc m - k)
        (omega (arith, enough, k_one)) in
    rw
      (
        ne→== (suc m) 0 (omega arith),
        ok.reads (fs.partition_start_lba + current / fs.factor) 1,
        next,
        piece img fs current k ok.sizes ok.factor_one k_fits,
      )
      (ap some (
        ap (λ r. range img (sector_at fs current) (k * b) ++ r)
          (range-cong img (next-place fs current k) refl)
        ∙ range-append img (sector_at fs current) (k * b) ((suc m - k) * b)
        ∙ range-cong img refl (parts k (suc m) b k_few)))

-- On a drive that reads an image, and whose sectors hold a whole number of the volume's, reading at
-- least one FAT sector gives the image's bytes of the FAT sectors asked for.
pub fat12_drive_read_lem :
    (img : ℕ → ℕ) (read_sectors : Drive) (fs : Fat12) (fat_lba fat_sectors : ℕ)
    → Reads img read_sectors fs
    → 1 ≤ fat_sectors
    → fat12_drive_read read_sectors fs fat_lba fat_sectors
      ≡ some (range img (sector_at fs fat_lba) (fat_sectors * fs.bytes_per_sector))
unfolding fat12_drive_read
fat12_drive_read_lem img read_sectors fs fat_lba fat_sectors ok some_sectors =
    elim (Bool-cases (fs.factor == 1)) [
      | inr other ↦
          rw (ne→== fat_sectors 0 (omega (arith, some_sectors)), other)
            (rest-range img read_sectors fs ok fat_sectors fat_lba fat_sectors (omega arith))
      | inl same ↦
          let f = (==_iff fs.factor 1).0 same in
          let size : fs.logical_sector_size ≡ fs.bytes_per_sector = ok.sizes ∙ rw f (omega arith) in
          rw
            (
              ne→== fat_sectors 0 (omega (arith, some_sectors)),
              same,
              ok.reads (fs.partition_start_lba + fat_lba) fat_sectors,
            )
            (ap some (range-cong img (rw (f, size) (omega arith)) (rw size)))
    ]

-- where the FAT's byte `offset` stands
abbrev pub fat_at : Fat12 → ℕ → ℕ
fat_at fs offset = sector_at fs fs.fat_start_lba + offset

fat-sector :
    (fs : Fat12) (offset : ℕ)
    → sector_at fs (fs.fat_start_lba + offset / fs.bytes_per_sector) + offset % fs.bytes_per_sector
      ≡ fat_at fs offset
fat-sector fs offset = let e = div-add-mod offset fs.bytes_per_sector in omega (arith, e)

-- On a drive that reads an image, and whose sectors hold a whole number of the volume's, the cluster
-- behind one from 2 on is the 12-bit entry of the FAT: its two bytes are those at 3/2 times the cluster's
-- number, also where they stand in two sectors.
pub fat12_next_cluster_lem :
    (img : ℕ → ℕ) (read_sectors : Drive) (fs : Fat12) (cluster : ℕ)
    → Reads img read_sectors fs
    → 2 ≤ cluster
    → fat12_next_cluster read_sectors fs cluster
      ≡ some (
          decode_entry cluster
            (img (fat_at fs (cluster * 3 / 2)))
            (img (fat_at fs (cluster * 3 / 2) + 1)))
unfolding fat12_next_cluster
fat12_next_cluster_lem img read_sectors fs cluster ok in_use =
    let b = fs.bytes_per_sector in
    let offset = cluster * 3 / 2 in
    let sector = fs.fat_start_lba + offset / b in
    let small = mod-lt offset {m = b} (omega (arith, ok.sector_one)) in
    let first = fat12_drive_read_lem img read_sectors fs sector 1 ok (omega arith) in
    let low : get_or (range img (sector_at fs sector) (1 * b)) (offset % b) 0
        ≡ img (fat_at fs offset) =
      get-range img (offset % b) (sector_at fs sector) (1 * b) 0 (omega (arith, small))
      ∙ ap img (fat-sector fs offset) in
    elim (Bool-cases (offset % b == b - 1)) [
      | inl last ↦
          let second = fat12_drive_read_lem img read_sectors fs (sector + 1) 1 ok (omega arith) in
          let at = (==_iff (offset % b) (b - 1)).0 last in
          let high : get_or (range img (sector_at fs (sector + 1)) (1 * b)) 0 0
              ≡ img (fat_at fs offset + 1) =
            get-range img 0 (sector_at fs (sector + 1)) (1 * b) 0 (omega (arith, ok.sector_one))
            ∙ ap img (omega (arith, fat-sector fs offset, at, ok.sector_one)) in
          rw (ge→ltb cluster 2 in_use, first, last, second, low, high)
      | inr inner ↦
          let short : offset % b + 1 < 1 * b = ground (arith, small) in
          let high : get_or (range img (sector_at fs sector) (1 * b)) (offset % b + 1) 0
              ≡ img (fat_at fs offset + 1) =
            get-range img (offset % b + 1) (sector_at fs sector) (1 * b) 0 short
            ∙ ap img (omega (arith, fat-sector fs offset)) in
          rw (ge→ltb cluster 2 in_use, first, inner, low, high)
    ]

-- Two 12-bit entries that share three bytes are read back.
pub decode_entry_pair :
    (k first second : ℕ)
    → first < 4096
    → second < 4096
    → (decode_entry (2 * k) (first % 256) (first / 256 + 16 * (second % 16)) ≡ first)
      × (decode_entry (2 * k + 1) (first / 256 + 16 * (second % 16)) (second / 16) ≡ second)
unfolding decode_entry
decode_entry_pair k first second small_first small_second = ground arith
