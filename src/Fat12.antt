-- ===== src/Fat12.antt =====
-- vfs/fat/fat.c and vfs/fat/fat12.c: telling the kinds of FAT apart, and reading a FAT12 volume. The
-- drive is the function behind `read_sectors`: from an LBA and a count to the bytes, `none` where it
-- fails. Allocations of buffers succeed, the numbers of the volume's header stand within their C types,
-- and its sizes that are divided by are not 0.
use plenjos_kernel.Prelude.{
  ℕ, zero, suc, ◌+◌, ◌-◌, ◌*◌, ◌/◌, ◌%◌, ◌^◌, ◌≡◌, refl, Bool, true, false, Option, none, some,
  List, [], ◌∷◌, ◌++◌, ◌==◌, ltb, leb, not, if◌then◌else◌, take, drop, get_or, min,
}
pub mod Image
pub mod Read
pub mod Layout
mod Examples

-- `struct filesystem_fat12`, with the fields of its boot sector that are used
pub record Fat12 : Type 0 where
  pub logical_sector_size : ℕ
  pub partition_start_lba : ℕ
  pub boot_sector_read : Bool
  pub boot_sector_signature : ℕ
  pub bytes_per_sector : ℕ
  pub sectors_per_cluster : ℕ
  pub reserved_sector_count : ℕ
  pub num_fats : ℕ
  pub root_entry_count : ℕ
  pub total_sectors_16 : ℕ
  pub fat_size_16 : ℕ
  pub total_sectors_32 : ℕ
  pub factor : ℕ
  pub fat_start_lba : ℕ
  pub root_dir_start_lba : ℕ
  pub cluster_heap_start_lba : ℕ
  pub fat_sectors : ℕ
  pub root_dir_sectors : ℕ
  pub total_sectors : ℕ
  pub total_clusters : ℕ

abbrev pub Drive : Type 0
Drive = ℕ → ℕ → Option (List ℕ)

-- The loop that reads one drive sector after the other. A round reads at least one FAT sector, so
-- `fuel` = the sectors that remain is enough.
unfoldable pub read_rest : Drive → Fat12 → ℕ → ℕ → ℕ → Option (List ℕ)
read_rest read_sectors fs zero current remaining = if remaining == 0 then some [] else none
read_rest read_sectors fs (suc fuel) current remaining =
    let offset = current % fs.factor in
    let sectors_this_iter = min (fs.factor - offset) remaining in
    let rest =
      read_rest read_sectors fs fuel (current + sectors_this_iter)
        (remaining - sectors_this_iter) in
    if remaining == 0
    then some []
    else elim (read_sectors (fs.partition_start_lba + current / fs.factor) 1) [
      | none ↦ none
      | some tmp ↦ elim rest [
        | none ↦ none
        | some out ↦ some (
            take (sectors_this_iter * fs.bytes_per_sector) (drop (offset * fs.bytes_per_sector) tmp)
            ++ out)
      ]
    ]

unfoldable pub fat12_drive_read : Drive → Fat12 → ℕ → ℕ → Option (List ℕ)
fat12_drive_read read_sectors fs fat_lba fat_sectors =
    if fat_sectors == 0
    then none
    else (if fs.factor == 1
        then read_sectors (fs.partition_start_lba + fat_lba) fat_sectors
        else read_rest read_sectors fs fat_sectors fat_lba fat_sectors)

unfoldable pub fat12_read_entry : Drive → Fat12 → ℕ → Option (List ℕ)
fat12_read_entry read_sectors fs cluster =
    if ltb cluster 2
    then none
    else fat12_drive_read read_sectors fs
        (fs.cluster_heap_start_lba + (cluster - 2) * fs.sectors_per_cluster) fs.sectors_per_cluster

-- The entry's two bytes, little-endian, of which an odd cluster has the upper 12 bits and an even one
-- the lower 12.
unfoldable pub decode_entry : ℕ → ℕ → ℕ → ℕ
decode_entry cluster low high =
    let entry = low + 256 * high in if cluster % 2 == 1 then entry / 16 else entry % 4096

unfoldable pub fat12_next_cluster : Drive → Fat12 → ℕ → Option ℕ
fat12_next_cluster read_sectors fs cluster =
    let fat_offset = cluster * 3 / 2 in
    let fat_sector = fs.fat_start_lba + fat_offset / fs.bytes_per_sector in
    let offset_in_sector = fat_offset % fs.bytes_per_sector in
    if ltb cluster 2 then none else elim (fat12_drive_read read_sectors fs fat_sector 1) [
      | none ↦ none
      | some buf ↦
          if offset_in_sector == fs.bytes_per_sector - 1
          then elim (fat12_drive_read read_sectors fs (fat_sector + 1) 1) [
            | none ↦ none
            | some buf2 ↦
                some (decode_entry cluster (get_or buf offset_in_sector 0) (get_or buf2 0 0))
          ]
          else some (
              decode_entry cluster (get_or buf offset_in_sector 0)
                (get_or buf (offset_in_sector + 1) 0))
    ]

-- the 32 bytes of an entry of the root directory
unfoldable pub fat12_read_root_entry : Drive → Fat12 → ℕ → Option (List ℕ)
fat12_read_root_entry read_sectors fs entry_index =
    if leb fs.root_entry_count entry_index
    then none
    else elim (fat12_drive_read read_sectors fs
        (fs.root_dir_start_lba + entry_index * 32 / fs.bytes_per_sector) 1) [
          | none ↦ none
          | some buf ↦ some (take 32 (drop (entry_index * 32 % fs.bytes_per_sector) buf))
        ]

-- The layout of the volume, in FAT sectors. The number of data sectors wraps at 32 bits.
unfoldable pub laid_out : Fat12 → ℕ → Fat12
laid_out fs partition_start_lba =
    let factor =
      if fs.bytes_per_sector == fs.logical_sector_size
      then 1
      else fs.logical_sector_size / fs.bytes_per_sector in
    let total_sectors =
      if fs.total_sectors_16 == 0 then fs.total_sectors_32 else fs.total_sectors_16 in
    let root_dir_sectors =
      (fs.root_entry_count * 32 + (fs.bytes_per_sector - 1)) / fs.bytes_per_sector in
    let root_dir_start_lba = fs.reserved_sector_count + fs.num_fats * fs.fat_size_16 in
    let used = root_dir_start_lba + root_dir_sectors in
    let data_sectors = (total_sectors + 2 ^ 32 - used) % 2 ^ 32 in
    record fs {
      partition_start_lba = partition_start_lba;
      factor = factor;
      total_sectors = total_sectors;
      fat_sectors = fs.fat_size_16;
      root_dir_sectors = root_dir_sectors;
      fat_start_lba = fs.reserved_sector_count;
      root_dir_start_lba = root_dir_start_lba;
      cluster_heap_start_lba = used;
      total_clusters = data_sectors / fs.sectors_per_cluster;
    }

-- The result is `none` where the function returns -1, and otherwise the fields it has set. The listing
-- of the root directory that follows only prints.
unfoldable pub fat12_setup : Fat12 → ℕ → Option Fat12
fat12_setup fs partition_start_lba =
    let laid = laid_out fs partition_start_lba in
    if not fs.boot_sector_read
    then none
    else (if fs.fat_size_16 == 0
        then none
        else (if not (fs.boot_sector_signature == 0xAA55)
            then none
            else (if leb 4085 laid.total_clusters then none else some laid)))

-- `fat_type_t`, without the error for a NULL pointer
pub data FatType : Type 0 where
  fat_type_12 : FatType
  fat_type_16 : FatType
  fat_type_32 : FatType

-- `fat_detect_type`, on the boot sector that is read; the number of data sectors wraps at 32 bits.
unfoldable pub fat_detect_type : Fat12 → FatType
fat_detect_type bs =
    let root_dir_sectors =
      (bs.root_entry_count * 32 + (bs.bytes_per_sector - 1)) / bs.bytes_per_sector in
    let total_sectors =
      if bs.total_sectors_16 == 0 then bs.total_sectors_32 else bs.total_sectors_16 in
    let used = bs.reserved_sector_count + bs.num_fats * bs.fat_size_16 + root_dir_sectors in
    let data_sectors = (total_sectors + 2 ^ 32 - used) % 2 ^ 32 in
    if bs.fat_size_16 == 0
    then fat_type_32
    else (if ltb (data_sectors / bs.sectors_per_cluster) 4085 then fat_type_12 else fat_type_16)
