-- ===== src/Fat12/Examples.antt =====
-- Tests and witnesses of the FAT12 volumes.
use plenjos_kernel.Prelude.{ℕ, ◌*◌, ◌%◌, ◌≡◌, refl, arith, true, some}
use plenjos_kernel.Fat12.{Fat12, Drive, fat12_drive_read, laid_out, fat12_setup}
use plenjos_kernel.Fat12.Image.{range}
use plenjos_kernel.Fat12.Read.{Reads, sector_at, fat12_drive_read_lem}

abbrev image : ℕ → ℕ
image a = a % 251

-- a drive of sectors of 2048 bytes
abbrev drive : Drive
drive lba count = some (range image (lba * 2048) (count * 2048))

-- the header of a floppy disk, before its set-up
abbrev floppy : Fat12
floppy = record {
  logical_sector_size = 2048;
  partition_start_lba = 0;
  boot_sector_read = true;
  boot_sector_signature = 0xAA55;
  bytes_per_sector = 512;
  sectors_per_cluster = 1;
  reserved_sector_count = 1;
  num_fats = 2;
  root_entry_count = 224;
  total_sectors_16 = 2880;
  fat_size_16 = 9;
  total_sectors_32 = 0;
  factor = 0;
  fat_start_lba = 0;
  root_dir_start_lba = 0;
  cluster_heap_start_lba = 0;
  fat_sectors = 0;
  root_dir_sectors = 0;
  total_sectors = 0;
  total_clusters = 0;
}

abbrev volume : Fat12
volume = record floppy {
  partition_start_lba = 100;
  factor = 4;
  fat_start_lba = 1;
  root_dir_start_lba = 19;
  cluster_heap_start_lba = 33;
  fat_sectors = 9;
  root_dir_sectors = 14;
  total_sectors = 2880;
  total_clusters = 2847;
}

floppy-laid_out : fat12_setup floppy 100 ≡ some volume
unfolding fat12_setup laid_out
floppy-laid_out = refl

volume-Reads : Reads image drive volume
volume-Reads = record {
  reads = λ lba count. refl;
  sizes = refl;
  factor_one = omega arith;
  sector_one = omega arith;
}

fat12_drive_read_lem_example :
    fat12_drive_read drive volume 3 6 ≡ some (range image (sector_at volume 3) (6 * 512))
fat12_drive_read_lem_example =
    fat12_drive_read_lem image drive volume 3 6 volume-Reads (omega arith)
