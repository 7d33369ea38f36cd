-- ===== src/Partitioner.antt =====
-- pkg/partitioner: partition tables, changed through `parted` or `sgdisk`, and the disk that places
-- partitions on them.
pub mod Parted
pub mod Gdisk
pub mod Disk
pub mod Mkfs
use elemental_toolkit.Base.{
  ℕ, ◌+◌, ◌-◌, ◌*◌, ◌/◌, ◌%◌, ◌^◌, String, Bool, true, false, ◌||◌, ◌==◌, nat_eq, if◌then◌else◌,
}
use elemental_toolkit.Base.Text.{contains}
use elemental_toolkit.Base.Outcome.{Result, ok, panic}

-- `partitioner.Partition`; numbers are positive and sectors are 64-bit unsigned.
pub record DiskPartition : Type 0 where
  pub number : ℕ
  pub start_s : ℕ
  pub size_s : ℕ
  pub p_label : String
  pub file_system : String

-- `+`, `-` and `*` on 64-bit unsigned integers below 2 ^ 64.
abbrev pub add64 : ℕ → ℕ → ℕ
add64 a b = (a + b) % 2 ^ 64

abbrev pub sub64 : ℕ → ℕ → ℕ
sub64 a b = (a + 2 ^ 64 - b) % 2 ^ 64

abbrev pub mul64 : ℕ → ℕ → ℕ
mul64 a b = (a * b) % 2 ^ 64

-- `fat|vfat`, matched anywhere.
unfoldable pub is_fat : String → Bool
is_fat fs = contains fs "fat" || contains fs "vfat"

-- `msdos|gpt`, matched anywhere.
unfoldable pub is_table_label : String → Bool
is_table_label label = contains label "msdos" || contains label "gpt"

-- `MiBToSectors`
unfoldable pub mib_to_sectors : ℕ → ℕ → Result ℕ
mib_to_sectors size sector_size =
    if sector_size == 0 then panic else ok (mul64 size 1048576 / sector_size)
