-- ===== src/Examples/Tables.antt =====
-- Partition tables and the calls that change them.
use elemental_toolkit.Base.{
  ◌+◌, ◌/◌, ◌≤◌, ◌<◌, ◌≡◌, refl, ◌⊎◌, true, false, none, some, [], ◌∷◌, All, nat_eq, arith,
}
use elemental_toolkit.Base.Text
use elemental_toolkit.Base.Outcome.{Error, plain, ok}
use elemental_toolkit.System.{Env, ran}
use elemental_toolkit.Partitioner.{DiskPartition, mib_to_sectors}
use elemental_toolkit.Base.{◌≢◌, ◌<>◌, List, ◌++◌, String}
use elemental_toolkit.Partitioner.{is_fat}
use elemental_toolkit.Partitioner.Mkfs.{MkfsCall, is_linux, apply}
use elemental_toolkit.Partitioner.Mkfs.Options.{apply_lem}
use elemental_toolkit.Partitioner.Parted.{PartedCall, new_parted_call, script, flag_options}
use elemental_toolkit.Partitioner.Parted
use elemental_toolkit.Partitioner.Parted.Script.{
  queued, read_script, read_script-script, script-write_changes,
}
use elemental_toolkit.Partitioner.Gdisk.{GdiskCall, new_gdisk_call, option_if, queued_options}
use elemental_toolkit.Partitioner.Gdisk
use elemental_toolkit.Partitioner.Gdisk.Pretend.{trial_line, real_line, gdisk_trial_first}
use elemental_toolkit.Partitioner.Disk.{
  Disk, parted, place, expand, next_place, compute_free_space, compute_free_space_without_last,
  space_behind, find_device,
}
use elemental_toolkit.Partitioner.Disk.Placement.{IsLayout, end_of, place-IsInside}
use elemental_toolkit.Partitioner.Disk.Expansion.{expand-IsInside, expand_beyond_disk}
use elemental_toolkit.Partitioner.Disk.Devices.{Searched, find_device_lem}

-- A world where every call succeeds and no file is there.
abbrev pub calm : Env
calm = record {
  run = λ w cmd args. ("", none);
  mkdir_all = λ w path. none;
  remove_all = λ w path. none;
  exists = λ w path. false;
  temp_dir = λ w. ("/tmp/elemental", none);
  symlink = λ w target path. none;
  hard_link = λ w target path. none;
  rename = λ w old new. none;
  read_file = λ w path. ("", none);
  delete = λ w path. none;
  read_dir = λ w path. ("1" ∷ "2" ∷ "active" ∷ [], none);
  lstat = λ w path. (false, none);
  read_link = λ w path. ("", none);
  exists_no_follow = λ w path. (false, none);
  write_file = λ w path contents. none;
  not_mount_point = λ w path. (true, none);
  all_partitions = λ w. ([], none);
  mount = λ w source target fstype options. none;
  unmount = λ w target. none;
  partition_fs = λ w device. ("ext4", none);
  getwd = λ w. ("/", none);
  open_root = λ w. none;
  chdir = λ w path. none;
  chroot = λ w path. none;
}

abbrev efi : DiskPartition
efi = record { number = 1; start_s = 2048; size_s = 131072; p_label = "efi"; file_system = "vfat" }

abbrev state : DiskPartition
state = record {
  number = 2;
  start_s = 133120;
  size_s = 204800;
  p_label = "state";
  file_system = "ext4";
}

abbrev pc : PartedCall
pc = record {
  dev = "/dev/sda";
  wipe = true;
  parts = efi ∷ state ∷ [];
  deletions = 3 ∷ [];
  label = "gpt";
  flags = record { flag = "esp"; active = true; number = 1 } ∷ [];
}

read_script-script_example : read_script 5 (script pc) ≡ some (queued pc)
read_script-script_example = read_script-script pc 5 (omega arith)

script-write_changes_example :
    script (Parted.write_changes calm pc []).0.1 ≡ "set" ∷ "1" ∷ "esp" ∷ "on" ∷ []
unfolding flag_options Text.decimal
script-write_changes_example = script-write_changes calm pc []

abbrev gd : GdiskCall
gd = record {
  dev = "/dev/sda";
  wipe = false;
  parts = efi ∷ [];
  deletions = 1 ∷ [];
  expand = true;
  pretend = false;
}

-- A world where `sgdisk` fails.
abbrev broken : Env
broken = record calm { run = λ w cmd args. ("", some (plain "no table")) }

gdisk_trial_first_example :
    let ((result, gd'), w') = Gdisk.write_changes broken gd [] in
    ((e : Error) × (some (plain "no table") ≡ some e)
      × (w' ≡ ran "sgdisk" (trial_line gd) (some e) ∷ [])
      × (result ≡ ("", some e))
      × (queued_options gd' ≡ queued_options gd))
    ⊎ ((some (plain "no table") ≡ none)
        × (let w₁ = ran "sgdisk" (trial_line gd) none ∷ [] in
            let real = broken.run w₁ "sgdisk" (real_line gd) in
            let w₂ = ran "sgdisk" (real_line gd) real.1 ∷ w₁ in
            let told = (broken.run w₂ "partx" ("-u" ∷ gd.dev ∷ [])).1 in
            (w' ≡ ran "partx" ("-u" ∷ gd.dev ∷ []) told ∷ w₂)
            × (result ≡ real)
            × (queued_options gd' ≡ option_if gd.expand "-e")))
gdisk_trial_first_example = gdisk_trial_first broken gd []

-- A disk of 2 GiB with a gap before the last partition.
abbrev dev : Disk
dev = record {
  device = "/dev/sda";
  sector_s = 512;
  last_s = 4194303;
  parts = efi ∷ record state { start_s = 2097152 } ∷ [];
  label = "gpt";
  part_backend = parted;
}

-- The same with no gap.
abbrev packed : Disk
packed = record dev { parts = efi ∷ state ∷ [] }

dev-IsLayout : IsLayout dev
dev-IsLayout = record {
  sector_pos = omega arith;
  sector_small = omega arith;
  room = omega arith;
  small = omega arith;
  ordered = (omega arith, omega arith, (omega arith, omega arith, tt));
  inside = (omega arith, (omega arith, tt));
}

packed-IsLayout : IsLayout packed
packed-IsLayout = record {
  sector_pos = omega arith;
  sector_small = omega arith;
  room = omega arith;
  small = omega arith;
  ordered = (omega arith, omega arith, (omega arith, omega arith, tt));
  inside = (omega arith, (omega arith, tt));
}

abbrev persistent : DiskPartition
persistent = record {
  number = 3;
  start_s = 337920;
  size_s = 1048576;
  p_label = "persistent";
  file_system = "ext4";
}

placed : place packed 512 "ext4" "persistent" ≡ ok persistent
unfolding place next_place mib_to_sectors compute_free_space space_behind nat_eq
placed = refl

place-IsInside_example :
    All (λ q. end_of q ≤ 337920) (efi ∷ state ∷ [])
    × (1048576 / 512 ≤ 337920)
    × (337920 + 1048576 ≤ 4194303 + 1)
place-IsInside_example =
    place-IsInside packed 512 "ext4" "persistent" persistent packed-IsLayout placed

grown : expand packed 512 ≡ ok (record state { size_s = 1048576 })
unfolding expand mib_to_sectors compute_free_space_without_last space_behind nat_eq
grown = refl

expand-IsInside_example :
    (state.start_s ≡ state.start_s) × (204800 ≤ 1048576) × (133120 + 1048576 ≤ 4194303 + 1)
expand-IsInside_example =
    expand-IsInside packed 512 state (record state { size_s = 1048576 }) packed-IsLayout refl
      (omega arith) refl grown

sectors_of : mib_to_sectors 1536 512 ≡ ok 3145728
unfolding mib_to_sectors nat_eq
sectors_of = refl

expand_beyond_disk_example :
    (part : DiskPartition) × (expand dev 1536 ≡ ok part) × (4194303 + 1 < end_of part)
expand_beyond_disk_example =
    expand_beyond_disk dev 1536 3145728 (record state { start_s = 2097152 }) dev-IsLayout refl
      (omega arith) sectors_of (omega arith) (omega arith) (omega arith)

find_device_lem_example :
    Searched calm 3 "/dev/sda1" []
      (find_device calm 3 "/dev/sda1" []).0
      (find_device calm 3 "/dev/sda1" []).1
find_device_lem_example = find_device_lem calm 3 "/dev/sda1" []

abbrev oem_fs : MkfsCall
oem_fs = record { file_system = "ext4"; label = "COS_OEM"; custom_opts = []; dev = "/dev/sda2" }

apply_lem_example :
    ((is_linux "ext4" ≡ false)
      × (is_fat "ext4" ≡ false)
      × ((apply calm oem_fs []).1 ≡ [])
      × ((apply calm oem_fs []).0.1 ≢ none))
    ⊎ (((is_linux "ext4" ≡ true) ⊎ (is_fat "ext4" ≡ true))
        × (opts : List String) × (let tool = "mkfs." <> "ext4" in
            let args = opts ++ ("/dev/sda2" ∷ []) in
            apply calm oem_fs [] ≡ (("", none), ran tool args none ∷ [])))
apply_lem_example = apply_lem calm oem_fs []
