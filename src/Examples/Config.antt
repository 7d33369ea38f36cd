-- ===== src/Examples/Config.antt =====
-- Partitions and specifications.
use mathlib.Core.List.{Perm}
use elemental_toolkit.Base.{
  ℕ, ◌%◌, ◌^◌, ◌<◌, String, ◌<>◌, ◌≡◌, refl, ◌≢◌, ◌↔◌, ◌⊎◌, true, false, none, some, [], ◌∷◌, ◌++◌,
  string_eq, nat_eq, length, if◌then◌else◌, arith,
}
use elemental_toolkit.Base.Order.{IsSorted}
use elemental_toolkit.Base.Outcome.{ok, panic}
use elemental_toolkit.Partitions.{
  PartitionRef, ElementalPartitions, included, in_excludes, get_by_name_or_label,
  set_firmware_partitions, partitions_by_install_order, partitions_by_mount_point,
}
use elemental_toolkit.Partitions.Lookup.{Finds, has_name, has_label, get_by_name_or_label-Finds}
use elemental_toolkit.Partitions.FromList.{
  label_of, new_elemental_partitions_from_list, Matches, from_list-Matches,
}
use elemental_toolkit.Partitions.InstallOrder.{
  sized, unsized, first, fixed_partitions, growing_partitions, install_order_lem,
}
use elemental_toolkit.Partitions.MountOrder.{
  mounted, mount_points, mount_order, mount_points-IsSorted,
}
use elemental_toolkit.Specs.{
  ImageSource, Image, default_source, default_label, persistent_clash, extra_parts_size_check,
  is_empty, source_is_empty, unmounted, InstallSpec, install_sanitize, UpgradeSpec, DiskSpec,
  min_disk_size, disk_sanitize,
}
use elemental_toolkit.Specs.Install.{
  HasSystem, install_sanitize-perm, install_sanitize-panic_iff, install_sanitize_completes,
}
use elemental_toolkit.Specs.Disk.{needed_by, min_disk_size_lem, disk_sanitize_fits}

abbrev part : ℕ → String → ℕ → String → PartitionRef
part addr name size mount_point = record {
  addr = addr;
  value = record {
    name = name;
    filesystem_label = "COS_" <> name;
    size = size;
    fs = "ext4";
    flags = [];
    mount_point = mount_point;
    path = "";
    disk = "";
  };
}

abbrev pub state : PartitionRef
state = part 4 "state" 8192 "/run/elemental/efi/state"

abbrev pub efi : PartitionRef
efi = part 1 "efi" 64 "/run/elemental/efi"

abbrev pub data_part : PartitionRef
data_part = part 6 "data" 0 ""

abbrev pub partitions : ElementalPartitions
partitions = record {
  bios = none;
  boot = some efi;
  oem = some (part 2 "oem" 64 "/oem");
  recovery = some (part 3 "recovery" 4096 "/recovery");
  state = some state;
  persistent = some (part 5 "persistent" 1024 "/persistent");
}

get_by_name_or_label-Finds_example :
    ((get_by_name_or_label (efi ∷ state ∷ []) "STATE" "COS_state" ≢ none)
      × Finds
          (has_name "STATE")
          (efi ∷ state ∷ [])
          (get_by_name_or_label (efi ∷ state ∷ []) "STATE" "COS_state"))
    ⊎ (Finds (has_name "STATE") (efi ∷ state ∷ []) none
        × Finds
            (has_label "COS_state")
            (efi ∷ state ∷ [])
            (get_by_name_or_label (efi ∷ state ∷ []) "STATE" "COS_state"))
get_by_name_or_label-Finds_example =
    get_by_name_or_label-Finds (efi ∷ state ∷ []) "STATE" "COS_state"

install_order_lem_example :
    partitions_by_install_order partitions (data_part ∷ []) []
    ≡ (fixed_partitions partitions [] ++ sized (growing_partitions partitions (data_part ∷ []) []))
      ++ first (unsized (growing_partitions partitions (data_part ∷ []) []))
install_order_lem_example = install_order_lem partitions (data_part ∷ []) []

mount_points-IsSorted_example :
    IsSorted (mount_order true) (mount_points (partitions_by_mount_point partitions true []))
    × Perm
        (mount_points (partitions_by_mount_point partitions true []))
        (mount_points (mounted (partitions_by_install_order partitions [] [])))
mount_points-IsSorted_example = mount_points-IsSorted partitions true []

abbrev pub source : ImageSource
source = record { source = "registry/os:1"; src_type = "oci"; digest = "" }

abbrev pub recovery : Image
recovery = record {
  file = "/recovery/recovery.img";
  label = "";
  size = 0;
  fs = "squashfs";
  source = some source;
  mount_point = "";
  loop_device = "";
}

abbrev pub install : InstallSpec
install = record {
  target = "/dev/sda";
  firmware = "efi";
  part_table = "gpt";
  partitions = partitions;
  extra_partitions = data_part ∷ [];
  no_format = false;
  force = false;
  cloud_init = [];
  grub_def_entry = "";
  snapshot_labels = [];
  iso = "";
  system = some source;
  recovery_system = recovery;
}

install_passes : install_sanitize 7 install ≡ ok install
unfolding install_sanitize source_is_empty is_empty unmounted default_source default_label
    persistent_clash extra_parts_size_check set_firmware_partitions string_eq nat_eq
install_passes = refl

install_sanitize-perm_example :
    Perm
      (partitions_by_install_order partitions (data_part ∷ []) [])
      (fixed_partitions partitions [] ++ growing_partitions partitions (data_part ∷ []) [])
install_sanitize-perm_example = install_sanitize-perm 7 install install install_passes

install_sanitize-panic_iff_example : (install_sanitize 7 install ≡ panic) ↔ (
    (install.system ≡ none)
    ⊎ (HasSystem install
        × (unmounted partitions.state ≡ false)
        × ((install.recovery_system.source ≡ none)
            ⊎ ((length (unsized (data_part ∷ [])) ≡ 1) × (partitions.persistent ≡ none)))))
install_sanitize-panic_iff_example = install_sanitize-panic_iff 7 install

install_sanitize_completes_example :
    (unmounted partitions.state ≡ false)
    × ((source_is_empty (some source) ≡ ok false) ⊎ (install.iso ≢ ""))
    × (some source ≡ (if is_empty source then some source else some source))
    × ((recovery.label ≡ "") ↔ (recovery.fs ≡ "squashfs"))
install_sanitize_completes_example =
    install_sanitize_completes 7 install install source refl install_passes

abbrev disk : DiskSpec
disk = record {
  size = 32768;
  partitions = partitions;
  expandable = false;
  system = some source;
  recovery_system = recovery;
}

disk_passes : disk_sanitize disk ≡ ok disk
unfolding disk_sanitize source_is_empty is_empty default_source default_label min_disk_size
    string_eq nat_eq partitions_by_install_order
disk_passes = refl

min_disk_size_lem_example : min_disk_size disk ≡ needed_by disk % 2 ^ 64
min_disk_size_lem_example = min_disk_size_lem disk

disk_sanitize_fits_example : needed_by disk < 32768
unfolding partitions_by_install_order included in_excludes nat_eq
disk_sanitize_fits_example =
    disk_sanitize_fits disk disk disk_passes (omega arith) refl (omega arith)

abbrev pub upgrade : UpgradeSpec
upgrade = record {
  recovery_upgrade = true;
  system = some source;
  recovery_system = recovery;
  bootloader_upgrade = true;
  partitions = partitions;
}

from_list-Matches_example :
    let ep = new_elemental_partitions_from_list (efi ∷ state ∷ []) (("state", "COS_state") ∷ []) in
    Matches
      (efi ∷ state ∷ [])
      "efi"
      (label_of "efi" "COS_GRUB" (("state", "COS_state") ∷ []))
      ep.boot
    × (Matches
          (efi ∷ state ∷ [])
          "oem"
          (label_of "oem" "COS_OEM" (("state", "COS_state") ∷ []))
          ep.oem
        × (Matches
              (efi ∷ state ∷ [])
              "recovery"
              (label_of "recovery" "COS_RECOVERY" (("state", "COS_state") ∷ []))
              ep.recovery
            × (Matches
                  (efi ∷ state ∷ [])
                  "state"
                  (label_of "state" "COS_STATE" (("state", "COS_state") ∷ []))
                  ep.state
                × Matches
                    (efi ∷ state ∷ [])
                    "persistent"
                    (label_of "persistent" "COS_PERSISTENT" (("state", "COS_state") ∷ []))
                    ep.persistent)))
from_list-Matches_example = from_list-Matches (efi ∷ state ∷ []) (("state", "COS_state") ∷ [])
