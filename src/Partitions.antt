-- ===== src/Partitions.antt =====
-- pkg/types/config.go: partitions, the lookups in a partition list, the set of the system's own
-- partitions and the orders in which they are created and mounted.
pub mod Lookup
pub mod FromList
pub mod Firmware
pub mod InstallOrder
pub mod MountOrder
use elemental_toolkit.Base.{
  ℕ, String, Bool, true, false, not, ◌&&◌, ◌||◌, Option, none, some, List, [], ◌∷◌, ◌++◌, ◌==◌,
  nat_eq, string_eq, if◌then◌else◌,
}
use elemental_toolkit.Base.Order.{le_string, sort_by}
use elemental_toolkit.Base.Outcome.{plain, Result, ok, err}

-- Sizes are in MiB.
pub record Partition : Type 0 where
  pub name : String
  pub filesystem_label : String
  pub size : ℕ
  pub fs : String
  pub flags : List String
  pub mount_point : String
  pub path : String
  pub disk : String

-- A `*Partition` that is not nil: pointers are compared by their address.
pub record PartitionRef : Type 0 where
  pub addr : ℕ
  pub value : Partition

abbrev pub PartitionList : Type 0
PartitionList = List PartitionRef

-- The loop of `GetByName` and `GetByLabel`: the first match that is mounted is returned at once.
unfoldable pub find_mounted :
    (Partition → Bool) → PartitionList → Option PartitionRef → Option PartitionRef
find_mounted matches [] part = part
find_mounted matches (p ∷ rest) part =
    let later = find_mounted matches rest (if matches p.value then some p else part) in
    if matches p.value && not (p.value.mount_point == "") then some p else later

unfoldable pub get_by_name : PartitionList → String → Option PartitionRef
unfolding find_mounted
get_by_name pl name = find_mounted (λ p. p.name == name) pl none

unfoldable pub get_by_label : PartitionList → String → Option PartitionRef
unfolding find_mounted
get_by_label pl label = find_mounted (λ p. p.filesystem_label == label) pl none

unfoldable pub get_by_name_or_label : PartitionList → String → String → Option PartitionRef
unfolding get_by_name get_by_label
get_by_name_or_label pl name label = elim (get_by_name pl name) [
  | none ↦ get_by_label pl label
  | some part ↦ some part
]

-- A nil pointer is `none`.
pub record ElementalPartitions : Type 0 where
  pub bios : Option PartitionRef
  pub boot : Option PartitionRef
  pub oem : Option PartitionRef
  pub recovery : Option PartitionRef
  pub state : Option PartitionRef
  pub persistent : Option PartitionRef

-- `GetConfigStorage`
unfoldable pub get_config_storage : ElementalPartitions → String
get_config_storage ep = elim ep.oem [ none ↦ "" | some p ↦ p.value.mount_point ]

-- The partition that the firmware branch for BIOS on GPT allocates.
abbrev pub bios_partition : Partition
bios_partition = record {
  name = "bios";
  filesystem_label = "";
  size = 1;
  fs = "";
  flags = "bios_grub" ∷ [];
  mount_point = "";
  path = "";
  disk = "";
}

-- `SetFirmwarePartitions`; `fresh` is the address of the new partition. The write to the flags of
-- the state partition goes through its pointer.
unfoldable pub set_firmware_partitions :
    ℕ → ElementalPartitions → String → String → Result ElementalPartitions
set_firmware_partitions fresh ep firmware part_table =
    if firmware == "efi" && part_table == "gpt"
    then elim ep.boot [
      | none ↦ err (plain "nil efi partition")
      | some p ↦ ok (record ep { bios = none })
    ]
    else if firmware == "bios" && part_table == "gpt"
    then ok
        (record ep { bios = some (record { addr = fresh; value = bios_partition }); boot = none })
    else elim ep.state [
      | none ↦ err (plain "nil state partition")
      | some p ↦ ok (record ep {
        state = some (record p { value = record (p.value) { flags = "boot" ∷ [] } });
        boot = none;
        bios = none;
      })
    ]

-- The closure `inExcludes`; a list of excludes may hold nil pointers.
unfoldable pub in_excludes : PartitionRef → List (Option PartitionRef) → Bool
in_excludes part [] = false
in_excludes part (none ∷ rest) = in_excludes part rest
in_excludes part (some p ∷ rest) = part.addr == p.addr || in_excludes part rest

-- What one of the first five conditions of `PartitionsByInstallOrder` appends.
unfoldable pub included : Option PartitionRef → List (Option PartitionRef) → PartitionList
unfolding in_excludes
included none excludes = []
included (some p) excludes = if in_excludes p excludes then [] else p ∷ []

-- The partitions so far, and the one to set last.
abbrev pub Ordered : Type 0
Ordered = PartitionList × Option PartitionRef

unfoldable pub add_persistent :
    Option PartitionRef → List (Option PartitionRef) → PartitionList → Ordered
unfolding in_excludes
add_persistent none excludes parts = (parts, none)
add_persistent (some p) excludes parts =
    if in_excludes p excludes
    then (parts, none)
    else if p.value.size == 0
    then (parts, some p)
    else (parts ++ (p ∷ []), none)

unfoldable pub add_extra : PartitionRef → Ordered → Ordered
add_extra p (parts, none) = if p.value.size == 0 then (parts, some p) else (parts ++ (p ∷ []), none)
add_extra p (parts, some last) =
    if p.value.size == 0 then (parts, some last) else (parts ++ (p ∷ []), some last)

unfoldable pub add_extras : PartitionList → Ordered → Ordered
unfolding add_extra
add_extras [] o = o
add_extras (p ∷ rest) o = add_extras rest (add_extra p o)

abbrev pub set_last : Ordered → PartitionList
set_last (parts, none) = parts
set_last (parts, some last) = parts ++ (last ∷ [])

-- `PartitionsByInstallOrder`
unfoldable pub partitions_by_install_order :
    ElementalPartitions → PartitionList → List (Option PartitionRef) → PartitionList
unfolding included add_persistent add_extras
partitions_by_install_order ep extra excludes =
    let fixed =
      included ep.bios excludes
      ++ (included ep.boot excludes
          ++ (included ep.oem excludes
              ++ (included ep.recovery excludes ++ included ep.state excludes))) in
    set_last (add_extras extra (add_persistent ep.persistent excludes fixed))

-- A Go map from mount points, as an association list.
unfoldable pub lookup : String → List (String × PartitionRef) → Option PartitionRef
lookup k [] = none
lookup k ((j, p) ∷ m) = if j == k then some p else lookup k m

unfoldable pub insert :
    String → PartitionRef → List (String × PartitionRef) → List (String × PartitionRef)
insert k p [] = (k, p) ∷ []
insert k p ((j, q) ∷ m) = if j == k then (k, p) ∷ m else (j, q) ∷ insert k p m

-- The loop that collects the mount points and the partition of each.
unfoldable pub collect_mount_points :
    PartitionList
    → List (String × PartitionRef) × List String
    → List (String × PartitionRef) × List String
unfolding insert
collect_mount_points [] o = o
collect_mount_points (p ∷ rest) (keys, points) = collect_mount_points rest (
    if p.value.mount_point == ""
    then (keys, points)
    else (insert p.value.mount_point p keys, points ++ (p.value.mount_point ∷ [])))

-- The last loop; the map holds every key that is looked up.
unfoldable pub look_up_all : List (String × PartitionRef) → List String → PartitionList
unfolding lookup
look_up_all keys [] = []
look_up_all keys (mnt ∷ rest) = elim (lookup mnt keys) [
  | none ↦ look_up_all keys rest
  | some p ↦ p ∷ look_up_all keys rest
]

-- `PartitionsByMountPoint`
unfoldable pub partitions_by_mount_point :
    ElementalPartitions → Bool → List (Option PartitionRef) → PartitionList
unfolding partitions_by_install_order collect_mount_points look_up_all sort_by
partitions_by_mount_point ep descending excludes =
    let (keys, points) =
      collect_mount_points (partitions_by_install_order ep [] excludes) ([], []) in
    look_up_all keys (sort_by (if descending then (λ s t. le_string t s) else le_string) points)
