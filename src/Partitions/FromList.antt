-- ===== src/Partitions/FromList.antt =====
-- `NewElementalPartitionsFromList`: the system's own partitions among those of a disk.
use elemental_toolkit.Base.{
  String, ◌≡◌, refl, ◌≢◌, ◌⊎◌, inl, inr, true, false, Option, none, some, List, [], ◌∷◌, All, ◌==◌,
  string_eq, if◌then◌else◌,
}
use elemental_toolkit.Partitions.{
  PartitionRef, PartitionList, ElementalPartitions, get_by_name, get_by_name_or_label,
}
use elemental_toolkit.Partitions.Lookup.{
  Among, Finds, has_name, has_label, get_by_name_or_label-Finds,
}

-- The names of the partitions that the installation state holds, with their labels.
abbrev pub StateLabels : Type 0
StateLabels = List (String × String)

-- The label of the state, or else the default one; without a state the list is empty.
unfoldable pub label_of : String → String → StateLabels → String
label_of name default [] = default
label_of name default ((n, label) ∷ rest) = if n == name then label else label_of name default rest

-- `NewElementalPartitionsFromList`
unfoldable pub new_elemental_partitions_from_list :
    PartitionList → StateLabels → ElementalPartitions
new_elemental_partitions_from_list pl labels = record {
  bios = get_by_name pl "bios";
  boot = get_by_name_or_label pl "efi" (label_of "efi" "COS_GRUB" labels);
  oem = get_by_name_or_label pl "oem" (label_of "oem" "COS_OEM" labels);
  recovery = get_by_name_or_label pl "recovery" (label_of "recovery" "COS_RECOVERY" labels);
  state = get_by_name_or_label pl "state" (label_of "state" "COS_STATE" labels);
  persistent = get_by_name_or_label pl "persistent" (label_of "persistent" "COS_PERSISTENT" labels);
}

-- Nil only where no partition has the name or the label, else a partition of the list with one of them.
abbrev pub Matches : PartitionList → String → String → Option PartitionRef → Type 0
Matches pl name label none =
    All (λ p. has_name name p.value ≡ false) pl × All (λ p. has_label label p.value ≡ false) pl
Matches pl name label (some p) =
    Among p pl × ((has_name name p.value ≡ true) ⊎ (has_label label p.value ≡ true))

matched :
    (pl : PartitionList) (name label : String) (r : Option PartitionRef)
    → ((r ≢ none) × Finds (has_name name) pl r)
      ⊎ (Finds (has_name name) pl none × Finds (has_label label) pl r)
    → Matches pl name label r
matched pl name label none (inl (set, f)) = absurd (set refl)
matched pl name label none (inr (no_name, no_label)) = (no_name, no_label)
matched pl name label (some p) (inl (set, (among, named, at))) = (among, inl named)
matched pl name label (some p) (inr (no_name, (among, labelled, at))) = (among, inr labelled)

-- Each of the bootloader, OEM, recovery, state and persistent partitions is nil only where no partition of
-- the list has its name or its label, and is else a partition of the list with one of them.
pub from_list-Matches :
    (pl : PartitionList) (labels : StateLabels)
    → let ep = new_elemental_partitions_from_list pl labels in
      Matches pl "efi" (label_of "efi" "COS_GRUB" labels) ep.boot
      × (Matches pl "oem" (label_of "oem" "COS_OEM" labels) ep.oem
          × (Matches pl "recovery" (label_of "recovery" "COS_RECOVERY" labels) ep.recovery
              × (Matches pl "state" (label_of "state" "COS_STATE" labels) ep.state
                  × Matches pl "persistent"
                      (label_of "persistent" "COS_PERSISTENT" labels)
                      ep.persistent)))
unfolding new_elemental_partitions_from_list
from_list-Matches pl labels =
    let found : (name label : String) → Matches pl name label (get_by_name_or_label pl name label) =
      λ name label. matched pl name label _ (get_by_name_or_label-Finds pl name label) in
    (found "efi" _, (found "oem" _, (found "recovery" _, (found "state" _, found "persistent" _))))
