-- ===== src/Partitions/InstallOrder.antt =====
-- `PartitionsByInstallOrder`: the order in which the partitions of a disk are created.
use mathlib.Core.List.{Perm, append-nil, append_assoc, perm_middle}
use mathlib.Core.List.Perm
use elemental_toolkit.Base.{
  ◌≤◌, ◌≡◌, refl, ◌∙◌, Option, none, some, List, [], ◌∷◌, ◌++◌, length, arith, ◌==◌, nat_eq,
  if◌then◌else◌, Bool-cases, inl, inr,
}
use elemental_toolkit.Partitions.{
  PartitionRef, PartitionList, ElementalPartitions, included, in_excludes, add_persistent,
  add_extra, add_extras, set_last, partitions_by_install_order,
}

abbrev pub sized : PartitionList → PartitionList
sized [] = []
sized (p ∷ rest) = if p.value.size == 0 then sized rest else p ∷ sized rest

abbrev pub unsized : PartitionList → PartitionList
unsized [] = []
unsized (p ∷ rest) = if p.value.size == 0 then p ∷ unsized rest else unsized rest

abbrev pub first : PartitionList → PartitionList
first [] = []
first (p ∷ rest) = p ∷ []

-- BIOS, bootloader, OEM, recovery and state.
abbrev pub fixed_partitions : ElementalPartitions → List (Option PartitionRef) → PartitionList
fixed_partitions ep excludes =
    included ep.bios excludes
    ++ (included ep.boot excludes
        ++ (included ep.oem excludes
            ++ (included ep.recovery excludes ++ included ep.state excludes)))

-- The partitions that may grow: the persistent one, then the extra ones.
abbrev pub growing_partitions :
    ElementalPartitions → PartitionList → List (Option PartitionRef) → PartitionList
growing_partitions ep extra excludes = included ep.persistent excludes ++ extra

abbrev or_first : Option PartitionRef → PartitionList → PartitionList
or_first none zeros = first zeros
or_first (some p) zeros = p ∷ []

add_extras_lem :
    (extra parts : PartitionList) (last : Option PartitionRef)
    → set_last (add_extras extra (parts, last))
      ≡ (parts ++ sized extra) ++ or_first last (unsized extra)
unfolding add_extras add_extra
add_extras_lem [] parts none = rw (append-nil, append-nil)
add_extras_lem [] parts (some p) = rw append-nil
add_extras_lem (p ∷ rest) parts none = elim (Bool-cases (p.value.size == 0)) [
  | inl zero_size ↦ rw (zero_size, add_extra) (add_extras_lem rest parts (some p))
  | inr more ↦ rw (more, add_extra) (add_extras_lem rest (parts ++ p ∷ []) none ∙ simp append_assoc)
]
add_extras_lem (p ∷ rest) parts (some last) = elim (Bool-cases (p.value.size == 0)) [
  | inl zero_size ↦ rw (zero_size, add_extra) (add_extras_lem rest parts (some last))
  | inr more ↦
      rw (more, add_extra) (add_extras_lem rest (parts ++ p ∷ []) (some last) ∙ simp append_assoc)
]

add_persistent_lem :
    (persistent : Option PartitionRef) (excludes : List (Option PartitionRef))
    (parts extra : PartitionList)
    → set_last (add_extras extra (add_persistent persistent excludes parts))
      ≡ (parts ++ sized (included persistent excludes ++ extra))
        ++ first (unsized (included persistent excludes ++ extra))
unfolding add_persistent included
add_persistent_lem none excludes parts extra = add_extras_lem extra parts none
add_persistent_lem (some p) excludes parts extra = elim (Bool-cases (in_excludes p excludes)) [
  | inl excluded ↦ rw (excluded, add_persistent) (add_extras_lem extra parts none)
  | inr kept ↦ elim (Bool-cases (p.value.size == 0)) [
    | inl zero_size ↦ rw (kept, zero_size, add_persistent) (add_extras_lem extra parts (some p))
    | inr more ↦
        rw (kept, more, add_persistent)
          (add_extras_lem extra (parts ++ p ∷ []) none ∙ simp append_assoc)
  ]
]

-- The install order is: the system's own partitions that are set and not excluded, in the order
-- BIOS, bootloader, OEM, recovery, state; then the persistent and the extra partitions that have a
-- size, in order; then, last, the first of these that has none. Further ones with no size are left
-- out.
pub install_order_lem :
    (ep : ElementalPartitions) (extra : PartitionList) (excludes : List (Option PartitionRef))
    → partitions_by_install_order ep extra excludes
      ≡ (fixed_partitions ep excludes ++ sized (growing_partitions ep extra excludes))
        ++ first (unsized (growing_partitions ep extra excludes))
unfolding partitions_by_install_order
install_order_lem ep extra excludes =
    add_persistent_lem ep.persistent excludes (fixed_partitions ep excludes) extra

sized-unsized-perm : (l : PartitionList) → Perm (sized l ++ unsized l) l
sized-unsized-perm [] = Perm.refl []
sized-unsized-perm (p ∷ rest) = elim (Bool-cases (p.value.size == 0)) [
  | inl zero_size ↦
      rw zero_size (
        Perm.trans (perm_middle (sized rest) (unsized rest))
          (Perm.cons p (sized-unsized-perm rest)))
  | inr more ↦ rw more (Perm.cons p (sized-unsized-perm rest))
]

first-eq : (l : PartitionList) → length l ≤ 1 → first l ≡ l
first-eq [] h = refl
first-eq (p ∷ []) h = refl
first-eq (p ∷ q ∷ rest) h = absurd (omega arith)

-- Where at most one of the persistent and the extra partitions has no size, none is left out.
pub install_order-perm :
    (ep : ElementalPartitions) (extra : PartitionList) (excludes : List (Option PartitionRef))
    → length (unsized (growing_partitions ep extra excludes)) ≤ 1
    → Perm
        (partitions_by_install_order ep extra excludes)
        (fixed_partitions ep excludes ++ growing_partitions ep extra excludes)
install_order-perm ep extra excludes h =
    rw
      (
        install_order_lem ep extra excludes,
        first-eq (unsized (growing_partitions ep extra excludes)) h,
        append_assoc,
      )
      (Perm.append_left (fixed_partitions ep excludes)
        (sized-unsized-perm (growing_partitions ep extra excludes)))
