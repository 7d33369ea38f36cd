-- ===== src/Specs/Disk.antt =====
-- `MinDiskSize` and `DiskSpec.Sanitize`: a disk of a fixed size holds its partitions.
use elemental_toolkit.Base.{
  ℕ, ◌+◌, ◌%◌, ◌^◌, ◌<◌, ◌≡◌, ap, ◌∙◌, ◌≢◌, false, [], ◌∷◌, arith, ◌==◌, nat_eq, string_eq,
  if◌then◌else◌,
}
use elemental_toolkit.Base.Outcome.{ok}
use elemental_toolkit.Partitions.{PartitionList, partitions_by_install_order}
use elemental_toolkit.Specs.{DiskSpec, add_sizes, min_disk_size, disk_sanitize}

-- The MiB that the partitions of a list need, with no bound on the sum: one with no size gets 64.
abbrev pub needed : PartitionList → ℕ
needed [] = 0
needed (p ∷ rest) = (if p.value.size == 0 then 64 else p.value.size) + needed rest

abbrev pub needed_by : DiskSpec → ℕ
needed_by d = 2 + needed (partitions_by_install_order d.partitions [] [])

add_sizes_lem :
    (l : PartitionList) (min : ℕ) → min < 2 ^ 64 → add_sizes l min ≡ (min + needed l) % 2 ^ 64
unfolding add_sizes
add_sizes_lem [] min h = omega arith
add_sizes_lem (p ∷ rest) min h =
    add_sizes_lem rest ((min + (if p.value.size == 0 then 64 else p.value.size)) % 2 ^ 64)
      (omega arith)
    ∙ omega arith

-- `MinDiskSize` is the space that the partitions need, with one MiB before and one behind them, reduced
-- to 64 bits.
pub min_disk_size_lem : (d : DiskSpec) → min_disk_size d ≡ needed_by d % 2 ^ 64
unfolding min_disk_size
min_disk_size_lem d = add_sizes_lem (partitions_by_install_order d.partitions [] []) 2 (omega arith)

sanitized_size :
    (d d' : DiskSpec)
    → disk_sanitize d ≡ ok d'
    → d.size ≢ 0
    → d.expandable ≡ false
    → (d'.partitions ≡ d.partitions) × (d'.size ≡ d.size) × (min_disk_size d' < d'.size)
unfolding disk_sanitize
sanitized_size d d' h fixed e = (ground arith, ground arith, ground arith)

-- A disk of a fixed size that passes the check is larger than its partitions need together, if what
-- they need is below 2 ^ 64 MiB.
pub disk_sanitize_fits :
    (d d' : DiskSpec)
    → disk_sanitize d ≡ ok d'
    → d.size ≢ 0
    → d.expandable ≡ false
    → needed_by d < 2 ^ 64
    → needed_by d' < d'.size
disk_sanitize_fits d d' h fixed e small =
    let (parts, size, fits) = sanitized_size d d' h fixed e in
    let same : needed_by d' ≡ needed_by d =
      ap (λ ep. 2 + needed (partitions_by_install_order ep [] [])) parts in
    omega (arith, min_disk_size_lem d', same)
