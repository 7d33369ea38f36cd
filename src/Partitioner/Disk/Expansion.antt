-- ===== src/Partitioner/Disk/Expansion.antt =====
-- How far `ExpandLastPartition` grows the last partition.
use elemental_toolkit.Base.{
  ℕ, ◌+◌, ◌/◌, ◌≤◌, ◌<◌, ◌≡◌, ◌≢◌, inl, inr, none, some, List, [], ◌∷◌, nat_eq, arith, Option-cases,
}
use elemental_toolkit.Base.Outcome.{Result, ok}
use elemental_toolkit.Partitioner.{DiskPartition, add64, sub64, mib_to_sectors}
use elemental_toolkit.Partitioner.Disk.{
  Disk, last?, before_last?, space_behind, compute_free_space_without_last, expand,
}
use elemental_toolkit.Partitioner.Disk.Placement.{
  end_of, IsOrdered, IsInside, IsLayout, behind_last, first_mib_pos,
}

-- Where the sectors that the check counts as free begin: behind the partition before the last, or at
-- the first MiB.
abbrev pub free_from : Disk → ℕ
free_from dev = elim (before_last? dev.parts) [ some p ↦ end_of p | none ↦ 1048576 / dev.sector_s ]

before_last?-behind :
    (l : List DiskPartition) (from last : ℕ) (p : DiskPartition)
    → before_last? l ≡ some p
    → IsOrdered from l
    → IsInside last l
    → (0 < end_of p) × (end_of p ≤ last + 1)
before_last?-behind [] from last p e o h = cc
before_last?-behind (q ∷ []) from last p e o h = cc
before_last?-behind (q ∷ r ∷ []) from last p e o h = ground arith
before_last?-behind (q ∷ r ∷ s ∷ rest) from last p e o h =
    before_last?-behind (r ∷ s ∷ rest) (end_of q) last p e o.2 h.1

-- The free sectors run from there to the end of the disk.
free_without_last :
    (dev : Disk) (free : ℕ)
    → IsLayout dev
    → compute_free_space_without_last dev ≡ ok free
    → free_from dev + free ≡ dev.last_s + 1
unfolding compute_free_space_without_last space_behind
free_without_last dev free lay f = elim (Option-cases (before_last? dev.parts)) [
  | inr (p, e) ↦
      let (pos, inside) =
        before_last?-behind dev.parts (1048576 / dev.sector_s) dev.last_s p e lay.ordered
          lay.inside in
      ground (arith, behind_last (end_of p) dev.last_s pos inside lay.small)
  | inl none_yet ↦ ground (
    arith,
    behind_last (1048576 / dev.sector_s) dev.last_s
        (first_mib_pos dev.sector_s lay.sector_pos lay.sector_small),
  )
]

-- What the checks of an expansion to a size have found.
record Expanded (dev : Disk) (size : ℕ) (old part : DiskPartition) : Type 0 where
  free : ℕ
  start : part.start_s ≡ old.start_s
  grown : old.size_s ≤ part.size_s
  space : compute_free_space_without_last dev ≡ ok free
  enough : part.size_s ≤ free

free_or_zero : Result ℕ → ℕ
free_or_zero (ok n) = n
free_or_zero _ = 0

expanded :
    (dev : Disk) (size : ℕ) (old part : DiskPartition)
    → last? dev.parts ≡ some old
    → size ≢ 0
    → expand dev size ≡ ok part
    → Expanded dev size old part
unfolding expand free_or_zero
expanded dev size old part e sized h = record {
  free = free_or_zero (compute_free_space_without_last dev);
  start = ground arith;
  grown = ground arith;
  space = ground arith;
  enough = ground arith;
}

-- An expansion to a size keeps the start, never shrinks, and ends on the disk if no gap lies before
-- the last partition.
pub expand-IsInside :
    (dev : Disk) (size : ℕ) (old part : DiskPartition)
    → IsLayout dev
    → last? dev.parts ≡ some old
    → size ≢ 0
    → old.start_s ≡ free_from dev
    → expand dev size ≡ ok part
    → (part.start_s ≡ old.start_s) × (old.size_s ≤ part.size_s) × (end_of part ≤ dev.last_s + 1)
expand-IsInside dev size old part lay e sized no_gap h =
    let x = expanded dev size old part e sized h in
    let total = free_without_last dev x.free lay x.space in
    (x.start, x.grown, omega (arith, total, x.start, x.enough))

free_known :
    (dev : Disk) → IsLayout dev → (free : ℕ) × (compute_free_space_without_last dev ≡ ok free)
unfolding compute_free_space_without_last space_behind
free_known dev lay = elim (Option-cases (before_last? dev.parts)) [
  | inr (p, e) ↦ (sub64 dev.last_s (sub64 (add64 p.start_s p.size_s) 1), ground arith)
  | inl none_yet ↦
      (sub64 dev.last_s (sub64 (1048576 / dev.sector_s) 1), ground (arith, lay.sector_pos))
]

-- With a gap before the last partition the check is too weak: the space that it compares with is
-- counted from the end of the partition before, not from the start of the last one. Any size in sectors
-- that fits in that space and not between the start and the end of the disk is accepted, and the
-- expanded partition ends behind the last sector.
pub expand_beyond_disk :
    (dev : Disk) (size sectors : ℕ) (old : DiskPartition)
    → IsLayout dev
    → last? dev.parts ≡ some old
    → size ≢ 0
    → mib_to_sectors size dev.sector_s ≡ ok sectors
    → old.size_s ≤ sectors
    → free_from dev + sectors ≤ dev.last_s + 1
    → dev.last_s + 1 < old.start_s + sectors
    → (part : DiskPartition) × (expand dev size ≡ ok part) × (dev.last_s + 1 < end_of part)
unfolding expand
expand_beyond_disk dev size sectors old lay e sized s grows fits beyond =
    let (free, f) = free_known dev lay in
    let total = free_without_last dev free lay f in
    (record old { size_s = sectors }, ground arith, beyond)
