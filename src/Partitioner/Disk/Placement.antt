-- ===== src/Partitioner/Disk/Placement.antt =====
-- Where `AddPartition` puts a new partition.
use native.Mathlib.Nat.{le-div_iff_mul-le}
use mathlib.Core.List.{cons≢nil}
use elemental_toolkit.Base.{
  ℕ, ◌+◌, ◌/◌, ◌^◌, ◌≤◌, ◌<◌, String, ◌≡◌, refl, sym, inl, inr, none, some, List, [], ◌∷◌, nat_eq,
  All, arith, Option-cases,
}
use elemental_toolkit.Base.Outcome.{Result, ok}
use elemental_toolkit.Partitioner.{DiskPartition, sub64, mib_to_sectors}
use elemental_toolkit.Partitioner.Disk.{
  Disk, last?, space_behind, compute_free_space, next_place, place,
}

-- The first sector behind a partition.
abbrev pub end_of : DiskPartition → ℕ
end_of p = p.start_s + p.size_s

-- Each partition has sectors and lies behind the sectors before `from`, in order of the table.
abbrev pub IsOrdered : ℕ → List DiskPartition → Type 0
IsOrdered from [] = Unit
IsOrdered from (p ∷ rest) = (from ≤ p.start_s) × (0 < p.size_s) × IsOrdered (end_of p) rest

-- Nothing reaches past the last sector.
abbrev pub IsInside : ℕ → List DiskPartition → Type 0
IsInside last parts = All (λ p. end_of p ≤ last + 1) parts

-- A table as a partitioner reads it from a disk with at least one MiB.
pub record IsLayout (dev : Disk) : Type 0 where
  pub sector_pos : 0 < dev.sector_s
  pub sector_small : dev.sector_s ≤ 1048576
  pub room : 1048576 / dev.sector_s ≤ dev.last_s
  pub small : dev.last_s + 1 < 2 ^ 64
  pub ordered : IsOrdered (1048576 / dev.sector_s) dev.parts
  pub inside : IsInside dev.last_s dev.parts

pub last?-inside :
    (l : List DiskPartition) (last : ℕ) (p : DiskPartition)
    → last? l ≡ some p
    → IsInside last l
    → end_of p ≤ last + 1
last?-inside [] last p e h = cc
last?-inside (q ∷ []) last p e h = ground arith
last?-inside (q ∷ r ∷ rest) last p e h = last?-inside (r ∷ rest) last p e h.1

pub last?-behind :
    (l : List DiskPartition) (from : ℕ) (p : DiskPartition)
    → last? l ≡ some p
    → IsOrdered from l
    → (from < end_of p) × All (λ q. end_of q ≤ end_of p) l
last?-behind [] from p e h = cc
last?-behind (q ∷ []) from p e h = ground arith
last?-behind (q ∷ r ∷ rest) from p e h =
    let (above, behind) = last?-behind (r ∷ rest) (end_of q) p e h.2 in
    (omega arith, (omega arith, behind))

-- What a placement rests on.
record Placed (dev : Disk) (size : ℕ) (part : DiskPartition) : Type 0 where
  free : ℕ
  next : next_place dev ≡ ok (part.number, part.start_s)
  sectors : mib_to_sectors size dev.sector_s ≡ ok part.size_s
  space : compute_free_space dev ≡ ok free
  enough : part.size_s ≤ free

free_or_zero : Result ℕ → ℕ
free_or_zero (ok n) = n
free_or_zero _ = 0

placed :
    (dev : Disk) (size : ℕ) (file_system p_label : String) (part : DiskPartition)
    → place dev size file_system p_label ≡ ok part
    → Placed dev size part
unfolding place free_or_zero
placed dev size file_system p_label part h = record {
  free = free_or_zero (compute_free_space dev);
  next = ground arith;
  sectors = ground arith;
  space = ground arith;
  enough = ground arith;
}

pub behind_last :
    (p_end last : ℕ)
    → 0 < p_end
    → p_end ≤ last + 1
    → last + 1 < 2 ^ 64
    → p_end + sub64 last (sub64 p_end 1) ≡ last + 1
behind_last p_end last pos h small = omega arith

All-widen :
    (l : List DiskPartition) (a b : ℕ)
    → a ≡ b
    → All (λ q. end_of q ≤ a) l
    → All (λ q. end_of q ≤ b) l
All-widen l a b e h = rw (sym e) h

pub first_mib_pos : (sector : ℕ) → 0 < sector → sector ≤ 1048576 → 0 < 1048576 / sector
first_mib_pos sector pos small = (le-div_iff_mul-le pos).1 (omega arith)

last?-eq-none : (l : List DiskPartition) → last? l ≡ none → l ≡ []
last?-eq-none [] h = refl
last?-eq-none (p ∷ []) h = cc
last?-eq-none (p ∷ q ∷ rest) h = absurd (cons≢nil (last?-eq-none (q ∷ rest) h))

-- The place is behind all partitions, and all the sectors behind it are free.
next_place_free :
    (dev : Disk) (number start free : ℕ)
    → IsLayout dev
    → next_place dev ≡ ok (number, start)
    → compute_free_space dev ≡ ok free
    → (start + free ≡ dev.last_s + 1)
      × (1048576 / dev.sector_s ≤ start)
      × All (λ q. end_of q ≤ start) dev.parts
unfolding next_place compute_free_space space_behind
next_place_free dev number start free lay n f = elim (Option-cases (last? dev.parts)) [
  | inr (p, e) ↦
      let inside = last?-inside dev.parts dev.last_s p e lay.inside in
      let (above, behind) = last?-behind dev.parts (1048576 / dev.sector_s) p e lay.ordered in
      let at : end_of p ≡ start = ground arith in
      (
        ground (arith, behind_last (end_of p) dev.last_s),
        omega arith,
        All-widen dev.parts (end_of p) start at behind,
      )
  | inl none_yet ↦
      let first = first_mib_pos dev.sector_s lay.sector_pos lay.sector_small in
      (
        ground (arith, behind_last (1048576 / dev.sector_s) dev.last_s),
        ground arith,
        rw (last?-eq-none dev.parts none_yet) tt,
      )
]

-- A partition that is placed on a well-formed table begins behind every partition, at the first MiB
-- or later, and its last sector is on the disk.
pub place-IsInside :
    (dev : Disk) (size : ℕ) (file_system p_label : String) (part : DiskPartition)
    → IsLayout dev
    → place dev size file_system p_label ≡ ok part
    → All (λ q. end_of q ≤ part.start_s) dev.parts
      × (1048576 / dev.sector_s ≤ part.start_s)
      × (end_of part ≤ dev.last_s + 1)
place-IsInside dev size file_system p_label part lay h =
    let p = placed dev size file_system p_label part h in
    let (total, above, behind) =
      next_place_free dev part.number part.start_s p.free lay p.next p.space in
    (behind, above, omega (arith, p.enough))
