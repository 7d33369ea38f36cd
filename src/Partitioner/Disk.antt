-- ===== src/Partitioner/Disk.antt =====
-- pkg/partitioner/disk.go: a disk's partition table, read and changed through a partitioner.
pub mod Placement
pub mod Expansion
pub mod Devices
use elemental_toolkit.Base.{
  ℕ, zero, suc, ◌+◌, ◌*◌, ◌/◌, ◌<◌, String, ◌<>◌, Bool, true, false, ◌||◌, ◌⊎◌, inl, inr, Option,
  none, some, List, [], ◌∷◌, ◌++◌, ltb, leb, ◌==◌, nat_eq, string_eq, if◌then◌else◌,
}
use elemental_toolkit.Base.Text
use elemental_toolkit.Base.Text.{contains, decimal}
use elemental_toolkit.Base.Outcome.{Error, plain, Result, ok, err, panic}
use elemental_toolkit.System.{Env, Log, Act, run, exists}
use elemental_toolkit.Partitioner.{DiskPartition, add64, sub64, mib_to_sectors}
use elemental_toolkit.Partitioner.Parted
use elemental_toolkit.Partitioner.Parted.{PartedCall}
use elemental_toolkit.Partitioner.Gdisk
use elemental_toolkit.Partitioner.Gdisk.{GdiskCall}

pub data Backend : Type 0 where
  parted gdisk : Backend

-- The interface `Partitioner`, with its two implementations.
pub data Partitioner : Type 0 where
  parted_call : PartedCall → Partitioner
  gdisk_call : GdiskCall → Partitioner

-- `NewPartitioner`
unfoldable pub new_partitioner : String → Backend → Partitioner
new_partitioner dev parted = parted_call (Parted.new_parted_call dev)
new_partitioner dev gdisk = gdisk_call (Gdisk.new_gdisk_call dev)

unfoldable pub set_partition_table_label : Partitioner → String → Option Error × Partitioner
set_partition_table_label (parted_call pc) label =
    let (e, pc') = Parted.set_partition_table_label pc label in (e, parted_call pc')
set_partition_table_label (gdisk_call gd) label =
    let (e, gd') = Gdisk.set_partition_table_label gd label in (e, gdisk_call gd')

unfoldable pub create_partition : Partitioner → DiskPartition → Partitioner
create_partition (parted_call pc) p = parted_call (Parted.create_partition pc p)
create_partition (gdisk_call gd) p = gdisk_call (Gdisk.create_partition gd p)

unfoldable pub delete_partition : Partitioner → ℕ → Partitioner
delete_partition (parted_call pc) n = parted_call (Parted.delete_partition pc n)
delete_partition (gdisk_call gd) n = gdisk_call (Gdisk.delete_partition gd n)

-- `SetPartitionFlag(partNum, flag, true)` for each flag; sgdisk ignores flags.
unfoldable pub set_flags : Partitioner → ℕ → List String → Partitioner
set_flags p n [] = p
set_flags (parted_call pc) n (f ∷ rest) =
    set_flags (parted_call (Parted.set_partition_flag pc n f true)) n rest
set_flags (gdisk_call gd) n (f ∷ rest) = set_flags (gdisk_call gd) n rest

unfoldable pub wipe_table : Partitioner → Bool → Partitioner
wipe_table (parted_call pc) b = parted_call (Parted.wipe_table pc b)
wipe_table (gdisk_call gd) b = gdisk_call (Gdisk.wipe_table gd b)

pub record Disk : Type 0 where
  pub device : String
  pub sector_s : ℕ
  pub last_s : ℕ
  pub parts : List DiskPartition
  pub label : String
  pub part_backend : Backend

-- What the partitioners read from a print out of the table: sector size, last sector, label and
-- partitions, or the first error among these. Reading is not modelled, it is an argument.
pub record Table : Type 0 where
  pub sector_s : ℕ
  pub last_s : ℕ
  pub parts : List DiskPartition
  pub label : String

-- The last element, and the one before it.
abbrev pub last? : List DiskPartition → Option DiskPartition
last? [] = none
last? (p ∷ []) = some p
last? (p ∷ q ∷ rest) = last? (q ∷ rest)

abbrev pub before_last? : List DiskPartition → Option DiskPartition
before_last? [] = none
before_last? (p ∷ []) = none
before_last? (p ∷ q ∷ []) = some p
before_last? (p ∷ q ∷ r ∷ rest) = before_last? (q ∷ r ∷ rest)

-- `dev.lastS - (p.StartS + p.SizeS - 1)`, or what is left behind the first MiB.
unfoldable pub space_behind : Disk → Option DiskPartition → Result ℕ
space_behind dev (some p) = ok (sub64 dev.last_s (sub64 (add64 p.start_s p.size_s) 1))
space_behind dev none =
    if dev.sector_s == 0 then panic else ok (sub64 dev.last_s (sub64 (1048576 / dev.sector_s) 1))

-- `computeFreeSpace`
unfoldable pub compute_free_space : Disk → Result ℕ
unfolding space_behind
compute_free_space dev = space_behind dev (last? dev.parts)

-- `computeFreeSpaceWithoutLast`
unfoldable pub compute_free_space_without_last : Disk → Result ℕ
unfolding space_behind
compute_free_space_without_last dev = space_behind dev (before_last? dev.parts)

-- The first free number and sector.
unfoldable pub next_place : Disk → Result (ℕ × ℕ)
next_place dev = elim (last? dev.parts) [
  | some p ↦ ok (p.number + 1, add64 p.start_s p.size_s)
  | none ↦ if dev.sector_s == 0 then panic else ok (1, 1048576 / dev.sector_s)
]

-- The part of `AddPartition` that places a partition of `size` MiB.
unfoldable pub place : Disk → ℕ → String → String → Result DiskPartition
place dev size file_system p_label = elim (next_place dev) [
  | panic ↦ panic
  | err e ↦ err e
  | ok (number, start) ↦ elim (mib_to_sectors size dev.sector_s) [
    | panic ↦ panic
    | err e ↦ err e
    | ok sectors ↦ elim (compute_free_space dev) [
      | panic ↦ panic
      | err e ↦ err e
      | ok free ↦
          if ltb free sectors
          then err (
              plain (
                "not enough free space in disk. Required: "
                <> decimal sectors
                <> " sectors; Available "
                <> decimal free
                <> " sectors"))
          else ok (record {
            number = number;
            start_s = start;
            size_s = sectors;
            p_label = p_label;
            file_system = file_system;
          })
    ]
  ]
]

-- The part of `ExpandLastPartition` that gives the new last partition; 0 stands for all the space.
unfoldable pub expand : Disk → ℕ → Result DiskPartition
expand dev size = elim (last? dev.parts) [
  | none ↦ err (plain "There is no partition to expand")
  | some part ↦
      if size == 0
      then ok (record part { size_s = 0 })
      else elim (mib_to_sectors size dev.sector_s) [
        | panic ↦ panic
        | err e ↦ err e
        | ok sectors ↦
            if ltb sectors part.size_s
            then err (plain "Layout plugin can only expand a partition, not shrink it")
            else elim (compute_free_space_without_last dev) [
              | panic ↦ panic
              | err e ↦ err e
              | ok free ↦
                  if ltb free sectors
                  then err (
                      plain (
                        "not enough free space for to expand last partition up to "
                        <> decimal sectors
                        <> " sectors"))
                  else ok (record part { size_s = sectors })
            ]
      ]
]

-- `unallocatedRegexp`: warnings that the GPT headers do not match the disk's size.
unfoldable pub is_unallocated : String → Bool
is_unallocated out =
    contains out "Not all of the space available" || contains out "Problem: The secondary header"

-- `.*\d+$`
unfoldable pub ends_in_digit : String → List String → Bool
ends_in_digit s [] = false
ends_in_digit s (d ∷ rest) = Text.has_suffix s d || ends_in_digit s rest

abbrev pub digits : List String
digits = "0" ∷ "1" ∷ "2" ∷ "3" ∷ "4" ∷ "5" ∷ "6" ∷ "7" ∷ "8" ∷ "9" ∷ []

unfoldable pub partition_device : Disk → ℕ → String
partition_device dev n =
    if ends_in_digit dev.device digits
    then dev.device <> "p" <> decimal n
    else dev.device <> decimal n

module _ (env : Env) where
  -- The loop of `FindPartitionDevice`: a settle and a look each round.
  unfoldable pub find_device : ℕ → String → Act Bool
  find_device zero device w = (false, w)
  find_device (suc tries) device w =
      let (r, w₁) = run env "udevadm" ("settle" ∷ []) w in
      let (there, w₂) = exists env device w₁ in
      let rest = find_device tries device w₂ in if there then (true, w₂) else rest

  -- `FindPartitionDevice`; the rounds are `tries = 0` up to `partitionTries`, which is 10.
  unfoldable pub find_partition_device : Disk → ℕ → Act (Result String)
  unfolding find_device
  find_partition_device dev n w =
      let device = partition_device dev n in
      let (there, w') = find_device 11 device w in
      (
        if there
            then ok device
            else err (
                plain (
                  "could not find partition device '"
                  <> device
                  <> "' for partition "
                  <> decimal n)),
        w',
      )

module _ (env : Env) (read_table : Backend → String → Error ⊎ Table) where
  unfoldable pub write_changes : Partitioner → Act ((String × Option Error) × Partitioner)
  write_changes (parted_call pc) w =
      let ((r, pc'), w') = Parted.write_changes env pc w in ((r, parted_call pc'), w')
  write_changes (gdisk_call gd) w =
      let ((r, gd'), w') = Gdisk.write_changes env gd w in ((r, gdisk_call gd'), w')

  unfoldable pub print : Partitioner → Act (String × Option Error)
  print (parted_call pc) = Parted.print env pc
  print (gdisk_call gd) = Gdisk.print env gd

  -- What `Reload` does with the last print out.
  unfoldable pub load : Disk → String → Option Error × Disk
  load dev out = elim (read_table dev.part_backend out) [
    | inl e ↦ (some e, dev)
    | inr t ↦ (
      none,
      record dev { sector_s = t.sector_s; last_s = t.last_s; parts = t.parts; label = t.label },
    )
  ]

  -- `Reload`; `sgdisk -e` moves headers that do not match the disk's size.
  unfoldable pub reload : Disk → Act (Option Error × Disk)
  reload dev w =
      let pc = new_partitioner dev.device dev.part_backend in
      let ((out, e), w₁) = print pc w in
      let ((fixed, failed), w₂) = run env "sgdisk" ("-e" ∷ dev.device ∷ []) w₁ in
      let ((out', e'), w₃) = print pc w₂ in
      elim e [
        | some failure ↦ ((some failure, dev), w₁)
        | none ↦
            if is_unallocated out
            then elim failed [
              | some failure ↦ ((some failure, dev), w₂)
              | none ↦ elim e' [
                | some failure ↦ ((some failure, dev), w₃)
                | none ↦ (load dev out', w₃)
              ]
            ]
            else (load dev out, w₁)
      ]

  -- The reload of a disk whose table has not been read yet.
  unfoldable pub ensure_loaded : Disk → Act (Option Error × Disk)
  ensure_loaded dev w =
      let first = reload dev w in if dev.sector_s == 0 then first else ((none, dev), w)

  -- `NewPartitionTable`
  unfoldable pub new_partition_table : Disk → String → Act ((String × Option Error) × Disk)
  new_partition_table dev label w =
      let (bad, pc) =
        set_partition_table_label (new_partitioner dev.device dev.part_backend) label in
      let (((out, e), pc'), w₁) = write_changes (wipe_table pc true) w in
      let ((failed, dev'), w₂) = reload dev w₁ in
      elim bad [
        | some failure ↦ ((("", some failure), dev), w)
        | none ↦ elim e [
          | some failure ↦ (((out, some failure), dev), w₁)
          | none ↦ elim failed [
            | some failure ↦ ((("", some failure), dev'), w₂)
            | none ↦ (((out, none), dev'), w₂)
          ]
        ]
      ]

  -- The write of a placed partition, and the reload of the table.
  unfoldable pub write_and_reload : Partitioner → Disk → Act (Option Error × Disk)
  write_and_reload pc dev w =
      let (((out, e), pc'), w₁) = write_changes pc w in
      let reloaded = reload dev w₁ in
      elim e [ some failure ↦ ((some failure, dev), w₁) | none ↦ reloaded ]

  -- `AddPartition`: the number of the new partition.
  unfoldable pub add_partition : Disk → ℕ → String → String → List String → Act (Result ℕ × Disk)
  add_partition dev₀ size file_system p_label flags w₀ =
      let ((unread, dev), w) = ensure_loaded dev₀ w₀ in
      let (bad, pc) =
        set_partition_table_label (new_partitioner dev.device dev.part_backend) dev.label in
      elim unread [
        | some failure ↦ ((err failure, dev), w)
        | none ↦ elim bad [
          | some failure ↦ ((err failure, dev), w)
          | none ↦ elim (place dev size file_system p_label) [
            | panic ↦ ((panic, dev), w)
            | err e ↦ ((err e, dev), w)
            | ok part ↦
                let ((failed, dev'), w') =
                  write_and_reload (set_flags (create_partition pc part) part.number flags) dev w in
                (
                  elim failed [
                    | some failure ↦ (err failure, dev')
                    | none ↦ (ok part.number, dev')
                  ],
                  w',
                )
          ]
        ]
      ]

  -- `ExpandLastPartition` up to the growth of the file system: the device to grow.
  unfoldable pub expand_last_partition : Disk → ℕ → Act (Result String × Disk)
  expand_last_partition dev₀ size w₀ =
      let ((unread, dev), w) = ensure_loaded dev₀ w₀ in
      let (bad, pc) =
        set_partition_table_label (new_partitioner dev.device dev.part_backend) dev.label in
      elim unread [
        | some failure ↦ ((err failure, dev), w)
        | none ↦ elim bad [
          | some failure ↦ ((err failure, dev), w)
          | none ↦ elim (expand dev size) [
            | panic ↦ ((panic, dev), w)
            | err e ↦ ((err e, dev), w)
            | ok part ↦
                let ((failed, dev'), w') =
                  write_and_reload (create_partition (delete_partition pc part.number) part) dev
                    w in
                let (found, w'') = find_partition_device env dev' part.number w' in
                elim failed [
                  | some failure ↦ ((err failure, dev'), w')
                  | none ↦ ((found, dev'), w'')
                ]
          ]
        ]
      ]
