-- ===== src/Snapshotter/LoopDevice.antt =====
-- pkg/snapshotter/loopdevice.go: each snapshot is an image in a directory with its number as name, and a
-- symbolic link names the active one.
pub mod Transaction
pub mod Fresh
pub mod Grows
pub mod Retention
pub mod Commit
pub mod Link
use mathlib.Core.List.{reverse}
use elemental_toolkit.Base.{
  ℕ, zero, suc, ◌+◌, String, ◌<>◌, Bool, true, false, not, ◌&&◌, ◌||◌, Option, none, some, List, [],
  ◌∷◌, ◌++◌, map, length, ltb, leb, ◌==◌, nat_eq, string_eq, if◌then◌else◌,
}
use elemental_toolkit.Base.Text.{
  decimal, has_suffix, join_space, join, dir, base, trim_space, split_lines, read_decimal,
}
use elemental_toolkit.Base.Order.{sort_by}
use elemental_toolkit.Base.Outcome.{Error, plain, Result, ok, err, panic}
use elemental_toolkit.Base.Proc.{
  Proc, pure, raise, or_fail, value_or_fail, call, on_error, ignored, inside, ◌>>=◌, ◌>>◌,
}
use elemental_toolkit.System.{
  Env, Log, Act, run, mkdir_all, remove_all, exists, exists_no_follow, read_dir, delete, symlink,
  hard_link, mount, unmount,
}
use elemental_toolkit.Links.{resolve_link}
use elemental_toolkit.Elemental.{is_rw_mount_point}
use elemental_toolkit.Specs.{Image, ImageSource}
use elemental_toolkit.Snapshotter.{Snapshot}

-- `LoopDevice`; the configuration is in its last three fields.
pub record LoopDevice : Type 0 where
  pub root_dir : String
  pub efi_dir : String
  pub current_snapshot_id : ℕ
  pub active_snapshot_id : ℕ
  pub legacy_clean : Bool
  pub max_snaps : ℕ
  pub size : ℕ
  pub fs : String

abbrev pub snaps_path : String → String
snaps_path root = join root ".snapshots"

abbrev pub snap_dir : String → ℕ → String
snap_dir root id = join (snaps_path root) (decimal id)

abbrev pub active_path : String → String
active_path root = join (snaps_path root) "active"

abbrev pub working_img_dir : String
working_img_dir = "/run/elemental/workingtree"

-- What a snapshot's active link holds.
abbrev pub link_of : ℕ → String
link_of id = decimal id <> "/" <> "snapshot.img"

-- The entries of the snapshots' directory that are numbers.
unfoldable pub ids_of : List String → List ℕ
ids_of [] = []
ids_of (name ∷ rest) = elim (read_decimal name) [ none ↦ ids_of rest | some id ↦ id ∷ ids_of rest ]

-- `HasSuffix` of a line for the image of snapshot `id`.
unfoldable pub backs : ℕ → List String → Bool
backs id [] = false
backs id (file ∷ rest) =
    has_suffix file (join (join ".snapshots" (decimal id)) "snapshot.img") || backs id rest

-- The identifiers without the active one.
unfoldable pub passive_of : ℕ → List ℕ → List ℕ
passive_of active [] = []
passive_of active (id ∷ rest) =
    if id == active then passive_of active rest else id ∷ passive_of active rest

unfoldable pub is_listed : ℕ → List ℕ → Bool
is_listed id [] = false
is_listed id (i ∷ rest) = i == id || is_listed id rest

-- `snapshotToImage`
unfoldable pub snapshot_to_image : LoopDevice → Snapshot → Image
snapshot_to_image l snapshot = record {
  file = snapshot.path;
  label = snapshot.label;
  size = l.size;
  fs = l.fs;
  source = none;
  mount_point = snapshot.mount_point;
  loop_device = "";
}

-- The numbers from 0 to `n`.
unfoldable pub numbers : ℕ → List ℕ
numbers zero = 0 ∷ []
numbers (suc n) = numbers n ++ (suc n ∷ [])

-- The passive snapshots, in reverse, and the fallbacks: the active system, the passive ones and the
-- recovery system.
unfoldable pub boot_variables : List ℕ → List (String × String)
unfolding numbers
boot_variables ids =
    ("default_fallback", join_space (map decimal (numbers (length ids + 1))))
    ∷ ("passive_snaps", join_space (map decimal (reverse ids)))
    ∷ []

-- What the loop device snapshotter calls: `CreateImageFromTree` of pkg/elemental (image, root tree) and
-- `SetPersistentVariables` of the bootloader (file, variables).
pub record Parts : Type 0 where
  pub create_image_from_tree : Image → String → Act (Option Error)
  pub set_persistent_variables : String → List (String × String) → Act (Option Error)

module _ (env : Env) where
  -- `GetSnapshots`
  unfoldable pub get_snapshots : String → Proc Log (List ℕ)
  get_snapshots root w =
      let (there, w₁) = exists env (snaps_path root) w in
      let ((names, e), w₂) = read_dir env (snaps_path root) w₁ in
      if there
      then (elim e [ none ↦ ok (ids_of names) | some failure ↦ err failure ], w₂)
      else (err (plain "cannot determine snapshots, initate snapshotter first"), w₁)

  -- `isSnapshotInUse`
  unfoldable pub is_snapshot_in_use : ℕ → Proc Log Bool
  is_snapshot_in_use id = do
    out ← value_or_fail (run env "losetup" ("-ln" ∷ "--output" ∷ "BACK-FILE" ∷ []))
    pure (backs id (split_lines (trim_space out)))

  abbrev set_current : Bool → ℕ → LoopDevice × Log → LoopDevice × Log
  set_current in_use id (l, w) = (if in_use then record l { current_snapshot_id = id } else l, w)

  -- The loop of `getNextSnapshotID`: the greatest identifier, from `id` on.
  unfoldable pub scan_ids : List ℕ → ℕ → Proc (LoopDevice × Log) ℕ
  scan_ids [] id = pure id
  scan_ids (i ∷ rest) id = do
    in_use ← inside (is_snapshot_in_use i)
    λ s. (ok tt, set_current in_use i s)
    scan_ids rest (if ltb id i then i else id)

  -- `getNextSnapshotID`. The source wraps to a negative number where the greatest is 2 ^ 63 - 1; the result
  -- stands for the code's where it is below 2 ^ 63.
  unfoldable pub get_next_snapshot_id : Proc (LoopDevice × Log) ℕ
  get_next_snapshot_id = do
    ids ← λ (l, w). inside (get_snapshots l.root_dir) (l, w)
    id ← scan_ids ids 0
    pure (id + 1)

  -- The snapshot that the active link leads to. A name with a sign, which `Atoi` reads, is refused here.
  unfoldable pub follow_active : String → Proc Log ℕ
  follow_active root = do
    resolved ← resolve_link env (active_path root) root 4
    elim (read_decimal (base (dir resolved))) [
      | none ↦ raise (plain "failed parsing snapshot ID")
      | some id ↦ pure id
    ]

  -- `getActiveSnapshot`, with 0 where there is none.
  unfoldable pub get_active_snapshot : String → Proc Log ℕ
  get_active_snapshot root = do
    there ← value_or_fail (exists_no_follow env (active_path root))
    if there then follow_active root else pure 0

  -- `getPassiveSnapshots`
  unfoldable pub get_passive_snapshots : String → Proc Log (List ℕ)
  get_passive_snapshots root = do
    ids ← get_snapshots root
    active ← get_active_snapshot root
    pure (passive_of active ids)

  -- `DeleteSnapshot`
  unfoldable pub delete_link : LoopDevice → ℕ → Proc Log (Unit {0})
  delete_link l id =
      if l.active_snapshot_id == id then or_fail (delete env (active_path l.root_dir)) else pure tt

  unfoldable pub delete_listed : LoopDevice → ℕ → Proc Log (Unit {0})
  unfolding delete_link
  delete_listed l id = do
    snaps ← get_snapshots l.root_dir
    if is_listed id snaps
        then (delete_link l id >> or_fail (remove_all env (snap_dir l.root_dir id)))
        else pure tt

  unfoldable pub delete_snapshot : LoopDevice → ℕ → Proc Log (Unit {0})
  unfolding delete_listed
  delete_snapshot l id = do
    in_use ← is_snapshot_in_use id
    if in_use
        then raise (plain "cannot delete a snapshot that is currently in use")
        else delete_listed l id

  -- The loop of `cleanOldSnapshots` over the passive snapshots, from the oldest on: while there are more
  -- than `max_snaps - 1`, an integer that may be -1. The list of
  -- failures that `cleanOldSnapshots` returns is left out: its caller drops it.
  unfoldable pub delete_oldest : LoopDevice → List ℕ → Proc Log (Unit {0})
  delete_oldest l [] = pure tt
  delete_oldest l (id ∷ rest) =
      let next = ignored (delete_snapshot l id) >> delete_oldest l rest in
      if ltb l.max_snaps (length (id ∷ rest) + 1) then next else pure tt

  -- `cleanOldSnapshots`
  unfoldable pub clean_old_snapshots : LoopDevice → Proc Log (Unit {0})
  clean_old_snapshots l = do
    ids ← get_passive_snapshots l.root_dir
    delete_oldest l (sort_by leb ids)

  unfoldable pub is_mode : String → Act Bool
  is_mode mode = exists env ("/run/elemental/" <> mode)

  -- `cleanLegacyImages`
  unfoldable pub unused_images : LoopDevice → Proc Log String
  unused_images l w =
      let (recovery, w') = is_mode "recovery_mode" w in
      if ltb 0 l.current_snapshot_id
      then (ok (join l.root_dir "cOS"), w)
      else (ok (if recovery then join l.root_dir "cOS" else join l.root_dir "cOS/passive.img"), w')

  unfoldable pub legacy_path : LoopDevice → Proc Log String
  legacy_path l = do
    passive ← call (is_mode "passive_mode")
    if passive then pure (join l.root_dir "cOS/active.img") else unused_images l

  unfoldable pub clean_legacy_images : LoopDevice → Proc Log (Unit {0})
  clean_legacy_images l =
      if l.legacy_clean
      then (do
        path ← legacy_path l
        there ← call (exists env path)
        (if there then or_fail (remove_all env path) else pure tt))
      else pure tt
