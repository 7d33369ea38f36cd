-- ===== src/Elemental/Images.antt =====
-- pkg/elemental/elemental.go: images of file systems, which are created from a tree and mounted on a loop
-- device. A method that changes an image through its pointer gives back the new value.
use elemental_toolkit.Base.{
  ℕ, ◌+◌, ◌%◌, ◌^◌, String, ◌<>◌, Bool, not, ◌&&◌, ◌||◌, Option, none, some, List, [], ◌∷◌, ◌==◌,
  nat_eq, string_eq, if◌then◌else◌,
}
use elemental_toolkit.Base.Text.{contains, dir, trim_space}
use elemental_toolkit.Base.Outcome.{Error, plain, Result, ok, err}
use elemental_toolkit.Base.Proc.{
  Proc, pure, raise, or_fail, value_or_fail, ignored, on_error, deferred, join_error, inside, ◌>>=◌,
  ◌>>◌,
}
use elemental_toolkit.System.{
  Env, Log, Act, run, mkdir_all, remove_all, mount, unmount, not_mount_point,
}
use elemental_toolkit.Partitioner.Mkfs.{MkfsCall, apply}
use elemental_toolkit.Specs.{Image}
use elemental_toolkit.Elemental.Sync.{
  FileParts, system_excludes, rooted_excludes, sync_data, create_squashfs, create_dir_structure,
  selinux_relabel, apply_selinux_labels,
}

abbrev pub Cleaner : Type 0
Cleaner = Act (Option Error)

module _ (env : Env) where
  -- `MountFileSystemImage`: the loop device is released where the mount fails.
  unfoldable pub mount_loop : List String → String → Proc (Image × Log) (Unit {0})
  mount_loop opts loop (img, w) =
      on_error (or_fail (inside (mount env loop img.mount_point "auto" opts)))
        (inside (run env "losetup" ("-d" ∷ loop ∷ []))) (img, w)

  unfoldable pub set_up_loop : Proc (Image × Log) String
  set_up_loop (img, w) =
      value_or_fail (inside (run env "losetup" ("--show" ∷ "-f" ∷ img.file ∷ []))) (img, w)

  abbrev pub note_loop : String → Proc (Image × Log) (Unit {0})
  note_loop loop (img, w) = (ok tt, (record img { loop_device = loop }, w))

  unfoldable pub mount_image : List String → Proc (Image × Log) (Unit {0})
  mount_image opts = do
    or_fail (λ (img, w). inside (mkdir_all env img.mount_point) (img, w))
    out ← set_up_loop
    mount_loop opts (trim_space out)
    note_loop (trim_space out)

  -- `UnmountFileSystemImage`
  unfoldable pub unmount_image : Image × Log → Option Error × (Image × Log)
  unmount_image (img, w) =
      let ((not_mnt, dropped), w₁) = not_mount_point env img.mount_point w in
      let (e, w₂) = unmount env img.mount_point w₁ in
      let ((out, e'), w₃) = run env "losetup" ("-d" ∷ img.loop_device ∷ []) w₂ in
      if not_mnt then (none, (img, w₁)) else elim e [
        | some failure ↦ (some failure, (img, w₂))
        | none ↦ (e', (record img { loop_device = "" }, w₃))
      ]

module _ (env : Env) (parts : FileParts) where
  -- `CreateFileSystemImage`: the size of an image without one, in MiB.
  abbrev pub sized_by : (ℕ × Option Error) × Log → Image → Result (Unit {0}) × (Image × Log)
  sized_by ((size, some e), w) img = (err e, (img, w))
  sized_by ((size, none), w) img = (ok tt, (record img { size = (size + 256) % 2 ^ 64 }, w))

  unfoldable pub size_image : String → List String → Proc (Image × Log) (Unit {0})
  size_image root excludes (img, w) =
      if img.size == 0 && not (root == "")
      then sized_by (parts.dir_size_mb root excludes w) img
      else (ok tt, (img, w))

  unfoldable pub has_ext : String → Bool
  has_ext fs = contains fs "ext2" || contains fs "ext3" || contains fs "ext4"

  -- What it formats the file with; only ext file systems are preloaded with a tree.
  unfoldable pub mkfs_of : Image → String → Bool → MkfsCall
  mkfs_of img root preload = record {
    file_system = img.fs;
    label = img.label;
    custom_opts = if preload && has_ext img.fs then "-d" ∷ root ∷ [] else [];
    dev = img.file;
  }

  unfoldable pub apply_mkfs : MkfsCall → Act (Option Error)
  apply_mkfs mkfs w = let ((out, e), w') = apply env mkfs w in (e, w')

  unfoldable pub format_image : String → Bool → Proc (Image × Log) (Unit {0})
  format_image root preload (img, w) =
      (if preload && not (has_ext img.fs)
          then raise (plain ("unexpected filesystem: " <> img.fs))
          else on_error (or_fail (inside (apply_mkfs (mkfs_of img root preload))))
              (inside (remove_all env img.file)))
        (img, w)

  unfoldable pub create_file_system_image :
      String → Bool → List String → Proc (Image × Log) (Unit {0})
  create_file_system_image root preload excludes = do
    or_fail (λ (img, w). inside (mkdir_all env (dir img.file)) (img, w))
    size_image root excludes
    or_fail (λ (img, w). inside (parts.create_raw_file img.file img.size) (img, w))
    format_image root preload

  -- `CreateImageFromTree`: a squashfs image, or a file system that is filled where it is mounted.
  unfoldable pub squash : String → Proc (Image × Log) (Unit {0})
  squash root = do
    or_fail (λ (img, w). inside (mkdir_all env (dir img.file)) (img, w))
    ignored (or_fail (inside (selinux_relabel env parts root [])))
    or_fail (λ (img, w).
        inside (create_squashfs env root img.file parts.squashfs_options system_excludes) (img, w))

  unfoldable pub copy_tree : String → Proc (Image × Log) (Unit {0})
  copy_tree root = do
    or_fail
        (λ (img, w). inside (sync_data env root img.mount_point (rooted_excludes root)) (img, w))
    λ (img, w). inside (create_dir_structure env parts img.mount_point) (img, w)
    or_fail (λ (img, w). inside (apply_selinux_labels env parts img.mount_point []) (img, w))

  unfoldable pub fill_mounted : String → Proc (Image × Log) (Unit {0})
  fill_mounted root = do mount_image env ("rw" ∷ []); deferred (copy_tree root) (unmount_image env)

  unfoldable pub fill_image : String → Bool → Proc (Image × Log) (Unit {0})
  fill_image root preload = do
    create_file_system_image root preload (rooted_excludes root)
    if preload then pure tt else fill_mounted root

  unfoldable pub create_image : String → Bool → Proc (Image × Log) (Unit {0})
  create_image root preload (img, w) =
      (if img.fs == "squashfs" then squash root else fill_image root preload) (img, w)

  -- The deferred loop: each cleaner that is not nil runs, and its error counts where there is none yet.
  abbrev pub clean : Option Cleaner → Image × Log → Option Error × (Image × Log)
  clean none (img, w) = (none, (img, w))
  clean (some cleaner) (img, w) = inside cleaner (img, w)

  unfoldable pub run_cleaners :
      List (Option Cleaner) → Result (Unit {0}) × (Image × Log) → Result (Unit {0}) × (Image × Log)
  run_cleaners [] (r, s) = (r, s)
  run_cleaners (cleaner ∷ rest) (r, s) = run_cleaners rest (join_error r (clean cleaner s))

  unfoldable pub create_image_from_tree :
      String → Bool → List (Option Cleaner) → Proc (Image × Log) (Unit {0})
  create_image_from_tree root preload cleaners s =
      run_cleaners cleaners (create_image root preload s)
