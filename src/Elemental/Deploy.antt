-- ===== src/Elemental/Deploy.antt =====
-- pkg/elemental/elemental.go: the source of a system is dumped into a tree, copied as an image, or deployed
-- as a recovery system.
pub mod Mounted
use elemental_toolkit.Base.{
  ℕ, String, ◌<>◌, Bool, true, false, not, ◌&&◌, ◌||◌, Option, none, some, List, [], ◌∷◌, ◌==◌,
  string_eq, if◌then◌else◌,
}
use elemental_toolkit.Base.Text.{join, dir, base, without_ext}
use elemental_toolkit.Base.Outcome.{Error, plain, Result, ok, err, panic}
use elemental_toolkit.Base.Proc.{
  Proc, pure, raise, or_fail, value_or_fail, call, inside, ◌>>=◌, ◌>>◌,
}
use elemental_toolkit.System.{
  Env, Log, Act, run, mkdir_all, remove_all, exists, exists_no_follow, symlink,
}
use elemental_toolkit.Specs.{Image, ImageSource}
use elemental_toolkit.Elemental.Sync.{
  FileParts, rooted_excludes, sync_data, mirror_data, create_dir_structure,
}
use elemental_toolkit.Elemental.Images.{Cleaner, mount_image, unmount_image, create_image_from_tree}

-- An image of a file that is mounted to be read.
abbrev pub image_of : String → String → Image
image_of file mount_point = record {
  file = file;
  label = "";
  size = 0;
  fs = "";
  source = none;
  mount_point = mount_point;
  loop_device = "";
}

module _ (env : Env) (parts : FileParts) where
  -- A function that copies a tree: source, target, excludes.
  abbrev pub SyncFunc : Type 0
  SyncFunc = String → String → List String → Act (Option Error)

  -- `DumpSource` of a container image, whose digest it sets.
  abbrev pub extracted :
      (String × Option Error) × Log → ImageSource → Result (Unit {0}) × (ImageSource × Log)
  extracted ((digest, some e), w) source = (err e, (source, w))
  extracted ((digest, none), w) source = (ok tt, (record source { digest = digest }, w))

  unfoldable pub verify_image : Proc (ImageSource × Log) (Unit {0})
  verify_image (source, w) = elim parts.cosign [
    | none ↦ (ok tt, (source, w))
    | some verify ↦ or_fail (inside (verify source.source)) (source, w)
  ]

  unfoldable pub dump_image : String → Proc (ImageSource × Log) (Unit {0})
  dump_image target = do
    verify_image
    λ (source, w). extracted (parts.extract_image source.source target w) source

  -- Of a file, which is mounted meanwhile: the error of the unmount is dropped.
  unfoldable pub read_mounted : SyncFunc → String → Proc (Image × Log) (Unit {0})
  read_mounted sync target s =
      let (r, s') = or_fail (inside (sync "/run/elemental/imgsrc" target [])) s in
      let (dropped, s'') = unmount_image env s' in (r, s'')

  unfoldable pub dump_mounted : SyncFunc → String → String → Proc Log (Unit {0})
  dump_mounted sync file target w =
      let (r, (img, w')) =
        (mount_image env ("auto" ∷ "ro" ∷ []) >> read_mounted sync target)
          (image_of file "/run/elemental/imgsrc", w) in
      (r, w')

  unfoldable pub dump_file : SyncFunc → String → Proc (ImageSource × Log) (Unit {0})
  dump_file sync target = do
    or_fail (inside (mkdir_all env "/run/elemental/imgsrc"))
    λ (source, w). inside (dump_mounted sync source.source target) (source, w)

  unfoldable pub dump_dir : SyncFunc → String → Proc (ImageSource × Log) (Unit {0})
  dump_dir sync target (source, w) =
      or_fail (inside (sync source.source target (rooted_excludes source.source))) (source, w)

  unfoldable pub dump_by_type : SyncFunc → String → Proc (ImageSource × Log) (Unit {0})
  dump_by_type sync target (source, w) =
      (if source.src_type == "oci"
          then dump_image target
          else if source.src_type == "dir"
          then dump_dir sync target
          else if source.src_type == "file"
          then dump_file sync target
          else raise (plain "unknown image source type"))
        (source, w)

  -- `DumpSource`: a function that is nil stands for `SyncData`.
  abbrev pub sync_or_default : Option SyncFunc → SyncFunc
  sync_or_default none = sync_data env
  sync_or_default (some sync) = sync

  unfoldable pub dump_source : String → Option SyncFunc → Proc (ImageSource × Log) (Unit {0})
  dump_source target sync = do
    or_fail (inside (mkdir_all env target))
    dump_by_type (sync_or_default sync) target

  -- `MirrorRoot`
  unfoldable pub mirror_root : String → Proc (ImageSource × Log) (Unit {0})
  mirror_root target = do
    dump_source target (some (mirror_data env))
    inside (create_dir_structure env parts target)

  -- `CopyFileImg`
  unfoldable pub set_label : Proc (Image × Log) (Unit {0})
  set_label (img, w) =
      (if not (img.fs == "squashfs") && not (img.label == "")
          then value_or_fail (inside (run env "tune2fs" ("-L" ∷ img.label ∷ img.file ∷ [])))
            >> pure tt
          else pure tt)
        (img, w)

  unfoldable pub copy_file_source : ImageSource → Proc (Image × Log) (Unit {0})
  copy_file_source source = do
    or_fail (λ (img, w). inside (mkdir_all env (dir img.file)) (img, w))
    or_fail (λ (img, w). inside (parts.copy_file source.source img.file) (img, w))
    set_label

  abbrev pub copy_source : Option ImageSource → Proc (Image × Log) (Unit {0})
  copy_source none (img, w) = (panic, (img, w))
  copy_source (some source) (img, w) =
      (if source.src_type == "file"
          then copy_file_source source
          else raise (plain "copying a file image requires an image source of file type"))
        (img, w)

  unfoldable pub copy_file_img : Proc (Image × Log) (Unit {0})
  copy_file_img (img, w) = copy_source img.source (img, w)

  -- `DeployRecoverySystem`: the tree of the source, and what cleans it up.
  abbrev pub Tree : Type 0
  Tree = String × Option Cleaner

  unfoldable pub clean_mounted : Image → Cleaner
  clean_mounted img w =
      let (e, (img', w₁)) = unmount_image env (img, w) in
      let removed = remove_all env img.mount_point w₁ in
      elim e [ some failure ↦ (some failure, w₁) | none ↦ removed ]

  unfoldable pub mounted_tree : String → String → Proc Log Tree
  mounted_tree file tree w =
      let (r, (img, w')) = mount_image env [] (image_of file tree, w) in
      (elim r [ ok done ↦ ok (tree, some (clean_mounted img)) | err e ↦ err e | panic ↦ panic ], w')

  -- The digest that the dump sets stays in the source of the image.
  unfoldable pub dumped_tree : ImageSource → String → Proc (Image × Log) Tree
  dumped_tree source tree (img, w) =
      let (r, (source', w')) = mirror_root tree (source, w) in
      (
        elim r [ ok done ↦ ok (tree, some (remove_all env tree)) | err e ↦ err e | panic ↦ panic ],
        (record img { source = some source' }, w'),
      )

  unfoldable pub tree_of : ImageSource → String → Proc (Image × Log) Tree
  tree_of source tree =
      if source.src_type == "dir"
      then pure (source.source, none)
      else if source.src_type == "file"
      then inside (mounted_tree source.source tree)
      else if source.src_type == "oci"
      then dumped_tree source tree
      else pure (tree, none)

  -- The files that are there are copied; links stand for the names of the kernel and the initrd.
  unfoldable pub copy_if_there : String → String → Proc Log (Unit {0})
  copy_if_there output_dir file = do
    there ← call (exists env file)
    if there then or_fail (parts.copy_file file (join output_dir (base file))) else pure tt

  unfoldable pub copy_boot_files : String → List String → Proc Log (Unit {0})
  copy_boot_files output_dir [] = pure tt
  copy_boot_files output_dir (file ∷ rest) =
      copy_if_there output_dir file >> copy_boot_files output_dir rest

  unfoldable pub link_unless_there : String → String → Proc Log (Unit {0})
  link_unless_there path target = do
    there ← call (exists_no_follow env path)
    if there.0 then pure tt else or_fail (symlink env (base target) path)

  unfoldable pub link_each : String → List String → List (String × String) → Proc Log (Unit {0})
  link_each output_dir taken [] = pure tt
  link_each output_dir taken ((name, target) ∷ rest) =
      (if is_taken name taken then pure tt else link_unless_there (join output_dir name) target)
      >> link_each output_dir taken rest
    where
      is_taken : String → List String → Bool
      is_taken name [] = false
      is_taken name (x ∷ rest) = x == name || is_taken name rest

  unfoldable pub deploy_boot_files : String → String → String × String → Proc Log (Unit {0})
  deploy_boot_files output_dir tree (kernel, initrd) = do
    copy_boot_files output_dir (kernel ∷ initrd ∷ join tree "etc/elemental/bootargs.cfg" ∷ [])
    link_each output_dir (base kernel ∷ base initrd ∷ [])
        (parts.visited (("vmlinuz", kernel) ∷ ("linux", kernel) ∷ ("initrd", initrd) ∷ []))

  unfoldable pub deploy_tree : Tree → Proc (Image × Log) (Unit {0})
  deploy_tree (tree, cleaner) = do
    found ← value_or_fail (inside (parts.find_kernel_initrd tree))
    λ (img, w). inside (deploy_boot_files (dir img.file) tree found) (img, w)
    create_image_from_tree env parts tree false (cleaner ∷ [])

  abbrev pub deploy_source : Option ImageSource → Proc (Image × Log) (Unit {0})
  deploy_source none (img, w) = (panic, (img, w))
  deploy_source (some source) (img, w) =
      (tree_of source (without_ext img.file <> ".imgTree") >>= deploy_tree) (img, w)

  unfoldable pub deploy_recovery_system : Proc (Image × Log) (Unit {0})
  deploy_recovery_system = do
    or_fail (λ (img, w). inside (mkdir_all env (dir img.file)) (img, w))
    λ (img, w). deploy_source img.source (img, w)
