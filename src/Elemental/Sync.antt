-- ===== src/Elemental/Sync.antt =====
-- pkg/utils/common.go: rsync, squashfs images and the directories of a root tree. pkg/elemental/elemental.go:
-- SELinux labels.
use elemental_toolkit.Base.{
  ℕ, String, ◌<>◌, Bool, true, false, ◌&&◌, ◌||◌, Option, none, some, List, [], ◌∷◌, ◌++◌, map,
  ◌==◌, nat_eq, string_eq, if◌then◌else◌,
}
use elemental_toolkit.Base.Text.{join, has_suffix, split_spaces}
use elemental_toolkit.Base.Outcome.{Error}
use elemental_toolkit.Base.Proc.{Proc, pure, or_fail, ◌>>◌}
use elemental_toolkit.System.{Env, Log, Act, run, mkdir_all, remove_all, exists}
use elemental_toolkit.Chroot.{chrooted_callback}

-- What these functions call: `CommandExists` of the runner and `Chmod` of the file system; of pkg/utils
-- `DirSizeMB`, `CreateRAWFile` (path, size in MiB), `CopyFile` (source, target) and `FindKernelInitrd`;
-- the extraction of a container image (image, target), which gives its digest, and its verification with
-- cosign, where that is configured; the compression options of squashfs; the order in which a loop visits
-- the entries of a map.
pub record FileParts : Type 0 where
  pub command_exists : Log → String → Bool
  pub chmod : String → Act (Option Error)
  pub dir_size_mb : String → List String → Act (ℕ × Option Error)
  pub create_raw_file : String → ℕ → Act (Option Error)
  pub copy_file : String → String → Act (Option Error)
  pub find_kernel_initrd : String → Act ((String × String) × Option Error)
  pub extract_image : String → String → Act (String × Option Error)
  pub cosign : Option (String → Act (Option Error))
  pub squashfs_options : List String
  pub visited : List (String × String) → List (String × String)

-- `GetDefaultSystemExcludes` and `GetDefaultSystemRootedExcludes`
abbrev pub system_excludes : List String
system_excludes =
    ".snapshots" ∷ "mnt/*" ∷ "proc/*" ∷ "sys/*" ∷ "dev/*" ∷ "tmp/*" ∷ "run/*" ∷ "host"
    ∷ "etc/resolv.conf" ∷ []

abbrev pub rooted_excludes : String → List String
rooted_excludes root = map (join root) system_excludes

unfoldable pub with_slash : String → String
with_slash path = if has_suffix path "/" then path else path <> "/"

-- The options of mksquashfs, split at spaces; `-e` with what follows it is ignored.
abbrev expanded_option : List String → List String
expanded_option [] = []
expanded_option (first ∷ rest) = if first == "-e" then [] else first ∷ rest

unfoldable pub expanded : List String → List String
expanded [] = []
expanded (option ∷ rest) = expanded_option (split_spaces option) ++ expanded rest

module _ (env : Env) where
  -- `rsyncWrapper`, on the file system of the host, where each path is its own raw path.
  unfoldable pub rsync : String → String → List String → Act (Option Error)
  rsync source target flags w =
      let ((out, e), w') =
        run env "rsync" (flags ++ (with_slash source ∷ with_slash target ∷ [])) w in
      (e, w')

  -- `SyncData` and `MirrorData`
  unfoldable pub sync_data : String → String → List String → Act (Option Error)
  sync_data source target excludes = rsync source target (
      "--progress"
      ∷ "--partial"
      ∷ "--human-readable"
      ∷ "--archive"
      ∷ "--xattrs"
      ∷ "--acls"
      ∷ "--filter=-x security.selinux"
      ∷ map (λ e. "--exclude=" <> e) excludes)

  unfoldable pub mirror_data : String → String → List String → Act (Option Error)
  mirror_data source target excludes = rsync source target (
      "--progress"
      ∷ "--partial"
      ∷ "--human-readable"
      ∷ "--archive"
      ∷ "--xattrs"
      ∷ "--acls"
      ∷ "--delete"
      ∷ "--filter=-x security.selinux"
      ∷ map (λ e. "--exclude=" <> e) excludes)

  -- `CreateSquashFS`
  unfoldable pub create_squashfs : String → String → List String → List String → Act (Option Error)
  create_squashfs source destination options excludes w =
      let ((out, e), w') =
        run env "mksquashfs"
          ((source ∷ destination ∷ expanded options) ++ ("-wildcards" ∷ "-e" ∷ excludes)) w in
      (e, w')

  -- The loops of `CreateDirStructure`.
  unfoldable pub make_dirs : String → List String → Proc Log (Unit {0})
  make_dirs target [] = pure tt
  make_dirs target (d ∷ rest) = or_fail (mkdir_all env (join target d)) >> make_dirs target rest

module _ (env : Env) (parts : FileParts) where
  -- `CreateDirStructure`
  unfoldable pub create_dir_structure : String → Proc Log (Unit {0})
  create_dir_structure target = do
    make_dirs env target ("run" ∷ "dev" ∷ "boot" ∷ "oem" ∷ "system" ∷ "etc/elemental/config.d" ∷ [])
    make_dirs env target ("proc" ∷ "sys" ∷ [])
    or_fail (mkdir_all env (join target "tmp"))
    or_fail (parts.chmod (join target "tmp"))

  abbrev pub context_file : String
  context_file = "etc/selinux/targeted/contexts/files/file_contexts"

  -- `SelinuxRelabel`
  unfoldable pub selinux_relabel : String → List String → Act (Option Error)
  selinux_relabel root extra w =
      let (there, w₁) = exists env (join root context_file) w in
      let args =
        if root == "/" || root == ""
        then "-e"
          ∷ "/dev"
          ∷ "-e"
          ∷ "/proc"
          ∷ "-e"
          ∷ "/sys"
          ∷ "-i"
          ∷ "-F"
          ∷ join root context_file
          ∷ "/"
          ∷ extra
        else "-i" ∷ "-F" ∷ "-r" ∷ root ∷ join root context_file ∷ root ∷ extra in
      let ((out, e), w₂) = run env "setfiles" args w₁ in
      if there && parts.command_exists w₁ "setfiles" then (e, w₂) else (none, w₁)

  -- `ApplySELinuxLabels`: the call for the mount points, in a chroot without the default ones.
  unfoldable pub restore_labels : String → List String → Act (Option Error)
  restore_labels root extra w =
      let set_files : Act (Option Error) = λ w.
        let ((out, e), w') =
          run env "setfiles"
            ("-i" ∷ "-F" ∷ ("/" <> context_file) ∷ "/dev" ∷ "/proc" ∷ "/sys" ∷ extra) w in
        (e, w') in
      let ((e, c), w') = chrooted_callback env root [] set_files true w in (e, w')

  -- It needs /dev/null, which is removed afterwards where it was not there.
  unfoldable pub restore_with_null : String → List String → Act (Option Error)
  restore_with_null root extra w =
      let device = join root "dev/null" in
      let (there, w₁) = exists env device w in
      let kept = restore_labels root extra w₁ in
      let ((out, made), w₂) = run env "mknod" ("-m" ∷ "666" ∷ device ∷ "c" ∷ "1" ∷ "3" ∷ []) w₁ in
      let (e, w₃) = restore_labels root extra w₂ in
      let (dropped, w₄) = remove_all env device w₃ in
      if there then kept else elim made [ some failure ↦ (some failure, w₂) | none ↦ (e, w₄) ]

  unfoldable pub apply_selinux_labels : String → List (String × String) → Act (Option Error)
  apply_selinux_labels root binds w =
      let extra = map (λ b. b.1) binds in
      let ((e, c), w₁) = chrooted_callback env root binds (selinux_relabel "/" extra) false w in
      let (there, w₂) = exists env (join root context_file) w₁ in
      let restored = restore_with_null root extra w₂ in
      elim e [
        | some failure ↦ (some failure, w₁)
        | none ↦ if there && parts.command_exists w₂ "setfiles" then restored else (none, w₂)
      ]
