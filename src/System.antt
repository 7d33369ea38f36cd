-- ===== src/System.antt =====
-- The world around the program, which pkg/types reaches through interfaces (Runner, FS, Mounter,
-- SyscallInterface in pkg/types/runner.go, fs.go, mounter.go, syscall.go): commands, the file system,
-- mounts and the process's own root. `Env` answers each call from all the calls made so far, with no
-- assumption on the answers; a log records the calls with their errors.
use elemental_toolkit.Base.{String, Bool, Option, List, ◌∷◌}
use elemental_toolkit.Base.Outcome.{Error}
use elemental_toolkit.Partitions.{PartitionList}

pub data Event : Type 0 where
  ran : String → List String → Option Error → Event
  mounted : String → String → String → List String → Option Error → Event
  unmounted : String → Option Error → Event
  made_dir removed : String → Option Error → Event
  asked : String → String → Event
  changed_dir changed_root : String → Option Error → Event
  -- Symlink and Link, with the target first; Rename, with the old path first; Remove; WriteFile.
  symlinked hard_linked renamed : String → String → Option Error → Event
  deleted wrote : String → Option Error → Event

-- The latest event is first.
abbrev pub Log : Type 0
Log = List Event

pub record Env : Type 0 where
  -- Runner.Run: the output and the error.
  pub run : Log → String → List String → String × Option Error
  -- FS: MkdirAll, RemoveAll, a look whether a path is there, and TempDir.
  pub mkdir_all : Log → String → Option Error
  pub remove_all : Log → String → Option Error
  pub exists : Log → String → Bool
  pub temp_dir : Log → String × Option Error
  -- FS: Symlink and Link (target, path), Remove, ReadDir (the names), Lstat (whether the path is a
  -- symbolic link) and Readlink; a look without following a link.
  pub symlink : Log → String → String → Option Error
  pub hard_link : Log → String → String → Option Error
  pub delete : Log → String → Option Error
  pub read_dir : Log → String → List String × Option Error
  pub lstat : Log → String → Bool × Option Error
  pub read_link : Log → String → String × Option Error
  pub exists_no_follow : Log → String → Bool × Option Error
  -- FS: Rename (old path, new path).
  pub rename : Log → String → String → Option Error
  -- FS: ReadFile, and WriteFile (path, contents).
  pub read_file : Log → String → String × Option Error
  pub write_file : Log → String → String → Option Error
  -- Mounter: IsLikelyNotMountPoint, and the partitions that the block device library lists.
  pub not_mount_point : Log → String → Bool × Option Error
  pub all_partitions : Log → PartitionList × Option Error
  -- Mounter: Mount (source, target, type, options) and Unmount.
  pub mount : Log → String → String → String → List String → Option Error
  pub unmount : Log → String → Option Error
  -- The file system type that the block device library reads on a device.
  pub partition_fs : Log → String → String × Option Error
  -- os.Getwd, opening `/`, os.Chdir and the system calls chdir and chroot.
  pub getwd : Log → String × Option Error
  pub open_root : Log → Option Error
  pub chdir : Log → String → Option Error
  pub chroot : Log → String → Option Error

-- An action gives a value and the log with what it did in front.
abbrev pub Act : Type 0 → Type 0
Act A = Log → A × Log

infixl 5 ◌>>=◌ ◌>>◌
abbrev pub ◌>>=◌ : {A B : Type 0} → Act A → (A → Act B) → Act B
◌>>=◌ m f w = let (a, w') = m w in f a w'

abbrev pub ◌>>◌ : {A B : Type 0} → Act A → Act B → Act B
m >> k = m >>= λ _. k

abbrev pub pure : {A : Type 0} → A → Act A
pure a w = (a, w)

module _ (env : Env) where
  abbrev pub run : String → List String → Act (String × Option Error)
  run cmd args w = let (out, e) = env.run w cmd args in ((out, e), ran cmd args e ∷ w)

  abbrev pub mkdir_all : String → Act (Option Error)
  mkdir_all path w = let e = env.mkdir_all w path in (e, made_dir path e ∷ w)

  abbrev pub remove_all : String → Act (Option Error)
  remove_all path w = let e = env.remove_all w path in (e, removed path e ∷ w)

  abbrev pub exists : String → Act Bool
  exists path w = (env.exists w path, asked "exists" path ∷ w)

  abbrev pub temp_dir : Act (String × Option Error)
  temp_dir w = (env.temp_dir w, asked "temp_dir" "" ∷ w)

  abbrev pub mount : String → String → String → List String → Act (Option Error)
  mount source target fstype options w =
      let e = env.mount w source target fstype options in
      (e, mounted source target fstype options e ∷ w)

  abbrev pub unmount : String → Act (Option Error)
  unmount target w = let e = env.unmount w target in (e, unmounted target e ∷ w)

  abbrev pub partition_fs : String → Act (String × Option Error)
  partition_fs device w = (env.partition_fs w device, asked "partition_fs" device ∷ w)

  abbrev pub getwd : Act (String × Option Error)
  getwd w = (env.getwd w, asked "getwd" "" ∷ w)

  abbrev pub open_root : Act (Option Error)
  open_root w = (env.open_root w, asked "open" "/" ∷ w)

  abbrev pub chdir : String → Act (Option Error)
  chdir path w = let e = env.chdir w path in (e, changed_dir path e ∷ w)

  abbrev pub chroot : String → Act (Option Error)
  chroot path w = let e = env.chroot w path in (e, changed_root path e ∷ w)

  abbrev pub symlink : String → String → Act (Option Error)
  symlink target path w = let e = env.symlink w target path in (e, symlinked target path e ∷ w)

  abbrev pub hard_link : String → String → Act (Option Error)
  hard_link target path w =
      let e = env.hard_link w target path in (e, hard_linked target path e ∷ w)

  abbrev pub delete : String → Act (Option Error)
  delete path w = let e = env.delete w path in (e, deleted path e ∷ w)

  abbrev pub read_dir : String → Act (List String × Option Error)
  read_dir path w = (env.read_dir w path, asked "read_dir" path ∷ w)

  abbrev pub lstat : String → Act (Bool × Option Error)
  lstat path w = (env.lstat w path, asked "lstat" path ∷ w)

  abbrev pub read_link : String → Act (String × Option Error)
  read_link path w = (env.read_link w path, asked "read_link" path ∷ w)

  abbrev pub exists_no_follow : String → Act (Bool × Option Error)
  exists_no_follow path w = (env.exists_no_follow w path, asked "exists_no_follow" path ∷ w)

  abbrev pub write_file : String → String → Act (Option Error)
  write_file path contents w = let e = env.write_file w path contents in (e, wrote path e ∷ w)

  abbrev pub read_file : String → Act (String × Option Error)
  read_file path w = (env.read_file w path, asked "read_file" path ∷ w)

  abbrev pub rename : String → String → Act (Option Error)
  rename old new w = let e = env.rename w old new in (e, renamed old new e ∷ w)

  abbrev pub not_mount_point : String → Act (Bool × Option Error)
  not_mount_point path w = (env.not_mount_point w path, asked "not_mount_point" path ∷ w)

  abbrev pub all_partitions : Act (PartitionList × Option Error)
  all_partitions w = (env.all_partitions w, asked "all_partitions" "" ∷ w)
