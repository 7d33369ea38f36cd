-- ===== src/Examples/Sources.antt =====
-- A source in a file, dumped with rsync.
use elemental_toolkit.Base.{
  ◌≡◌, refl, true, String, none, some, List, [], ◌==◌, nat_eq, string_eq, arith,
}
use elemental_toolkit.System.{Env, Log}
use elemental_toolkit.Chroot.Mounts.{mounts, unmounts}
use elemental_toolkit.Specs.{ImageSource}
use elemental_toolkit.Elemental.Sync.{FileParts, mirror_data, rsync}
use elemental_toolkit.Elemental.Deploy.{dump_source}
use elemental_toolkit.Elemental.Deploy.Mounted.{Even, Left, IsStill, source_dir, dump_source-Left}
use elemental_toolkit.Examples.Tables.{calm}

-- A mounter that answers by what was mounted.
abbrev exact : Env
exact = record calm {
  not_mount_point = λ w path. (mounts source_dir w == unmounts source_dir w, none);
}

exact_truthful : (w : Log) → exact.not_mount_point w source_dir ≡ (true, none) → Even w
unfolding nat_eq
exact_truthful w h = ground arith

abbrev parts : FileParts
parts = record {
  command_exists = λ w name. true;
  chmod = λ path w. (none, w);
  dir_size_mb = λ path excludes w. ((1024, none), w);
  create_raw_file = λ path size w. (none, w);
  copy_file = λ source target w. (none, w);
  find_kernel_initrd = λ tree w. ((("/boot/vmlinuz", "/boot/initrd"), none), w);
  extract_image = λ image target w. (("sha256:1", none), w);
  cosign = none;
  squashfs_options = [];
  visited = λ entries. entries;
}

mirror_data-IsStill :
    (source target : String) (excludes : List String)
    → IsStill (mirror_data exact source target excludes)
unfolding mirror_data rsync
mirror_data-IsStill source target excludes w = (refl, refl)

abbrev source : ImageSource
source = record { source = "/run/rootfs.img"; src_type = "file"; digest = "" }

dump_source-Left_example :
    Left exact (dump_source exact parts "/mnt" (some (mirror_data exact)) (source, [])).1.1
dump_source-Left_example =
    dump_source-Left exact exact_truthful parts (mirror_data exact) mirror_data-IsStill
      (λ image target w. (refl, refl)) (λ verify image e. absurd cc) "/mnt" source [] refl
