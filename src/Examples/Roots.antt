-- ===== src/Examples/Roots.antt =====
-- A callback under another root, in a world where every call succeeds.
use elemental_toolkit.Base.{◌≡◌, refl, false, Option, none, [], ◌∷◌}
use elemental_toolkit.Base.Outcome.{Error}
use elemental_toolkit.System.{Act, ran}
use elemental_toolkit.Chroot.{
  Chroot, binds, bind_all, unmount_all, close, prepare, restore_root, in_root, with_mounts,
  run_callback, chrooted_callback, new_chroot, set_extra_mounts,
}
use elemental_toolkit.Chroot.Mounts.{
  mounts, unmounts, IsBalanced, run_callback-Balanced, chrooted_callback-unmounts,
}
use elemental_toolkit.Examples.Tables.{calm}

abbrev install_grub : Act (Option Error)
install_grub w = (none, ran "grub2-install" [] none ∷ w)

abbrev root : Chroot
root = record {
  path = "/run/root";
  default_mounts = "/dev" ∷ [];
  extra_mounts = ("/run/efi", "/boot/efi") ∷ [];
  active_mounts = [];
}

run_callback-Balanced_example :
    IsBalanced calm "/run/root/dev" (run_callback calm root install_grub [])
run_callback-Balanced_example =
    run_callback-Balanced calm "/run/root/dev" root install_grub [] (λ active w h. h) refl

no_error :
    (chrooted_callback calm "/run/root" (("/run/efi", "/boot/efi") ∷ []) install_grub false []).0.0
    ≡ none
unfolding chrooted_callback run_callback with_mounts prepare bind_all binds close unmount_all
    in_root restore_root set_extra_mounts new_chroot
no_error = refl

chrooted_callback-unmounts_example :
    mounts "/run/root/dev"
      (chrooted_callback calm "/run/root" (("/run/efi", "/boot/efi") ∷ []) install_grub false []).1
    ≡ unmounts "/run/root/dev"
        (chrooted_callback calm "/run/root"
          (("/run/efi", "/boot/efi") ∷ [])
          install_grub
          false
          []).1
chrooted_callback-unmounts_example =
    chrooted_callback-unmounts calm "/run/root" (("/run/efi", "/boot/efi") ∷ []) install_grub false
      [] "/run/root/dev" (λ active w h. h) refl no_error
