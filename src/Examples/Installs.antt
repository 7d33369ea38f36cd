-- ===== src/Examples/Installs.antt =====
-- An installation and a reset with the loop device snapshotter.
use elemental_toolkit.Base.{refl, false, true, none, some, [], inr}
use elemental_toolkit.CleanStack.{new_clean_stack}
use elemental_toolkit.Snapshotter.LoopDevice.{LoopDevice}
use elemental_toolkit.Specs.{InstallSpec, ResetSpec}
use elemental_toolkit.Actions.{ActionState}
use elemental_toolkit.Actions.Phases.{Phase, idle}
use elemental_toolkit.Actions.Bracket.{Closes}
use elemental_toolkit.Actions.Deployment.{Tools}
use elemental_toolkit.Actions.Upgrade.Recording.{watching}
use elemental_toolkit.Actions.Install.Run as Installing
use elemental_toolkit.Actions.Install.Rollback.{run_install-Closes}
use elemental_toolkit.Actions.Reset.Run as Resetting
use elemental_toolkit.Actions.Reset.Covered.{Settles}
use elemental_toolkit.Actions.Reset.Rollback.{run_reset-Settles}
use elemental_toolkit.Snapshotter.Factory.{SnapshotterConfig}
use elemental_toolkit.Actions.Constructors.{with_bootloader, new_reset_action}
use elemental_toolkit.Actions.Constructors.Agreement.{Constructed, new_reset_action-Constructed}
use elemental_toolkit.Base.{map, ◌∷◌, String}
use elemental_toolkit.Examples.Config.{source, partitions, install}
use elemental_toolkit.Examples.Snapshots.{device}
use elemental_toolkit.Examples.Upgrades.{setting}

-- An empty disk of 8 GiB.
abbrev tools : Tools
tools = record {
  get_source = λ source target w. (none, w);
  chmod = λ path w. (none, w);
  command_exists = λ w name. false;
  read_table =
      λ backend out. inr (record { sector_s = 512; last_s = 16777215; parts = []; label = "gpt" });
  shares_source = true;
}

abbrev fresh : ActionState (LoopDevice × Phase) InstallSpec
fresh = record { device = (device, idle); log = []; spec = install; state = none; snapshot = none }

run_install-Closes_example :
    Closes setting.snapper setting.append
      (Installing.work (watching setting) tools (fresh, new_clean_stack)).0
      (Installing.run_install (watching setting) tools fresh)
run_install-Closes_example = run_install-Closes setting tools fresh refl

abbrev reset : ResetSpec
reset = record {
  format_persistent = true;
  format_oem = false;
  cloud_init = [];
  grub_def_entry = "";
  system = some source;
  partitions = partitions;
  snapshot_labels = [];
}

abbrev used : ActionState (LoopDevice × Phase) ResetSpec
used = record { device = (device, idle); log = []; spec = reset; state = none; snapshot = none }

run_reset-Settles_example :
    Settles setting.snapper setting.append
      (Resetting.work (watching setting) tools (used, new_clean_stack)).0
      (Resetting.run_reset (watching setting) tools used)
run_reset-Settles_example = run_reset-Settles setting tools used refl

abbrev on_btrfs : SnapshotterConfig
on_btrfs = record { kind = "btrfs"; max_snaps = 4; config = none }

new_reset_action-Constructed_example :
    Constructed {BL = String} on_btrfs reset
      (new_reset_action "grub" on_btrfs (map with_bootloader ("other" ∷ [])) reset)
new_reset_action-Constructed_example =
    new_reset_action-Constructed "grub" on_btrfs ("other" ∷ []) reset
