-- ===== src/Examples/Upgrades.antt =====
-- Upgrades of a system with one snapshot, and of its recovery system.
use elemental_toolkit.Base.{
  refl, String, true, false, Option, none, some, [], ◌∷◌, string_eq, nat_eq, ==_differ, arith, ◌==◌,
  if◌then◌else◌,
}
use elemental_toolkit.System.{Env}
use elemental_toolkit.CleanStack.{new_clean_stack}
use elemental_toolkit.CleanStack.Cleanup.{is_some}
use elemental_toolkit.Snapshotter.LoopDevice.{LoopDevice}
use elemental_toolkit.Snapshotter.LoopDevice.Transaction.{loop_device}
use elemental_toolkit.InstallState.{InstallState, SystemState, SystemMap, new_system}
use elemental_toolkit.Actions.Upgrade.Conclude.{updated_state}
use elemental_toolkit.Actions.Upgrade.Entries.{Entered, updated_state-Entered}
use elemental_toolkit.Actions.{ActionState}
use elemental_toolkit.Actions.Recovery.{swap_boot}
use elemental_toolkit.Actions.Recovery.Swap.{held, Swapped, swap_boot-Swapped}
use elemental_toolkit.Actions.Upgrade.{Setting}
use elemental_toolkit.Actions.Upgrade.Run.{work, run_upgrade}
use elemental_toolkit.Actions.Phases.{Phase, idle}
use elemental_toolkit.Actions.Upgrade.Recording.{watching}
use elemental_toolkit.Actions.Upgrade.Rollback.{run_upgrade-Closes}
use elemental_toolkit.Actions.Bracket.{Closes}
use elemental_toolkit.Specs.{UpgradeSpec}
use elemental_toolkit.Examples.Config.{source, upgrade, efi, state}
use elemental_toolkit.Examples.Tables.{calm}
use elemental_toolkit.Examples.Snapshots.{two_snapshots, tools, device, append}

abbrev old_system : SystemState
old_system = record (new_system source [] "2024" "install") { active = true }

abbrev systems : SystemMap
systems = (1, some old_system) ∷ []

abbrev first : String → Option String
first p =
    if p == "/recovery/boot"
    then some "old"
    else if p == "/recovery/boot-transition"
    then some "new"
    else none

-- The file system answers for what the renames leave.
abbrev truthful : Env
truthful = record calm { exists = λ w p. is_some (held first w p) }

swap_boot-Swapped_example :
    Swapped first "/recovery/boot" "/recovery/boot-old"
      (held first [] "/recovery/boot-transition")
      (held first [] "/recovery/boot")
      (swap_boot truthful "/recovery/boot-transition" "/recovery/boot" "/recovery/boot-old" [])
unfolding string_eq
swap_boot-Swapped_example =
    swap_boot-Swapped truthful first "/recovery/boot-transition" "/recovery/boot"
      "/recovery/boot-old" (λ w p. refl)
      (==_differ "/recovery/boot-transition" "/recovery/boot" refl)
      (==_differ "/recovery/boot-transition" "/recovery/boot-old" refl)
      (==_differ "/recovery/boot" "/recovery/boot-old" refl) [] refl

abbrev pub setting : Setting LoopDevice
setting = record {
  env = two_snapshots;
  cfg = record {
    strict = true;
    cloud_init_paths = "/oem" ∷ [];
    reboot = false;
    power_off = false;
    eject_cd = false;
  };
  parts = record {
    mirror_root = λ dir system w. ((none, system), w);
    run_stage = λ stage strict paths w. (none, w);
    install_grub = λ root boot w. (none, w);
    set_persistent_variables = λ file vars w. (none, w);
    set_default_entry = λ boot image entry w. (none, w);
    grub_def_entry = "";
  };
  recovery = record {
    deploy = λ image w. ((none, image), w);
    marshal = λ i. ("state", none);
    now = "2025";
    labels = [];
  };
  snapper = loop_device two_snapshots tools;
  append = append;
}

abbrev before : ActionState (LoopDevice × Phase) UpgradeSpec
before = record { device = (device, idle); log = []; spec = upgrade; state = none; snapshot = none }

run_upgrade-Closes_example :
    Closes setting.snapper setting.append
      (work (watching setting) (before, new_clean_stack)).0
      (run_upgrade (watching setting) before)
run_upgrade-Closes_example = run_upgrade-Closes setting before refl

-- The record of one system, in the snapshot 1.
abbrev installed : InstallState
installed = record {
  date = "2024";
  state = some (record { fs_label = "COS_STATE"; recovery_image = none; snapshots = systems });
  recovery = none;
  others = [];
}

updated_state-Entered_example :
    Entered setting upgrade efi source
      (1 ∷ 2 ∷ [])
      2
      (some installed)
      1
      (updated_state setting upgrade state efi source (1 ∷ 2 ∷ []) 2 (some installed))
unfolding nat_eq
updated_state-Entered_example =
    updated_state-Entered setting upgrade state efi source (1 ∷ 2 ∷ []) 2 (some installed) 1 1
      ((λ e. cc), tt) (omega arith) refl (refl, tt)
