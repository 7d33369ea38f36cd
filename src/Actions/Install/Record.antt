-- ===== src/Actions/Install/Record.antt =====
-- pkg/action/install.go: the state.yaml of a new system.
use elemental_toolkit.Base.{ℕ, String, true, Option, none, some, List, [], ◌∷◌, ◌++◌, string_eq}
use elemental_toolkit.Base.Text.{join}
use elemental_toolkit.Base.Outcome.{plain}
use elemental_toolkit.Base.Proc.{raise, ◌>>=◌}
use elemental_toolkit.Partitions.{PartitionRef}
use elemental_toolkit.Specs.{ImageSource, InstallSpec}
use elemental_toolkit.InstallState.{InstallState, PartitionState, new_system, write_install_state}
use elemental_toolkit.Actions.{Step, on_log, follow, install_partitions}
use elemental_toolkit.Actions.Transaction.{the_snapshot}
use elemental_toolkit.Actions.Upgrade.{Setting}
use elemental_toolkit.Actions.Deployment.{install_system}

-- An entry of state.yaml for a partition without a system.
abbrev pub plain_entry : String → Option PartitionRef → List (String × PartitionState)
plain_entry name none = []
plain_entry name (some p) =
    (name, record { fs_label = p.value.filesystem_label; recovery_image = none; snapshots = [] })
    ∷ []

module _ {D : Type 0} (t : Setting D) where
  -- What `createInstallStateYaml` writes.
  unfoldable pub new_state :
      InstallSpec → PartitionRef → PartitionRef → ℕ → ImageSource → ImageSource → InstallState
  new_state spec state recovery id system source =
      let installed = new_system system spec.snapshot_labels t.recovery.now "install" in
      let image = new_system source spec.snapshot_labels t.recovery.now "install" in
      record {
        date = t.recovery.now;
        state = some (record {
          fs_label = state.value.filesystem_label;
          recovery_image = none;
          snapshots = (id, some (record installed { active = true })) ∷ [];
        });
        recovery = some (record {
          fs_label = recovery.value.filesystem_label;
          recovery_image =
              some
                (record image { label = spec.recovery_system.label; fs = spec.recovery_system.fs });
          snapshots = [];
        });
        others =
            plain_entry "oem" spec.partitions.oem
            ++ plain_entry "persistent" spec.partitions.persistent
            ++ plain_entry "efi" spec.partitions.boot;
      }

  unfoldable pub write_new_state : PartitionRef → PartitionRef → Step D InstallSpec (Unit {0})
  write_new_state state recovery = do
    snapshot ← the_snapshot
    system ← λ (u, c). follow u.spec.system (u, c)
    source ← λ (u, c). follow u.spec.recovery_system.source (u, c)
    λ (u, c).
        on_log
          (write_install_state t.env t.recovery.marshal
            (new_state u.spec state recovery snapshot.id system source)
            (join state.value.mount_point "state.yaml")
            (join recovery.value.mount_point "state.yaml"))
          (u, c)

  abbrev pub state_of_both :
      Option PartitionRef → Option PartitionRef → Step D InstallSpec (Unit {0})
  state_of_both none recovery = raise (plain "undefined state or recovery partition")
  state_of_both (some state) none = raise (plain "undefined state or recovery partition")
  state_of_both (some state) (some recovery) = write_new_state state recovery

  -- `createInstallStateYaml`, after a transaction: there is a snapshot.
  unfoldable pub create_install_state : Step D InstallSpec (Unit {0})
  create_install_state (u, c) =
      state_of_both u.spec.partitions.state u.spec.partitions.recovery (u, c)
