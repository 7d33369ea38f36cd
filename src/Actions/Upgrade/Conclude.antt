-- ===== src/Actions/Upgrade/Conclude.antt =====
-- pkg/action/upgrade.go: what follows the close of the transaction, up to the record in state.yaml.
use elemental_toolkit.Base.{
  ℕ, String, true, false, Option, none, some, List, [], ◌==◌, string_eq, if◌then◌else◌,
}
use elemental_toolkit.Base.Text.{join}
use elemental_toolkit.Base.Outcome.{plain, Result, ok, err, panic}
use elemental_toolkit.Base.Proc.{pure, raise, ◌>>=◌, ◌>>◌}
use elemental_toolkit.Partitions.{PartitionRef}
use elemental_toolkit.Specs.{ImageSource, UpgradeSpec, to_string}
use elemental_toolkit.InstallState.{
  InstallState, PartitionState, SystemMap, new_system, update_snapshots, update_recovery,
  write_install_state,
}
use elemental_toolkit.Actions.{Step, on_log, on_device, follow}
use elemental_toolkit.Actions.Recovery.{new_recovery_action, run_recovery}
use elemental_toolkit.Actions.Upgrade.{Setting, upgrade_hook, the_system}
use elemental_toolkit.Actions.Transaction.{the_snapshot}

-- `SetDigest` and `GetDigest` for the recovery system that is taken from the snapshot.
unfoldable pub with_digest : ImageSource → ImageSource → ImageSource
with_digest source system = record source { digest = system.digest }

module _ {D : Type 0} where
  unfoldable pub the_recovery_source : Step D UpgradeSpec ImageSource
  the_recovery_source (u, c) = follow u.spec.recovery_system.source (u, c)

module _ {D : Type 0} (t : Setting D) where
  -- The recovery system is taken from the snapshot where its source is that of the system.
  unfoldable pub reuse_snapshot : ImageSource → Step D UpgradeSpec (Unit {0})
  reuse_snapshot system = do
    snapshot ← the_snapshot
    source ← on_device (t.snapper.snapshot_to_image_source snapshot)
    λ (u, c). (
      ok tt,
      (
        record u {
          spec = record u.spec {
            recovery_system = record u.spec.recovery_system {
              source = some (with_digest source system);
            };
          };
        },
        c,
      ),
    )

  -- The action for the recovery system, with a clean-up stack of its own.
  unfoldable pub recovery_run : Step D UpgradeSpec (Unit {0})
  recovery_run (u, c) =
      let (r, (u', c')) = run_recovery t.env t.recovery t.append t.cfg false u in (r, (u', c))

  unfoldable pub upgrade_recovery : Step D UpgradeSpec (Unit {0})
  upgrade_recovery = do
    source ← the_recovery_source
    system ← the_system
    if to_string source == to_string system then reuse_snapshot system else pure tt
    new_recovery_action t.env t.recovery false
    recovery_run

  -- The entry of the new snapshot in state.yaml, and those of the older ones.
  unfoldable pub updated_state :
      UpgradeSpec
      → PartitionRef
      → PartitionRef
      → ImageSource
      → List ℕ
      → ℕ
      → Option InstallState
      → Result InstallState
  updated_state spec state rec system present id before =
      let old : Option PartitionState = elim before [ none ↦ none | some i ↦ i.state ] in
      let old_recovery : Option PartitionState = elim before [
        | none ↦ none
        | some i ↦ i.recovery
      ] in
      let others : List (String × PartitionState) = elim before [ none ↦ [] | some i ↦ i.others ] in
      let map : SystemMap = elim old [ none ↦ [] | some part ↦ part.snapshots ] in
      let new = record (new_system system t.recovery.labels t.recovery.now "upgrade") {
        active = true;
      } in
      let part : SystemMap → PartitionState = λ m. elim old [
        | none ↦ record {
          fs_label = state.value.filesystem_label;
          recovery_image = none;
          snapshots = m;
        }
        | some part ↦ record part { snapshots = m }
      ] in
      elim (update_snapshots present id new map) [
        | panic ↦ panic
        | err e ↦ err e
        | ok m ↦
            if spec.recovery_upgrade
            then (elim (update_recovery rec.value.filesystem_label spec.recovery_system
                t.recovery.labels t.recovery.now "upgrade" old_recovery) [
                  | panic ↦ panic
                  | err e ↦ err e
                  | ok r ↦ ok (record {
                    date = t.recovery.now;
                    state = some (part m);
                    recovery = some r;
                    others = others;
                  })
                ])
            else ok (record {
              date = t.recovery.now;
              state = some (part m);
              recovery = old_recovery;
              others = others;
            })
      ]

  unfoldable pub write_state :
      PartitionRef → PartitionRef → Result InstallState → Step D UpgradeSpec (Unit {0})
  write_state state rec panic s = (panic, s)
  write_state state rec (err e) s = (err e, s)
  write_state state rec (ok i) (u, c) =
      on_log
        (write_install_state t.env t.recovery.marshal i (join state.value.mount_point "state.yaml")
          (join rec.value.mount_point "state.yaml"))
        (record u { state = some i }, c)

  unfoldable pub record_state : PartitionRef → PartitionRef → Step D UpgradeSpec (Unit {0})
  record_state state rec = do
    present ← on_device t.snapper.get_snapshots
    snapshot ← the_snapshot
    system ← the_system
    λ (u, c).
        write_state state rec (updated_state u.spec state rec system present snapshot.id u.state)
          (u, c)

  unfoldable pub record_both :
      Option PartitionRef → Option PartitionRef → Step D UpgradeSpec (Unit {0})
  record_both none state = raise (plain "undefined state or recovery partition")
  record_both (some rec) none = raise (plain "undefined state or recovery partition")
  record_both (some rec) (some state) = record_state state rec

  -- `upgradeInstallStateYaml`
  unfoldable pub upgrade_install_state : Step D UpgradeSpec (Unit {0})
  upgrade_install_state (u, c) =
      record_both u.spec.partitions.recovery u.spec.partitions.state (u, c)

  -- What follows the close of the transaction, up to the record.
  unfoldable pub conclude : Step D UpgradeSpec (Unit {0})
  conclude = do
    λ (u, c). (if u.spec.recovery_upgrade then upgrade_recovery else pure tt) (u, c)
    upgrade_hook t "post-upgrade"
    upgrade_install_state
