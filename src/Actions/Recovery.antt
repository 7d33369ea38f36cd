-- ===== src/Actions/Recovery.antt =====
-- pkg/action/upgrade-recovery.go: a new recovery system is deployed beside the old one, then the two
-- directories change places.
pub mod Swap
use elemental_toolkit.Base.{
  ℕ, String, Bool, true, false, Option, none, some, List, [], ◌∷◌, ◌==◌, string_eq, if◌then◌else◌,
}
use elemental_toolkit.Base.Text.{join}
use elemental_toolkit.Base.Outcome.{Error, plain, Result, ok, err, panic}
use elemental_toolkit.Base.Proc.{Proc, pure, raise, or_fail, call, ignored, ◌>>=◌, ◌>>◌}
use elemental_toolkit.System.{Env, Log, Act, exists, remove_all, rename}
use elemental_toolkit.CleanStack.{CleanStack}
use elemental_toolkit.Partitions.{PartitionRef, ElementalPartitions}
use elemental_toolkit.Specs.{Image, ImageSource, UpgradeSpec}
use elemental_toolkit.InstallState.{
  InstallState, PartitionState, update_recovery, write_install_state,
}
use elemental_toolkit.Actions.{
  RunConfig, ActionState, World, Step, on_log, mount_point_of, mount_rw, follow, sweep,
  run_with_cleanup, power_action, is_recovery_mode, upgrade_partitions,
}

-- What the action calls: `DeployRecoverySystem` of pkg/elemental, with the image that it leaves, the
-- YAML library and the clock.
pub record RecoveryParts : Type 0 where
  pub deploy : Image → Act (Option Error × Image)
  pub marshal : InstallState → String × Option Error
  pub now : String
  pub labels : List (String × String)

module _ (env : Env) where
  -- The move back after the new directory could not be moved: its error replaces the one of the move,
  -- so that the action ends without an error where it succeeds.
  unfoldable pub salvage : String → String → Error → Proc Log Bool
  salvage boot old failure = do
    there ← call (exists env old)
    if there then (or_fail (rename env old boot) >> pure false) else raise failure

  unfoldable pub move_in : String → String → String → Proc Log Bool
  unfolding salvage
  move_in transition boot old w =
      let (e, w') = rename env transition boot w in
      let saved : Error → Result Bool × Log = λ failure. salvage boot old failure w' in
      elim e [ none ↦ (ok true, w') | some failure ↦ saved failure ]

  unfoldable pub set_aside : String → String → Proc Log (Unit {0})
  set_aside boot old = do
    there ← call (exists env boot)
    if there then or_fail (rename env boot old) else pure tt

  -- The change of places; whether the action goes on.
  unfoldable pub swap_boot : String → String → String → Proc Log Bool
  unfolding set_aside move_in
  swap_boot transition boot old = set_aside boot old >> move_in transition boot old

module _ {D : Type 0} (env : Env) (parts : RecoveryParts) where
  unfoldable pub deploy_recovery : Step D UpgradeSpec (Unit {0})
  deploy_recovery (u, c) =
      let ((e, img), w) = parts.deploy u.spec.recovery_system u.log in
      (
        elim e [ none ↦ ok tt | some failure ↦ err failure ],
        (record u { log = w; spec = record u.spec { recovery_system = img } }, c),
      )

  unfoldable pub write_recovery_state :
      InstallState → PartitionRef → Result PartitionState → Step D UpgradeSpec (Unit {0})
  write_recovery_state i p panic s = (panic, s)
  write_recovery_state i p (err e) s = (err e, s)
  write_recovery_state i p (ok part) (u, c) =
      let i' = record i { date = parts.now; recovery = some part } in
      on_log
        (write_install_state env parts.marshal i' "/run/initramfs/elemental-state/state.yaml"
          (join p.value.mount_point "state.yaml"))
        (record u { state = some i' }, c)

  -- `upgradeInstallStateYaml`
  unfoldable pub update_recovery_state : Step D UpgradeSpec (Unit {0})
  update_recovery_state = do
    i ← λ (u, c). follow u.state (u, c)
    p ← λ (u, c). follow u.spec.partitions.recovery (u, c)
    λ (u, c).
        write_recovery_state i p
          (update_recovery p.value.filesystem_label u.spec.recovery_system parts.labels parts.now
            "upgrade-recovery" i.recovery)
          (u, c)

  -- `NewUpgradeRecoveryAction`: the checks.
  unfoldable pub new_recovery_action : Bool → Step D UpgradeSpec (Unit {0})
  new_recovery_action update_state (u, c) =
      let (recovery_mode, w) = is_recovery_mode env u.log in
      let failed : String → Result (Unit {0}) = λ msg. err (plain msg) in
      let r =
        (if recovery_mode
          then failed "can not upgrade recovery from recovery partition"
          else elim u.spec.partitions.recovery [
            | none ↦ failed "undefined recovery partition"
            | some p ↦
                if update_state
                then elim u.spec.partitions.state [
                  | none ↦ failed "undefined state partition"
                  | some q ↦ elim u.state [
                    | none ↦ failed "could not load current install state"
                    | some i ↦ ok tt
                  ]
                ]
                else ok tt
          ]) in
      (r, (record u { log = w }, c))

  -- The last part of `Run`, once the new system is in place. The error of the removal is passed on to the
  -- clean-up, unless that of the record takes its place.
  unfoldable pub finish_recovery :
      (Option Error → Error → Error) → RunConfig → Bool → String → Step D UpgradeSpec (Unit {0})
  finish_recovery append cfg true old = do
    ignored (or_fail (on_log (remove_all env old)))
    update_recovery_state
    or_fail (sweep append none)
    or_fail (on_log (power_action env cfg))
  finish_recovery append cfg false old = do
    failure ← call (on_log (remove_all env old))
    or_fail (sweep append failure)
    or_fail (on_log (power_action env cfg))

  unfoldable pub replace_recovery :
      (Option Error → Error → Error) → RunConfig → Bool → String → Step D UpgradeSpec (Unit {0})
  replace_recovery append cfg update_state recovery = do
    or_fail (on_log (remove_all env (join recovery "boot-transition")))
    deploy_recovery
    or_fail (on_log (remove_all env (join recovery "boot-old")))
    placed ← on_log (
        swap_boot env (join recovery "boot-transition") (join recovery "boot")
          (join recovery "boot-old"))
    if placed then finish_recovery append cfg update_state (join recovery "boot-old") else pure tt

  unfoldable pub recovery_body :
      (Option Error → Error → Error) → RunConfig → Bool → Step D UpgradeSpec (Unit {0})
  recovery_body append cfg update_state = do
    mount_rw env (λ ep. ep.recovery) (λ ep p. record ep { recovery = p })
    recovery ← λ (u, c). mount_point_of u.spec.partitions.recovery (u, c)
    replace_recovery append cfg update_state recovery

  -- `UpgradeRecoveryAction.Run`
  unfoldable pub run_recovery :
      (Option Error → Error → Error)
      → RunConfig
      → Bool
      → ActionState D UpgradeSpec
      → Result (Unit {0}) × World D UpgradeSpec
  run_recovery append cfg update_state =
      run_with_cleanup append (recovery_body append cfg update_state)
