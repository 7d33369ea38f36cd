-- ===== src/Actions/Reset.antt =====
-- pkg/action/reset.go: the state partition is formatted anew and a first snapshot deployed on it, from the
-- recovery system. pkg/types/grub.go: the labels for the bootloader.
pub mod Run
pub mod Covered
pub mod Rollback
use elemental_toolkit.Base.{
  ℕ, String, ◌<>◌, Bool, true, false, ◌&&◌, Option, none, some, List, [], ◌∷◌, ◌++◌, ◌==◌,
  string_eq, if◌then◌else◌,
}
use elemental_toolkit.Base.Text.{join, has_suffix}
use elemental_toolkit.Base.Outcome.{Error, plain, Result, ok, err, panic}
use elemental_toolkit.Base.Proc.{Proc, pure, raise, or_fail, ◌>>=◌, ◌>>◌}
use elemental_toolkit.System.{Log}
use elemental_toolkit.Partitions.{PartitionRef, ElementalPartitions, partitions_by_mount_point}
use elemental_toolkit.Elemental.{unmount_partitions}
use elemental_toolkit.Elemental.Layout.{format_partition}
use elemental_toolkit.Specs.{ImageSource, ResetSpec}
use elemental_toolkit.InstallState.{
  InstallState, PartitionState, SystemState, new_system, write_install_state,
}
use elemental_toolkit.Actions.{
  World, Step, on_log, follow, mount_point_of, mount_rw, reset_partitions,
}
use elemental_toolkit.Actions.Transaction.{the_snapshot, init}
use elemental_toolkit.Actions.Upgrade.{Setting, label_of}
use elemental_toolkit.Actions.Deployment.{Tools, Stages, mount_system, stage_hook, reset_system}
use elemental_toolkit.Actions.Install.Record.{plain_entry}

abbrev pub stages : Stages
stages = record { after_chroot = "after-reset-chroot"; after = "after-reset" }

-- The partition that a reset leaves alone.
abbrev pub but_recovery : ElementalPartitions → List (Option PartitionRef)
but_recovery ep = ep.recovery ∷ []

-- The labels that state.yaml names for the recovery system, which follow the image's pointer.
unfoldable pub recorded_labels : String → Option InstallState → Result (List (String × String))
recorded_labels default none = ok (("recovery_label", default) ∷ [])
recorded_labels default (some i) = elim i.recovery [
  | none ↦ ok (("recovery_label", default) ∷ [])
  | some part ↦ elim part.recovery_image [
    | none ↦ panic
    | some image ↦ ok (("recovery_label", part.fs_label) ∷ ("system_label", image.label) ∷ [])
  ]
]

-- `GetGrubLabels` of a reset.
unfoldable pub labels_of :
    ElementalPartitions → Option InstallState → Result (List (String × String))
labels_of ep i = elim (label_of ep.state) [
  | panic ↦ panic
  | err e ↦ err e
  | ok state ↦ elim (label_of ep.recovery) [
    | panic ↦ panic
    | err e ↦ err e
    | ok recovery ↦ elim (label_of ep.oem) [
      | panic ↦ panic
      | err e ↦ err e
      | ok oem ↦ elim (recorded_labels recovery i) [
        | panic ↦ panic
        | err e ↦ err e
        | ok recorded ↦ ok (
            ("state_label", state) ∷ ("oem_label", oem) ∷ recorded ++ elim ep.persistent [
              | none ↦ []
              | some p ↦ ("persistent_label", p.value.filesystem_label) ∷ []
            ])
      ]
    ]
  ]
]

-- The source that state.yaml names: that of the recovery system where the system is its image.
abbrev pub recorded_image : Option InstallState → Option SystemState
recorded_image none = none
recorded_image (some i) = elim i.recovery [ none ↦ none | some part ↦ part.recovery_image ]

unfoldable pub recorded_source : ImageSource → Option InstallState → Result ImageSource
recorded_source system i =
    if system.src_type == "file" && has_suffix system.source "recovery.img"
    then elim (recorded_image i) [
      | none ↦ ok system
      | some image ↦ elim image.source [
        | none ↦ panic
        | some source ↦ ok (record source { digest = image.digest })
      ]
    ]
    else ok system

module _ {D : Type 0} (t : Setting D) where
  unfoldable pub unmount_first : Step D ResetSpec (Unit {0})
  unmount_first (u, c) =
      let ep = u.spec.partitions in
      or_fail
        (on_log
          (unmount_partitions t.env t.append (partitions_by_mount_point ep true (but_recovery ep))))
        (u, c)

  abbrev pub format : PartitionRef → Step D ResetSpec (Unit {0})
  format p = or_fail (on_log (format_partition t.env p.value []))

  -- A partition that is formatted where the specification asks for it.
  abbrev pub format_if : Bool → Option PartitionRef → Step D ResetSpec (Unit {0})
  format_if false p = pure tt
  format_if true none = pure tt
  format_if true (some p) = format p

  unfoldable pub format_all : Step D ResetSpec (Unit {0})
  format_all = do
    state ← λ (u, c). follow u.spec.partitions.state (u, c)
    format state
    λ (u, c). format_if u.spec.format_persistent u.spec.partitions.persistent (u, c)
    λ (u, c). format_if u.spec.format_oem u.spec.partitions.oem (u, c)

  -- Everything before the transaction.
  unfoldable pub prepare : Step D ResetSpec (Unit {0})
  prepare = do
    unmount_first
    format_all
    mount_system t but_recovery
    init t.snapper
    stage_hook t stages "before-reset"

  unfoldable pub grub_labels : Step D ResetSpec (List (String × String))
  grub_labels (u, c) = (labels_of u.spec.partitions u.state, (u, c))

  unfoldable pub new_state :
      ResetSpec → PartitionRef → ℕ → ImageSource → Option InstallState → InstallState
  new_state spec state id source before =
      let installed = new_system source spec.snapshot_labels t.recovery.now "reset" in
      let old_recovery : Option PartitionState = elim before [
        | none ↦ none
        | some i ↦ i.recovery
      ] in
      record {
        date = t.recovery.now;
        state = some (record {
          fs_label = state.value.filesystem_label;
          recovery_image = none;
          snapshots = (id, some (record installed { active = true })) ∷ [];
        });
        recovery = old_recovery;
        others =
            plain_entry "oem" spec.partitions.oem
            ++ plain_entry "persistent" spec.partitions.persistent;
      }

  unfoldable pub the_source : Step D ResetSpec ImageSource
  the_source = do
    system ← λ (u, c). follow u.spec.system (u, c)
    λ (u, c). (recorded_source system u.state, (u, c))

  -- The record on both partitions, by their mount points after the mount.
  unfoldable pub write_both : InstallState → Step D ResetSpec (Unit {0})
  write_both i = do
    state ← λ (u, c). mount_point_of u.spec.partitions.state (u, c)
    recovery ← λ (u, c). mount_point_of u.spec.partitions.recovery (u, c)
    on_log (
        write_install_state t.env t.recovery.marshal i (join state "state.yaml")
          (join recovery "state.yaml"))

  unfoldable pub described : PartitionRef → Step D ResetSpec InstallState
  described state = do
    snapshot ← the_snapshot
    source ← the_source
    λ (u, c). (ok (new_state u.spec state snapshot.id source u.state), (u, c))

  abbrev pub state_if_both :
      Option PartitionRef → Option PartitionRef → Step D ResetSpec InstallState
  state_if_both none recovery = raise (plain "undefined state or recovery partition")
  state_if_both (some state) none = raise (plain "undefined state or recovery partition")
  state_if_both (some state) (some recovery) = described state

  -- `updateInstallState`, after a transaction: there is a snapshot. The undo of the mount goes on the
  -- clean-up stack, behind the job of the transaction.
  unfoldable pub new_record : Step D ResetSpec InstallState
  new_record (u, c) = state_if_both u.spec.partitions.state u.spec.partitions.recovery (u, c)

  unfoldable pub mount_recovery : Step D ResetSpec (Unit {0})
  mount_recovery = mount_rw t.env (λ ep. ep.recovery) (λ ep p. record ep { recovery = p })

  unfoldable pub update_install_state : Step D ResetSpec (Unit {0})
  update_install_state = do i ← new_record; mount_recovery; write_both i
