-- ===== src/Actions/Transaction.antt =====
-- What the actions of pkg/action share: the transaction of the snapshotter with its clean-up job, and the
-- binds of the hooks in the new root.
use elemental_toolkit.Base.{
  String, Option, none, some, List, [], ◌∷◌, ◌++◌, ◌==◌, string_eq, if◌then◌else◌,
}
use elemental_toolkit.Base.Outcome.{Error, Result, ok, err, panic}
use elemental_toolkit.Base.Proc.{◌>>=◌}
use elemental_toolkit.System.{Log}
use elemental_toolkit.CleanStack.{CleanFunc, push_error_only}
use elemental_toolkit.Partitions.{PartitionRef, ElementalPartitions}
use elemental_toolkit.Snapshotter.{Snapshot, Snapshotter}
use elemental_toolkit.Actions.{
  ActionState, World, Step, HasPartitions, set_partitions, mount_point_of, follow,
}

abbrev pub working_dir : String
working_dir = "/run/elemental/workingtree"

-- `mountPoints[p.MountPoint] = target` in `upgradeChrootHook`.
abbrev pub bind_if : Option PartitionRef → String → List (String × String)
bind_if none target = []
bind_if (some p) target =
    if p.value.mount_point == "" then [] else (p.value.mount_point, target) ∷ []

unfoldable pub hook_binds : ElementalPartitions → List (String × String)
hook_binds ep =
    bind_if ep.oem "/oem"
    ++ bind_if ep.persistent "/run/elemental/persistent"
    ++ bind_if ep.boot "/run/elemental/efi"

module _ {D S : Type 0} where
  unfoldable pub the_snapshot : Step D S Snapshot
  the_snapshot (u, c) = follow u.snapshot (u, c)

module _ {D S : Type 0} ⦃h : HasPartitions S⦄ where
  unfoldable pub boot_dir : Step D S String
  boot_dir (u, c) = mount_point_of (h.partitions_of u.spec).boot (u, c)

module _ {D S : Type 0} (snapper : Snapshotter D) where
  -- The clean-up job of the transaction, which reads the snapshot when it runs.
  unfoldable pub closer : CleanFunc (ActionState D S)
  closer u =
      let closed : Snapshot → Option Error × ActionState D S = λ snapshot.
        let (e, (d, w)) = snapper.close_transaction_on_error snapshot (u.device, u.log) in
        (e, record u { device = d; log = w }) in
      elim u.snapshot [ none ↦ (none, u) | some snapshot ↦ closed snapshot ]

  -- `StartTransaction` and the push of the job.
  abbrev pub started : World D S → Result Snapshot × (D × Log) → Result (Unit {0}) × World D S
  started (u, c) (ok snapshot, (d, w)) = (
    ok tt,
    (record u { device = d; log = w; snapshot = some snapshot }, push_error_only c closer),
  )
  started (u, c) (err e, (d, w)) = (err e, (record u { device = d; log = w; snapshot = none }, c))
  started (u, c) (panic, (d, w)) = (panic, (record u { device = d; log = w }, c))

  unfoldable pub start : Step D S (Unit {0})
  start (u, c) = started (u, c) (snapper.start_transaction (u.device, u.log))

  -- `CloseTransaction`, which changes the snapshot.
  abbrev pub closed_with : World D S → Result Snapshot × (D × Log) → Result (Unit {0}) × World D S
  closed_with (u, c) (ok snapshot, (d, w)) =
      (ok tt, (record u { device = d; log = w; snapshot = some snapshot }, c))
  closed_with (u, c) (err e, (d, w)) = (err e, (record u { device = d; log = w }, c))
  closed_with (u, c) (panic, (d, w)) = (panic, (record u { device = d; log = w }, c))

  unfoldable pub close : Step D S (Unit {0})
  close = do
    snapshot ← the_snapshot
    λ (u, c). closed_with (u, c) (snapper.close_transaction snapshot (u.device, u.log))

module _ {D S : Type 0} ⦃h : HasPartitions S⦄ (snapper : Snapshotter D) where
  -- `InitSnapshotter` with the state partition, which it may change.
  unfoldable pub initiated : String → PartitionRef → Step D S (Unit {0})
  initiated boot state (u, c) =
      let (r, (part, (d, w))) = snapper.init_snapshotter boot (state.value, (u.device, u.log)) in
      let ep = record (h.partitions_of u.spec) { state = some (record state { value = part }) } in
      (r, (record (set_partitions ep u) { device = d; log = w }, c))

  unfoldable pub init : Step D S (Unit {0})
  init = do
    boot ← boot_dir
    state ← λ (u, c). follow (h.partitions_of u.spec).state (u, c)
    initiated boot state
