-- ===== src/Actions/Constructors.antt =====
-- pkg/action/install.go, reset.go and upgrade.go: the constructors of the actions.
pub mod Agreement
use elemental_toolkit.Base.{Option, none, some, List, [], ◌∷◌, ◌==◌, string_eq, if◌then◌else◌}
use elemental_toolkit.Base.Outcome.{Error, plain, Result, ok, err, panic, ◌>>=◌}
use elemental_toolkit.System.{Env, Log}
use elemental_toolkit.Partitions.{PartitionRef}
use elemental_toolkit.Specs.{InstallSpec, ResetSpec, UpgradeSpec}
use elemental_toolkit.Snapshotter.Factory.{SnapshotterConfig, AnySnapshotter, new_snapshotter}
use elemental_toolkit.Actions.{
  HasPartitions, is_recovery_mode, install_partitions, reset_partitions,
}

-- An action under construction, with its specification and any type `BL` of bootloaders.
pub record Draft (BL S : Type 0) : Type 0 where
  pub bootloader : Option BL
  pub snapshotter : Option AnySnapshotter
  pub spec : S

-- `InstallActionOption` and the like: an option may change the action and fail.
abbrev pub DraftOption : Type 0 → Type 0 → Type 0
DraftOption BL S = Draft BL S → Option Error × Draft BL S

-- `WithInstallBootloader` and `WithResetBootloader`, `WithUpgradeBootloader`
unfoldable pub with_bootloader : {BL S : Type 0} → BL → DraftOption BL S
with_bootloader b d = (none, record d { bootloader = some b })

-- `NewGrub`, where no option has set a bootloader.
abbrev pub grub_unless : {BL : Type 0} → BL → Option BL → Option BL
grub_unless grub none = some grub
grub_unless grub (some b) = some b

module _ {S : Type 0} ⦃h : HasPartitions S⦄ where
  -- The file system of the state partition with the btrfs snapshotter.
  abbrev pub forced : Option PartitionRef → S → Result S
  forced none spec = panic
  forced (some p) spec =
      let state = record p { value = record p.value { fs = "btrfs" } } in
      ok (h.with_partitions (record (h.partitions_of spec) { state = some state }) spec)

module _ {BL S : Type 0} where
  -- The loop over the options.
  unfoldable pub apply_options : List (DraftOption BL S) → Draft BL S → Result (Draft BL S)
  apply_options [] d = ok d
  apply_options (o ∷ rest) d =
      let (e, d') = o d in
      let next = apply_options rest d' in elim e [ some failure ↦ err failure | none ↦ next ]

  unfoldable pub started_with : BL → List (DraftOption BL S) → S → Result (Draft BL S)
  started_with grub options spec = do
    d ← apply_options options (record { bootloader = none; snapshotter = none; spec = spec })
    ok (record d { bootloader = grub_unless grub d.bootloader })

  -- `NewSnapshotter`, where no option has set a snapshotter: the action and the error.
  abbrev pub snapshotter_made :
      Result AnySnapshotter → Draft BL S → Result (Draft BL S × Option Error)
  snapshotter_made (ok s) d = ok (record d { snapshotter = some s }, none)
  snapshotter_made (err e) d = ok (record d { snapshotter = none }, some e)
  snapshotter_made panic d = panic

  abbrev pub snapshotter_unless :
      SnapshotterConfig → Option AnySnapshotter → Draft BL S → Result (Draft BL S × Option Error)
  snapshotter_unless c none d = snapshotter_made (new_snapshotter c) d
  snapshotter_unless c (some s) d = ok (d, none)

  unfoldable pub with_snapshotter :
      SnapshotterConfig → Draft BL S → Result (Draft BL S × Option Error)
  with_snapshotter c d = snapshotter_unless c d.snapshotter d

  -- `if err != nil { return nil, err }`
  abbrev pub or_err : Draft BL S × Option Error → Result (Draft BL S)
  or_err (d, none) = ok d
  or_err (d, some e) = err e

  module _ ⦃h : HasPartitions S⦄ where
    unfoldable pub force_btrfs : SnapshotterConfig → Draft BL S → Result (Draft BL S)
    force_btrfs c d =
        (if c.kind == "btrfs"
          then forced (h.partitions_of d.spec).state d.spec
            >>= (λ spec. ok (record d { spec = spec }))
          else ok d)

-- `NewInstallAction`, which returns the action also beside the error of its snapshotter.
unfoldable pub new_install_action :
    {BL : Type 0}
    → BL
    → SnapshotterConfig
    → List (DraftOption BL InstallSpec)
    → InstallSpec
    → Result (Draft BL InstallSpec × Option Error)
new_install_action grub c options spec = do
  d ← started_with grub options spec
  made ← with_snapshotter c d
  d ← force_btrfs c made.0
  ok (d, made.1)

-- `NewResetAction`
unfoldable pub new_reset_action :
    {BL : Type 0}
    → BL
    → SnapshotterConfig
    → List (DraftOption BL ResetSpec)
    → ResetSpec
    → Result (Draft BL ResetSpec)
new_reset_action grub c options spec = do
  d ← started_with grub options spec
  made ← with_snapshotter c d
  d ← or_err made
  force_btrfs c d

-- `NewUpgradeAction`: the type of the snapshotter that state.yaml records stays.
unfoldable pub kept_config : Option SnapshotterConfig → SnapshotterConfig → SnapshotterConfig
kept_config none c = c
kept_config (some old) c = if old.kind == c.kind then c else old

abbrev pub mode_checked :
    {BL : Type 0} → Env → Result (Draft BL UpgradeSpec) → Log → Result (Draft BL UpgradeSpec) × Log
mode_checked env (ok d) w =
    let (recovery, w') = is_recovery_mode env w in
    if d.spec.recovery_upgrade
    then (
      if recovery then err (plain "can not upgrade recovery from recovery partition") else ok d,
      w',
    )
    else (ok d, w)
mode_checked env (err e) w = (err e, w)
mode_checked env panic w = (panic, w)

unfoldable pub new_upgrade_action :
    {BL : Type 0}
    → Env
    → BL
    → Option SnapshotterConfig
    → SnapshotterConfig
    → List (DraftOption BL UpgradeSpec)
    → UpgradeSpec
    → Log
    → Result (Draft BL UpgradeSpec) × Log
new_upgrade_action env grub recorded c options spec w =
    mode_checked env
      (started_with grub options spec
        >>= (λ d. with_snapshotter (kept_config recorded c) d >>= or_err))
      w
