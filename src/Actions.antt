-- ===== src/Actions.antt =====
-- pkg/action/common.go and what the actions of pkg/action share: hooks, the power action, and the
-- state that their steps and their clean-up jobs change.
pub mod Transaction
pub mod Phases
pub mod Quiet
pub mod Bracket
pub mod Deployment
pub mod Install
pub mod Reset
pub mod Constructors
pub mod Recovery
pub mod Upgrade
use elemental_toolkit.Base.{
  ℕ, String, ◌<>◌, Bool, true, false, Option, none, some, List, [], ◌∷◌, ◌++◌, map, ◌==◌, string_eq,
  if◌then◌else◌,
}
use elemental_toolkit.Base.Text.{join}
use elemental_toolkit.Base.Outcome.{Error, Result, ok, err, panic}
use elemental_toolkit.Base.Proc.{Proc, pure, halt, or_fail, ◌>>=◌, ◌>>◌}
use elemental_toolkit.System.{Env, Log, Act, run, exists}
use elemental_toolkit.CleanStack.{CleanFunc, CleanStack, new_clean_stack, push, cleanup}
use elemental_toolkit.Partitions.{PartitionRef, ElementalPartitions}
use elemental_toolkit.Elemental.{mount_rw_pointer, error_of}
use elemental_toolkit.Chroot.{chrooted_callback}
use elemental_toolkit.Specs.{InstallSpec, ResetSpec, UpgradeSpec}
use elemental_toolkit.InstallState.{InstallState}
use elemental_toolkit.Snapshotter.{Snapshot}

-- The fields of `RunConfig` that the actions read.
pub record RunConfig : Type 0 where
  pub strict : Bool
  pub cloud_init_paths : List String
  pub reboot : Bool
  pub power_off : Bool
  pub eject_cd : Bool

-- `RunStage` of pkg/utils (stage, strict, paths of cloud-init files).
abbrev pub RunStage : Type 0
RunStage = String → Bool → List String → Act (Option Error)

-- The paths of an option's `PreAppendRoot`.
unfoldable pub pre_append_root : String → List String → List String
pre_append_root root paths = map (join root) paths

-- `Hook`
unfoldable pub hook : RunStage → RunConfig → String → List String → Act (Option Error)
hook run_stage cfg name paths w =
    let (e, w') = run_stage name cfg.strict paths w in (if cfg.strict then e else none, w')

module _ (env : Env) where
  -- `ChrootHook`, with the default binds.
  unfoldable pub chroot_hook :
      RunStage
      → RunConfig
      → String
      → String
      → List (String × String)
      → List String
      → Act (Option Error)
  unfolding hook
  chroot_hook run_stage cfg name root binds paths w =
      let ((e, c), w') = chrooted_callback env root binds (hook run_stage cfg name paths) false w in
      (e, w')

  -- `PowerAction`, without the delay.
  unfoldable pub power_action : RunConfig → Act (Option Error)
  power_action cfg w =
      let ((out₁, e₁), w₁) = run env "reboot" ("-f" ∷ []) w in
      let ((out₂, e₂), w₂) = run env "poweroff" ("-f" ∷ []) w in
      if cfg.reboot then (e₁, w₁) else if cfg.power_off then (e₂, w₂) else (none, w)

  -- `elemental.IsRecoveryMode`
  unfoldable pub is_recovery_mode : Act Bool
  is_recovery_mode = exists env "/run/elemental/recovery_mode"

-- What an action changes: the snapshotter, the world, the specification with its install state, and
-- the snapshot of the transaction.
pub record ActionState (D S : Type 0) : Type 0 where
  pub device : D
  pub log : Log
  pub spec : S
  pub state : Option InstallState
  pub snapshot : Option Snapshot

-- A step of an action: it may push clean-up jobs.
module _ (D S : Type 0) where
  abbrev pub World : Type 0
  World = ActionState D S × CleanStack (ActionState D S)

  abbrev pub Step : Type 0 → Type 0
  Step A = Proc World A

module _ {D S : Type 0} where
  -- A call that sees the log alone, or the snapshotter too.
  abbrev pub on_log : {A : Type 0} → Act A → World D S → A × World D S
  on_log m (u, c) = let (a, w) = m u.log in (a, (record u { log = w }, c))

  abbrev pub on_device : {A : Type 0} → (D × Log → A × (D × Log)) → World D S → A × World D S
  on_device m (u, c) =
      let (a, (d, w)) = m (u.device, u.log) in (a, (record u { device = d; log = w }, c))

  -- A job that sees the log alone.
  abbrev pub log_job : Act (Option Error) → CleanFunc (ActionState D S)
  log_job f u = let (e, w) = f u.log in (e, record u { log = w })

  -- A pointer that is followed.
  abbrev pub follow : {A : Type 0} → Option A → Step D S A
  follow none s = (panic, s)
  follow (some a) s = (ok a, s)

  -- `p.MountPoint`
  unfoldable pub mount_point_of : Option PartitionRef → Step D S String
  mount_point_of none s = (panic, s)
  mount_point_of (some p) s = (ok p.value.mount_point, s)

  -- `err = cleanup.Cleanup(err)`: a panic runs the jobs as if there was no error.
  abbrev swept :
      Result (Option Error × ActionState D S × CleanStack (ActionState D S))
      → World D S
      → Option Error × World D S
  swept (ok (e, u, c)) s = (e, (u, c))
  swept (err e) s = (some e, s)
  swept panic s = (none, s)

  unfoldable pub sweep :
      (Option Error → Error → Error) → Option Error → World D S → Option Error × World D S
  sweep append e (u, c) = swept (cleanup append c e u) (u, c)

  abbrev finish :
      (Option Error → Error → Error) → Result (Unit {0}) × World D S → Result (Unit {0}) × World D S
  finish append (ok done, s) = or_fail (sweep append none) s
  finish append (err e, s) =
      let (e', s') = sweep append (some e) s in
      (elim e' [ none ↦ ok tt | some failure ↦ err failure ], s')
  finish append (panic, s) = let (e', s') = sweep append none s in (panic, s')

  -- A body with the deferred clean-up of its stack.
  unfoldable pub run_with_cleanup :
      (Option Error → Error → Error)
      → Step D S (Unit {0})
      → ActionState D S
      → Result (Unit {0}) × World D S
  run_with_cleanup append body u = finish append (body (u, new_clean_stack))

-- A specification with the partitions of a system.
pub record HasPartitions (S : Type 0) : Type 0 where
  pub partitions_of : S → ElementalPartitions
  pub with_partitions : ElementalPartitions → S → S

instance abbrev pub upgrade_partitions : HasPartitions UpgradeSpec
upgrade_partitions = record {
  partitions_of = λ spec. spec.partitions;
  with_partitions = λ ep spec. record spec { partitions = ep };
}

instance abbrev pub reset_partitions : HasPartitions ResetSpec
reset_partitions = record {
  partitions_of = λ spec. spec.partitions;
  with_partitions = λ ep spec. record spec { partitions = ep };
}

instance abbrev pub install_partitions : HasPartitions InstallSpec
install_partitions = record {
  partitions_of = λ spec. spec.partitions;
  with_partitions = λ ep spec. record spec { partitions = ep };
}

module _ {D S : Type 0} ⦃h : HasPartitions S⦄ where
  abbrev pub set_partitions : ElementalPartitions → ActionState D S → ActionState D S
  set_partitions ep u = record u { spec = h.with_partitions ep u.spec }

  -- `MountRWPartition` of one of the partitions, whose undo is pushed.
  abbrev mounted :
      (ElementalPartitions → Option PartitionRef → ElementalPartitions)
      → World D S
      → Result (Act (Option Error) × Option PartitionRef) × Log
      → Result (Unit {0}) × World D S
  mounted put (u, c) (ok (umount, p), w) = (
    ok tt,
    (
      record (set_partitions (put (h.partitions_of u.spec) p) u) { log = w },
      push c (log_job umount),
    ),
  )
  mounted put (u, c) (err e, w) = (err e, (record u { log = w }, c))
  mounted put (u, c) (panic, w) = (panic, (record u { log = w }, c))

  unfoldable pub mount_rw :
      Env
      → (ElementalPartitions → Option PartitionRef)
      → (ElementalPartitions → Option PartitionRef → ElementalPartitions)
      → Step D S (Unit {0})
  mount_rw env get put (u, c) =
      mounted put (u, c) (mount_rw_pointer env (get (h.partitions_of u.spec)) u.log)
