-- ===== src/Actions/Upgrade/Entries.antt =====
-- pkg/action/upgrade.go: what the new state.yaml says of each snapshot.
use elemental_toolkit.Base.{
  ℕ, ◌<◌, String, ◌≡◌, refl, Bool, true, false, Option, none, some, List, [], if◌then◌else◌,
}
use elemental_toolkit.Base.Outcome.{Result, ok, err, panic}
use elemental_toolkit.Partitions.{PartitionRef}
use elemental_toolkit.Specs.{ImageSource, UpgradeSpec}
use elemental_toolkit.InstallState.{
  InstallState, PartitionState, SystemState, SystemMap, lookup, update_recovery, new_system,
}
use elemental_toolkit.InstallState.Snapshots.{
  HasNoNil, IsOnlyActive, has_key, entry_after, update_snapshots_lem,
}
use elemental_toolkit.Actions.Upgrade.{Setting}
use elemental_toolkit.Actions.Upgrade.Conclude.{updated_state}

-- What the old state.yaml says of the snapshots, and of the recovery partition.
abbrev pub snapshots_before : Option InstallState → SystemMap
snapshots_before none = []
snapshots_before (some i) = elim i.state [ none ↦ [] | some part ↦ part.snapshots ]

abbrev pub recovery_before : Option InstallState → Option PartitionState
recovery_before none = none
recovery_before (some i) = i.recovery

abbrev whole :
    List (String × PartitionState)
    → Option PartitionState
    → String
    → Option PartitionState
    → InstallState
whole others old date recovery = record {
  date = date;
  state = old;
  recovery = recovery;
  others = others;
}

module _ {D : Type 0} (t : Setting D) where
  -- The entry of the new system.
  abbrev pub IsNew : ImageSource → SystemState → Type 0
  IsNew system new =
      (new.active ≡ true)
      × (new.source ≡ some system)
      × (new.digest ≡ system.digest)
      × (new.labels ≡ t.recovery.labels)
      × (new.date ≡ t.recovery.now)
      × (new.from_action ≡ "upgrade")

  -- What the new state.yaml says of the snapshot `j`, or which failure takes its place: that of the entry of
  -- the recovery system, where this was upgraded too.
  abbrev pub Entered :
      UpgradeSpec
      → PartitionRef
      → ImageSource
      → List ℕ
      → ℕ
      → Option InstallState
      → ℕ
      → Result InstallState
      → Type 0
  Entered spec rec system present id before j (ok i) =
      (part : PartitionState) × (i.state ≡ some part)
      × (new : SystemState) × IsNew system new
      × (lookup j part.snapshots ≡ entry_after present id new (snapshots_before before) j)
  Entered spec rec system present id before j (err e) =
      (spec.recovery_upgrade ≡ true)
      × (update_recovery rec.value.filesystem_label spec.recovery_system t.recovery.labels
            t.recovery.now "upgrade" (recovery_before before)
          ≡ err e)
  Entered spec rec system present id before j panic =
      (spec.recovery_upgrade ≡ true)
      × (update_recovery rec.value.filesystem_label spec.recovery_system t.recovery.labels
            t.recovery.now "upgrade" (recovery_before before)
          ≡ panic)

  -- With the snapshots' part of the new record, by what the recovery system's part gives.
  entered :
      (spec : UpgradeSpec) (rec : PartitionRef) (system : ImageSource) (present : List ℕ) (id : ℕ)
      (before : Option InstallState) (j : ℕ) (part : PartitionState) (new : SystemState)
      (with_recovery : PartitionState → InstallState) (without : InstallState)
      → ((r : PartitionState) → (with_recovery r).state ≡ some part)
      → without.state ≡ some part
      → IsNew system new
      → lookup j part.snapshots ≡ entry_after present id new (snapshots_before before) j
      → (upgraded : Bool) (r : Result PartitionState) → spec.recovery_upgrade ≡ upgraded
      → update_recovery rec.value.filesystem_label spec.recovery_system t.recovery.labels
          t.recovery.now "upgrade"
          (recovery_before before)
        ≡ r
      → Entered spec rec system present id before j (
          if upgraded
          then (elim r as (λ _. Result InstallState) [
            | panic ↦ panic
            | err e ↦ err e
            | ok r ↦ ok (with_recovery r)
          ])
          else ok without)
  entered spec rec system present id before j part new f i hf hi is_new l true panic u e = (u, e)
  entered spec rec system present id before j part new f i hf hi is_new l true (err x) u e = (u, e)
  entered spec rec system present id before j part new f i hf hi is_new l true (ok r) u e =
      (part, hf r, new, is_new, l)
  entered spec rec system present id before j part new f i hf hi is_new l false r u e =
      (part, hi, new, is_new, l)

  abbrev new_entry : ImageSource → SystemState
  new_entry system = record (new_system system t.recovery.labels t.recovery.now "upgrade") {
    active = true;
  }

  module _ (spec : UpgradeSpec) (state rec : PartitionRef) (system : ImageSource) (present : List ℕ)
      (id : ℕ) (date : String) (recovery : Option PartitionState)
      (others : List (String × PartitionState)) (a j : ℕ) (pos : 0 < id) where
    from_old :
        (old : Option PartitionState)
        → HasNoNil (snapshots_before (some (whole others old date recovery)))
        → has_key id (snapshots_before (some (whole others old date recovery))) ≡ false
        → IsOnlyActive a (snapshots_before (some (whole others old date recovery)))
        → Entered spec rec system present id (some (whole others old date recovery)) j (
            updated_state t spec state rec system present id
              (some (whole others old date recovery)))
    unfolding updated_state
    from_old none values fresh only =
        let (m, e, l) =
          update_snapshots_lem present id (new_entry system) [] a j values pos fresh only in
        let part : PartitionState = record {
          fs_label = state.value.filesystem_label;
          recovery_image = none;
          snapshots = m;
        } in
        rw (e, updated_state)
          (entered spec rec system present id (some (whole others none date recovery)) j part
            (new_entry system) (λ r. whole others (some part) t.recovery.now (some r))
            (whole others (some part) t.recovery.now recovery) (λ r. refl) refl
            (refl, refl, refl, refl, refl, refl) l spec.recovery_upgrade _ refl refl)
    from_old (some old) values fresh only =
        let (m, e, l) =
          update_snapshots_lem present id (new_entry system) old.snapshots a j values pos fresh
            only in
        let part : PartitionState = record old { snapshots = m } in
        rw (e, updated_state)
          (entered spec rec system present id (some (whole others (some old) date recovery)) j part
            (new_entry system) (λ r. whole others (some part) t.recovery.now (some r))
            (whole others (some part) t.recovery.now recovery) (λ r. refl) refl
            (refl, refl, refl, refl, refl, refl) l spec.recovery_upgrade _ refl refl)

  -- What `upgradeInstallStateYaml` writes after an upgrade to a snapshot with a positive number and no entry
  -- yet, where the old state.yaml has no nil pointers among the snapshots and at most one active: the new
  -- snapshot has an active entry with the source, its digest, the labels, the date and the action of
  -- the upgrade; each older snapshot that the snapshotter lists has its entry but is not active; no other
  -- entry is left. It fails only as the entry of the recovery system does, where this is upgraded.
  pub updated_state-Entered :
      (spec : UpgradeSpec) (state rec : PartitionRef) (system : ImageSource) (present : List ℕ)
      (id : ℕ) (before : Option InstallState) (a j : ℕ)
      → HasNoNil (snapshots_before before)
      → 0 < id
      → has_key id (snapshots_before before) ≡ false
      → IsOnlyActive a (snapshots_before before)
      → Entered spec rec system present id before j
          (updated_state t spec state rec system present id before)
  unfolding updated_state
  updated_state-Entered spec state rec system present id none a j values pos fresh only =
      let (m, e, l) =
        update_snapshots_lem present id (new_entry system) [] a j values pos fresh only in
      let part : PartitionState = record {
        fs_label = state.value.filesystem_label;
        recovery_image = none;
        snapshots = m;
      } in
      rw (e, updated_state)
        (entered spec rec system present id none j part (new_entry system)
          (λ r. whole [] (some part) t.recovery.now (some r))
          (whole [] (some part) t.recovery.now none) (λ r. refl) refl
          (refl, refl, refl, refl, refl, refl) l spec.recovery_upgrade _ refl refl)
  updated_state-Entered spec state rec system present id (some i) a j values pos fresh only =
      from_old spec state rec system present id i.date i.recovery i.others a j pos i.state values
        fresh only
