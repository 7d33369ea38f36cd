-- ===== src/InstallState.antt =====
-- pkg/types/config.go: the record of what is installed, state.yaml, and its update by the two upgrade
-- actions (pkg/action/upgrade.go, pkg/action/upgrade-recovery.go).
pub mod Snapshots
use elemental_toolkit.Base.{
  ℕ, String, ◌<>◌, Bool, true, false, not, ◌&&◌, Option, none, some, List, [], ◌∷◌, ◌==◌, nat_eq,
  string_eq, if◌then◌else◌,
}
use elemental_toolkit.Base.Outcome.{Error, Result, ok, err, panic}
use elemental_toolkit.Base.Proc.{Proc, pure, raise, or_fail, ◌>>=◌, ◌>>◌}
use elemental_toolkit.System.{Env, Log, write_file}
use elemental_toolkit.Specs.{Image, ImageSource}
use elemental_toolkit.Snapshotter.LoopDevice.{is_listed}

pub record SystemState : Type 0 where
  pub source : Option ImageSource
  pub digest : String
  pub active : Bool
  pub label : String
  pub fs : String
  pub labels : List (String × String)
  pub date : String
  pub from_action : String

-- `map[int]*SystemState`, in the order in which a loop over the map visits the entries; a pointer may
-- be nil.
abbrev pub SystemMap : Type 0
SystemMap = List (ℕ × Option SystemState)

-- `PartitionState`; a nil map reads like an empty one.
pub record PartitionState : Type 0 where
  pub fs_label : String
  pub recovery_image : Option SystemState
  pub snapshots : SystemMap

-- `InstallState`, with its map of partitions as the two entries that an upgrade reads and changes and the
-- others by their names: the map is not nil. The snapshotter's configuration is left out.
pub record InstallState : Type 0 where
  pub date : String
  pub state : Option PartitionState
  pub recovery : Option PartitionState
  pub others : List (String × PartitionState)

-- `snapshots[id]`: nil too where there is no entry.
unfoldable pub lookup : ℕ → SystemMap → Option SystemState
lookup id [] = none
lookup id ((i, s) ∷ rest) = if i == id then s else lookup id rest

-- `snapshots[id] = s`
unfoldable pub set : ℕ → Option SystemState → SystemMap → SystemMap
set id s [] = (id, s) ∷ []
set id s ((i, t) ∷ rest) = if i == id then (i, s) ∷ rest else (i, t) ∷ set id s rest

-- The loop over the map: the last active snapshot of the loop, 0 where there is none, and those that
-- are gone. It follows nil pointers.
unfoldable pub scan : List ℕ → SystemMap → ℕ → List ℕ → Result (ℕ × List ℕ)
scan present [] old deleted = ok (old, deleted)
scan present ((id, none) ∷ rest) old deleted = panic
scan present ((id, some s) ∷ rest) old deleted =
    scan present rest (if s.active then id else old)
      (if is_listed id present then deleted else id ∷ deleted)

-- `if snapshots[id] != nil { snapshots[id].Active = false }`
unfoldable pub deactivate : ℕ → SystemMap → SystemMap
deactivate id m = elim (lookup id m) [
  | none ↦ m
  | some s ↦ set id (some (record s { active = false })) m
]

-- `delete(snapshots, id)` for each of a list.
unfoldable pub remove : List ℕ → SystemMap → SystemMap
remove deleted [] = []
remove deleted ((i, s) ∷ rest) =
    if is_listed i deleted then remove deleted rest else (i, s) ∷ remove deleted rest

-- The part of `upgradeInstallStateYaml` that changes the snapshots.
unfoldable pub update_snapshots : List ℕ → ℕ → SystemState → SystemMap → Result SystemMap
update_snapshots present id new m = elim (scan present m 0 []) [
  | ok (old, deleted) ↦ ok (remove deleted (deactivate old (set id (some new) m)))
  | err e ↦ err e
  | panic ↦ panic
]

-- The entry of a system, inactive.
abbrev pub new_system : ImageSource → List (String × String) → String → String → SystemState
new_system source labels date action = record {
  source = some source;
  digest = source.digest;
  active = false;
  label = "";
  fs = "";
  labels = labels;
  date = date;
  from_action = action;
}

-- The recovery image's part of both actions' `upgradeInstallStateYaml`: file system label, image, labels, date
-- and action. A new entry needs the image's source.
unfoldable pub update_recovery :
    String
    → Image
    → List (String × String)
    → String
    → String
    → Option PartitionState
    → Result PartitionState
update_recovery fs_label image labels date action none = elim image.source [
  | none ↦ panic
  | some source ↦ ok (record {
    fs_label = fs_label;
    recovery_image =
        some (record (new_system source labels date action) { label = image.label; fs = image.fs });
    snapshots = [];
  })
]
update_recovery fs_label image labels date action (some part) = ok (record part {
  recovery_image = elim part.recovery_image [
    | none ↦ none
    | some image ↦ some (record image { date = date; labels = labels; from_action = action })
  ];
})

-- `WriteInstallState`; `marshal` is the YAML library's.
unfoldable pub write_install_state :
    (env : Env) (marshal : InstallState → String × Option Error)
    → InstallState
    → String
    → String
    → Proc Log (Unit {0})
write_install_state env marshal i state_path recovery_path =
    let (text, e) = marshal i in
    let contents = "# Autogenerated file by elemental client, do not edit\n\n" <> text in
    let write : String → Proc Log (Unit {0}) =
      λ path. if not (path == "") then or_fail (write_file env path contents) else pure tt in
    elim e [ some failure ↦ raise failure | none ↦ write state_path >> write recovery_path ]
