-- ===== src/Snapshotter/Snapper.antt =====
-- pkg/snapshotter/snapper-backend.go: subvolumes that snapper handles, a backend of the btrfs snapshotter.
pub mod Listing
use elemental_toolkit.Base.{
  ℕ, zero, suc, ◌+◌, ◌^◌, String, ◌<>◌, Bool, true, false, not, ◌&&◌, ◌||◌, Option, none, some,
  List, [], ◌∷◌, ◌++◌, ltb, ◌==◌, nat_eq, string_eq, if◌then◌else◌,
}
use elemental_toolkit.Base.Text.{
  decimal, join, trim_space, split_lines, strip_prefix, number, read_decimal,
}
use elemental_toolkit.Base.Outcome.{Error, plain, Result, ok, err, panic}
use elemental_toolkit.Base.Proc.{
  Proc, pure, raise, or_fail, value_or_fail, call, on_error, inside, ◌>>=◌, ◌>>◌,
}
use elemental_toolkit.System.{Env, Log, Act, run, mkdir_all, exists}
use elemental_toolkit.Snapshotter.{Snapshot}
use elemental_toolkit.Snapshotter.Btrfs.{
  BtrfsBackend, Xml, capped, bare_snapshot, snapshot_path, init_btrfs_partition, delete_snapshot,
}
use elemental_toolkit.Snapshotter.Btrfs.Create.{create_new_snapshot, commit_snapshot}
use elemental_toolkit.Snapshotter.Btrfs.Probe.{BackendStat, probe}
use elemental_toolkit.Snapshotter.Volumes.{SubvolumeBackend}

-- `snapperBackend`
pub record SnapperBackend : Type 0 where
  pub current_id : ℕ
  pub active_id : ℕ
  pub max_snapshots : ℕ
  pub btrfs : BtrfsBackend

-- `FindFile` (root, patterns), `LoadEnvFile` and `WriteEnvFile` of pkg/utils.
pub record EnvFiles : Type 0 where
  pub find_file : String → List String → Act (String × Option Error)
  pub load : String → Act (List (String × String) × Option Error)
  pub write : List (String × String) → String → Act (Option Error)

-- `m[key] = value`
unfoldable pub assign : String → String → List (String × String) → List (String × String)
assign key value [] = (key, value) ∷ []
assign key value ((k, v) ∷ rest) =
    if k == key then (key, value) ∷ rest else (k, v) ∷ assign key value rest

-- The flags of a line of `snapper list`: whether the snapshot is the default one.
abbrev pub default_flag : String → Option Bool
default_flag s =
    if s == ",yes,yes" || s == ",yes,no"
    then some true
    else if s == ",no,yes" || s == ",no,no"
    then some false
    else none

-- A match of `^(\d+),(yes|no),(yes|no)$`.
abbrev flagged : ℕ × String → Option (ℕ × Bool)
flagged (id, s) = elim (default_flag s) [ none ↦ none | some flag ↦ some (capped id, flag) ]

unfoldable pub parse_entry : String → Option (ℕ × Bool)
parse_entry line = elim (number line) [ none ↦ none | some found ↦ flagged found ]

-- The snapshot 0 is that of the running system.
abbrev pub add_entry : Option (ℕ × Bool) → List ℕ × ℕ → List ℕ × ℕ
add_entry none found = found
add_entry (some (zero, flag)) found = found
add_entry (some (suc id, flag)) (ids, active) =
    (ids ++ (suc id ∷ []), if flag then suc id else active)

unfoldable pub add_entries : List String → List ℕ × ℕ → List ℕ × ℕ
add_entries [] found = found
add_entries (line ∷ rest) found = add_entries rest (add_entry (parse_entry (trim_space line)) found)

-- `rootArgs`
unfoldable pub root_args : SnapperBackend → String → List String
root_args s root =
    if not (root == "/") && (s.current_id == 0) && ltb 0 s.active_id
    then "--no-dbus" ∷ "--root" ∷ join root (snapshot_path s.active_id) ∷ []
    else if not (root == "/")
    then "--no-dbus" ∷ "--root" ∷ root ∷ []
    else []

-- Neither an active snapshot nor a running one, as on an installation medium.
abbrev pub is_bare : SnapperBackend → Bool
is_bare s = (s.active_id == 0) && (s.current_id == 0)

module _ (env : Env) where
  -- A command of which only the error counts.
  unfoldable pub snapper : SnapperBackend → String → List String → Act (Option Error)
  snapper s root args w =
      let ((out, e), w') = run env "snapper" (root_args s root ++ args) w in (e, w')

  -- `DeleteSnapshot`
  unfoldable pub delete_with_snapper : SnapperBackend → String → ℕ → Proc Log (Unit {0})
  delete_with_snapper s root id =
      if is_bare s
      then delete_snapshot env s.btrfs root id
      else or_fail (snapper s root ("delete" ∷ "--sync" ∷ decimal id ∷ []))

  -- `ListSnapshots`, whose new active identifier is lost; the error of a failed labelling is dropped.
  abbrev pub listed_in : String → Option Error → Result (List ℕ × ℕ)
  listed_in out none = ok (add_entries (split_lines (trim_space out)) ([], 0))
  listed_in out (some e) = elim (strip_prefix "fsetfilecon on" out) [
    | none ↦ err e
    | some rest ↦ ok (add_entries (split_lines (trim_space out)) ([], 0))
  ]

  unfoldable pub list_with_snapper : SnapperBackend → String → Proc Log (List ℕ × ℕ)
  list_with_snapper s root w =
      let ((out, e), w') =
        run env "snapper"
          (root_args s root ++ ("--csvout" ∷ "list" ∷ "--columns" ∷ "number,default,active" ∷ []))
          w in
      (listed_in out e, w')

  -- `SnapshotsCleanup`
  unfoldable pub clean_with_snapper : SnapperBackend → String → Proc Log (Unit {0})
  clean_with_snapper s root =
      or_fail (snapper s root ("cleanup" ∷ "--path" ∷ join root ".snapshots" ∷ "number" ∷ []))

  -- `strconv.Atoi` of what `snapper create` prints, a number without a sign.
  abbrev pub printed_id : String → Proc Log ℕ
  printed_id out = elim (read_decimal (trim_space out)) [
    | none ↦ raise (plain "failed parsing new snapshot ID")
    | some id ↦ pure id
  ]

  -- `CreateNewSnapshot` from a snapshot.
  unfoldable pub create_from : SnapperBackend → String → ℕ → Proc Log Snapshot
  create_from s root base = do
    out ← value_or_fail (
        run env "snapper" (
          root_args s root
          ++ ("create"
              ∷ "--from"
              ∷ decimal base
              ∷ "--read-write"
              ∷ "--print-number"
              ∷ "--description"
              ∷ ("Update for snapshot " <> decimal base)
              ∷ "-c"
              ∷ "number"
              ∷ "--userdata"
              ∷ "update-in-progress=yes"
              ∷ [])))
    id ← printed_id out
    on_error
        (or_fail (mkdir_all env (join root (".snapshots/" <> decimal id <> "/snapshot.workDir"))))
        (delete_with_snapper s root id)
    pure (
        bare_snapshot id (join root (".snapshots/" <> decimal id <> "/snapshot.workDir"))
          (join root (snapshot_path id)))

  module _ (files : EnvFiles) where
    -- `configureSnapper`: the file that names the configurations, and the configuration of the root.
    unfoldable pub sysconfig_file : String → Proc Log String
    sysconfig_file path = do
      there ← call (exists env (join path "etc/default/snapper"))
      pure (join path (if there then "etc/default/snapper" else "etc/sysconfig/snapper"))

    unfoldable pub load_if_there : String → Proc Log (List (String × String))
    load_if_there file = do
      there ← call (exists env file)
      if there then value_or_fail (files.load file) else pure []

    unfoldable pub write_root_config : SnapperBackend → String → String → Proc Log (Unit {0})
    write_root_config s path template = do
      config ← value_or_fail (files.load template)
      or_fail (
          files.write
            (assign "NUMBER_LIMIT_IMPORTANT" (decimal s.max_snapshots) (
              assign "NUMBER_LIMIT" (decimal s.max_snapshots)
                (assign "QGROUP" "1/0" (assign "TIMELINE_CREATE" "no" config))))
            (join path "etc/snapper/configs/root"))

    unfoldable pub configure_snapper : SnapperBackend → String → Proc Log (Unit {0})
    configure_snapper s path = do
      template ← value_or_fail (
          files.find_file path (
            "/etc/snapper/config-templates/default" ∷ "/usr/share/snapper/config-templates/default"
            ∷ []))
      file ← sysconfig_file path
      known ← load_if_there file
      or_fail (files.write (assign "SNAPPER_CONFIGS" "root" known) file)
      write_root_config s path template

  module _ (xml : Xml) (files : EnvFiles) where
    -- `CreateNewSnapshot`: snapper does not create a first snapshot.
    unfoldable pub create_with_snapper : SnapperBackend → String → ℕ → Proc Log Snapshot
    create_with_snapper s root base =
        if base == 0 then create_new_snapshot env xml s.btrfs root base else create_from s root base

    -- `CommitSnapshot`
    unfoldable pub commit_with_snapper : SnapperBackend → String → Snapshot → Proc Log (Unit {0})
    commit_with_snapper s root snapshot =
        configure_snapper files s snapshot.path
        >> (if is_bare s
            then commit_snapshot env xml root snapshot
            else or_fail (
                snapper s root (
                  "modify"
                  ∷ "--read-only"
                  ∷ "--default"
                  ∷ "--userdata"
                  ∷ "install-in-progress=,update-in-progress="
                  ∷ decimal snapshot.id
                  ∷ [])))

    -- `Probe`, which keeps what the btrfs backend finds.
    abbrev pub kept_stat :
        SnapperBackend
        → Result BackendStat × (BtrfsBackend × Log)
        → Result BackendStat × (SnapperBackend × Log)
    kept_stat s (ok stat, (b, w)) = (
      ok stat,
      (
        record s { btrfs = b; active_id = stat.stat_active_id; current_id = stat.stat_current_id },
        w,
      ),
    )
    kept_stat s (err e, (b, w)) = (err e, (record s { btrfs = b }, w))
    kept_stat s (panic, (b, w)) = (panic, (record s { btrfs = b }, w))

    unfoldable pub probe_with_snapper : String → String → Proc (SnapperBackend × Log) BackendStat
    probe_with_snapper device mount_point (s, w) =
        kept_stat s (probe env device mount_point (s.btrfs, w))

    abbrev pub snapper_backend : SubvolumeBackend SnapperBackend
    snapper_backend = record {
      find_state = probe_with_snapper;
      init_partition = λ root. inside (init_btrfs_partition env root);
      create = λ root base (s, w). inside (create_with_snapper s root base) (s, w);
      commit = λ root snapshot (s, w). inside (commit_with_snapper s root snapshot) (s, w);
      list = λ root (s, w). inside (list_with_snapper s root) (s, w);
      delete = λ root id (s, w). inside (delete_with_snapper s root id) (s, w);
      clean_up = λ root (s, w). inside (clean_with_snapper s root) (s, w);
    }
