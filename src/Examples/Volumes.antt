-- ===== src/Examples/Volumes.antt =====
-- The btrfs snapshotter over a backend of two snapshots, the second of them active.
use elemental_toolkit.Base.{
  ◌≡◌, refl, ◌+◌, ◌<◌, ℕ, String, true, false, none, some, List, [], ◌∷◌, All, arith, ap,
}
use mathlib.Core.Path.{subst}
use elemental_toolkit.Base.Outcome.{plain, Result, ok, err, panic}
use elemental_toolkit.System.{Env, Log}
use elemental_toolkit.Snapshotter.{Snapshot}
use elemental_toolkit.Snapshotter.Volumes.{SubvolumeBackend, Btrfs, VolumeParts}
use elemental_toolkit.Snapshotter.Volumes.Transaction.{start_transaction, close_transaction}
use elemental_toolkit.Snapshotter.Volumes.Commit.{watched, Decided, close_transaction-Decided}
use elemental_toolkit.Snapshotter.Volumes.Left.Counting.{counted, deletions}
use elemental_toolkit.Snapshotter.Volumes.Left.{start_transaction-deletes_none}
use elemental_toolkit.Examples.Tables.{calm}

abbrev made : Snapshot
made = record {
  id = 3;
  mount_point = "/run/elemental/workingtree";
  path = "/run/elemental/state/.snapshots/3/snapshot";
  work_dir = "/run/elemental/state/.snapshots/3/snapshot.workDir";
  label = "";
  in_progress = true;
}

-- Its state is the number of the commits.
abbrev backend : SubvolumeBackend ℕ
backend = record {
  find_state = λ device mount_point s. (
    ok (record {
      root_dir = "/run/elemental/state";
      state_mount = "/run/elemental/state";
      stat_current_id = 2;
      stat_active_id = 2;
    }),
    s,
  );
  init_partition = λ root s. (ok tt, s);
  create = λ root base s. (ok made, s);
  commit = λ root snapshot (n, w). (ok tt, (n + 1, w));
  list = λ root s. (ok (1 ∷ 2 ∷ [], 2), s);
  delete = λ root id s. (ok tt, s);
  clean_up = λ root s. (ok tt, s);
}

abbrev volumes : {B : Type 0} → B → Btrfs B
volumes b = record {
  root_dir = "/run/elemental/state";
  efi_dir = "/run/elemental/efi";
  active_snapshot_id = 2;
  backend = b;
  to_mount = none;
  to_unmount = none;
}

abbrev asked_before : List ℕ
asked_before = []

abbrev parts : VolumeParts
parts = record {
  mirror_data = λ source target w. (none, w);
  apply_labels = λ path binds w. (none, w);
  set_persistent_variables = λ file vars w. (none, w);
}

close_transaction-Decided_example :
    Decided (close_transaction calm (watched 3 backend) parts made (volumes (0, false), []))
close_transaction-Decided_example =
    close_transaction-Decided calm backend parts made (volumes (0, false), []) refl

-- A world where no mount succeeds.
abbrev no_mounts : Env
no_mounts = record calm { mount = λ w source target fstype options. some (plain "mount failed") }

abbrev ids_in : {A : Type 0} → Result (List ℕ × A) → List ℕ
ids_in (ok (ids, active)) = ids
ids_in (err e) = []
ids_in panic = []

listed_positive :
    (root : String) (s s' : ℕ × Log) (ids : List ℕ) (active : ℕ)
    → backend.list root s ≡ (ok (ids, active), s')
    → All (λ id. 0 < id) ids
listed_positive root s s' ids active e =
    subst (All (λ id. 0 < id)) (ap (λ r. ids_in r.0) e) (omega arith, (omega arith, tt))

start_transaction-deletes_none_example :
    deletions {B = ℕ}
      (start_transaction no_mounts (counted backend) (volumes (0, asked_before), [])).1
    ≡ deletions {B = ℕ} (volumes (0, asked_before), [])
start_transaction-deletes_none_example =
    start_transaction-deletes_none no_mounts backend listed_positive (volumes (0, asked_before), [])
