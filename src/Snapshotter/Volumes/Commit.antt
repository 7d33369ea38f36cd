-- ===== src/Snapshotter/Volumes/Commit.antt =====
-- `CloseTransaction` of the btrfs snapshotter and whether the backend holds the snapshot as a committed one.
use elemental_toolkit.Base.{
  ℕ, String, ◌≡◌, refl, Bool, true, false, Option, none, some, [], ◌∷◌, ◌⊎◌, inl, inr, ltb, ◌==◌,
  nat_eq, string_eq, if◌then◌else◌, Option-cases, Bool-cases, ==_refl,
}
use elemental_toolkit.Base.Text.{join}
use elemental_toolkit.Base.Outcome.{Error, plain, Result, ok, err, panic}
use elemental_toolkit.Base.Proc.{
  Proc, pure, raise, or_fail, inside, dropped, join_error, Keeps, Keeps-bind, Ends, Ends-Keeps,
  Ends-then_do,
}
use elemental_toolkit.System.{Env, Log, unmounted, mkdir_all, unmount, remove_all, not_mount_point}
use elemental_toolkit.Snapshotter.{Snapshot}
use elemental_toolkit.Snapshotter.LoopDevice.{is_listed}
use elemental_toolkit.Snapshotter.Btrfs.{snapshot_path}
use elemental_toolkit.Snapshotter.Volumes.{
  SubvolumeBackend, Btrfs, VolumeParts, on_backend, snapshots_mount, snapshots_umount,
  list_and_note, unless_err, then_umount, list_mounted, list_active, get_snapshots,
  delete_in_backend, delete_volume, get_passive_snapshots, set_variables, set_bootloader,
}
use elemental_toolkit.Snapshotter.Volumes.Transaction.{
  sync_work_dir, label_volume, commit_in_backend, clean_backend, seal, publish, close_body, settle,
  close_transaction,
}

abbrev pub committed_by : {A : Type 0} → Result A → Bool → Bool
committed_by (ok a) p = true
committed_by (err e) p = p
committed_by panic p = p

-- Whether the snapshot `id` was committed last, or asked to be deleted.
abbrev pub committed_as : {A : Type 0} → ℕ → Snapshot → Result A → Bool → Bool
committed_as id snapshot r p = if snapshot.id == id then committed_by r p else p

abbrev pub unless_deleted : ℕ → ℕ → Bool → Bool
unless_deleted id gone p = if gone == id then false else p

module _ {B : Type 0} where
  abbrev pub noting :
      {A : Type 0} → (Result A → Bool → Bool) → Proc (B × Log) A → Proc ((B × Bool) × Log) A
  noting next m ((b, p), w) = let (r, (b', w')) = m (b, w) in (r, ((b', next r p), w'))

  -- The backend beside whether a commit of the snapshot `id` has succeeded and no deletion of `id` was asked for
  -- since.
  abbrev pub watched : ℕ → SubvolumeBackend B → SubvolumeBackend (B × Bool)
  watched id s = record {
    find_state = λ device mount_point. noting (λ r p. p) (s.find_state device mount_point);
    init_partition = λ root. noting (λ r p. p) (s.init_partition root);
    create = λ root base. noting (λ r p. p) (s.create root base);
    commit = λ root snapshot. noting (committed_as id snapshot) (s.commit root snapshot);
    list = λ root. noting (λ r p. p) (s.list root);
    delete = λ root gone. noting (λ r p. unless_deleted id gone p) (s.delete root gone);
    clean_up = λ root. noting (λ r p. p) (s.clean_up root);
  }

  abbrev pub is_committed : Btrfs (B × Bool) × Log → Bool
  is_committed (b, w) = b.backend.1

  -- How far a commit has come is `p`.
  abbrev Held : Bool → Btrfs (B × Bool) × Log → Type 0
  Held p s = is_committed s ≡ p

  -- What a call of `CloseTransaction` leaves. An error after the commit is that of the last unmount.
  abbrev pub Decided : Result (Unit {0}) × (Btrfs (B × Bool) × Log) → Type 0
  Decided (ok done, s) = is_committed s ≡ true
  Decided (err e, s) =
      (is_committed s ≡ false)
      ⊎ ((is_committed s ≡ true)
          × (mount_point : String) × (rest : Log) × (s.1 ≡ unmounted mount_point (some e) ∷ rest))
  Decided (panic, s) = Unit

module _ {B : Type 0} (env : Env) (backend : SubvolumeBackend B) (id : ℕ) (p : Bool) where
  snapshots_umount-Held :
      (s : Btrfs (B × Bool) × Log)
      → Held p s
      → Held p (snapshots_umount env (watched id backend) s).1
  unfolding snapshots_umount
  snapshots_umount-Held (b, w) h = elim (Option-cases b.to_unmount) [
    | inl e ↦ rw (e, snapshots_umount) h
    | inr (mount_point, e) ↦ rw (e, snapshots_umount) h
  ]

  snapshots_mount-Held :
      (s : Btrfs (B × Bool) × Log)
      → Held p s
      → Held p (snapshots_mount env (watched id backend) s).1
  unfolding snapshots_mount
  snapshots_mount-Held (b, w) h = elim (Option-cases b.to_mount) [
    | inl e ↦ rw (e, snapshots_mount) h
    | inr (args, e) ↦ rw (e, snapshots_mount) h
  ]

  Keeps-list_and_note : Keeps (Held p) (list_and_note env (watched id backend))
  unfolding list_and_note
  Keeps-list_and_note =
      Keeps-bind (Held p) (λ (b, w). on_backend ((watched id backend).list b.root_dir) (b, w)) _
        (λ (b, w) h. h) (λ found (b, w) h. h)

  unless_err-Held :
      {A : Type 0} (r : Result A) (e : Option Error) (s : Btrfs (B × Bool) × Log)
      → Held p s
      → Held p (unless_err env (watched id backend) r (e, s)).1
  unless_err-Held (ok a) none s h = h
  unless_err-Held (ok a) (some e) s h = h
  unless_err-Held (err first) e s h = h
  unless_err-Held panic e s h = h

  Keeps-list_mounted : Keeps (Held p) (list_mounted env (watched id backend))
  unfolding list_mounted
  Keeps-list_mounted =
      Keeps-bind (Held p) (or_fail (snapshots_mount env (watched id backend)))
        (λ done s. then_umount env (watched id backend) (list_and_note env (watched id backend) s))
        snapshots_mount-Held
        (λ done s h.
          let listed = list_and_note env (watched id backend) s in
          let closed = snapshots_umount env (watched id backend) listed.1 in
          unless_err-Held listed.0 closed.0 closed.1
            (snapshots_umount-Held listed.1 (Keeps-list_and_note s h)))

  Keeps-if :
      {A : Type 0} (b : Bool) (m n : Proc (Btrfs (B × Bool) × Log) A)
      → Keeps (Held p) m
      → Keeps (Held p) n
      → Keeps (Held p) (if b then m else n)
  Keeps-if true m n h k = h
  Keeps-if false m n h k = k

  Keeps-list_active : Keeps (Held p) (list_active env (watched id backend))
  unfolding list_active
  Keeps-list_active (b, w) h =
      let volume = join (join b.root_dir (snapshot_path b.active_snapshot_id)) ".snapshots" in
      Keeps-if (not_mount_point env volume w).0.0 (list_mounted env (watched id backend))
        (list_and_note env (watched id backend)) Keeps-list_mounted Keeps-list_and_note
        (b, (not_mount_point env volume w).1) h

  Keeps-get_snapshots : Keeps (Held p) (get_snapshots env (watched id backend))
  unfolding get_snapshots
  Keeps-get_snapshots (b, w) h =
      Keeps-if (b.root_dir == "")
        (raise
          (plain "snapshotter not initiated yet, run 'InitSnapshotter' before calling this method"))
        (if ltb 0 b.active_snapshot_id then list_active env (watched id backend) else pure [])
        (λ s h. h)
        (Keeps-if (ltb 0 b.active_snapshot_id) (list_active env (watched id backend)) (pure [])
          Keeps-list_active (λ s h. h))
        (b, w) h

  Keeps-set_bootloader :
      (parts : VolumeParts) (active : ℕ)
      → Keeps (Held p) (set_bootloader env (watched id backend) parts active)
  unfolding set_bootloader get_passive_snapshots set_variables
  Keeps-set_bootloader parts active =
      Keeps-bind (Held p) (get_passive_snapshots env (watched id backend)) _
        (Keeps-bind (Held p) (get_snapshots env (watched id backend)) _ Keeps-get_snapshots
          (λ ids (b, w) h. h))
        (λ ids (b, w) h. h)

-- The snapshot that a deletion is asked for does not become a committed one.
Keeps-delete_volume :
    {B : Type 0} (env : Env) (backend : SubvolumeBackend B) (id gone : ℕ)
    → Keeps (Held false) (delete_volume env (watched id backend) gone)
unfolding delete_volume delete_in_backend
Keeps-delete_volume env backend id gone =
    Keeps-bind (Held false) (get_snapshots env (watched id backend)) _
      (Keeps-get_snapshots env backend id false)
      (λ ids.
        Keeps-if env backend id false (is_listed gone ids)
          (delete_in_backend env (watched id backend) gone) (pure tt)
          (λ (b, w) h. elim (Bool-cases (gone == id)) [ inl e ↦ rw e refl | inr e ↦ rw e h ])
          (λ s h. h))

-- A step whose error is dropped does not fail.
ignored-Ends :
    {W A : Type 0} (E P : W → Type 0) (r : Result A) (w : W) → P w → Ends E P (dropped (r, w))
ignored-Ends E P (ok a) w h = h
ignored-Ends E P (err e) w h = h
ignored-Ends E P panic w h = tt

module _ {B : Type 0} (env : Env) (backend : SubvolumeBackend B) (parts : VolumeParts) where
  Keeps-seal :
      (snapshot : Snapshot)
      → Keeps (Held false) (seal env (watched snapshot.id backend) parts snapshot)
  unfolding seal sync_work_dir label_volume
  Keeps-seal snapshot =
      Keeps-bind (Held false)
        (or_fail (inside (mkdir_all env (join snapshot.work_dir ".snapshots")))) _ (λ (b, w) h. h)
        (λ done.
          Keeps-bind (Held false) (or_fail (inside (unmount env snapshot.mount_point))) _
            (λ (b, w) h. h)
            (λ done.
              Keeps-bind (Held false)
                (if ltb 1 snapshot.id
                  then sync_work_dir env (watched snapshot.id backend) parts snapshot
                  else pure tt)
                _
                (Keeps-if env backend snapshot.id false (ltb 1 snapshot.id)
                  (sync_work_dir env (watched snapshot.id backend) parts snapshot) (pure tt)
                  (Keeps-bind (Held false)
                    (or_fail (inside (parts.mirror_data snapshot.work_dir snapshot.path)))
                    (λ done. or_fail (inside (remove_all env snapshot.work_dir))) (λ (b, w) h. h)
                    (λ done (b, w) h. h))
                  (λ s h. h))
                (λ done (b, w) h. h)))

  commit-Ends :
      (snapshot : Snapshot) (s : Btrfs (B × Bool) × Log)
      → Held false s
      → Ends
          (Held false)
          (Held true)
          (commit_in_backend env (watched snapshot.id backend) parts snapshot s)
  unfolding commit_in_backend
  commit-Ends snapshot (b, w) h =
      let done = backend.commit b.root_dir snapshot (b.backend.0, w) in
      done-Ends done.0 done.1.0 done.1.1
    where
      done-Ends :
          (r : Result (Unit {0})) (b' : B) (w' : Log)
          → Ends (Held false) (Held true) (
            r,
            (record b { backend = (b', committed_as snapshot.id snapshot r b.backend.1) }, w'),
          )
      done-Ends (ok done) b' w' = rw (==_refl snapshot.id) refl
      done-Ends (err e) b' w' = rw (==_refl snapshot.id) h
      done-Ends panic b' w' = tt

  publish-Ends :
      (snapshot : Snapshot) (s : Btrfs (B × Bool) × Log)
      → Held true s
      → Ends (Held false) (Held true) (publish env (watched snapshot.id backend) parts snapshot s)
  unfolding publish clean_backend
  publish-Ends snapshot (b, w) h =
      let cleaned = clean_backend env (watched snapshot.id backend) parts (b, w) in
      let done = dropped cleaned in
      Ends-then_do (Held false) (Held true) (Held true) _ done.0 done.1
        (ignored-Ends (Held false) (Held true) cleaned.0 cleaned.1 h)
        (λ done s h.
          let booted = set_bootloader env (watched snapshot.id backend) parts snapshot.id s in
          ignored-Ends (Held false) (Held true) booted.0 booted.1
            (Keeps-set_bootloader env backend snapshot.id true parts snapshot.id s h))

  body-Ends :
      (snapshot : Snapshot) (s : Btrfs (B × Bool) × Log)
      → Held false s
      → Ends
          (Held false)
          (Held true)
          (close_body env (watched snapshot.id backend) parts snapshot s)
  unfolding close_body
  body-Ends snapshot s h =
      let sealed = seal env (watched snapshot.id backend) parts snapshot s in
      Ends-then_do (Held false) (Held false) (Held true) _ sealed.0 sealed.1
        (Ends-Keeps (Held false) (Held false) sealed.0 sealed.1 (Keeps-seal snapshot s h) (λ h. h))
        (λ done s h.
          let kept = commit_in_backend env (watched snapshot.id backend) parts snapshot s in
          Ends-then_do (Held false) (Held true) (Held true) _ kept.0 kept.1
            (commit-Ends snapshot s h) (λ done s h. publish-Ends snapshot s h))

  -- The last unmount, after the commit.
  last_umount :
      (snapshot : Snapshot) (s : Btrfs (B × Bool) × Log)
      → Held true s
      → Decided (join_error (ok tt) (snapshots_umount env (watched snapshot.id backend) s))
  unfolding snapshots_umount
  last_umount snapshot (b, w) h = elim (Option-cases b.to_unmount) [
    | inl e ↦ rw (e, snapshots_umount) h
    | inr (mount_point, e) ↦
        rw (e, snapshots_umount)
          (elim (Option-cases (env.unmount w mount_point)) [
            | inl f ↦ rw f h
            | inr (failure, f) ↦ rw f (inr (h, mount_point, w, refl))
          ])
  ]

  settle-Decided :
      (snapshot : Snapshot) (r : Result (Unit {0})) (s : Btrfs (B × Bool) × Log)
      → Ends (Held false) (Held true) (r, s)
      → Decided (settle env (watched snapshot.id backend) parts snapshot (r, s))
  settle-Decided snapshot (ok done) s h = last_umount snapshot s h
  settle-Decided snapshot (err e) s h =
      let removed = delete_volume env (watched snapshot.id backend) snapshot.id s in
      inl (
        snapshots_umount-Held env backend snapshot.id false removed.1
          (Keeps-delete_volume env backend snapshot.id snapshot.id s h))
  settle-Decided snapshot panic s h = tt

  if_in_progress :
      (b : Bool) (snapshot : Snapshot) (s : Btrfs (B × Bool) × Log)
      → Held false s
      → Decided (
          if b
          then settle env
              (watched snapshot.id backend)
              parts
              snapshot
              (close_body env (watched snapshot.id backend) parts snapshot s)
          else (err (plain "given snapshot is not in progress"), s))
  if_in_progress true snapshot s h =
      let closed = close_body env (watched snapshot.id backend) parts snapshot s in
      settle-Decided snapshot closed.0 closed.1 (body-Ends snapshot s h)
  if_in_progress false snapshot s h = inl h

  -- `CloseTransaction` over any backend, from a snapshot that is not committed: where it returns no error,
  -- the backend has committed that snapshot and was not asked to delete it since. Where it returns one,
  -- either the backend has not committed it or was asked to delete it, or the error is that of the unmount
  -- at the end, the last call.
  pub close_transaction-Decided :
      (snapshot : Snapshot) (s : Btrfs (B × Bool) × Log)
      → is_committed s ≡ false
      → Decided (close_transaction env (watched snapshot.id backend) parts snapshot s)
  unfolding close_transaction
  close_transaction-Decided snapshot s h = if_in_progress snapshot.in_progress snapshot s h
