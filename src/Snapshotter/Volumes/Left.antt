-- ===== src/Snapshotter/Volumes/Left.antt =====
-- `StartTransaction` of the btrfs snapshotter where the bind mount fails.
pub mod Counting
use elemental_toolkit.Base.{
  ℕ, suc, ◌≤◌, ◌<◌, String, ◌≡◌, refl, ◌∙◌, Bool, true, false, Option, none, some, List, [], ◌∷◌,
  All, arith, ltb, ◌==◌, nat_eq, string_eq, if◌then◌else◌, Option-cases, Bool-cases, inl, inr,
}
use elemental_toolkit.Base.Text.{join}
use elemental_toolkit.Base.Outcome.{Error, plain, Result, ok, err, panic}
use elemental_toolkit.Base.Proc.{
  Proc, pure, raise, or_fail, inside, on_error, handle, then_do, ◌>>=◌, ◌>>◌,
}
use elemental_toolkit.System.{Env, Log, mkdir_all, mount, not_mount_point}
use elemental_toolkit.Snapshotter.{Snapshot}
use elemental_toolkit.Snapshotter.LoopDevice.{is_listed}
use elemental_toolkit.Snapshotter.Btrfs.{snapshot_path}
use elemental_toolkit.Snapshotter.Volumes.{
  SubvolumeBackend, Btrfs, on_backend, snapshots_mount, snapshots_umount, list_and_note, unless_err,
  then_umount, list_mounted, list_active, get_snapshots, delete_in_backend, delete_volume,
}
use elemental_toolkit.Snapshotter.Volumes.Left.Counting.{
  counted, deletions, Gives, Gives-then_do, Gives-or_fail, Gives-if, Gives-keeps,
}
use elemental_toolkit.Snapshotter.Volumes.Transaction.{
  working_dir, bind_work_dir, create_snapshot, start_transaction,
}

AreCounted : List ℕ → Type 0
AreCounted = All (λ id. 0 < id)

is_listed-zero : (ids : List ℕ) → AreCounted ids → is_listed 0 ids ≡ false
unfolding is_listed AreCounted
is_listed-zero [] h = refl
is_listed-zero (i ∷ ids) h = ground (arith, is_listed-zero ids h.1)

module _ {B : Type 0} (env : Env) (backend : SubvolumeBackend B)
    (positive : (root : String) (s s' : B × Log) (ids : List ℕ) (active : ℕ)
      → backend.list root s ≡ (ok (ids, active), s')
      → All (λ id. 0 < id) ids) where
  snapshots_mount-keeps :
      (s : Btrfs (B × List ℕ) × Log)
      → deletions (snapshots_mount env (counted backend) s).1 ≡ deletions s
  unfolding snapshots_mount
  snapshots_mount-keeps (b, w) = elim (Option-cases b.to_mount) [
    | inl e ↦ rw (e, snapshots_mount) refl
    | inr (args, e) ↦ rw (e, snapshots_mount) refl
  ]

  snapshots_umount-keeps :
      (s : Btrfs (B × List ℕ) × Log)
      → deletions (snapshots_umount env (counted backend) s).1 ≡ deletions s
  unfolding snapshots_umount
  snapshots_umount-keeps (b, w) = elim (Option-cases b.to_unmount) [
    | inl e ↦ rw (e, snapshots_umount) refl
    | inr (mount_point, e) ↦ rw (e, snapshots_umount) refl
  ]

  list_and_note-Gives :
      (d : List ℕ) (s : Btrfs (B × List ℕ) × Log)
      → deletions s ≡ d
      → Gives d AreCounted (list_and_note env (counted backend) s)
  unfolding list_and_note AreCounted
  list_and_note-Gives d (b, w) h =
      let listed = backend.list b.root_dir (b.backend.0, w) in noted listed.0 listed.1 refl
    where
      noted :
          (r : Result (List ℕ × ℕ)) (s : B × Log)
          → backend.list b.root_dir (b.backend.0, w) ≡ (r, s)
          → Gives d AreCounted (
              then_do
                (λ (found : List ℕ × ℕ) (b', w').
                  (ok found.0, (record b' { active_snapshot_id = found.1 }, w')))
                (r, (record b { backend = (s.0, b.backend.1) }, s.1)))
      noted (ok (ids, active)) s e = (positive b.root_dir (b.backend.0, w) s ids active e, h)
      noted (err e) s same = h
      noted panic s same = h

  unless_err-Gives :
      {A : Type 0} (d : List ℕ) (Q : A → Type 0) (r : Result A) (e : Option Error)
      (s s' : Btrfs (B × List ℕ) × Log)
      → Gives d Q (r, s)
      → deletions s' ≡ deletions s
      → Gives d Q (unless_err env (counted backend) r (e, s'))
  unless_err-Gives d Q (ok a) none s s' h k = (h.0, cc)
  unless_err-Gives d Q (ok a) (some e) s s' h k = cc
  unless_err-Gives d Q (err first) e s s' h k = cc
  unless_err-Gives d Q panic e s s' h k = cc

  list_mounted-Gives :
      (d : List ℕ) (s : Btrfs (B × List ℕ) × Log)
      → deletions s ≡ d
      → Gives d AreCounted (list_mounted env (counted backend) s)
  unfolding list_mounted
  list_mounted-Gives d s h =
      let mounted = snapshots_mount env (counted backend) s in
      let tried = or_fail (snapshots_mount env (counted backend)) s in
      Gives-then_do d (λ done. Unit {0}) AreCounted
        (λ done s. then_umount env (counted backend) (list_and_note env (counted backend) s))
        tried.0 tried.1 (Gives-or_fail d mounted.0 mounted.1 (snapshots_mount-keeps s ∙ h))
        (λ done s p h.
          let listed = list_and_note env (counted backend) s in
          let closed = snapshots_umount env (counted backend) listed.1 in
          unless_err-Gives d AreCounted listed.0 closed.0 listed.1 closed.1
            (list_and_note-Gives d s h) (snapshots_umount-keeps listed.1))

  get_snapshots-Gives :
      (d : List ℕ) (s : Btrfs (B × List ℕ) × Log)
      → deletions s ≡ d
      → Gives d AreCounted (get_snapshots env (counted backend) s)
  unfolding get_snapshots list_active AreCounted
  get_snapshots-Gives d (b, w) h =
      let volume = join (join b.root_dir (snapshot_path b.active_snapshot_id)) ".snapshots" in
      Gives-if d AreCounted (b.root_dir == "")
        (raise
          (plain "snapshotter not initiated yet, run 'InitSnapshotter' before calling this method"))
        (if ltb 0 b.active_snapshot_id then list_active env (counted backend) else pure []) (b, w) h
        (Gives-if d AreCounted (ltb 0 b.active_snapshot_id) (list_active env (counted backend))
          (pure []) (b, w)
          (Gives-if d AreCounted (not_mount_point env volume w).0.0
            (list_mounted env (counted backend)) (list_and_note env (counted backend))
            (b, (not_mount_point env volume w).1)
            (list_mounted-Gives d (b, (not_mount_point env volume w).1) h)
            (list_and_note-Gives d (b, (not_mount_point env volume w).1) h))
          (tt, h))

  delete_zero-Gives :
      (d : List ℕ) (s : Btrfs (B × List ℕ) × Log)
      → deletions s ≡ d
      → Gives d (λ done. Unit {0}) (delete_volume env (counted backend) 0 s)
  unfolding delete_volume
  delete_zero-Gives d s h =
      let listed = get_snapshots env (counted backend) s in
      Gives-then_do d AreCounted (λ done. Unit {0}) _ listed.0 listed.1 (get_snapshots-Gives d s h)
        (λ ids s p h. rw (is_listed-zero ids p) (tt, h))

  handle-Gives :
      (d : List ℕ) (e : Option Error) (s : Btrfs (B × List ℕ) × Log)
      → deletions s ≡ d
      → Gives d
          (λ done. Unit {0})
          (handle
            (λ s. (delete_volume env (counted backend) 0 s).1)
            (elim e as (λ _. Result (Unit {0})) [ none ↦ ok tt | some failure ↦ err failure ], s))
  handle-Gives d none s h = (tt, h)
  handle-Gives d (some failure) s h =
      let deleted = delete_volume env (counted backend) 0 s in
      Gives-keeps d (λ done. Unit {0}) deleted.0 deleted.1 (delete_zero-Gives d s h)

  bind_work_dir-Gives :
      (snapshot : Snapshot) (d : List ℕ) (s : Btrfs (B × List ℕ) × Log)
      → deletions s ≡ d
      → Gives d (λ snapshot. Unit {0}) (bind_work_dir env (counted backend) snapshot s)
  unfolding bind_work_dir
  bind_work_dir-Gives snapshot d (b, w) h =
      let made = mkdir_all env working_dir w in
      let tried = or_fail (inside (mkdir_all env working_dir)) (b, w) in
      Gives-then_do d (λ done. Unit {0}) (λ snapshot. Unit {0}) _ tried.0 tried.1
        (Gives-or_fail d made.0 (b, made.1) h)
        (λ done (b, w) p h.
          let bound = mount env snapshot.work_dir working_dir "bind" ("bind" ∷ []) w in
          let tried =
            on_error
              (or_fail (inside (mount env snapshot.work_dir working_dir "bind" ("bind" ∷ []))))
              (delete_volume env (counted backend) 0) (b, w) in
          Gives-then_do d (λ done. Unit {0}) (λ snapshot. Unit {0}) _ tried.0 tried.1
            (handle-Gives d bound.0 (b, bound.1) h) (λ done s p h. (tt, h)))

  create_snapshot-Gives :
      (d : List ℕ) (s : Btrfs (B × List ℕ) × Log)
      → deletions s ≡ d
      → Gives d (λ snapshot. Unit {0}) (create_snapshot env (counted backend) s)
  unfolding create_snapshot
  create_snapshot-Gives d (b, w) h =
      let made = backend.create b.root_dir b.active_snapshot_id (b.backend.0, w) in
      by_result made.0 (record b { backend = (made.1.0, b.backend.1) }, made.1.1) h
    where
      by_result :
          (r : Result Snapshot) (s : Btrfs (B × List ℕ) × Log)
          → deletions s ≡ d
          → Gives d (λ snapshot. Unit {0}) (r, s)
      by_result (ok a) s h = (tt, h)
      by_result (err e) s h = h
      by_result panic s h = h

  -- `StartTransaction` over a backend that lists positive identifiers asks it to delete none, whatever
  -- fails: also not the new snapshot where its bind mount fails.
  pub start_transaction-deletes_none :
      (s : Btrfs (B × List ℕ) × Log)
      → deletions (start_transaction env (counted backend) s).1 ≡ deletions s
  unfolding start_transaction
  start_transaction-deletes_none (b, w) =
      let d = deletions (b, w) in
      let created = create_snapshot env (counted backend) (b, w) in
      let started = start_transaction env (counted backend) (b, w) in
      Gives-keeps d (λ snapshot. Unit {0}) started.0 started.1
        (Gives-if d (λ snapshot. Unit {0}) (b.root_dir == "")
          (raise (plain "uninitialized snapshotter"))
          (create_snapshot env (counted backend) >>= bind_work_dir env (counted backend)) (b, w)
          refl
          (Gives-then_do d (λ snapshot. Unit {0}) (λ snapshot. Unit {0})
            (bind_work_dir env (counted backend)) created.0 created.1
            (create_snapshot-Gives d (b, w) refl)
            (λ snapshot s p h. bind_work_dir-Gives snapshot d s h)))
