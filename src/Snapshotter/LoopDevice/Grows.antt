-- ===== src/Snapshotter/LoopDevice/Grows.antt =====
-- What the loop device snapshotter asks and cleans up does not panic, and keeps all that no call can
-- undo: a property of the log that each further event leaves.
use elemental_toolkit.Base.{
  ℕ, zero, suc, ◌+◌, String, Bool, true, false, Option, none, some, List, [], ◌∷◌, length, ltb,
  ◌==◌, nat_eq, if◌then◌else◌, Bool-cases, inl, inr,
}
use elemental_toolkit.Base.Text.{join, read_decimal, base, dir}
use elemental_toolkit.Base.Outcome.{Result, ok, err, panic, plain}
use elemental_toolkit.Base.Proc.{
  Proc, pure, raise, or_fail, value_or_fail, call, ignored, ◌>>=◌, Sound, Safe, Safe-bind, Safe-if,
  Safe-ignored, Safe-or_fail, Safe-value_or_fail, Sound-value, Done, Done-ignored, Done-bind,
  inside,
}
use elemental_toolkit.System.{
  Env, Log, Event, run, exists, lstat, read_link, exists_no_follow, remove_all,
}
use elemental_toolkit.Snapshotter.LoopDevice.Transaction.{set_bootloader, tidy}
use elemental_toolkit.Links.{link_target, resolve_from, resolve_link}
use elemental_toolkit.Snapshotter.LoopDevice.{
  LoopDevice, Parts, snaps_path, active_path, get_snapshots, is_snapshot_in_use, follow_active,
  get_active_snapshot, get_passive_snapshots, is_listed, delete_link, delete_listed,
  delete_snapshot, delete_oldest, clean_old_snapshots, legacy_path, unused_images,
  clean_legacy_images, is_mode,
}

module _ (env : Env) (P : Log → Type 0) (more : (ev : Event) (w : Log) → P w → P (ev ∷ w)) where
  get_snapshots-Safe : (root : String) → Safe P (get_snapshots env root)
  unfolding get_snapshots
  get_snapshots-Safe root w p = elim (Bool-cases (env.exists w (snaps_path root))) [
    | inl e ↦ rw e (Sound-value P _ _ _ (more _ _ (more _ _ p)))
    | inr e ↦ rw e (more _ _ p)
  ]

  is_snapshot_in_use-Safe : (id : ℕ) → Safe P (is_snapshot_in_use env id)
  unfolding is_snapshot_in_use
  is_snapshot_in_use-Safe id =
      Safe-bind P (value_or_fail (run env "losetup" ("-ln" ∷ "--output" ∷ "BACK-FILE" ∷ []))) _
        (Safe-value_or_fail P _ (λ w p. more _ w p)) (λ out w p. p)

  resolve_from-Safe :
      (depth : ℕ) (root path : String) (linked : Bool)
      → Safe P (resolve_from env depth root path linked)
  unfolding resolve_from
  resolve_from-Safe depth root path false w p = p
  resolve_from-Safe zero root path true w p = p
  resolve_from-Safe (suc depth) root path true w p =
      Safe-bind P (value_or_fail (read_link env path)) _
        (Safe-value_or_fail P _ (λ w p. more _ w p))
        (λ target.
          Safe-bind P (value_or_fail (lstat env (link_target root path target))) _
            (Safe-value_or_fail P _ (λ w p. more _ w p))
            (λ next. resolve_from-Safe depth root (link_target root path target) next))
        w p

  resolve_link-Safe : (path root : String) (depth : ℕ) → Safe P (resolve_link env path root depth)
  unfolding resolve_link
  resolve_link-Safe path root depth =
      Safe-bind P (value_or_fail (lstat env path)) _ (Safe-value_or_fail P _ (λ w p. more _ w p))
        (λ linked. resolve_from-Safe depth root path linked)

  follow_active-Safe : (root : String) → Safe P (follow_active env root)
  unfolding follow_active
  follow_active-Safe root =
      Safe-bind P (resolve_link env (active_path root) root 4) _
        (resolve_link-Safe (active_path root) root 4)
        (λ resolved. parsed (read_decimal (base (dir resolved))))
    where
      parsed :
          (o : Option ℕ)
          → Safe P (elim o as (λ _. Proc Log ℕ) [
            | none ↦ raise (plain "failed parsing snapshot ID")
            | some id ↦ pure id
          ])
      parsed none w p = p
      parsed (some id) w p = p

  get_active_snapshot-Safe : (root : String) → Safe P (get_active_snapshot env root)
  unfolding get_active_snapshot
  get_active_snapshot-Safe root =
      Safe-bind P (value_or_fail (exists_no_follow env (active_path root))) _
        (Safe-value_or_fail P _ (λ w p. more _ w p))
        (λ there. Safe-if P there _ _ (follow_active-Safe root) (λ w p. p))

  get_passive_snapshots-Safe : (root : String) → Safe P (get_passive_snapshots env root)
  unfolding get_passive_snapshots
  get_passive_snapshots-Safe root =
      Safe-bind P (get_snapshots env root) _ (get_snapshots-Safe root) (λ ids.
        Safe-bind P (get_active_snapshot env root) _ (get_active_snapshot-Safe root)
          (λ active w p. p))

  delete_link-Safe : (l : LoopDevice) (id : ℕ) → Safe P (delete_link env l id)
  unfolding delete_link
  delete_link-Safe l id =
      Safe-if P (l.active_snapshot_id == id) _ _ (Safe-or_fail P _ (λ w p. more _ w p)) (λ w p. p)

  delete_listed-Safe : (l : LoopDevice) (id : ℕ) → Safe P (delete_listed env l id)
  unfolding delete_listed
  delete_listed-Safe l id =
      Safe-bind P (get_snapshots env l.root_dir) _ (get_snapshots-Safe l.root_dir) (λ snaps.
        Safe-if P (is_listed id snaps) _ _
          (Safe-bind P (delete_link env l id) _ (delete_link-Safe l id)
            (λ done. Safe-or_fail P _ (λ w p. more _ w p)))
          (λ w p. p))

  delete_snapshot-Safe : (l : LoopDevice) (id : ℕ) → Safe P (delete_snapshot env l id)
  unfolding delete_snapshot
  delete_snapshot-Safe l id =
      Safe-bind P (is_snapshot_in_use env id) _ (is_snapshot_in_use-Safe id)
        (λ in_use. Safe-if P in_use _ _ (λ w p. p) (delete_listed-Safe l id))

  delete_oldest-Safe : (l : LoopDevice) (ids : List ℕ) → Safe P (delete_oldest env l ids)
  unfolding delete_oldest
  delete_oldest-Safe l [] w p = p
  delete_oldest-Safe l (id ∷ rest) w p =
      Safe-if P (ltb l.max_snaps (length (id ∷ rest) + 1)) _ _
        (Safe-bind P (ignored (delete_snapshot env l id)) _
          (Safe-ignored P _ (delete_snapshot-Safe l id)) (λ done. delete_oldest-Safe l rest))
        (λ w p. p) w p

  pub clean_old_snapshots-Safe : (l : LoopDevice) → Safe P (clean_old_snapshots env l)
  unfolding clean_old_snapshots
  clean_old_snapshots-Safe l =
      Safe-bind P (get_passive_snapshots env l.root_dir) _ (get_passive_snapshots-Safe l.root_dir)
        (λ ids. delete_oldest-Safe l _)

  unused_images-Safe : (l : LoopDevice) → Safe P (unused_images env l)
  unfolding unused_images is_mode
  unused_images-Safe l w p = elim (Bool-cases (ltb 0 l.current_snapshot_id)) [
    | inl e ↦ rw e p
    | inr e ↦ rw e (more _ w p)
  ]

  legacy_path-Safe : (l : LoopDevice) → Safe P (legacy_path env l)
  unfolding legacy_path is_mode
  legacy_path-Safe l =
      Safe-bind P (call (is_mode env "passive_mode")) _ (λ w p. more _ w p)
        (λ passive.
          Safe-if P passive (pure (join l.root_dir "cOS/active.img")) (unused_images env l)
            (λ w p. p) (unused_images-Safe l))

  pub clean_legacy_images-Safe : (l : LoopDevice) → Safe P (clean_legacy_images env l)
  unfolding clean_legacy_images
  clean_legacy_images-Safe l =
      Safe-if P l.legacy_clean
        (legacy_path env l >>= λ path. call (exists env path) >>= λ there.
          if there then or_fail (remove_all env path) else pure tt)
        (pure tt)
        (Safe-bind P (legacy_path env l) _ (legacy_path-Safe l) (λ path.
          Safe-bind P (call (exists env path)) _ (λ w p. more _ w p)
            (λ there.
              Safe-if P there (or_fail (remove_all env path)) (pure tt)
                (Safe-or_fail P (remove_all env path) (λ w p. more _ w p)) (λ w p. p))))
        (λ w p. p)

module _ (env : Env) (parts : Parts) (P : Log → Type 0)
    (more : (ev : Event) (w : Log) → P w → P (ev ∷ w))
    (sets : (file : String) (vars : List (String × String)) (w : Log)
      → P w
      → P (parts.set_persistent_variables file vars w).1) where
  set_bootloader-Safe : (l : LoopDevice) → Safe P (set_bootloader env parts l)
  unfolding set_bootloader
  set_bootloader-Safe l =
      Safe-bind P (get_passive_snapshots env l.root_dir) _
        (get_passive_snapshots-Safe env P more l.root_dir)
        (λ ids. Safe-or_fail P _ (λ w p. sets _ _ w p))

  -- `P` of the log beside the snapshotter's own state.
  abbrev pub OnLog : LoopDevice × Log → Type 0
  OnLog (l, w) = P w

  Sound-inside :
      {A : Type 0} (l : LoopDevice) (r : Result A) (w : Log)
      → Sound P (r, w)
      → Sound OnLog (r, (l, w))
  Sound-inside l (ok a) w h = h
  Sound-inside l (err e) w h = h
  Sound-inside l panic w h = h

  Safe-inside : {A : Type 0} (m : Proc Log A) → Safe P m → Safe OnLog (inside m)
  Safe-inside m h (l, w) p = Sound-inside l (m w).0 (m w).1 (h w p)

  pub tidy-Done : (s : LoopDevice × Log) → OnLog s → Done OnLog (tidy env parts s)
  unfolding tidy
  tidy-Done (l, w) p =
      Done-bind OnLog (ignored (inside (clean_old_snapshots env l))) _
        (Done-ignored OnLog (inside (clean_old_snapshots env l))
          (Safe-inside _ (clean_old_snapshots-Safe env P more l)))
        (λ done.
          Done-bind OnLog (ignored (inside (set_bootloader env parts l))) _
            (Done-ignored OnLog (inside (set_bootloader env parts l))
              (Safe-inside _ (set_bootloader-Safe l)))
            (λ done.
              Done-ignored OnLog (inside (clean_legacy_images env l))
                (Safe-inside _ (clean_legacy_images-Safe env P more l))))
        (l, w) p
