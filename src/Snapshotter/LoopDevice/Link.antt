-- ===== src/Snapshotter/LoopDevice/Link.antt =====
-- `CloseTransaction` of the loop device snapshotter and the active link.
use elemental_toolkit.Base.{
  ℕ, String, ◌<>◌, ◌≡◌, ◌≢◌, ◌∙◌, refl, Bool, true, false, ◌||◌, ◌&&◌, Option, none, some, List, [],
  ◌∷◌, ◌⊎◌, inl, inr, ◌==◌, string_eq, ==_refl, if◌then◌else◌, Bool-cases, Option-cases,
}
use elemental_toolkit.Base.Text.{dir, strip_prefix}
use elemental_toolkit.Base.Outcome.{Result, ok, err, panic, plain}
use elemental_toolkit.Base.Proc.{
  pure, raise, inside, or_fail, ◌>>◌, then_do, on_error, handle, Safe, Sound, Safe-bind,
  Safe-or_fail, Done,
}
use elemental_toolkit.System.{Env, Log, symlinked, deleted, removed, unmount, remove_all, symlink}
use elemental_toolkit.Specs.{Image}
use elemental_toolkit.Snapshotter.{Snapshot}
use elemental_toolkit.Snapshotter.LoopDevice.{
  LoopDevice, Parts, active_path, link_of, snapshot_to_image,
}
use elemental_toolkit.Snapshotter.LoopDevice.Transaction.{
  fill_image, set_active, tidy, commit, close_transaction, close_transaction_on_error,
}
use elemental_toolkit.Snapshotter.LoopDevice.Grows.{tidy-Done}
use elemental_toolkit.Snapshotter.LoopDevice.Commit.{commits, Atomic, close_transaction-commits}

-- Whether a removal of `gone`, which may be a directory, takes `path` away.
abbrev pub takes : String → String → Bool
takes gone path =
    gone == path || (elim (strip_prefix (gone <> "/") path) [ none ↦ false | some rest ↦ true ])

-- What a link holds after the links and removals of a log, from what it held first. A removal of a directory
-- that fails may have taken it.
abbrev pub linked : Option String → String → Log → Option String
linked first path [] = first
linked first path (symlinked t p none ∷ w) = if p == path then some t else linked first path w
linked first path (deleted p none ∷ w) = if p == path then none else linked first path w
linked first path (removed p e ∷ w) = if takes p path then none else linked first path w
linked first path (_ ∷ w) = linked first path w

-- Whether an attempt to make `path` hold `target` has failed.
abbrev pub failed : String → String → Log → Bool
failed path target [] = false
failed path target (symlinked t p (some e) ∷ w) = (p == path && t == target) || failed path target w
failed path target (_ ∷ w) = failed path target w

-- With an error the active link holds what it held, or the snapshot that was active, or it is gone and the
-- attempt to restore it has failed.
abbrev pub Restored : LoopDevice → Option String → Option String → Log → Type 0
Restored l first held w =
    let path = active_path l.root_dir in
    let old = link_of l.active_snapshot_id in
    (linked first path w ≡ held)
    ⊎ ((linked first path w ≡ some old)
        ⊎ ((linked first path w ≡ none) × (failed path old w ≡ true)))

-- What the change of the active link leaves: it holds `target`, or the change has failed.
abbrev Switched :
    {A : Type 0}
    → LoopDevice
    → String
    → Option String
    → Option String
    → Result A × (LoopDevice × Log)
    → Type 0
Switched l target first held (ok a, s) =
    (s.0 ≡ l) × (linked first (active_path l.root_dir) s.1 ≡ some target)
Switched l target first held (err e, s) = (s.0 ≡ l) × Restored l first held s.1
Switched l target first held (panic, s) = Unit

-- What the whole call leaves. Where it succeeds, the link held `target` and only the clean-up of old snapshots,
-- the bootloader's variables and the legacy images followed.
abbrev pub Settled :
    {A : Type 0}
    → Env
    → Parts
    → LoopDevice
    → String
    → Option String
    → Option String
    → Result A × (LoopDevice × Log)
    → Type 0
Settled env parts l target first held (ok a, s) =
    (switched : Log) × (linked first (active_path l.root_dir) switched ≡ some target)
    × (s ≡ (tidy env parts (l, switched)).1)
Settled env parts l target first held (err e, s) = (s.0 ≡ l) × Restored l first held s.1
Settled env parts l target first held (panic, s) = Unit

module _ (env : Env) (parts : Parts) (l : LoopDevice) (first held : Option String) where
  abbrev Same : LoopDevice × Log → Type 0
  Same (l', w) = (l' ≡ l) × (linked first (active_path l.root_dir) w ≡ held)

  fill_image-Same :
      (snapshot : Snapshot)
      → ((img : Image) (tree : String) (w : Log)
          → linked first (active_path l.root_dir) (parts.create_image_from_tree img tree w).1
            ≡ linked first (active_path l.root_dir) w)
      → takes snapshot.work_dir (active_path l.root_dir) ≡ false
      → Safe Same (fill_image env parts snapshot)
  unfolding fill_image
  fill_image-Same snapshot images apart (l', w) p =
      Safe-bind Same (or_fail (inside (unmount env snapshot.mount_point))) _
        (Safe-or_fail Same (inside (unmount env snapshot.mount_point)) (λ s p. p))
        (λ done.
          Safe-bind Same
            (or_fail (
              inside
                (parts.create_image_from_tree (snapshot_to_image l' snapshot) snapshot.work_dir)))
            _
            (Safe-or_fail Same
              (inside
                (parts.create_image_from_tree (snapshot_to_image l' snapshot) snapshot.work_dir))
              (λ s p. (p.0, images _ _ _ ∙ p.1)))
            (λ done.
              Safe-or_fail Same (inside (remove_all env snapshot.work_dir))
                (λ s p. (p.0, rw apart p.1))))
        (l', w) p

  -- The second half of `set_active`, after the link was removed or not.
  switch-Switched :
      (id : ℕ) (w : Log)
      → (linked first (active_path l.root_dir) w ≡ held)
        ⊎ (linked first (active_path l.root_dir) w ≡ none)
      → Switched l (link_of id) first held (
          on_error
            (or_fail (inside (symlink env (link_of id) (active_path l.root_dir))))
            (inside (symlink env (link_of l.active_snapshot_id) (active_path l.root_dir)))
            (l, w))
  switch-Switched id w before =
      let path = active_path l.root_dir in
      let old = link_of l.active_snapshot_id in
      elim (Option-cases (env.symlink w (link_of id) path)) [
        | inl e ↦ rw e (refl, rw (==_refl path) refl)
        | inr (failure, e) ↦
            let w' = symlinked (link_of id) path (some failure) ∷ w in
            elim (Option-cases (env.symlink w' old path)) [
              | inl f ↦ rw (e, f) (refl, inr (inl (rw (==_refl path) refl)))
              | inr (again, f) ↦
                  rw (e, f)
                    (
                      refl,
                      (elim before [
                        | inl same ↦ inl same
                        | inr gone ↦ inr (inr (gone, rw (==_refl path, ==_refl old) refl))
                      ]),
                    )
            ]
      ]

  set_active-Switched :
      (id : ℕ) (w : Log)
      → linked first (active_path l.root_dir) w ≡ held
      → Switched l (link_of id) first held (set_active env parts id (l, w))
  unfolding set_active
  set_active-Switched id w h = elim (Option-cases (env.delete w (active_path l.root_dir))) [
    | inl e ↦ rw e (
        switch-Switched id (deleted (active_path l.root_dir) none ∷ w)
          (inr (rw (==_refl (active_path l.root_dir)) refl)))
    | inr (failure, e) ↦
        rw e (switch-Switched id (deleted (active_path l.root_dir) (some failure) ∷ w) (inl h))
  ]

  tidied :
      (snapshot : Snapshot) (r : Result (Unit {0})) (s : LoopDevice × Log) (w : Log)
      → linked first (active_path l.root_dir) w ≡ some (link_of snapshot.id)
      → s ≡ (tidy env parts (l, w)).1
      → Done (λ s. Unit) (r, s)
      → Settled env parts l
          (link_of snapshot.id)
          first
          held
          (then_do (λ _. pure (record snapshot { in_progress = false })) (r, s))
  tidied snapshot (ok a) s w holds from h = (w, holds, from)
  tidied snapshot (err e) s w holds from h = absurd h
  tidied snapshot panic s w holds from h = tt

  switched :
      (snapshot : Snapshot) (r : Result (Unit {0})) (s : LoopDevice × Log)
      → Switched l (link_of snapshot.id) first held (r, s)
      → Settled env parts l
          (link_of snapshot.id)
          first
          held
          (then_do (λ _. tidy env parts >> pure (record snapshot { in_progress = false })) (r, s))
  switched snapshot (ok a) (l', w) (same, h) =
      let after = tidy env parts (l, w) in
      rw same (
        tidied snapshot after.0 after.1 w h refl
          (tidy-Done env parts (λ w. Unit) (λ ev w h. tt) (λ file vars w h. tt) (l, w) tt))
  switched snapshot (err e) s h = h
  switched snapshot panic s h = tt

  filled :
      (snapshot : Snapshot) (r : Result (Unit {0})) (s : LoopDevice × Log)
      → Sound Same (r, s)
      → Settled env parts l (link_of snapshot.id) first held (
          then_do
            (λ _.
              set_active env parts snapshot.id
              >> (tidy env parts >> pure (record snapshot { in_progress = false })))
            (r, s))
  filled snapshot (ok a) (l', w) h = rw h.0 (
      switched snapshot (set_active env parts snapshot.id (l, w)).0
        (set_active env parts snapshot.id (l, w)).1 (set_active-Switched snapshot.id w h.1))
  filled snapshot (err e) (l', w) h = (h.0, inl h.1)
  filled snapshot panic (l', w) h = tt

  module _ (snapshot : Snapshot) (kept : l.legacy_clean ≡ false)
      (images : (img : Image) (tree : String) (w : Log)
        → linked first (active_path l.root_dir) (parts.create_image_from_tree img tree w).1
          ≡ linked first (active_path l.root_dir) w)
      (apart_work : takes snapshot.work_dir (active_path l.root_dir) ≡ false)
      (apart : takes (dir snapshot.path) (active_path l.root_dir) ≡ false) where
    cleaned_here :
        (w : Log)
        → Restored l first held w
        → let s' = (close_transaction_on_error env parts snapshot (l, w)).1 in
          (s'.0 ≡ l) × Restored l first held s'.1
    unfolding close_transaction_on_error
    cleaned_here w p = elim (Bool-cases snapshot.in_progress) [
      | inl e ↦ rw (e, kept, apart) (refl, p)
      | inr e ↦ rw (e, kept, apart) (refl, p)
    ]

    cleaned-Restored :
        (s : LoopDevice × Log)
        → (s.0 ≡ l) × Restored l first held s.1
        → let s' = (close_transaction_on_error env parts snapshot s).1 in
          (s'.0 ≡ l) × Restored l first held s'.1
    cleaned-Restored (l', w) (same, p) = rw same (cleaned_here w p)

    handled :
        (r : Result Snapshot) (s : LoopDevice × Log)
        → Settled env parts l (link_of snapshot.id) first held (r, s)
        → Settled env parts l
            (link_of snapshot.id)
            first
            held
            (handle (λ s'. (close_transaction_on_error env parts snapshot s').1) (r, s))
    handled (ok a) s h = h
    handled (err e) s h = cleaned-Restored s h
    handled panic s h = tt

    guarded :
        (b : Bool) (w : Log)
        → linked first (active_path l.root_dir) w ≡ held
        → Settled env parts l (link_of snapshot.id) first held (
            (if b
                then commit env parts snapshot
                else raise (plain "given snapshot is not in progress"))
              (l, w))
    unfolding commit
    guarded true w h =
        let image = fill_image env parts snapshot (l, w) in
        filled snapshot image.0 image.1
          (fill_image-Same snapshot images apart_work (l, w) (refl, h))
    guarded false w h = (refl, inl h)

    close_transaction-Settled :
        (w : Log)
        → linked first (active_path l.root_dir) w ≡ held
        → Settled env parts l
            (link_of snapshot.id)
            first
            held
            (close_transaction env parts snapshot (l, w))
    unfolding close_transaction
    close_transaction-Settled w h =
        let body =
          (if snapshot.in_progress
              then commit env parts snapshot
              else raise (plain "given snapshot is not in progress"))
            (l, w) in
        handled body.0 body.1 (guarded snapshot.in_progress w h)

module _ (env : Env) (parts : Parts) (l : LoopDevice) (first : Option String) (snapshot : Snapshot)
    (kept : l.legacy_clean ≡ false)
    (images : (img : Image) (tree : String) (w : Log)
      → let path = active_path l.root_dir in
        let made = (parts.create_image_from_tree img tree w).1 in
        (commits path (link_of snapshot.id) made ≡ commits path (link_of snapshot.id) w)
        × (linked first path made ≡ linked first path w))
    (sets : (file : String) (vars : List (String × String)) (w : Log)
      → commits
          (active_path l.root_dir)
          (link_of snapshot.id)
          (parts.set_persistent_variables file vars w).1
        ≡ commits (active_path l.root_dir) (link_of snapshot.id) w)
    (fresh : link_of snapshot.id ≢ link_of l.active_snapshot_id)
    (apart_work : takes snapshot.work_dir (active_path l.root_dir) ≡ false)
    (apart : takes (dir snapshot.path) (active_path l.root_dir) ≡ false) where
  -- `CloseTransaction` of a deployment without a legacy layout, where an image's creation and the
  -- bootloader's variables leave the active link, the link stands in no directory of the snapshot, and
  -- the link text of the snapshot is not that of the active one. It does not panic. Without an error the
  -- active link was made to name the snapshot, at least once more than before, it held that when only the
  -- clean-up steps were left, and the snapshot returned differs only in that it is not in progress. With
  -- an error the link was not made to name the snapshot, and it holds what it held, or the snapshot that
  -- was active, or it is gone and an attempt to restore it has failed.
  pub close_transaction-IsAtomic :
      (w : Log)
      → let path = active_path l.root_dir in
        let closed = close_transaction env parts snapshot (l, w) in
        Atomic path (link_of snapshot.id) (commits path (link_of snapshot.id) w) snapshot closed
        × Settled env parts l (link_of snapshot.id) first (linked first path w) closed
  close_transaction-IsAtomic w = (
    close_transaction-commits env parts l snapshot (λ img tree w. (images img tree w).0) sets fresh
        w,
    close_transaction-Settled env parts l first (linked first (active_path l.root_dir) w) snapshot
        kept (λ img tree w. (images img tree w).1) apart_work apart w refl,
  )
