-- ===== src/Snapshotter/LoopDevice/Commit.antt =====
-- `CloseTransaction` and how often it makes the active link name the snapshot.
use elemental_toolkit.Base.{
  ℕ, suc, ◌+◌, ◌<◌, String, ◌≡◌, ◌≢◌, ◌∙◌, refl, Bool, true, false, Option, none, some, List, [],
  ◌∷◌, ◌&&◌, ◌==◌, string_eq, ==_refl, ==_sound, arith, if◌then◌else◌, Bool-cases, inl, inr,
  Option-cases,
}
use elemental_toolkit.Base.Outcome.{Error, Result, ok, err, panic, plain}
use elemental_toolkit.Base.Proc.{
  Proc, pure, raise, inside, or_fail, ◌>>◌, then_do, on_error, handle, Safe, Sound, Safe-bind,
  Safe-or_fail, Done,
}
use elemental_toolkit.System.{Env, Log, Event, symlinked, deleted, unmount, remove_all, symlink}
use elemental_toolkit.Specs.{Image}
use elemental_toolkit.Snapshotter.{Snapshot}
use elemental_toolkit.Snapshotter.LoopDevice.{
  LoopDevice, Parts, active_path, link_of, snapshot_to_image,
}
use elemental_toolkit.Snapshotter.LoopDevice.Transaction.{
  fill_image, set_active, tidy, commit, close_transaction, close_transaction_on_error,
}
use elemental_toolkit.Snapshotter.LoopDevice.Grows.{tidy-Done}

-- How often the active link was made to hold `target`.
abbrev pub commits : String → String → Log → ℕ
commits path target [] = 0
commits path target (symlinked t p none ∷ w) =
    (if p == path && t == target then 1 else 0) + commits path target w
commits path target (_ ∷ w) = commits path target w

-- What a step returns beside the commits that it leaves: `Q` where it succeeds, none new where it fails.
abbrev pub Leaves :
    {A : Type 0} → String → String → ℕ → (A → ℕ → Type 0) → Result A × (LoopDevice × Log) → Type 0
Leaves path target n Q (ok a, (l, w)) = Q a (commits path target w)
Leaves path target n Q (err e, (l, w)) = commits path target w ≡ n
Leaves path target n Q (panic, s) = ⊥

abbrev NotLowered : String → String → ℕ → Log → Type 0
NotLowered path target n w = n < commits path target w

module _ (env : Env) (parts : Parts) (path target : String)
    (images : (img : Image) (tree : String) (w : Log)
      → commits path target (parts.create_image_from_tree img tree w).1
        ≡ commits path target w) where
  abbrev Same : LoopDevice → ℕ → LoopDevice × Log → Type 0
  Same l n (l', w) = (l' ≡ l) × (commits path target w ≡ n)

  fill_image-Safe :
      (l : LoopDevice) (n : ℕ) (snapshot : Snapshot)
      → Safe (Same l n) (fill_image env parts snapshot)
  unfolding fill_image
  fill_image-Safe l₀ n snapshot (l, w) p =
      Safe-bind (Same l₀ n) (or_fail (inside (unmount env snapshot.mount_point))) _
        (Safe-or_fail (Same l₀ n) (inside (unmount env snapshot.mount_point)) (λ s p. p))
        (λ done.
          Safe-bind (Same l₀ n)
            (or_fail (
              inside
                (parts.create_image_from_tree (snapshot_to_image l snapshot) snapshot.work_dir)))
            _
            (Safe-or_fail (Same l₀ n)
              (inside
                (parts.create_image_from_tree (snapshot_to_image l snapshot) snapshot.work_dir))
              (λ s p. (p.0, images _ _ _ ∙ p.1)))
            (λ done.
              Safe-or_fail (Same l₀ n) (inside (remove_all env snapshot.work_dir)) (λ s p. p)))
        (l, w) p

commits-same :
    (path target : String) (w : Log)
    → commits path target (symlinked target path none ∷ w) ≡ suc (commits path target w)
commits-same path target w = rw (==_refl path, ==_refl target) (omega arith)

commits-other :
    (path target other : String) (e : Option Error) (w : Log)
    → target ≢ other
    → commits path target (symlinked other path e ∷ w) ≡ commits path target w
commits-other path target other (some e) w h = refl
commits-other path target other none w h = elim (Bool-cases (other == target)) [
  | inl e ↦ let same : other ≡ target = ==_sound other target e in absurd (h cc)
  | inr e ↦ rw (==_refl path, e) (omega arith)
]

module _ (env : Env) (l : LoopDevice) (id : ℕ)
    (fresh : link_of id ≢ link_of l.active_snapshot_id) where
  -- The second half of `set_active`.
  abbrev switch : Proc (LoopDevice × Log) (Unit {0})
  switch =
      on_error (or_fail (inside (symlink env (link_of id) (active_path l.root_dir))))
        (inside (symlink env (link_of l.active_snapshot_id) (active_path l.root_dir)))

  switch-commits :
      (w : Log) (n : ℕ)
      → commits (active_path l.root_dir) (link_of id) w ≡ n
      → Leaves (active_path l.root_dir) (link_of id) n (λ _ k. k ≡ suc n) (switch (l, w))
  switch-commits w n p = elim (Option-cases (env.symlink w (link_of id) (active_path l.root_dir))) [
    | inl e ↦ rw e (commits-same (active_path l.root_dir) (link_of id) w ∙ (omega arith))
    | inr (failure, e) ↦ rw e (
        commits-other (active_path l.root_dir) (link_of id) (link_of l.active_snapshot_id)
          (env.symlink (symlinked (link_of id) (active_path l.root_dir) (some failure) ∷ w)
            (link_of l.active_snapshot_id) (active_path l.root_dir))
          (symlinked (link_of id) (active_path l.root_dir) (some failure) ∷ w) fresh
        ∙ p)
  ]

  set_active-commits :
      (parts : Parts) (w : Log) (n : ℕ)
      → commits (active_path l.root_dir) (link_of id) w ≡ n
      → Leaves
          (active_path l.root_dir)
          (link_of id)
          n
          (λ _ k. k ≡ suc n)
          (set_active env parts id (l, w))
  unfolding set_active
  set_active-commits parts w n p = elim (Option-cases (env.delete w (active_path l.root_dir))) [
    | inl e ↦ rw e (switch-commits (deleted (active_path l.root_dir) none ∷ w) n p)
    | inr (failure, e) ↦
        rw e (switch-commits (deleted (active_path l.root_dir) (some failure) ∷ w) n p)
  ]

-- A transaction that closes without an error has added a commit and leaves the snapshot no longer in
-- progress; one that fails has added none; none panics.
abbrev pub Atomic :
    (path target : String) (n : ℕ) → Snapshot → Result Snapshot × (LoopDevice × Log) → Type 0
Atomic path target n snapshot =
    Leaves path target n (λ closed k. (closed ≡ record snapshot { in_progress = false }) × (n < k))

module _ (env : Env) (parts : Parts) where
  Leaves-cleaned :
      (path target : String) (n : ℕ) (snapshot : Snapshot) (s : LoopDevice × Log)
      → commits path target s.1 ≡ n
      → commits path target (close_transaction_on_error env parts snapshot s).1.1 ≡ n
  unfolding close_transaction_on_error
  Leaves-cleaned path target n snapshot (l, w) p = elim (Bool-cases snapshot.in_progress) [
    | inl e ↦ elim (Bool-cases l.legacy_clean) [ inl f ↦ rw (e, f) p | inr f ↦ rw (e, f) p ]
    | inr e ↦ elim (Bool-cases l.legacy_clean) [ inl f ↦ rw (e, f) p | inr f ↦ rw (e, f) p ]
  ]

  Atomic-handle :
      (path target : String) (n : ℕ) (snapshot : Snapshot) (r : Result Snapshot)
      (s : LoopDevice × Log)
      → Atomic path target n snapshot (r, s)
      → Atomic path target n snapshot
          (handle (λ s'. (close_transaction_on_error env parts snapshot s').1) (r, s))
  Atomic-handle path target n snapshot (ok a) s h = h
  Atomic-handle path target n snapshot (err e) s h = Leaves-cleaned path target n snapshot s h
  Atomic-handle path target n snapshot panic s h = h

  Atomic-tidy :
      (path target : String) (n : ℕ) (snapshot : Snapshot) (r : Result (Unit {0}))
      (s : LoopDevice × Log)
      → Done (λ (l, w). n < commits path target w) (r, s)
      → Atomic path target n snapshot
          (then_do (λ _. pure (record snapshot { in_progress = false })) (r, s))
  Atomic-tidy path target n snapshot (ok a) s h = (refl, h)
  Atomic-tidy path target n snapshot (err e) s h = absurd h
  Atomic-tidy path target n snapshot panic s h = absurd h

  commits-more :
      (path target : String) (n : ℕ) (ev : Event) (w : Log)
      → n < commits path target w
      → n < commits path target (ev ∷ w)
  commits-more path target n (symlinked t p none) w h = omega arith
  commits-more path target n (symlinked t p (some e)) w h = h
  commits-more path target n _ w h = h

module _ (env : Env) (parts : Parts) (path target : String)
    (sets : (file : String) (vars : List (String × String)) (w : Log)
      → commits path target (parts.set_persistent_variables file vars w).1
        ≡ commits path target w) where
  Atomic-switched :
      (n : ℕ) (snapshot : Snapshot) (r : Result (Unit {0})) (s : LoopDevice × Log)
      → Leaves path target n (λ _ k. k ≡ suc n) (r, s)
      → Atomic path target n snapshot
          (then_do (λ _. tidy env parts >> pure (record snapshot { in_progress = false })) (r, s))
  Atomic-switched n snapshot (ok a) (l, w) h =
      let tidied =
        tidy-Done env parts (λ w. n < commits path target w)
          (λ ev w h. commits-more env parts path target n ev w h)
          (λ file vars w h. rw (sets file vars w) h) (l, w) (rw h (omega arith)) in
      Atomic-tidy env parts path target n snapshot (tidy env parts (l, w)).0
        (tidy env parts (l, w)).1 tidied
  Atomic-switched n snapshot (err e) s h = h
  Atomic-switched n snapshot panic s h = h

module _ (env : Env) (parts : Parts) (l : LoopDevice) (snapshot : Snapshot)
    (images : (img : Image) (tree : String) (w : Log)
      → commits
          (active_path l.root_dir)
          (link_of snapshot.id)
          (parts.create_image_from_tree img tree w).1
        ≡ commits (active_path l.root_dir) (link_of snapshot.id) w)
    (sets : (file : String) (vars : List (String × String)) (w : Log)
      → commits
          (active_path l.root_dir)
          (link_of snapshot.id)
          (parts.set_persistent_variables file vars w).1
        ≡ commits (active_path l.root_dir) (link_of snapshot.id) w)
    (fresh : link_of snapshot.id ≢ link_of l.active_snapshot_id) where
  Atomic-filled :
      (n : ℕ) (r : Result (Unit {0})) (l' : LoopDevice) (w : Log)
      → Sound
          (λ (l', w). (l' ≡ l) × (commits (active_path l.root_dir) (link_of snapshot.id) w ≡ n))
          (r, (l', w))
      → Atomic (active_path l.root_dir) (link_of snapshot.id) n snapshot (
          then_do
            (λ _.
              set_active env parts snapshot.id
              >> (tidy env parts >> pure (record snapshot { in_progress = false })))
            (r, (l', w)))
  Atomic-filled n (ok a) l' w h = rw h.0 (
      Atomic-switched env parts (active_path l.root_dir) (link_of snapshot.id) sets n snapshot
        (set_active env parts snapshot.id (l, w)).0 (set_active env parts snapshot.id (l, w)).1
        (set_active-commits env l snapshot.id fresh parts w n h.1))
  Atomic-filled n (err e) l' w h = h.1
  Atomic-filled n panic l' w h = h

  commit-IsAtomic :
      (w : Log)
      → Atomic
          (active_path l.root_dir)
          (link_of snapshot.id)
          (commits (active_path l.root_dir) (link_of snapshot.id) w)
          snapshot
          (commit env parts snapshot (l, w))
  unfolding commit
  commit-IsAtomic w =
      let n = commits (active_path l.root_dir) (link_of snapshot.id) w in
      let filled = fill_image env parts snapshot (l, w) in
      Atomic-filled n filled.0 filled.1.0 filled.1.1 (
        fill_image-Safe env parts (active_path l.root_dir) (link_of snapshot.id) images l n snapshot
          (l, w) (refl, refl))

  guarded-IsAtomic :
      (b : Bool) (w : Log)
      → Atomic
          (active_path l.root_dir)
          (link_of snapshot.id)
          (commits (active_path l.root_dir) (link_of snapshot.id) w)
          snapshot
          ((if b
              then commit env parts snapshot
              else raise (plain "given snapshot is not in progress"))
            (l, w))
  guarded-IsAtomic true w = commit-IsAtomic w
  guarded-IsAtomic false w = refl

  -- Where an image's creation and the bootloader's variables leave the active link, and the snapshot's link
  -- text is not that of the active snapshot, `CloseTransaction` does not panic; without an error, the active
  -- link was made to name the snapshot, at least once more than before, and the snapshot returned differs
  -- only in that it is not in progress; with an error, the active link was not made to name the snapshot.
  pub close_transaction-commits :
      (w : Log)
      → Atomic
          (active_path l.root_dir)
          (link_of snapshot.id)
          (commits (active_path l.root_dir) (link_of snapshot.id) w)
          snapshot
          (close_transaction env parts snapshot (l, w))
  unfolding close_transaction
  close_transaction-commits w =
      let body =
        (if snapshot.in_progress
            then commit env parts snapshot
            else raise (plain "given snapshot is not in progress"))
          (l, w) in
      Atomic-handle env parts (active_path l.root_dir) (link_of snapshot.id)
        (commits (active_path l.root_dir) (link_of snapshot.id) w) snapshot body.0 body.1
        (guarded-IsAtomic snapshot.in_progress w)
