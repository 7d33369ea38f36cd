-- ===== src/Snapshotter/Btrfs/Cleaning.antt =====
-- pkg/snapshotter/btrfs-backend.go: what the clean-up of old snapshots deletes.
use mathlib.Core.List.{Perm}
use elemental_toolkit.Base.{
  ℕ, ◌-◌, ◌≤◌, String, ◌≡◌, refl, false, List, [], ◌∷◌, All, length, take, drop, length-take, leb,
  ◌==◌, nat_eq, arith, Bool-cases, inl, inr, if◌then◌else◌,
}
use elemental_toolkit.Base.Order.{sort_by, sort_by-perm}
use elemental_toolkit.Base.Outcome.{plain, Result, ok, err, panic}
use elemental_toolkit.Base.Proc.{Proc, pure, raise, then_do, ◌>>◌}
use elemental_toolkit.System.{Env, Log}
use elemental_toolkit.Snapshotter.Btrfs.{
  BtrfsBackend, delete_subvolume, delete_snapshot, delete_first, list_snapshots, snapshots_cleanup,
}
use elemental_toolkit.Snapshotter.LoopDevice.Retention.{IsOlder, sort_by-IsOlder, then_do-cong}

-- The identifiers in front of one.
abbrev pub before : ℕ → List ℕ → List ℕ
before id [] = []
before id (i ∷ rest) = if i == id then [] else i ∷ before id rest

-- Subvolumes deleted one after the other, up to the first failure. The number 0 is one.
unfoldable pub delete_all : Env → String → List ℕ → Proc Log (Unit {0})
delete_all env root [] = pure tt
delete_all env root (id ∷ rest) =
    (if id == 0
      then raise (plain "invalid id, should be higher than zero")
      else delete_subvolume env root id)
    >> delete_all env root rest

delete_first-before :
    (env : Env) (b : BtrfsBackend) (root : String) (ids : List ℕ) (w : Log)
    → delete_first env b root ids w ≡ delete_all env root (before b.current_id ids) w
unfolding delete_first delete_all delete_snapshot
delete_first-before env b root [] w = refl
delete_first-before env b root (id ∷ rest) w =
    let next : (r : Result (Unit {0})) (w : Log) → _ =
      then_do-cong (λ _. delete_first env b root rest)
        (λ _. delete_all env root (before b.current_id rest))
        (λ _ w'. delete_first-before env b root rest w') in
    elim (Bool-cases (id == b.current_id)) [
      | inl e ↦ rw e refl
      | inr e ↦ elim (Bool-cases (id == 0)) [
        | inl f ↦ rw (e, f) refl
        | inr f ↦
            rw (e, f) (next (delete_subvolume env root id w).0 (delete_subvolume env root id w).1)
      ]
    ]

before-current : (id : ℕ) (ids : List ℕ) → All (λ i. (i == id) ≡ false) (before id ids)
before-current id [] = tt
before-current id (i ∷ rest) = elim (Bool-cases (i == id)) [
  | inl e ↦ rw e tt
  | inr e ↦ rw e (e, before-current id rest)
]

length-before : (id : ℕ) (ids : List ℕ) → length (before id ids) ≤ length ids
length-before id [] = omega arith
length-before id (i ∷ rest) = elim (Bool-cases (i == id)) [
  | inl e ↦ rw e (omega arith)
  | inr e ↦ rw e (omega (arith, length-before id rest))
]

-- What a clean-up gives, by what the listing has given.
abbrev pub CleanedUp :
    Env → BtrfsBackend → String → Result (Unit {0}) × Log → Result (List ℕ × ℕ) × Log → Type 0
CleanedUp env b root result (ok (ids, active), w) =
    let sorted = sort_by leb ids in
    let n = length ids - b.max_snapshots in
    let gone = before b.current_id (take n sorted) in
    (result ≡ delete_all env root gone w)
    × All (λ i. (i == b.current_id) ≡ false) gone
    × (length gone ≤ n)
    × Perm sorted ids
    × IsOlder (take n sorted) (drop n sorted)
CleanedUp env b root result (err e, w) = result ≡ (err e, w)
CleanedUp env b root result (panic, w) = result ≡ (panic, w)

cleaned_up :
    (env : Env) (b : BtrfsBackend) (root : String) (r : Result (List ℕ × ℕ)) (w : Log)
    → CleanedUp env b root
        (then_do
          (λ listed.
            delete_first env b root
              (take (length listed.0 - b.max_snapshots) (sort_by leb listed.0)))
          (r, w))
        (r, w)
cleaned_up env b root (ok (ids, active)) w =
    let n = length ids - b.max_snapshots in
    let first = take n (sort_by leb ids) in
    (
      delete_first-before env b root first w,
      before-current b.current_id first,
      omega (arith, length-before b.current_id first, length-take n (sort_by leb ids)),
      sort_by-perm leb ids,
      sort_by-IsOlder n ids,
    )
cleaned_up env b root (err e) w = refl
cleaned_up env b root panic w = refl

-- `SnapshotsCleanup` with the snapshots that `ListSnapshots` gives sorts them in ascending order, takes as
-- many of the first ones as there are above the maximum, and deletes of these the ones in front of the
-- current snapshot, in order and up to the first failure, and no other; the current one is not among
-- them. None of those that it takes is newer than one that it does not take. Where the listing fails, it
-- deletes nothing and returns that error.
pub snapshots_cleanup-CleanedUp :
    (env : Env) (b : BtrfsBackend) (root : String) (w : Log)
    → CleanedUp env b root (snapshots_cleanup env b root w) (list_snapshots env root w)
unfolding snapshots_cleanup
snapshots_cleanup-CleanedUp env b root w =
    let listed = list_snapshots env root w in cleaned_up env b root listed.0 listed.1
