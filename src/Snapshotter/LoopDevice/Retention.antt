-- ===== src/Snapshotter/LoopDevice/Retention.antt =====
-- Which snapshots `cleanOldSnapshots` deletes.
use elemental_toolkit.Base.{
  ℕ, zero, suc, ◌+◌, ◌-◌, ◌≤◌, ◌≡◌, refl, true, List, [], ◌∷◌, All, length, take, take-nil, drop,
  length-drop, All-drop, ltb, leb, arith, inl, inr, Bool-cases,
}
use mathlib.Core.List.{Perm}
use elemental_toolkit.Base.Order.{sort_by, IsSorted, sort_by-perm, sort_by-IsSorted}
use elemental_toolkit.Base.Proc.{Proc, pure, ignored, then_do, ◌>>◌}
use elemental_toolkit.Base.Outcome.{Result, ok, err, panic}
use elemental_toolkit.System.{Env, Log}
use elemental_toolkit.Snapshotter.LoopDevice.{
  LoopDevice, delete_snapshot, delete_oldest, get_passive_snapshots, clean_old_snapshots,
}

-- The snapshots of a list, deleted one after the other.
unfoldable pub delete_each : Env → LoopDevice → List ℕ → Proc Log (Unit {0})
delete_each env l [] = pure tt
delete_each env l (id ∷ rest) = ignored (delete_snapshot env l id) >> delete_each env l rest

-- How many of `n` passive snapshots are too many, where the active one counts too.
abbrev pub surplus : LoopDevice → ℕ → ℕ
surplus l n = n + 1 - l.max_snaps

pub then_do-cong :
    {A B W : Type 0} (f g : A → Proc W B)
    → ((a : A) (w : W) → f a w ≡ g a w)
    → (r : Result A) (w : W) → then_do f (r, w) ≡ then_do g (r, w)
then_do-cong f g h (ok a) w = h a w
then_do-cong f g h (err e) w = refl
then_do-cong f g h panic w = refl

delete_oldest-take :
    (env : Env) (l : LoopDevice) (ids : List ℕ) (w : Log)
    → delete_oldest env l ids w ≡ delete_each env l (take (surplus l (length ids)) ids) w
unfolding delete_oldest delete_each
delete_oldest-take env l [] w = rw (take-nil (surplus l 0)) refl
delete_oldest-take env l (id ∷ rest) w =
    elim (Bool-cases (ltb l.max_snaps (length (id ∷ rest) + 1))) [
      | inl e ↦
          let more : surplus l (length (id ∷ rest)) ≡ suc (surplus l (length rest)) =
            ground arith in
          let first = ignored (delete_snapshot env l id) w in
          rw (e, more)
            (then_do-cong (λ _. delete_oldest env l rest)
              (λ _. delete_each env l (take (surplus l (length rest)) rest))
              (λ _ w'. delete_oldest-take env l rest w') first.0 first.1)
      | inr e ↦
          let none_left : surplus l (length (id ∷ rest)) ≡ 0 = ground arith in
          rw (e, none_left) refl
    ]

-- Each of `gone` is at most each of `kept`.
abbrev pub IsOlder : List ℕ → List ℕ → Type 0
IsOlder gone kept = All (λ old. All (λ new. leb old new ≡ true) kept) gone

sorted-IsOlder : (n : ℕ) (ids : List ℕ) → IsSorted leb ids → IsOlder (take n ids) (drop n ids)
sorted-IsOlder zero ids s = tt
sorted-IsOlder (suc n) [] s = tt
sorted-IsOlder (suc n) (id ∷ rest) s = (All-drop _ n rest s.0, sorted-IsOlder n rest s.1)

-- The first ones of a sorted list are at most the others.
pub sort_by-IsOlder :
    (n : ℕ) (ids : List ℕ) → IsOlder (take n (sort_by leb ids)) (drop n (sort_by leb ids))
sort_by-IsOlder n ids =
    sorted-IsOlder n (sort_by leb ids) (sort_by-IsSorted leb (ground arith) (ground arith) ids)

-- What a clean-up gives, by what the read of the passive snapshots has given.
abbrev pub Cleaned : Env → LoopDevice → Result (Unit {0}) × Log → Result (List ℕ) × Log → Type 0
Cleaned env l result (ok ids, w) =
    let passive = sort_by leb ids in
    let n = surplus l (length passive) in
    (result ≡ delete_each env l (take n passive) w)
    × Perm passive ids
    × IsOlder (take n passive) (drop n passive)
    × (length (drop n passive) ≤ l.max_snaps - 1)
Cleaned env l result (err e, w) = result ≡ (err e, w)
Cleaned env l result (panic, w) = result ≡ (panic, w)

cleaned :
    (env : Env) (l : LoopDevice) (r : Result (List ℕ)) (w : Log)
    → Cleaned env l (then_do (λ ids. delete_oldest env l (sort_by leb ids)) (r, w)) (r, w)
cleaned env l (ok ids) w = (
  delete_oldest-take env l (sort_by leb ids) w,
  sort_by-perm leb ids,
  sort_by-IsOlder _ ids,
  omega (arith, length-drop (surplus l (length (sort_by leb ids))) (sort_by leb ids)),
)
cleaned env l (err e) w = refl
cleaned env l panic w = refl

-- `cleanOldSnapshots` with the passive snapshots that `getPassiveSnapshots` reads deletes the surplus of
-- them, the first ones in ascending order, and no other, without a stop at a failure. None of these
-- is newer than one that it leaves, and it leaves at most one less than the maximum, or none where that
-- is 0. Where the read fails, it deletes nothing and returns that error.
pub clean_old_snapshots-Cleaned :
    (env : Env) (l : LoopDevice) (w : Log)
    → Cleaned env l (clean_old_snapshots env l w) (get_passive_snapshots env l.root_dir w)
unfolding clean_old_snapshots
clean_old_snapshots-Cleaned env l w =
    let read = get_passive_snapshots env l.root_dir w in cleaned env l read.0 read.1
