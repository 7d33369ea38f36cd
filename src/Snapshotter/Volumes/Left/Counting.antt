-- ===== src/Snapshotter/Volumes/Left/Counting.antt =====
-- A backend of subvolumes beside the deletions that it was asked for.
use elemental_toolkit.Base.{
  ℕ, ◌≡◌, Bool, true, false, Option, none, some, List, ◌∷◌, nat_eq, string_eq, if◌then◌else◌,
}
use elemental_toolkit.Base.Outcome.{Error, Result, ok, err, panic}
use elemental_toolkit.Base.Proc.{Proc, then_do}
use elemental_toolkit.System.{Log}
use elemental_toolkit.Snapshotter.Volumes.{SubvolumeBackend, Btrfs}

module _ {B : Type 0} where
  abbrev pub unasked : {A : Type 0} → Proc (B × Log) A → Proc ((B × List ℕ) × Log) A
  unasked m ((b, ids), w) = let (r, (b', w')) = m (b, w) in (r, ((b', ids), w'))

  abbrev pub asked : {A : Type 0} → ℕ → Proc (B × Log) A → Proc ((B × List ℕ) × Log) A
  asked id m ((b, ids), w) = let (r, (b', w')) = m (b, w) in (r, ((b', id ∷ ids), w'))

  -- The backend beside the identifiers that it was asked to delete.
  abbrev pub counted : SubvolumeBackend B → SubvolumeBackend (B × List ℕ)
  counted s = record {
    find_state = λ device mount_point. unasked (s.find_state device mount_point);
    init_partition = λ root. unasked (s.init_partition root);
    create = λ root base. unasked (s.create root base);
    commit = λ root snapshot. unasked (s.commit root snapshot);
    list = λ root. unasked (s.list root);
    delete = λ root id. asked id (s.delete root id);
    clean_up = λ root. unasked (s.clean_up root);
  }

  abbrev pub deletions : Btrfs (B × List ℕ) × Log → List ℕ
  deletions (b, w) = b.backend.1

  -- What a step gives, beside the deletions asked for until then.
  abbrev pub Gives :
      {A : Type 0} → List ℕ → (A → Type 0) → Result A × (Btrfs (B × List ℕ) × Log) → Type 0
  Gives d Q (ok a, s) = Q a × (deletions s ≡ d)
  Gives d Q (err e, s) = deletions s ≡ d
  Gives d Q (panic, s) = deletions s ≡ d

  pub Gives-then_do :
      {A C : Type 0} (d : List ℕ) (P : A → Type 0) (Q : C → Type 0)
      (next : A → Proc (Btrfs (B × List ℕ) × Log) C) (r : Result A) (s : Btrfs (B × List ℕ) × Log)
      → Gives d P (r, s)
      → ((a : A) (s : Btrfs (B × List ℕ) × Log) → P a → deletions s ≡ d → Gives d Q (next a s))
      → Gives d Q (then_do next (r, s))
  Gives-then_do d P Q next (ok a) s h k = k a s h.0 h.1
  Gives-then_do d P Q next (err e) s h k = h
  Gives-then_do d P Q next panic s h k = h

  -- A call of which only the error counts.
  pub Gives-or_fail :
      (d : List ℕ) (e : Option Error) (s : Btrfs (B × List ℕ) × Log)
      → deletions s ≡ d
      → Gives d
          (λ done. Unit {0})
          (elim e as (λ _. Result (Unit {0})) [ none ↦ ok tt | some failure ↦ err failure ], s)
  Gives-or_fail d none s h = (tt, h)
  Gives-or_fail d (some failure) s h = h

  pub Gives-if :
      {A : Type 0} (d : List ℕ) (Q : A → Type 0) (b : Bool)
      (m n : Proc (Btrfs (B × List ℕ) × Log) A) (s : Btrfs (B × List ℕ) × Log)
      → Gives d Q (m s)
      → Gives d Q (n s)
      → Gives d Q ((if b then m else n) s)
  Gives-if d Q true m n s h k = h
  Gives-if d Q false m n s h k = k

  pub Gives-keeps :
      {A : Type 0} (d : List ℕ) (Q : A → Type 0) (r : Result A) (s : Btrfs (B × List ℕ) × Log)
      → Gives d Q (r, s)
      → deletions s ≡ d
  Gives-keeps d Q (ok a) s h = h.1
  Gives-keeps d Q (err e) s h = h
  Gives-keeps d Q panic s h = h
