-- ===== src/Elemental/Paths.antt =====
-- What `MountPartitions` changes in the partitions that it is given: a path that it had to look for.
use elemental_toolkit.Base.{
  String, ◌≡◌, refl, sym, ap, ◌∙◌, Option, List, [], ◌∷◌, ◌==◌, string_eq, Bool-cases, Option-cases,
  ◌⊎◌, inl, inr, ==_sound,
}
use elemental_toolkit.Base.Outcome.{Error, Result, ok, err, panic}
use elemental_toolkit.Base.Proc.{Keeps, Keeps-bind, inside, or_fail}
use elemental_toolkit.System.{Env, Log, mkdir_all}
use elemental_toolkit.Partitions.{Partition, PartitionList}
use elemental_toolkit.Elemental.{
  get_device_by_label, find_path, mount_partition, mount_each, mount_partitions, flags_of, error_of,
  is_mounted,
}

-- `after` differs from `before` at most in its path, and only where that was empty and the search for the
-- label gave the new one.
abbrev pub IsCompleted : Env → Partition → Partition → Type 0
IsCompleted env before after =
    (after ≡ before)
    ⊎ ((before.path ≡ "")
        × (device : String) × (asked_at : Log) × ((get_device_by_label env before.filesystem_label
              10 asked_at).0
            ≡ ok device)
        × (after ≡ record before { path = device }))

-- The search for the device of a partition, and its answer.
IsCompleted-found :
    (env : Env) (before part : Partition) (w w' : Log) (r : Result String)
    → (get_device_by_label env part.filesystem_label 10 w).0 ≡ r
    → IsCompleted env before part
    → part.path ≡ ""
    → IsCompleted env before
        (elim r as (λ _. Result (Unit {0}) × (Partition × Log)) [
          | ok device ↦ (ok tt, (record part { path = device }, w'))
          | err e ↦ (err e, (part, w'))
          | panic ↦ (panic, (part, w'))
        ]).1.0
IsCompleted-found env before part w w' (ok device) found (inl e) p = inr (
  ap (λ q. q.path) (sym e) ∙ p,
  device,
  w,
  rw (← e) found,
  ap {A = Partition} (λ q. record q { path = device }) e,
)
IsCompleted-found env before part w w' (ok device) found (inr (q, d, at, f, e)) p = inr (
  q,
  device,
  w,
  ap (λ (q : Partition). (get_device_by_label env q.filesystem_label 10 w).0) (sym e) ∙ found,
  ap {A = Partition} (λ q. record q { path = device }) e,
)
IsCompleted-found env before part w w' (err e) found h p = h
IsCompleted-found env before part w w' panic found h p = h

-- One partition after the other.
abbrev pub AreCompleted : Env → PartitionList → PartitionList → Type 0
AreCompleted env [] [] = Unit
AreCompleted env [] (q ∷ after) = ⊥
AreCompleted env (p ∷ before) [] = ⊥
AreCompleted env (p ∷ before) (q ∷ after) =
    (q.addr ≡ p.addr) × IsCompleted env p.value q.value × AreCompleted env before after

AreCompleted-refl : (env : Env) (l : PartitionList) → AreCompleted env l l
AreCompleted-refl env [] = tt
AreCompleted-refl env (p ∷ l) = (refl, inl refl, AreCompleted-refl env l)

module _ (env : Env) where
  IsCompleted-find_path :
      (before : Partition) → Keeps (λ (part, w). IsCompleted env before part) (find_path env)
  unfolding find_path
  IsCompleted-find_path before (part, w) p = elim (Bool-cases (part.path == "")) [
    | inl e ↦ rw e (
        IsCompleted-found env before part w (get_device_by_label env part.filesystem_label 10 w).1
          (get_device_by_label env part.filesystem_label 10 w).0 refl p (==_sound part.path "" e))
    | inr e ↦ rw e p
  ]

  IsCompleted-mount_partition :
      (opts : List String) (before : Partition)
      → Keeps (λ (part, w). IsCompleted env before part) (mount_partition env opts)
  unfolding mount_partition
  IsCompleted-mount_partition opts before =
      Keeps-bind (λ (part, w). IsCompleted env before part)
        (or_fail (λ (part, w). inside (mkdir_all env part.mount_point) (part, w))) _
        (λ (part, w) p. p)
        (λ done.
          Keeps-bind (λ (part, w). IsCompleted env before part) (find_path env) _
            (IsCompleted-find_path before) (λ done (part, w) p. p))

  mount_each-AreCompleted :
      (flags : List String) (l : PartitionList) (w : Log)
      → AreCompleted env l (mount_each env flags l w).0.1
  unfolding mount_each
  mount_each-AreCompleted flags [] w = tt
  mount_each-AreCompleted flags (p ∷ rest) w =
      let mnt = is_mounted env p.value w in
      let tried = mount_partition env (flags_of env p.value flags) (p.value, mnt.1) in
      let completed =
        IsCompleted-mount_partition (flags_of env p.value flags) p.value (p.value, mnt.1)
          (inl refl) in
      elim (Bool-cases (p.value.mount_point == "")) [
        | inl e ↦ rw e (refl, inl refl, mount_each-AreCompleted flags rest w)
        | inr e ↦ elim (Bool-cases mnt.0.0) [
          | inl f ↦ rw (e, f) (refl, inl refl, mount_each-AreCompleted flags rest mnt.1)
          | inr f ↦ elim (Option-cases (error_of tried.0)) [
            | inl g ↦ rw (e, f, g) (refl, completed, mount_each-AreCompleted flags rest tried.1.1)
            | inr (failure, g) ↦ rw (e, f, g) (refl, completed, AreCompleted-refl env rest)
          ]
        ]
      ]

  module _ (append : Option Error → Error → Error) where
    -- Whatever `MountPartitions` returns, the partitions stay the same ones in the same order, and each
    -- field of each is unchanged but for a path that was empty, into which it puts a device that the search
    -- for the label of that partition has found.
    pub mount_partitions-AreCompleted :
        (flags : List String) (l : PartitionList) (w : Log)
        → AreCompleted env l (mount_partitions env append flags l w).0.1
    unfolding mount_partitions
    mount_partitions-AreCompleted flags l w = elim (Option-cases (mount_each env flags l w).0.0) [
      | inl e ↦ rw (e, mount_partitions) (mount_each-AreCompleted flags l w)
      | inr (failure, e) ↦ rw (e, mount_partitions) (mount_each-AreCompleted flags l w)
    ]
