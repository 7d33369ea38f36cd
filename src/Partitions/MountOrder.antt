-- ===== src/Partitions/MountOrder.antt =====
-- `PartitionsByMountPoint`: the order in which partitions are mounted, and the reverse order in which
-- they are unmounted.
use mathlib.Core.List.{Perm, filter_map, append-nil, append_assoc}
use mathlib.Core.List.Perm
use elemental_toolkit.Base.{
  String, Option, ◌≡◌, refl, ap, ◌∙◌, ◌≢◌, Bool, true, false, some, List, [], ◌∷◌, ◌++◌, map, arith,
  All, All-append, ◌==◌, string_eq, if◌then◌else◌, Bool-cases, Option-cases, inl, inr, ==_refl,
}
use elemental_toolkit.Base.Order.{
  le_string, le_string_total, le_string_trans, sort_by, sort_by-perm, sort_by-IsSorted, IsSorted,
  All-sort_by,
}
use elemental_toolkit.Partitions.{
  PartitionRef, PartitionList, ElementalPartitions, lookup, insert, collect_mount_points,
  look_up_all, partitions_by_install_order, partitions_by_mount_point,
}

abbrev pub mount_point_of : PartitionRef → String
mount_point_of p = p.value.mount_point

-- The partitions that have a mount point.
abbrev pub mounted : PartitionList → PartitionList
mounted [] = []
mounted (p ∷ rest) = if p.value.mount_point == "" then mounted rest else p ∷ mounted rest

abbrev pub mount_points : PartitionList → List String
mount_points l = map mount_point_of l

abbrev pub mount_order : Bool → String → String → Bool
mount_order descending = if descending then (λ s t. le_string t s) else le_string

-- The map has a partition that is mounted at `x`.
abbrev Found : List (String × PartitionRef) → String → Type 0
Found keys x = (p : PartitionRef) × (lookup x keys ≡ some p) × (p.value.mount_point ≡ x)

lookup-insert :
    (j k : String) (p : PartitionRef) (m : List (String × PartitionRef))
    → lookup j (insert k p m) ≡ (if k == j then some p else lookup j m)
unfolding lookup insert
lookup-insert j k p [] = refl
lookup-insert j k p ((i, q) ∷ m) = ground (arith, lookup-insert j k p m)

Found-insert :
    (keys : List (String × PartitionRef)) (p : PartitionRef) (x : String)
    → Found keys x
    → Found (insert (mount_point_of p) p keys) x
Found-insert keys p x (q, found, at) = elim (Bool-cases (mount_point_of p == x)) [
  | inl same ↦ (p, lookup-insert x (mount_point_of p) p keys ∙ rw same, ground arith)
  | inr other ↦ (q, lookup-insert x (mount_point_of p) p keys ∙ rw other found, at)
]

All-Found-insert :
    (keys : List (String × PartitionRef)) (p : PartitionRef) (l : List String)
    → All (Found keys) l
    → All (Found (insert (mount_point_of p) p keys)) l
All-Found-insert keys p [] h = tt
All-Found-insert keys p (x ∷ l) h = (Found-insert keys p x h.0, All-Found-insert keys p l h.1)

Found-insert_self :
    (keys : List (String × PartitionRef)) (p : PartitionRef)
    → Found (insert (mount_point_of p) p keys) (mount_point_of p)
Found-insert_self keys p =
    (p, lookup-insert (mount_point_of p) (mount_point_of p) p keys ∙ rw ==_refl, refl)

collect_lem :
    (l : PartitionList) (keys : List (String × PartitionRef)) (points : List String)
    → All (Found keys) points
    → ((collect_mount_points l (keys, points)).1 ≡ points ++ mount_points (mounted l))
      × All
          (Found (collect_mount_points l (keys, points)).0)
          (collect_mount_points l (keys, points)).1
unfolding collect_mount_points
collect_lem [] keys points h = (rw append-nil, h)
collect_lem (p ∷ rest) keys points h = elim (Bool-cases (p.value.mount_point == "")) [
  | inl unset ↦ rw (unset, collect_mount_points) (collect_lem rest keys points h)
  | inr set ↦
      let (points', found) =
        collect_lem rest (insert (mount_point_of p) p keys) (points ++ mount_point_of p ∷ []) (
          All-append (Found (insert (mount_point_of p) p keys)) points (mount_point_of p ∷ [])
            (All-Found-insert keys p points h) (Found-insert_self keys p, tt)) in
      rw (set, collect_mount_points) (points' ∙ simp append_assoc, found)
]

mount_points-look_up_all :
    (keys : List (String × PartitionRef)) (l : List String)
    → All (Found keys) l
    → mount_points (look_up_all keys l) ≡ l
unfolding look_up_all
mount_points-look_up_all keys [] h = refl
mount_points-look_up_all keys (x ∷ l) ((p, found, at), h) =
    rw (found, look_up_all) (cc (at, mount_points-look_up_all keys l h))

mount_order_total : (d : Bool) (s t : String) → mount_order d s t ≡ false → mount_order d t s ≡ true
mount_order_total true s t h = le_string_total t s h
mount_order_total false s t h = le_string_total s t h

mount_order_trans :
    (d : Bool) (s t u : String)
    → mount_order d s t ≡ true
    → mount_order d t u ≡ true
    → mount_order d s u ≡ true
mount_order_trans true s t u h k = le_string_trans u t s k h
mount_order_trans false s t u h k = le_string_trans s t u h k

module _ (ep : ElementalPartitions) (descending : Bool)
    (excludes : List (Option PartitionRef)) where
  abbrev installed : PartitionList
  installed = partitions_by_install_order ep [] excludes

  mount_points_lem :
      mount_points (partitions_by_mount_point ep descending excludes)
      ≡ sort_by (mount_order descending) (mount_points (mounted installed))
  unfolding partitions_by_mount_point
  mount_points_lem =
      let (points, found) = collect_lem installed [] [] tt in
      mount_points-look_up_all (collect_mount_points installed ([], [])).0 _
        (All-sort_by (mount_order descending) _ (collect_mount_points installed ([], [])).1 found)
      ∙ ap (sort_by (mount_order descending)) points

  -- The mount points in the result are those of the partitions of the install order that have one,
  -- each as often. Ascending, a mount point comes before all greater ones, such as those below it;
  -- descending, after them.
  pub mount_points-IsSorted :
      IsSorted
        (mount_order descending)
        (mount_points (partitions_by_mount_point ep descending excludes))
      × Perm
          (mount_points (partitions_by_mount_point ep descending excludes))
          (mount_points (mounted installed))
  mount_points-IsSorted = rw mount_points_lem (
    sort_by-IsSorted (mount_order descending) (mount_order_total descending)
        (mount_order_trans descending) (mount_points (mounted installed)),
    sort_by-perm (mount_order descending) (mount_points (mounted installed)),
  )

-- No mount point stands a second time after those of `seen` and those before it.
abbrev pub IsDistinct : List String → List String → Type 0
IsDistinct seen [] = Unit
IsDistinct seen (m ∷ rest) = All (λ x. x ≢ m) seen × IsDistinct (seen ++ m ∷ []) rest

look_up_all-append :
    (keys : List (String × PartitionRef)) (l k : List String)
    → look_up_all keys (l ++ k) ≡ look_up_all keys l ++ look_up_all keys k
unfolding look_up_all
look_up_all-append keys [] k = refl
look_up_all-append keys (x ∷ l) k = ground (arith, look_up_all-append keys l k)

look_up_all-insert :
    (keys : List (String × PartitionRef)) (k : String) (p : PartitionRef) (l : List String)
    → All (λ x. x ≢ k) l
    → look_up_all (insert k p keys) l ≡ look_up_all keys l
unfolding look_up_all
look_up_all-insert keys k p [] h = refl
look_up_all-insert keys k p (x ∷ l) (ne, h) =
    ground (arith, lookup-insert x k p keys, look_up_all-insert keys k p l h)

look_up_self :
    (keys : List (String × PartitionRef)) (p : PartitionRef) (l k : PartitionList)
    → l ++ (look_up_all (insert (mount_point_of p) p keys) (mount_point_of p ∷ []) ++ k)
      ≡ l ++ (p ∷ k)
unfolding look_up_all
look_up_self keys p l k =
    rw (lookup-insert (mount_point_of p) (mount_point_of p) p keys, ==_refl, look_up_all) refl

collect-look_up_all :
    (l : PartitionList) (keys : List (String × PartitionRef)) (points : List String)
    → IsDistinct points (mount_points (mounted l))
    → look_up_all
        (collect_mount_points l (keys, points)).0
        (collect_mount_points l (keys, points)).1
      ≡ look_up_all keys points ++ mounted l
unfolding collect_mount_points
collect-look_up_all [] keys points h = rw append-nil
collect-look_up_all (p ∷ rest) keys points h = elim (Bool-cases (p.value.mount_point == "")) [
  | inl unset ↦
      rw (unset, collect_mount_points) (collect-look_up_all rest keys points (rw unset at h))
  | inr set ↦
      let h' : IsDistinct points (mount_point_of p ∷ mount_points (mounted rest)) = rw set at h in
      rw (set, collect_mount_points)
        (collect-look_up_all rest (insert (mount_point_of p) p keys)
            (points ++ mount_point_of p ∷ []) h'.1
          ∙ simp
              (
                look_up_all-append,
                look_up_all-insert keys (mount_point_of p) p points h'.0,
                append_assoc,
              )
              (look_up_self keys p (look_up_all keys points) (mounted rest)))
]

look_up_all-filter_map :
    (keys : List (String × PartitionRef)) (l : List String)
    → filter_map (λ m. lookup m keys) l ≡ look_up_all keys l
unfolding look_up_all filter_map
look_up_all-filter_map keys [] = refl
look_up_all-filter_map keys (x ∷ l) = elim (Option-cases (lookup x keys)) [
  | inl missing ↦ rw (missing, look_up_all, filter_map) (look_up_all-filter_map keys l)
  | inr (p, found) ↦
      rw (found, look_up_all, filter_map) (ap (λ r. p ∷ r) (look_up_all-filter_map keys l))
]

look_up_all-perm :
    (keys : List (String × PartitionRef)) {l k : List String}
    → Perm l k
    → Perm (look_up_all keys l) (look_up_all keys k)
look_up_all-perm keys {l} {k} h =
    rw (look_up_all-filter_map keys l, look_up_all-filter_map keys k) at
      (Perm.filter_map (λ m. lookup m keys) h)

-- Where no two of the partitions share a mount point, the result holds each partition that is
-- mounted exactly once.
mount_order-perm :
    (ep : ElementalPartitions) (descending : Bool) (excludes : List (Option PartitionRef))
    → IsDistinct [] (mount_points (mounted (partitions_by_install_order ep [] excludes)))
    → Perm
        (partitions_by_mount_point ep descending excludes)
        (mounted (partitions_by_install_order ep [] excludes))
unfolding partitions_by_mount_point
mount_order-perm ep descending excludes h =
    let collected = collect_mount_points (partitions_by_install_order ep [] excludes) ([], []) in
    rw (collect-look_up_all (partitions_by_install_order ep [] excludes) [] [] h) at
      (look_up_all-perm collected.0 (sort_by-perm (mount_order descending) collected.1))
