-- ===== src/Partitions/Lookup.antt =====
-- `GetByName`, `GetByLabel` and `GetByNameOrLabel`: of several matches, a mounted one is preferred.
use mathlib.Core.Path.{subst}
use elemental_toolkit.Base.{
  String, ◌≡◌, refl, sym, ◌≢◌, ◌⊎◌, inl, inr, Bool, true, false, not, ◌&&◌, Option, none, some, [],
  ◌∷◌, arith, All, ◌==◌, string_eq, Bool-cases, Option-cases,
}
use elemental_toolkit.Partitions.{
  Partition, PartitionRef, PartitionList, find_mounted, get_by_name, get_by_label,
  get_by_name_or_label,
}

abbrev pub Among : PartitionRef → PartitionList → Type 0
Among p [] = ⊥
Among p (q ∷ rest) = (p ≡ q) ⊎ Among p rest

abbrev pub is_mounted : Partition → Bool
is_mounted p = not (p.mount_point == "")

-- What a search by `matches` may give: nil only where nothing matches; else a match of the list, which
-- is mounted unless no match is.
abbrev pub Finds : (Partition → Bool) → PartitionList → Option PartitionRef → Type 0
Finds matches pl none = All (λ p. matches p.value ≡ false) pl
Finds matches pl (some p) =
    Among p pl
    × (matches p.value ≡ true)
    × ((is_mounted p.value ≡ true) ⊎ All (λ q. (matches q.value && is_mounted q.value) ≡ false) pl)

-- The same from a match `part` found before.
abbrev FindsFrom :
    (Partition → Bool) → PartitionList → Option PartitionRef → Option PartitionRef → Type 0
FindsFrom matches pl part result =
    ((p : PartitionRef) × (result ≡ some p)
      × Among p pl
      × (matches p.value ≡ true)
      × (is_mounted p.value ≡ true))
    ⊎ (All (λ q. (matches q.value && is_mounted q.value) ≡ false) pl
        × (((p : PartitionRef) × (result ≡ some p) × Among p pl × (matches p.value ≡ true))
            ⊎ (All (λ p. matches p.value ≡ false) pl × (result ≡ part))))

module _ (matches : Partition → Bool) (q : PartitionRef) (rest : PartitionList)
    (part result : Option PartitionRef) where
  find_other :
      matches q.value ≡ false
      → FindsFrom matches rest part result
      → FindsFrom matches (q ∷ rest) part result
  find_other other (inl (p, e, among, match, at)) = inl (p, e, inr among, match, at)
  find_other other (inr (off, inl (p, e, among, match))) =
      inr ((rw other refl, off), inl (p, e, inr among, match))
  find_other other (inr (off, inr (none_match, e))) =
      inr ((rw other refl, off), inr ((other, none_match), e))

  find_unmounted :
      matches q.value ≡ true
      → is_mounted q.value ≡ false
      → FindsFrom matches rest (some q) result
      → FindsFrom matches (q ∷ rest) part result
  find_unmounted match down (inl (p, e, among, match', at)) = inl (p, e, inr among, match', at)
  find_unmounted match down (inr (off, inl (p, e, among, match'))) =
      inr ((rw (match, down) refl, off), inl (p, e, inr among, match'))
  find_unmounted match down (inr (off, inr (none_match, e))) =
      inr ((rw (match, down) refl, off), inl (q, e, inl refl, match))

module _ (matches : Partition → Bool) (q : PartitionRef) (rest : PartitionList)
    (part : Option PartitionRef) where
  find_mounted-other :
      matches q.value ≡ false
      → find_mounted matches (q ∷ rest) part ≡ find_mounted matches rest part
  unfolding find_mounted
  find_mounted-other other = ground arith

  find_mounted-at :
      matches q.value ≡ true
      → is_mounted q.value ≡ true
      → find_mounted matches (q ∷ rest) part ≡ some q
  unfolding find_mounted
  find_mounted-at match at = rw (match, at) refl

  find_mounted-down :
      matches q.value ≡ true
      → is_mounted q.value ≡ false
      → find_mounted matches (q ∷ rest) part ≡ find_mounted matches rest (some q)
  unfolding find_mounted
  find_mounted-down match down = rw (match, down) refl

find_mounted_from :
    (matches : Partition → Bool) (pl : PartitionList) (part : Option PartitionRef)
    → FindsFrom matches pl part (find_mounted matches pl part)
find_mounted_from matches [] part = inr (tt, inr (tt, unfold find_mounted in refl))
find_mounted_from matches (q ∷ rest) part = elim (Bool-cases (matches q.value)) [
  | inr other ↦
      subst (FindsFrom matches (q ∷ rest) part) (sym (find_mounted-other matches q rest part other))
        (find_other matches q rest part _ other (find_mounted_from matches rest part))
  | inl match ↦ elim (Bool-cases (is_mounted q.value)) [
    | inl at ↦ inl (q, find_mounted-at matches q rest part match at, inl refl, match, at)
    | inr down ↦
        subst (FindsFrom matches (q ∷ rest) part)
          (sym (find_mounted-down matches q rest part match down))
          (find_unmounted matches q rest part _ match down
            (find_mounted_from matches rest (some q)))
  ]
]

Finds-of_none :
    (matches : Partition → Bool) (pl : PartitionList) (result : Option PartitionRef)
    → FindsFrom matches pl none result
    → Finds matches pl result
Finds-of_none matches pl none (inl (p, e, among, match, at)) = cc
Finds-of_none matches pl none (inr (off, inl (p, e, among, match))) = cc
Finds-of_none matches pl none (inr (off, inr (none_match, e))) = none_match
Finds-of_none matches pl (some r) (inl (p, e, among, match, at)) = ground arith
Finds-of_none matches pl (some r) (inr (off, inl (p, e, among, match))) = ground arith
Finds-of_none matches pl (some r) (inr (off, inr (none_match, e))) = cc

abbrev pub has_name : String → Partition → Bool
has_name name p = p.name == name

abbrev pub has_label : String → Partition → Bool
has_label label p = p.filesystem_label == label

get_by_name-Finds :
    (pl : PartitionList) (name : String) → Finds (has_name name) pl (get_by_name pl name)
unfolding get_by_name
get_by_name-Finds pl name =
    Finds-of_none (has_name name) pl _ (find_mounted_from (has_name name) pl none)

get_by_label-Finds :
    (pl : PartitionList) (label : String) → Finds (has_label label) pl (get_by_label pl label)
unfolding get_by_label
get_by_label-Finds pl label =
    Finds-of_none (has_label label) pl _ (find_mounted_from (has_label label) pl none)

-- `GetByNameOrLabel` searches by name and, where no partition has the name, by label; each search gives
-- nil only where nothing matches, and a match that is mounted unless no match is.
pub get_by_name_or_label-Finds :
    (pl : PartitionList) (name label : String)
    → ((get_by_name_or_label pl name label ≢ none)
        × Finds (has_name name) pl (get_by_name_or_label pl name label))
      ⊎ (Finds (has_name name) pl none
          × Finds (has_label label) pl (get_by_name_or_label pl name label))
unfolding get_by_name_or_label
get_by_name_or_label-Finds pl name label = elim (Option-cases (get_by_name pl name)) [
  | inl missing ↦
      rw (missing, get_by_name_or_label)
        (inr (rw missing at (get_by_name-Finds pl name), get_by_label-Finds pl label))
  | inr (p, found) ↦
      rw (found, get_by_name_or_label) (inl ((λ e. cc), rw found at (get_by_name-Finds pl name)))
]
