-- ===== src/Base/Order.antt =====
-- The order of Go's strings, which compares bytes, and sorting.
use Prim.Native.Nat.{Ordering}
use Prim.Native.String.{String, compare, ◌++◌ as ◌<>◌}
use Prim.Native.String.append
use Prim.Native.String.compare
use Prim.Native.Char.{Char, code}
use mathlib.Core.Path.{◌≡◌, ap, ◌∙◌}
use mathlib.Core.Logic.{inl, inr}
use mathlib.Core.Bool.{Bool, true, false}
use mathlib.Core.List.{List, [], ◌∷◌, Perm}
use mathlib.Core.List.Perm
use native.Mathlib.Omega.{arith}
use elemental_toolkit.Base.Tests.{ltb, leb, if◌then◌else◌, Bool-cases}
use elemental_toolkit.Base.Lists.{All}

abbrev pub not_gt : Ordering → Bool
not_gt Ordering.gt = false
not_gt _ = true

-- Go's `<=` on strings.
abbrev pub le_string : String → String → Bool
le_string s t = not_gt (compare s t)

le_string-cons :
    (c d : Char) (s t : String)
    → le_string (String.◌∷◌ c s) (String.◌∷◌ d t) ≡ (
        if ltb (code c) (code d)
        then true
        else if leb (code c) (code d)
        then le_string s t
        else false)
le_string-cons c d s t = ap not_gt (compare.cons-cons c d s t) ∙ ground arith

nil-le_string : (t : String) → le_string "" t ≡ true
nil-le_string String.[] = ap not_gt compare.nil-nil
nil-le_string (String.◌∷◌ d t) = ap not_gt (compare.nil-cons d t)

cons-le_string-nil : (c : Char) (s : String) → le_string (String.◌∷◌ c s) "" ≡ false
cons-le_string-nil c s = ap not_gt (compare.cons-nil c s)

pub le_string_total : (s t : String) → le_string s t ≡ false → le_string t s ≡ true
le_string_total String.[] t h = cc (nil-le_string t)
le_string_total (String.◌∷◌ c s) String.[] h = nil-le_string _
le_string_total (String.◌∷◌ c s) (String.◌∷◌ d t) h =
    ground (arith, le_string-cons c d s t, le_string-cons d c t s, le_string_total s t)

pub le_string_trans :
    (s t u : String) → le_string s t ≡ true → le_string t u ≡ true → le_string s u ≡ true
le_string_trans String.[] t u h k = nil-le_string u
le_string_trans (String.◌∷◌ c s) String.[] u h k = cc (cons-le_string-nil c s)
le_string_trans (String.◌∷◌ c s) (String.◌∷◌ d t) String.[] h k = cc (cons-le_string-nil d t)
le_string_trans (String.◌∷◌ c s) (String.◌∷◌ d t) (String.◌∷◌ e u) h k = ground (
  arith,
  le_string-cons c d s t,
  le_string-cons d e t u,
  le_string-cons c e s u,
  le_string_trans s t u,
)

-- A text comes before those that it begins.
pub le_string-append : (s t : String) → le_string s (s <> t) ≡ true
le_string-append String.[] t = nil-le_string _
le_string-append (String.◌∷◌ c s) t =
    rw append.cons (ground (arith, le_string-cons c c s (s <> t), le_string-append s t))

-- Insertion sort by an order. What `sort.Strings` returns is the sorted list, which does not depend
-- on the algorithm.
unfoldable pub insert_by {ℓ} : {A : Type ℓ} → (A → A → Bool) → A → List A → List A
insert_by le a [] = a ∷ []
insert_by le a (b ∷ rest) = if le a b then a ∷ b ∷ rest else b ∷ insert_by le a rest

unfoldable pub sort_by {ℓ} : {A : Type ℓ} → (A → A → Bool) → List A → List A
unfolding insert_by
sort_by le [] = []
sort_by le (a ∷ rest) = insert_by le a (sort_by le rest)

module _ {ℓ} {A : Type ℓ} (le : A → A → Bool) where
  -- Each element comes, in the order, before all that stand behind it.
  abbrev pub IsSorted : List A → Type 0
  IsSorted [] = Unit
  IsSorted (a ∷ rest) = All (λ b. le a b ≡ true) rest × IsSorted rest

  insert_by-perm : (a : A) (l : List A) → Perm (insert_by le a l) (a ∷ l)
  unfolding insert_by
  insert_by-perm a [] = Perm.refl _
  insert_by-perm a (b ∷ rest) = elim (Bool-cases (le a b)) [
    | inl h ↦ rw h (Perm.refl _)
    | inr h ↦ rw h (Perm.trans (Perm.cons b (insert_by-perm a rest)) (Perm.swap a b rest))
  ]

  pub sort_by-perm : (l : List A) → Perm (sort_by le l) l
  unfolding sort_by
  sort_by-perm [] = Perm.refl []
  sort_by-perm (a ∷ rest) =
      Perm.trans (insert_by-perm a (sort_by le rest)) (Perm.cons a (sort_by-perm rest))

  All-insert_by {κ} :
      (P : A → Type κ) (a : A) (l : List A) → P a → All P l → All P (insert_by le a l)
  unfolding insert_by
  All-insert_by P a [] h k = (h, tt)
  All-insert_by P a (b ∷ rest) h k = elim (Bool-cases (le a b)) [
    | inl e ↦ rw e (h, k)
    | inr e ↦ rw e (k.0, All-insert_by P a rest h k.1)
  ]

  pub All-sort_by {κ} : (P : A → Type κ) (l : List A) → All P l → All P (sort_by le l)
  unfolding sort_by
  All-sort_by P [] h = tt
  All-sort_by P (a ∷ rest) h = All-insert_by P a (sort_by le rest) h.0 (All-sort_by P rest h.1)

  module _ (total : (a b : A) → le a b ≡ false → le b a ≡ true)
      (transitive : (a b c : A) → le a b ≡ true → le b c ≡ true → le a c ≡ true) where
    All-trans :
        (a b : A) (l : List A)
        → le a b ≡ true
        → All (λ c. le b c ≡ true) l
        → All (λ c. le a c ≡ true) l
    All-trans a b [] h k = tt
    All-trans a b (c ∷ l) h k = (transitive a b c h k.0, All-trans a b l h k.1)

    insert_by-IsSorted : (a : A) (l : List A) → IsSorted l → IsSorted (insert_by le a l)
    unfolding insert_by
    insert_by-IsSorted a [] s = (tt, tt)
    insert_by-IsSorted a (b ∷ rest) s = elim (Bool-cases (le a b)) [
      | inl e ↦ rw e ((e, All-trans a b rest e s.0), s)
      | inr e ↦ rw e (
        All-insert_by (λ c. le b c ≡ true) a rest (total a b e) s.0,
        insert_by-IsSorted a rest s.1,
      )
    ]

    pub sort_by-IsSorted : (l : List A) → IsSorted (sort_by le l)
    unfolding sort_by
    sort_by-IsSorted [] = tt
    sort_by-IsSorted (a ∷ rest) = insert_by-IsSorted a (sort_by le rest) (sort_by-IsSorted rest)
