-- ===== src/Snapshotter/Snapper/Listing.antt =====
-- What `ListSnapshots` of the snapper backend gives.
use elemental_toolkit.Base.{
  ℕ, zero, suc, ◌<◌, String, ◌≡◌, refl, ◌⊎◌, inl, inr, Bool, true, false, Option, none, some, List,
  [], ◌∷◌, ◌++◌, All, All-append, nat_eq, string_eq, arith, ==_refl, Option-cases,
}
use elemental_toolkit.Base.Text.{trim_space, split_lines, strip_prefix}
use elemental_toolkit.Base.Outcome.{Error, Result, ok, err, panic}
use elemental_toolkit.System.{Env, Log}
use elemental_toolkit.Snapshotter.LoopDevice.{is_listed}
use elemental_toolkit.Snapshotter.Snapper.{
  SnapperBackend, add_entry, add_entries, parse_entry, root_args, listed_in, list_with_snapper,
}

-- Identifiers above 0, of which the active one, where there is one, is one.
abbrev pub AreListed : List ℕ × ℕ → Type 0
AreListed (ids, active) = All (λ id. 0 < id) ids × ((active ≡ 0) ⊎ (is_listed active ids ≡ true))

is_listed-append :
    (a id : ℕ) (ids : List ℕ) → is_listed a ids ≡ true → is_listed a (ids ++ (id ∷ [])) ≡ true
unfolding is_listed
is_listed-append a id [] h = absurd cc
is_listed-append a id (i ∷ ids) h = ground (arith, is_listed-append a id ids)

is_listed_last : (id : ℕ) (ids : List ℕ) → is_listed id (ids ++ (id ∷ [])) ≡ true
unfolding is_listed
is_listed_last id [] = ground (arith, ==_refl id)
is_listed_last id (i ∷ ids) = ground (arith, is_listed_last id ids)

add_entry-AreListed :
    (entry : Option (ℕ × Bool)) (found : List ℕ × ℕ)
    → AreListed found
    → AreListed (add_entry entry found)
add_entry-AreListed none found h = h
add_entry-AreListed (some (zero, flag)) found h = h
add_entry-AreListed (some (suc id, true)) (ids, active) h = (
  All-append (λ id. 0 < id) ids (suc id ∷ []) h.0 (omega arith, tt),
  inr (is_listed_last (suc id) ids),
)
add_entry-AreListed (some (suc id, false)) (ids, active) h = (
  All-append (λ id. 0 < id) ids (suc id ∷ []) h.0 (omega arith, tt),
  elim h.1 [ inl e ↦ inl e | inr e ↦ inr (is_listed-append active (suc id) ids e) ],
)

add_entries-AreListed :
    (lines : List String) (found : List ℕ × ℕ)
    → AreListed found
    → AreListed (add_entries lines found)
unfolding add_entries
add_entries-AreListed [] found h = h
add_entries-AreListed (line ∷ rest) found h =
    let entry = parse_entry (trim_space line) in
    add_entries-AreListed rest (add_entry entry found) (add_entry-AreListed entry found h)

-- What a call of `ListSnapshots` gives: a list as above, or the error of snapper.
abbrev pub Lists : Option Error → Result (List ℕ × ℕ) → Type 0
Lists e (ok found) = AreListed found
Lists e (err failure) = e ≡ some failure
Lists e panic = ⊥

all-AreListed : (out : String) → AreListed (add_entries (split_lines (trim_space out)) ([], 0))
all-AreListed out = add_entries-AreListed (split_lines (trim_space out)) ([], 0) (tt, inl refl)

listed_in-Lists :
    (env : Env) (s : SnapperBackend) (out : String) (e : Option Error)
    → Lists e (listed_in env out e)
listed_in-Lists env s out none = all-AreListed out
listed_in-Lists env s out (some e) = elim (Option-cases (strip_prefix "fsetfilecon on" out)) [
  | inl f ↦ rw (f, Lists) refl
  | inr (rest, f) ↦ rw (f, Lists) (all-AreListed out)
]

-- `ListSnapshots` of the snapper backend, whatever snapper prints: the identifiers that it lists are above
-- 0, the active one is one of them or 0, and the only error is that of the command. It does not panic.
pub list_with_snapper-Lists :
    (env : Env) (s : SnapperBackend) (root : String) (w : Log)
    → Lists
        (env.run w "snapper" (
          root_args s root ++ ("--csvout" ∷ "list" ∷ "--columns" ∷ "number,default,active" ∷ []))).1
        (list_with_snapper env s root w).0
unfolding list_with_snapper
list_with_snapper-Lists env s root w =
    let args =
      root_args s root ++ ("--csvout" ∷ "list" ∷ "--columns" ∷ "number,default,active" ∷ []) in
    let answer = env.run w "snapper" args in listed_in-Lists env s answer.0 answer.1
