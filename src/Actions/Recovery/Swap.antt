-- ===== src/Actions/Recovery/Swap.antt =====
-- The change of places loses no recovery system.
use elemental_toolkit.Base.{
  String, ◌≡◌, ◌≢◌, refl, sym, ◌∙◌, Bool, true, false, Option, none, some, [], ◌∷◌, ◌==◌, string_eq,
  ==_sound, ==_refl, if◌then◌else◌, Bool-cases, Option-cases, ◌⊎◌, inl, inr,
}
use elemental_toolkit.Base.Outcome.{Error, Result, ok, err, panic}
use elemental_toolkit.System.{Env, Log, renamed, removed, asked}
use elemental_toolkit.CleanStack.Cleanup.{is_some}
use elemental_toolkit.Actions.Recovery.{salvage, move_in, set_aside, swap_boot}

-- What stands at a path after the renames and the removals of a log, from what stood there first.
abbrev pub held : (String → Option String) → Log → String → Option String
held first [] p = first p
held first (renamed a b none ∷ w) p =
    if p == b then held first w a else if p == a then none else held first w p
held first (removed a none ∷ w) p = if p == a then none else held first w p
held first (_ ∷ w) p = held first w p

-- What the change of places leaves: with `new` at the place of the new system and `old` at that of the
-- running one before.
abbrev pub Swapped :
    (first : String → Option String) (boot aside : String) (new old : Option String)
    → Result Bool × Log
    → Type 0
Swapped first boot aside new old (ok true, w) = held first w boot ≡ new
Swapped first boot aside new old (ok false, w) = held first w boot ≡ old
Swapped first boot aside new old (err e, w) =
    (held first w boot ≡ old) ⊎ ((held first w boot ≡ none) × (held first w aside ≡ old))
Swapped first boot aside new old (panic, w) = ⊥

!=_lem : (s t : String) → s ≢ t → (s == t) ≡ false
!=_lem s t h = elim (Bool-cases (s == t)) [ inl e ↦ absurd (h (==_sound s t e)) | inr e ↦ e ]

module _ (env : Env) (first : String → Option String) (transition boot aside : String)
    (looks : (w : Log) (p : String) → env.exists w p ≡ is_some (held first w p))
    (tb : transition ≢ boot) (ta : transition ≢ aside) (ba : boot ≢ aside) where
  salvage-Swapped :
      (w : Log) (e : Error) (new old : Option String)
      → held first w boot ≡ none
      → held first w aside ≡ old
      → Swapped first boot aside new old (salvage env boot aside e w)
  unfolding salvage
  salvage-Swapped w e new old h k = elim (Bool-cases (env.exists w aside)) [
    | inl f ↦ elim (Option-cases (env.rename (asked "exists" aside ∷ w) aside boot)) [
      | inl g ↦ rw (f, g, ==_refl boot) k
      | inr (failure, g) ↦ rw (f, g) (inr (h, k))
    ]
    | inr f ↦ rw f (inr (h, k))
  ]

  moved :
      (w : Log) (e : Option Error)
      → e ≡ none
      → held first (renamed transition boot e ∷ w) boot ≡ held first w transition
  moved w none h = rw (==_refl boot) refl
  moved w (some e) h = cc

  unmoved :
      (w : Log) (e : Option Error) (failure : Error) (p : String)
      → e ≡ some failure
      → held first (renamed transition boot e ∷ w) p ≡ held first w p
  unmoved w none failure p h = cc
  unmoved w (some e) failure p h = refl

  move_in-Swapped :
      (w : Log) (new old : Option String)
      → held first w transition ≡ new
      → held first w boot ≡ none
      → held first w aside ≡ old
      → Swapped first boot aside new old (move_in env transition boot aside w)
  unfolding move_in
  move_in-Swapped w new old t h k = elim (Option-cases (env.rename w transition boot)) [
    | inl e ↦ rw e (moved w (env.rename w transition boot) e ∙ t)
    | inr (failure, e) ↦ rw e (
        salvage-Swapped (renamed transition boot (env.rename w transition boot) ∷ w) failure new old
          (unmoved w (env.rename w transition boot) failure boot e ∙ h)
          (unmoved w (env.rename w transition boot) failure aside e ∙ k))
  ]

  is_some-false : (o : Option String) → is_some o ≡ false → o ≡ none
  is_some-false none h = refl
  is_some-false (some a) h = cc

  -- Where the file system answers for what stands at a path, the three paths differ and nothing stands at
  -- the one for the old system, the change of places does not panic. It goes on only with the new
  -- system in place. If it ends without an error but does not go on, the old system is back in its place, and
  -- after an error the old system is in its place or, with nothing there, at the path for it.
  pub swap_boot-Swapped :
      (w : Log)
      → held first w aside ≡ none
      → Swapped first boot aside
          (held first w transition)
          (held first w boot)
          (swap_boot env transition boot aside w)
  unfolding swap_boot set_aside
  swap_boot-Swapped w free = elim (Bool-cases (env.exists w boot)) [
    | inl e ↦ elim (Option-cases (env.rename (asked "exists" boot ∷ w) boot aside)) [
      | inl f ↦
          rw (e, f)
            (move_in-Swapped (renamed boot aside none ∷ asked "exists" boot ∷ w) _ _
              (rw (!=_lem transition aside ta, !=_lem transition boot tb) refl)
              (rw (!=_lem boot aside ba, ==_refl boot) refl) (rw (==_refl aside) refl))
      | inr (failure, f) ↦ rw (e, f) (inl refl)
    ]
    | inr e ↦
        let empty : held first w boot ≡ none = is_some-false _ (sym (looks w boot) ∙ e) in
        rw e (
          move_in-Swapped (asked "exists" boot ∷ w) (held first w transition) (held first w boot)
            refl empty (free ∙ sym empty))
  ]
