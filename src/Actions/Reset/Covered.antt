-- ===== src/Actions/Reset/Covered.antt =====
-- The clean-up with jobs in front of the one that closes the transaction as failed.
use mathlib.Core.Path.{subst}
use elemental_toolkit.Base.{
  ◌≡◌, refl, sym, ◌∙◌, ap, Bool, true, Option, none, some, List, [], ◌∷◌, ◌⊎◌, inl, inr, arith,
  Option-cases,
}
use elemental_toolkit.Base.Outcome.{Error, Result, ok, err, panic}
use elemental_toolkit.Base.Proc.{then_do, Ends}
use elemental_toolkit.CleanStack.{CleanJob, CleanStack, CleanFunc, error_only, push, run_by_type}
use elemental_toolkit.CleanStack.Lifo.{IsWellFormed, pending, pushes_refine}
use elemental_toolkit.CleanStack.Cleanup.{
  is_some, run_all, cleanup-run_all, run_all-keeps, run_all-failed, by_type-keeps, by_type-failed,
}
use elemental_toolkit.Snapshotter.{Snapshotter}
use elemental_toolkit.Actions.{ActionState, World, Step, sweep, finish}
use elemental_toolkit.Actions.Phases.{
  Phase, idle, committed, rolled_back, seen, phase, Calm, AreQuiet, AreQuiet-KeepsState,
  Calm-finish, Calm-sweep, finish-IsErr,
}
use elemental_toolkit.Actions.Quiet.{Quiet, Calm-Quiet}
use elemental_toolkit.Actions.Bracket.{
  closing_job, closing-seen, Early, IsArmed, Failed, rest_of_run,
}

module _ {D S : Type 0} (snapper : Snapshotter D) where
  -- Jobs that leave the phase, around the one that closes the transaction as failed.
  abbrev pub AreCovered : List (CleanJob (ActionState (D × Phase) S)) → Type 0
  AreCovered [] = ⊥
  AreCovered (job ∷ jobs) =
      ((job ≡ closing_job snapper) × AreQuiet jobs)
      ⊎ (((u : ActionState (D × Phase) S) → seen (job.clean_func u).1 ≡ seen u) × AreCovered jobs)

  abbrev pub IsCovered : CleanStack (ActionState (D × Phase) S) → Phase × Bool → Type 0
  IsCovered c p = IsWellFormed c × AreCovered (pending c) × (p.1 ≡ true)

  -- A closed transaction, whose job is still on the stack.
  abbrev pub IsDone : CleanStack (ActionState (D × Phase) S) → Phase × Bool → Type 0
  IsDone c p = IsCovered c p × (p.0 ≡ committed)

  abbrev pub Done : World (D × Phase) S → Type 0
  Done s = IsDone s.1 (phase s)

  -- What a failed step leaves.
  abbrev pub Broken : World (D × Phase) S → Type 0
  Broken s = Early snapper s ⊎ IsCovered s.1 (phase s)

  pub Armed-IsCovered :
      (c : CleanStack (ActionState (D × Phase) S)) (p : Phase × Bool)
      → IsArmed snapper c p
      → IsCovered c p
  Armed-IsCovered c p h = (h.0, rw h.1.1 (inl (refl, h.1.2)), h.2)

  pub Failed-Broken : (s : World (D × Phase) S) → Failed snapper s → Broken s
  Failed-Broken s (inl h) = inl h
  Failed-Broken s (inr h) = inr (Armed-IsCovered s.1 (phase s) h)

  pub push-IsDone :
      (c : CleanStack (ActionState (D × Phase) S)) (f : CleanFunc (ActionState (D × Phase) S))
      (p : Phase × Bool)
      → IsDone c p
      → ((u : ActionState (D × Phase) S) → seen (f u).1 ≡ seen u)
      → IsDone (push c f) p
  push-IsDone c f p h k =
      let pushed = (pushes_refine c f h.0.0).0 in
      ((pushed.0, rw pushed.1 (inr (k, h.0.1)), h.0.2), h.1)

  module _ (append : Option Error → Error → Error) where
    -- After an error the job runs.
    covered-failed :
        (jobs : List (CleanJob (ActionState (D × Phase) S))) (e : Error)
        (u : ActionState (D × Phase) S)
        → AreCovered jobs
        → is_some u.snapshot ≡ true
        → seen (run_all append jobs (some e) u).1 ≡ (rolled_back, true)
    covered-failed [] e u h there = absurd h
    covered-failed (job ∷ jobs) e u (inl (same, quiet)) there =
        let first = run_by_type append error_only (closing_job snapper) (some e) u in
        subst (λ j. seen (run_all append (j ∷ jobs) (some e) u).1 ≡ (rolled_back, true)) (sym same)
          (run_all-keeps append (λ u. seen u ≡ (rolled_back, true)) jobs first.0 first.1
            (AreQuiet-KeepsState (rolled_back, true) jobs quiet)
            (closing-seen snapper append e u there))
    covered-failed (job ∷ jobs) e u (inr (quiet, rest)) there =
        let next = run_by_type append job.job_type job (some e) u in
        let left : seen next.1 ≡ seen u =
          by_type-keeps append (λ s. seen s ≡ seen u) job.job_type job (some e) u
            (λ s k. quiet s ∙ k) refl in
        let failed : is_some next.0 ≡ true = by_type-failed append job.job_type job e u in
        elim (Option-cases next.0) [
          | inl f ↦ absurd cc
          | inr (e', f) ↦
              subst (λ x. seen (run_all append jobs x next.1).1 ≡ (rolled_back, true)) (sym f)
                (covered-failed jobs e' next.1 rest (ap (λ p. p.1) left ∙ there))
        ]

    abbrev Swept : Option Error × ActionState (D × Phase) S → Type 0
    Swept (e, u) =
        (seen u ≡ (committed, true)) ⊎ ((is_some e ≡ true) × (seen u ≡ (rolled_back, true)))

    -- Without one, it runs where a job in front of it fails.
    covered-done :
        (jobs : List (CleanJob (ActionState (D × Phase) S))) (u : ActionState (D × Phase) S)
        → AreCovered jobs
        → seen u ≡ (committed, true)
        → Swept (run_all append jobs none u)
    unfolding run_by_type
    covered-done [] u h there = absurd h
    covered-done (job ∷ jobs) u (inl (same, quiet)) there = inl (
        subst (λ j. seen (run_all append (j ∷ jobs) none u).1 ≡ (committed, true)) (sym same)
          (run_all-keeps append (λ u. seen u ≡ (committed, true)) jobs none u
            (AreQuiet-KeepsState (committed, true) jobs quiet) there))
    covered-done (job ∷ jobs) u (inr (quiet, rest)) there =
        let next = run_by_type append job.job_type job none u in
        let left : seen next.1 ≡ (committed, true) =
          by_type-keeps append (λ s. seen s ≡ seen u) job.job_type job none u (λ s k. quiet s ∙ k)
            refl
          ∙ there in
        elim (Option-cases next.0) [
          | inl f ↦
              subst (λ x. Swept (run_all append jobs x next.1)) (sym f)
                (covered-done jobs next.1 rest left)
          | inr (e', f) ↦
              subst (λ x. Swept (run_all append jobs x next.1)) (sym f)
                (inr (
                  run_all-failed append jobs (some e') next.1 refl,
                  covered-failed jobs e' next.1 rest (ap (λ p. p.1) left),
                ))
        ]

    Covered-sweep :
        (e : Error) (s : World (D × Phase) S)
        → IsCovered s.1 (phase s)
        → phase (sweep append (some e) s).1 ≡ (rolled_back, true)
    unfolding sweep
    Covered-sweep e (u, c) h =
        rw (cleanup-run_all append c (some e) u h.0)
          (covered-failed (pending c) (append none e) u h.1 h.2)

    Done-sweep :
        (s : World (D × Phase) S)
        → Done s
        → Calm (committed, true) (sweep append none s).1
          ⊎ ((is_some (sweep append none s).0 ≡ true)
              × Calm (rolled_back, true) (sweep append none s).1)
    unfolding sweep
    Done-sweep (u, c) h =
        rw (cleanup-run_all append c none u h.0.0)
          (elim (covered-done (pending c) u h.0.1 (λ i. (h.1 i, h.0.2 i))) [
            | inl k ↦ inl (omega arith, tt, k)
            | inr (failed, k) ↦ inr (failed, (omega arith, tt, k))
          ])

    -- What a run leaves, by how its work ended.
    abbrev pub Settles : Result (Unit {0}) → Result (Unit {0}) × World (D × Phase) S → Type 0
    Settles (ok done) (r, s) =
        ((phase s).0 ≡ committed) ⊎ (((e : Error) × (r ≡ err e)) × ((phase s).0 ≡ rolled_back))
    Settles (err e) (r, s) =
        ((e' : Error) × (r ≡ err e')) × (((phase s).0 ≡ idle) ⊎ ((phase s).0 ≡ rolled_back))
    Settles panic (r, s) = Unit

    -- The end of a run, by what the clean-up of a closed transaction gives.
    swept-Settles :
        (last : Step (D × Phase) S (Unit {0})) (e : Option Error) (s : World (D × Phase) S)
        → Quiet last
        → Calm (committed, true) s ⊎ ((is_some e ≡ true) × Calm (rolled_back, true) s)
        → Settles (ok tt) (
            finish append (
              then_do
                (λ done. last)
                (
                  elim e as (λ _. Result (Unit {0})) [ none ↦ ok tt | some failure ↦ err failure ],
                  s,
                )))
    swept-Settles last none s quiet (inl h) = inl (
        ap (λ p. p.0)
          (Calm-finish append (committed, true) (last s).0 (last s).1
            (Calm-Quiet (committed, true) last quiet s h)).2)
    swept-Settles last (some e) s quiet (inl h) =
        inl (ap (λ p. p.0) (Calm-finish append (committed, true) (err e) s h).2)
    swept-Settles last none s quiet (inr (f, h)) = absurd cc
    swept-Settles last (some e) s quiet (inr (f, h)) = inr (
      finish-IsErr append e s h.0,
      ap (λ p. p.0) (Calm-finish append (rolled_back, true) (err e) s h).2,
    )

    pub finished-Settles :
        (last : Step (D × Phase) S (Unit {0})) (r : Result (Unit {0})) (s : World (D × Phase) S)
        → Quiet last
        → Ends Broken Done (r, s)
        → Settles r (finish append (then_do (rest_of_run snapper append last) (r, s)))
    finished-Settles last (ok done) s quiet h =
        swept-Settles last (sweep append none s).0 (sweep append none s).1 quiet (Done-sweep s h)
    finished-Settles last (err e) s quiet (inl (b, h)) = (
      finish-IsErr append e s h.0,
      inl (ap (λ p. p.0) (Calm-sweep append (idle, b) (some e) s h).2),
    )
    finished-Settles last (err e) s quiet (inr h) =
        (finish-IsErr append e s h.0, inr (ap (λ p. p.0) (Covered-sweep e s h)))
    finished-Settles last panic s quiet h = tt
