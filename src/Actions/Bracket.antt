-- ===== src/Actions/Bracket.antt =====
-- The transaction in the run of an action, with any snapshotter: the steps around its calls, and what the
-- clean-up makes of it.
use elemental_toolkit.Base.{
  ◌≡◌, refl, ap, Bool, true, false, Option, none, some, List, ◌∷◌, ◌⊎◌, inl, inr, arith,
  Option-cases,
}
use elemental_toolkit.Base.Outcome.{Error, Result, ok, err, panic}
use elemental_toolkit.Base.Proc.{
  or_fail, then_do, then_do_rule, ◌>>◌, Keeps, Keeps-bind, Ends, Ends-Keeps, Ends-then_do,
}
use elemental_toolkit.System.{Log}
use elemental_toolkit.CleanStack.{CleanJob, CleanStack, error_only, run_by_type, run_clean_job}
use elemental_toolkit.CleanStack.Lifo.{IsWellFormed, pending, pushes_refine}
use elemental_toolkit.CleanStack.Cleanup.{is_some, cleanup-run_all, run_all-keeps}
use elemental_toolkit.Snapshotter.{Snapshot, Snapshotter}
use elemental_toolkit.Actions.{ActionState, World, Step, HasPartitions, sweep, finish, follow}
use elemental_toolkit.Actions.Transaction.{
  the_snapshot, closer, start, started, close, closed_with, boot_dir, init, initiated,
}
use elemental_toolkit.Actions.Phases.{
  Phase, idle, committed, rolled_back, begun, ended, seen, phase, watched, Calm, AreQuiet,
  AreQuiet-KeepsState, Calm-finish, Calm-sweep, finish-IsErr,
}
use elemental_toolkit.Actions.Quiet.{
  Quiet, Quiet-the_snapshot, Quiet-boot_dir, Quiet-follow, Keeps-Quiet, Calm-Quiet,
}

module _ {D S : Type 0} (snapper : Snapshotter D) where
  abbrev pub closing_job : CleanJob (ActionState (D × Phase) S)
  closing_job = record { clean_func = closer (watched snapper); job_type = error_only }

  -- The clean-up job of the transaction is the next one, and there is a snapshot.
  abbrev pub IsArmed : CleanStack (ActionState (D × Phase) S) → Phase × Bool → Type 0
  IsArmed c p =
      IsWellFormed c
      × ((rest : List (CleanJob (ActionState (D × Phase) S))) × (pending c ≡ closing_job ∷ rest)
          × AreQuiet rest)
      × (p.1 ≡ true)

  abbrev pub Armed : World (D × Phase) S → Type 0
  Armed s = IsArmed s.1 (phase s)

  abbrev pub IsCommitted : CleanStack (ActionState (D × Phase) S) → Phase × Bool → Type 0
  IsCommitted c p = IsArmed c p × (p.0 ≡ committed)

  abbrev pub Committed : World (D × Phase) S → Type 0
  Committed s = IsCommitted s.1 (phase s)

  -- Before the transaction, with or without a snapshot of an earlier run.
  abbrev pub Early : World (D × Phase) S → Type 0
  Early s = (b : Bool) × Calm (idle, b) s

  -- What a failed step leaves.
  abbrev pub Failed : World (D × Phase) S → Type 0
  Failed s = Early s ⊎ Armed s

  pub start-Ends :
      (s : World (D × Phase) S) → Early s → Ends Failed Armed (start (watched snapper) s)
  unfolding start
  start-Ends (u, c) (b, h) =
      started-Ends (snapper.start_transaction (u.device.0, u.log)).0
        (snapper.start_transaction (u.device.0, u.log)).1.0
        (snapper.start_transaction (u.device.0, u.log)).1.1
    where
      started-Ends :
          (r : Result Snapshot) (d : D) (w : Log)
          → Ends Failed Armed (started (watched snapper) (u, c) (r, ((d, begun r u.device.1), w)))
      started-Ends (ok snapshot) d w =
          let pushed = (pushes_refine c (closer (watched snapper)) h.0).1 in
          (pushed.0, (pending c, pushed.1, h.1), refl)
      started-Ends (err e) d w = inl (false, (h.0, h.1, λ i. ((h.2 i).0, false)))
      started-Ends panic d w = tt

  closed-Ends :
      (u : ActionState (D × Phase) S) (c : CleanStack (ActionState (D × Phase) S))
      (r : Result Snapshot) (d : D) (w : Log)
      → Armed (u, c)
      → Ends Failed Committed
          (closed_with (watched snapper) (u, c) (r, ((d, ended r u.device.1), w)))
  closed-Ends u c (ok snapshot) d w h = ((h.0, h.1, refl), refl)
  closed-Ends u c (err e) d w h = inr h
  closed-Ends u c panic d w h = tt

  -- A quiet step of the transaction.
  pub Ends-Quiet :
      {A : Type 0} (Q : CleanStack (ActionState (D × Phase) S) → Phase × Bool → Type 0)
      (m : Step (D × Phase) S A)
      → Quiet m
      → ((s : World (D × Phase) S) → Q s.1 (phase s) → Failed s)
      → (s : World (D × Phase) S) → Q s.1 (phase s)
      → Ends Failed (λ s. Q s.1 (phase s)) (m s)
  Ends-Quiet Q m k failed s h =
      Ends-Keeps Failed (λ s. Q s.1 (phase s)) (m s).0 (m s).1 (Keeps-Quiet Q m k s h)
        (failed (m s).1)

  pub close-Ends :
      (s : World (D × Phase) S) → Armed s → Ends Failed Committed (close (watched snapper) s)
  unfolding close
  close-Ends s h =
      Ends-then_do Failed Armed Committed _ (the_snapshot s).0 (the_snapshot s).1
        (Ends-Quiet IsArmed the_snapshot Quiet-the_snapshot (λ s h. inr h) s h)
        (λ snapshot (u, c) h.
          let closed = snapper.close_transaction snapshot (u.device.0, u.log) in
          closed-Ends u c closed.0 closed.1.0 closed.1.1 h)

  -- Quiet steps between the start and the close, and behind it.
  pub transaction-Ends :
      (filling after : Step (D × Phase) S (Unit {0}))
      → Quiet filling
      → Quiet after
      → (s : World (D × Phase) S) → Early s
      → Ends Failed Committed
          ((start (watched snapper) >> (filling >> (close (watched snapper) >> after))) s)
  transaction-Ends filling after quiet_filling quiet_after s h =
      Ends-then_do Failed Armed Committed _ (start (watched snapper) s).0
        (start (watched snapper) s).1 (start-Ends s h)
        (λ done s h.
          Ends-then_do Failed Armed Committed _ (filling s).0 (filling s).1
            (Ends-Quiet IsArmed filling quiet_filling (λ s h. inr h) s h)
            (λ done s h.
              Ends-then_do Failed Committed Committed _ (close (watched snapper) s).0
                (close (watched snapper) s).1 (close-Ends s h)
                (λ done s h. Ends-Quiet IsCommitted after quiet_after (λ s h. inr h.0) s h)))

  -- The steps before the transaction.
  pub before-Ends :
      (before : Step (D × Phase) S (Unit {0}))
      → ((p : Phase × Bool) → Keeps (Calm p) before)
      → (s : World (D × Phase) S) → Early s
      → Ends Failed Early (before s)
  before-Ends before calm s (b, h) =
      Ends-Keeps Failed Early (before s).0 (before s).1 (b, calm (idle, b) s h) (λ h. inl h)

  closer-seen :
      (u : ActionState (D × Phase) S)
      → is_some u.snapshot ≡ true
      → seen (closer (watched snapper) u).1 ≡ (rolled_back, true)
  unfolding closer
  closer-seen u h = elim (Option-cases u.snapshot) [
    | inl e ↦ absurd cc
    | inr (snapshot, e) ↦ rw (e, closer) (ap (λ b. (rolled_back, b)) h)
  ]

  module _ (append : Option Error → Error → Error) where
    pub closing-seen :
        (e : Error) (u : ActionState (D × Phase) S)
        → is_some u.snapshot ≡ true
        → seen (run_by_type append error_only closing_job (some e) u).1 ≡ (rolled_back, true)
    unfolding run_by_type run_clean_job
    closing-seen e u h = closer-seen u h

    -- The clean-up of an armed stack after an error closes the transaction as failed.
    pub Armed-sweep :
        (e : Error) (s : World (D × Phase) S)
        → Armed s
        → phase (sweep append (some e) s).1 ≡ (rolled_back, true)
    unfolding sweep
    Armed-sweep e (u, c) h =
        let first = run_by_type append error_only closing_job (some (append none e)) u in
        rw (cleanup-run_all append c (some e) u h.0, h.1.1)
          (run_all-keeps append (λ u. seen u ≡ (rolled_back, true)) h.1.0 first.0 first.1
            (AreQuiet-KeepsState (rolled_back, true) h.1.0 h.1.2)
            (closing-seen (append none e) u h.2))

    -- The clean-up of an armed stack without an error leaves the transaction.
    pub Committed-sweep :
        (s : World (D × Phase) S) → Committed s → Calm (committed, true) (sweep append none s).1
    unfolding sweep run_by_type
    Committed-sweep (u, c) h =
        rw (cleanup-run_all append c none u h.0.0, h.0.1.1)
          (
            omega arith,
            tt,
            run_all-keeps append (λ u. seen u ≡ (committed, true)) h.0.1.0 none u
                (AreQuiet-KeepsState (committed, true) h.0.1.0 h.0.1.2) (λ i. (h.1 i, h.0.2 i)),
          )

    -- What a run leaves, by how its work ended.
    abbrev pub Closes : Result (Unit {0}) → Result (Unit {0}) × World (D × Phase) S → Type 0
    Closes (ok done) (r, s) = (phase s).0 ≡ committed
    Closes (err e) (r, s) =
        ((e' : Error) × (r ≡ err e')) × (((phase s).0 ≡ idle) ⊎ ((phase s).0 ≡ rolled_back))
    Closes panic (r, s) = Unit

    -- The rest of the body: the clean-up, and the last steps.
    abbrev pub rest_of_run :
        Step (D × Phase) S (Unit {0}) → Unit {0} → Step (D × Phase) S (Unit {0})
    rest_of_run last done = or_fail (sweep append none) >> last

    pub finished-Closes :
        (last : Step (D × Phase) S (Unit {0})) (r : Result (Unit {0})) (s : World (D × Phase) S)
        → Quiet last
        → Ends Failed Committed (r, s)
        → Closes r (finish append (then_do (rest_of_run last) (r, s)))
    finished-Closes last (ok done) s quiet h =
        let swept_stack = or_fail (sweep append none) s in
        let calm =
          then_do_rule (Calm (committed, true)) (λ done. last) swept_stack.0 swept_stack.1
            (Committed-sweep s h)
            (λ done. Calm-Quiet (committed, true) last quiet swept_stack.1 (Committed-sweep s h)) in
        ap (λ p. p.0)
          (Calm-finish append (committed, true) (rest_of_run last done s).0
            (rest_of_run last done s).1 calm).2
    finished-Closes last (err e) s quiet (inl (b, h)) = (
      finish-IsErr append e s h.0,
      inl (ap (λ p. p.0) (Calm-sweep append (idle, b) (some e) s h).2),
    )
    finished-Closes last (err e) s quiet (inr h) =
        (finish-IsErr append e s h.0, inr (ap (λ p. p.0) (Armed-sweep e s h)))
    finished-Closes last panic s quiet h = tt

module _ {D S : Type 0} ⦃i : HasPartitions S⦄ (snapper : Snapshotter D) where
  pub Calm-init : (p : Phase × Bool) → Keeps (Calm {D = D} {S = S} p) (init (watched snapper))
  unfolding init initiated
  Calm-init p = Keeps-bind (Calm p) boot_dir _ (Calm-Quiet p boot_dir Quiet-boot_dir) (λ boot.
      Keeps-bind (Calm p) (λ (u, c). follow (i.partitions_of u.spec).state (u, c)) _
        (λ (u, c) h.
          Calm-Quiet p (follow (i.partitions_of u.spec).state)
            (Quiet-follow (i.partitions_of u.spec).state) (u, c) h)
        (λ state (u, c) h. h))
