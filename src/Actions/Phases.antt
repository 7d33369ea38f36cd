-- ===== src/Actions/Phases.antt =====
-- A snapshotter whose transaction is watched, and the steps of an action that leave its phase.
use elemental_toolkit.Base.{
  ◌≡◌, refl, ◌∙◌, Bool, Option, none, some, List, [], ◌∷◌, All, arith, inl, inr, Option-cases,
}
use elemental_toolkit.Base.Outcome.{Error, Result, ok, err, panic}
use elemental_toolkit.Base.Proc.{Proc, Keeps}
use elemental_toolkit.System.{Env, Log, Act}
use elemental_toolkit.CleanStack.{CleanJob, CleanFunc, CleanStack, push, new_clean_stack}
use elemental_toolkit.CleanStack.Lifo.{IsWellFormed, pending, pushes_refine}
use elemental_toolkit.CleanStack.Cleanup.{
  is_some, KeepsState, given, run_all, cleanup-run_all, run_all-keeps, run_all-failed,
}
use elemental_toolkit.Partitions.{PartitionRef, ElementalPartitions}
use elemental_toolkit.Elemental.{mount_rw_pointer}
use elemental_toolkit.Snapshotter.{Snapshotter}
use elemental_toolkit.Actions.{
  ActionState, World, Step, mounted, mount_rw, sweep, finish, run_with_cleanup, log_job,
  HasPartitions,
}

-- No transaction yet, an open one, a closed one, one that was closed as failed.
pub data Phase : Type 0 where
  idle under_way committed rolled_back : Phase

abbrev pub begun : {A : Type 0} → Result A → Phase → Phase
begun (ok a) p = under_way
begun (err e) p = p
begun panic p = p

abbrev pub ended : {A : Type 0} → Result A → Phase → Phase
ended (ok a) p = committed
ended (err e) p = p
ended panic p = p

module _ {D : Type 0} where
  abbrev pub watch :
      {A : Type 0} → (Result A → Phase → Phase) → Proc (D × Log) A → Proc ((D × Phase) × Log) A
  watch next m ((d, p), w) = let (r, (d', w')) = m (d, w) in (r, ((d', next r p), w'))

  -- The snapshotter beside the phase of its transaction.
  abbrev pub watched : Snapshotter D → Snapshotter (D × Phase)
  watched s = record {
    init_snapshotter = λ efi (part, ((d, p), w)).
        let (r, (part', (d', w'))) = s.init_snapshotter efi (part, (d, w)) in
        (r, (part', ((d', p), w')));
    start_transaction = watch begun s.start_transaction;
    close_transaction = λ snapshot. watch ended (s.close_transaction snapshot);
    close_transaction_on_error = λ snapshot ((d, p), w).
        let (e, (d', w')) = s.close_transaction_on_error snapshot (d, w) in
        (e, ((d', rolled_back), w'));
    get_snapshots = watch (λ r p. p) s.get_snapshots;
    snapshot_to_image_source = λ snapshot. watch (λ r p. p) (s.snapshot_to_image_source snapshot);
  }

module _ {D S : Type 0} where
  -- The phase, and whether there is a snapshot.
  abbrev pub seen : ActionState (D × Phase) S → Phase × Bool
  seen u = (u.device.1, is_some u.snapshot)

  abbrev pub phase : World (D × Phase) S → Phase × Bool
  phase (u, c) = seen u

  -- Jobs that leave the phase, whichever it is.
  abbrev pub AreQuiet : List (CleanJob (ActionState (D × Phase) S)) → Type 0
  AreQuiet = All (λ job. (u : ActionState (D × Phase) S) → seen (job.clean_func u).1 ≡ seen u)

  -- A stack of such jobs alone, in a given phase.
  abbrev pub Calm : Phase × Bool → World (D × Phase) S → Type 0
  Calm p (u, c) = IsWellFormed c × AreQuiet (pending c) × (seen u ≡ p)

  -- A step that leaves the stack and the phase.
  abbrev pub Steady : World (D × Phase) S → World (D × Phase) S → Type 0
  Steady s s' = (s'.1 ≡ s.1) × (phase s' ≡ phase s)

  pub Calm-push :
      (p : Phase × Bool) (u : ActionState (D × Phase) S)
      (c : CleanStack (ActionState (D × Phase) S)) (f : CleanFunc (ActionState (D × Phase) S))
      → Calm p (u, c)
      → ((u : ActionState (D × Phase) S) → seen (f u).1 ≡ seen u)
      → Calm p (u, push c f)
  Calm-push p u c f h k =
      let pushed = (pushes_refine c f h.0).0 in (pushed.0, rw pushed.1 (k, h.1), h.2)

  pub AreQuiet-KeepsState :
      (p : Phase × Bool) (jobs : List (CleanJob (ActionState (D × Phase) S)))
      → AreQuiet jobs
      → All (KeepsState (λ u. seen u ≡ p)) jobs
  AreQuiet-KeepsState p [] h = tt
  AreQuiet-KeepsState p (job ∷ jobs) h = (λ u e. h.0 u ∙ e, AreQuiet-KeepsState p jobs h.1)

  module _ (append : Option Error → Error → Error) where
    -- The jobs keep what each of them keeps.
    pub Calm-sweep :
        (p : Phase × Bool) (e : Option Error) (s : World (D × Phase) S)
        → Calm p s
        → Calm p (sweep append e s).1
    unfolding sweep
    Calm-sweep p e (u, c) h = rw (cleanup-run_all append c e u h.0) (
      omega arith,
      tt,
      run_all-keeps append (λ u. seen u ≡ p) (pending c) (given append e) u
          (AreQuiet-KeepsState p (pending c) h.1) h.2,
    )

    pub Calm-finish :
        (p : Phase × Bool) (r : Result (Unit {0})) (s : World (D × Phase) S)
        → Calm p s
        → Calm p (finish append (r, s)).1
    Calm-finish p (ok done) s h = Calm-sweep p none s h
    Calm-finish p (err e) s h = Calm-sweep p (some e) s h
    Calm-finish p panic s h = Calm-sweep p none s h

    -- An error is not lost in the clean-up.
    pub finish-IsErr :
        (e : Error) (s : World (D × Phase) S)
        → IsWellFormed s.1
        → (e' : Error) × ((finish append (err e, s)).0 ≡ err e')
    unfolding sweep
    finish-IsErr e (u, c) h =
        rw (cleanup-run_all append c (some e) u h, finish)
          (elim (Option-cases (run_all append (pending c) (given append (some e)) u).0) [
            | inl f ↦
                let failed = run_all-failed append (pending c) (given append (some e)) u refl in
                absurd cc
            | inr (e', f) ↦ (e', rw f refl)
          ])

  -- Another run of an action in the middle of one, with a stack of its own.
  pub Calm-run_with_cleanup :
      (append : Option Error → Error → Error) (body : Step (D × Phase) S (Unit {0}))
      (p : Phase × Bool)
      → Keeps (Calm p) body
      → (u : ActionState (D × Phase) S) → seen u ≡ p
      → Calm p (run_with_cleanup append body u).1
  unfolding run_with_cleanup new_clean_stack
  Calm-run_with_cleanup append body p k u h =
      let r = body (u, new_clean_stack) in
      Calm-finish append p r.0 r.1 (k (u, new_clean_stack) (omega arith, tt, h))

module _ {D S : Type 0} ⦃i : HasPartitions S⦄ where
  -- What depends on the stack and the phase, and holds behind the push of a job that leaves the phase,
  -- holds behind the mount of a partition.
  pub Keeps-mount_rw :
      (Q : CleanStack (ActionState (D × Phase) S) → Phase × Bool → Type 0)
      → ((c : CleanStack (ActionState (D × Phase) S)) (f : CleanFunc (ActionState (D × Phase) S))
            (p : Phase × Bool)
          → Q c p
          → ((u : ActionState (D × Phase) S) → seen (f u).1 ≡ seen u)
          → Q (push c f) p)
      → (env : Env) (get : ElementalPartitions → Option PartitionRef)
        (put : ElementalPartitions → Option PartitionRef → ElementalPartitions)
      → Keeps (λ s. Q s.1 (phase s)) (mount_rw {D = D × Phase} {S = S} env get put)
  unfolding mount_rw
  Keeps-mount_rw Q pushed env get put (u, c) h =
      mounted-Q (mount_rw_pointer env (get (i.partitions_of u.spec)) u.log).0
        (mount_rw_pointer env (get (i.partitions_of u.spec)) u.log).1
    where
      mounted-Q :
          (r : Result (Act (Option Error) × Option PartitionRef)) (w : Log)
          → Q (mounted put (u, c) (r, w)).1.1 (phase (mounted put (u, c) (r, w)).1)
      mounted-Q (ok (umount, q)) w = pushed c (log_job umount) (seen u) h (λ u. refl)
      mounted-Q (err e) w = h
      mounted-Q panic w = h

  pub Calm-mount_rw :
      (p : Phase × Bool) (env : Env) (get : ElementalPartitions → Option PartitionRef)
      (put : ElementalPartitions → Option PartitionRef → ElementalPartitions)
      → Keeps (Calm {D = D} {S = S} p) (mount_rw env get put)
  Calm-mount_rw p =
      Keeps-mount_rw (λ c q. IsWellFormed c × AreQuiet (pending c) × (q ≡ p))
        (λ c f q h k.
          let pushed = (pushes_refine c f h.0).0 in (pushed.0, rw pushed.1 (k, h.1), h.2))
