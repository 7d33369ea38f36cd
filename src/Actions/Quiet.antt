-- ===== src/Actions/Quiet.antt =====
-- The steps of an action outside the transaction's own calls leave its phase and the clean-up stack.
use elemental_toolkit.Base.{◌≡◌, refl, Bool, true, false, Option, none, some, if◌then◌else◌}
use elemental_toolkit.Base.Outcome.{Error, Result, ok, err, panic}
use elemental_toolkit.Base.Proc.{Proc, pure, or_fail, ignored, dropped, ◌>>=◌, Keeps, Keeps-bind}
use elemental_toolkit.System.{Log, Act}
use elemental_toolkit.CleanStack.{CleanStack}
use elemental_toolkit.CleanStack.Lifo.{IsWellFormed, pending}
use elemental_toolkit.Partitions.{PartitionRef}
use elemental_toolkit.Actions.{
  ActionState, World, Step, on_log, on_device, mount_point_of, follow, HasPartitions,
}
use elemental_toolkit.Actions.Transaction.{the_snapshot, boot_dir}
use elemental_toolkit.Actions.Phases.{Phase, watch, Steady, phase, Calm, AreQuiet}

module _ {D S : Type 0} where
  -- A step that leaves the stack and the phase.
  abbrev pub Quiet : {A : Type 0} → Step (D × Phase) S A → Type 0
  Quiet m = (s₀ : World (D × Phase) S) → Keeps (Steady s₀) m

  pub Quiet-bind :
      {A B : Type 0} (m : Step (D × Phase) S A) (next : A → Step (D × Phase) S B)
      → Quiet m
      → ((a : A) → Quiet (next a))
      → Quiet (m >>= next)
  Quiet-bind m next h k s₀ = Keeps-bind (Steady s₀) m next (h s₀) (λ a. k a s₀)

  pub Quiet-if :
      {A : Type 0} (b : Bool) (m n : Step (D × Phase) S A)
      → Quiet m
      → Quiet n
      → Quiet (if b then m else n)
  Quiet-if true m n h k = h
  Quiet-if false m n h k = k

  pub Quiet-pure : {A : Type 0} (a : A) → Quiet (pure a)
  Quiet-pure a s₀ s h = h

  pub Quiet-log : (f : Act (Option Error)) → Quiet (or_fail (on_log f))
  Quiet-log f s₀ (u, c) h = h

  pub Quiet-device : {A : Type 0} (m : Proc (D × Log) A) → Quiet (on_device (watch (λ r p. p) m))
  Quiet-device m s₀ (u, c) h = h

  pub Quiet-follow : {A : Type 0} (o : Option A) → Quiet (follow o)
  Quiet-follow none s₀ s h = h
  Quiet-follow (some a) s₀ s h = h

  dropped-leaves : {A : Type 0} (r : Result A) (s : World (D × Phase) S) → (dropped (r, s)).1 ≡ s
  dropped-leaves (ok a) s = refl
  dropped-leaves (err e) s = refl
  dropped-leaves panic s = refl

  pub Quiet-ignored : {A : Type 0} (m : Step (D × Phase) S A) → Quiet m → Quiet (ignored m)
  Quiet-ignored m k s₀ s h = rw (dropped-leaves (m s).0 (m s).1) (k s₀ s h)

  pub Quiet-the_snapshot : Quiet the_snapshot
  unfolding the_snapshot
  Quiet-the_snapshot s₀ (u, c) h = Quiet-follow u.snapshot s₀ (u, c) h

  pub Quiet-mount_point_of : (p : Option PartitionRef) → Quiet (mount_point_of p)
  unfolding mount_point_of
  Quiet-mount_point_of none s₀ s h = h
  Quiet-mount_point_of (some p) s₀ s h = h

  -- What depends on the stack and the phase alone.
  pub Keeps-Quiet :
      {A : Type 0} (Q : CleanStack (ActionState (D × Phase) S) → Phase × Bool → Type 0)
      (m : Step (D × Phase) S A)
      → Quiet m
      → Keeps (λ s. Q s.1 (phase s)) m
  Keeps-Quiet Q m k s h = let (stack, same) = k s s (refl, refl) in rw (stack, same) h

  pub Calm-Quiet :
      {A : Type 0} (p : Phase × Bool) (m : Step (D × Phase) S A) → Quiet m → Keeps (Calm p) m
  Calm-Quiet p m k s h =
      Keeps-Quiet (λ c q. IsWellFormed c × AreQuiet (pending c) × (q ≡ p)) m k s h

module _ {D S : Type 0} ⦃i : HasPartitions S⦄ where
  pub Quiet-boot_dir : Quiet {D = D} {S = S} boot_dir
  unfolding boot_dir
  Quiet-boot_dir s₀ (u, c) h = Quiet-mount_point_of (i.partitions_of u.spec).boot s₀ (u, c) h
