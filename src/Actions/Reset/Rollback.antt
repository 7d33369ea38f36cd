-- ===== src/Actions/Reset/Rollback.antt =====
-- `ResetAction.Run`, with any snapshotter: what it leaves of the transaction.
use elemental_toolkit.Base.{◌≡◌, Bool, true, false, Option, none, some, [], inr, arith}
use elemental_toolkit.Base.Outcome.{Result, ok, err, panic}
use elemental_toolkit.Base.Proc.{or_fail, ◌>>◌, Keeps, Keeps-bind, Ends, Ends-Keeps, Ends-then_do}
use elemental_toolkit.CleanStack.{new_clean_stack}
use elemental_toolkit.CleanStack.Cleanup.{is_some}
use elemental_toolkit.Partitions.{PartitionRef}
use elemental_toolkit.Specs.{ResetSpec}
use elemental_toolkit.InstallState.{InstallState}
use elemental_toolkit.Elemental.Layout.{format_partition}
use elemental_toolkit.Actions.{
  ActionState, World, on_log, follow, mount_point_of, run_with_cleanup, power_action,
  reset_partitions,
}
use elemental_toolkit.Actions.Transaction.{the_snapshot, init, start, close}
use elemental_toolkit.Actions.Phases.{Phase, idle, watched, phase, Calm, Keeps-mount_rw}
use elemental_toolkit.Actions.Quiet.{
  Quiet, Quiet-bind, Quiet-log, Quiet-follow, Quiet-the_snapshot, Quiet-mount_point_of, Calm-Quiet,
  Keeps-Quiet,
}
use elemental_toolkit.Actions.Bracket.{
  Early, Failed, Armed, Committed, IsArmed, Calm-init, before-Ends, start-Ends, close-Ends,
  Ends-Quiet,
}
use elemental_toolkit.Actions.Upgrade.{Setting}
use elemental_toolkit.Actions.Upgrade.Recording.{watching}
use elemental_toolkit.Actions.Deployment.{
  Tools, mount_system, stage_hook, deploy_system, reset_system,
}
use elemental_toolkit.Actions.Deployment.Steady.{
  Quiet-stage_hook, Calm-mount_system, Quiet-deploy_system, Quiet-refine_system,
}
use elemental_toolkit.Actions.Reset.{
  stages, but_recovery, unmount_first, format, format_if, format_all, prepare, grub_labels,
  the_source, write_both, described, state_if_both, new_record, mount_recovery,
  update_install_state,
}
use elemental_toolkit.Actions.Reset.Covered.{
  IsDone, Done, Broken, Armed-IsCovered, Failed-Broken, push-IsDone, Settles, finished-Settles,
}
use elemental_toolkit.Actions.Reset.Run.{fill, conclude, work, reset_body, run_reset}

module _ {D : Type 0} (t : Setting D) (tools : Tools) where
  format-Quiet : (p : PartitionRef) → Quiet {D = D} {S = ResetSpec} (format (watching t) p)
  format-Quiet p = Quiet-log (format_partition t.env p.value [])

  format_if-Quiet : (b : Bool) (p : Option PartitionRef) → Quiet (format_if (watching t) b p)
  format_if-Quiet false p s₀ s h = h
  format_if-Quiet true none s₀ s h = h
  format_if-Quiet true (some p) s₀ s h = format-Quiet p s₀ s h

  format_all-Quiet : Quiet (format_all (watching t))
  unfolding format_all
  format_all-Quiet =
      Quiet-bind (λ (u, c). follow u.spec.partitions.state (u, c)) _
        (λ s₀ (u, c) h. Quiet-follow u.spec.partitions.state s₀ (u, c) h)
        (λ state. Quiet-bind (format (watching t) state) _ (format-Quiet state) (λ done.
          Quiet-bind
            (λ (u, c).
              format_if (watching t) u.spec.format_persistent u.spec.partitions.persistent (u, c))
            (λ done (u, c). format_if (watching t) u.spec.format_oem u.spec.partitions.oem (u, c))
            (λ s₀ (u, c) h.
              format_if-Quiet u.spec.format_persistent u.spec.partitions.persistent s₀ (u, c) h)
            (λ done s₀ (u, c) h.
              format_if-Quiet u.spec.format_oem u.spec.partitions.oem s₀ (u, c) h)))

  prepare-Calm : (p : Phase × Bool) → Keeps (Calm p) (prepare (watching t))
  unfolding prepare unmount_first
  prepare-Calm p =
      Keeps-bind (Calm p) (unmount_first (watching t)) _ (λ (u, c) h. h)
        (λ done.
          Keeps-bind (Calm p) (format_all (watching t)) _
            (Calm-Quiet p (format_all (watching t)) format_all-Quiet)
            (λ done.
              Keeps-bind (Calm p) (mount_system (watching t) but_recovery) _
                (Calm-mount_system (watching t) p but_recovery)
                (λ done.
                  Keeps-bind (Calm p) (init (watched t.snapper)) _ (Calm-init t.snapper p) (λ done.
                    Calm-Quiet p (stage_hook (watching t) stages "before-reset")
                      (Quiet-stage_hook (watching t) stages "before-reset")))))

  Quiet-fill : Quiet (fill (watching t) tools)
  unfolding fill grub_labels
  Quiet-fill = Quiet-bind (deploy_system (watching t)) _ (Quiet-deploy_system (watching t)) (λ done.
      Quiet-refine_system (watching t) tools stages (grub_labels (watching t)) (λ s₀ (u, c) h. h))

  Quiet-the_source : Quiet (the_source (watching t))
  unfolding the_source
  Quiet-the_source =
      Quiet-bind (λ (u, c). follow u.spec.system (u, c)) _
        (λ s₀ (u, c) h. Quiet-follow u.spec.system s₀ (u, c) h) (λ system s₀ (u, c) h. h)

  described-Quiet : (state : PartitionRef) → Quiet (described (watching t) state)
  unfolding described
  described-Quiet state = Quiet-bind the_snapshot _ Quiet-the_snapshot (λ snapshot.
      Quiet-bind (the_source (watching t)) _ Quiet-the_source (λ source s₀ (u, c) h. h))

  state_if_both-Quiet :
      (state recovery : Option PartitionRef) → Quiet (state_if_both (watching t) state recovery)
  state_if_both-Quiet none recovery s₀ s h = h
  state_if_both-Quiet (some state) none s₀ s h = h
  state_if_both-Quiet (some state) (some recovery) s₀ s h = described-Quiet state s₀ s h

  Quiet-new_record : Quiet (new_record (watching t))
  unfolding new_record
  Quiet-new_record s₀ (u, c) h =
      state_if_both-Quiet u.spec.partitions.state u.spec.partitions.recovery s₀ (u, c) h

  Quiet-write_both : (i : InstallState) → Quiet (write_both (watching t) i)
  unfolding write_both
  Quiet-write_both i =
      Quiet-bind (λ (u, c). mount_point_of u.spec.partitions.state (u, c)) _
        (λ s₀ (u, c) h. Quiet-mount_point_of u.spec.partitions.state s₀ (u, c) h)
        (λ state.
          Quiet-bind (λ (u, c). mount_point_of u.spec.partitions.recovery (u, c)) _
            (λ s₀ (u, c) h. Quiet-mount_point_of u.spec.partitions.recovery s₀ (u, c) h)
            (λ recovery s₀ (u, c) h. h))

  Done-mount_recovery : Keeps (Done t.snapper) (mount_recovery (watching t))
  unfolding mount_recovery
  Done-mount_recovery =
      Keeps-mount_rw (IsDone t.snapper) (push-IsDone t.snapper) t.env (λ ep. ep.recovery)
        (λ ep p. record ep { recovery = p })

  Done-update_install_state : Keeps (Done t.snapper) (update_install_state (watching t))
  unfolding update_install_state
  Done-update_install_state =
      Keeps-bind (Done t.snapper) (new_record (watching t)) _
        (Keeps-Quiet (IsDone t.snapper) (new_record (watching t)) Quiet-new_record)
        (λ i.
          Keeps-bind (Done t.snapper) (mount_recovery (watching t))
            (λ done. write_both (watching t) i) Done-mount_recovery
            (λ done.
              Keeps-Quiet (IsDone t.snapper) (write_both (watching t) i) (Quiet-write_both i)))

  Done-conclude : Keeps (Done t.snapper) (conclude (watching t) tools)
  unfolding conclude
  Done-conclude =
      Keeps-bind (Done t.snapper) (stage_hook (watching t) stages "post-reset") _
        (Keeps-Quiet (IsDone t.snapper) (stage_hook (watching t) stages "post-reset")
          (Quiet-stage_hook (watching t) stages "post-reset"))
        (λ done. Done-update_install_state)

  -- A step of the transaction whose failure leaves what `Failed` says.
  broken :
      (P : World (D × Phase) ResetSpec → Type 0) (r : Result (Unit {0}))
      (s : World (D × Phase) ResetSpec)
      → Ends (Failed t.snapper) P (r, s)
      → Ends (Broken t.snapper) P (r, s)
  broken P (ok done) s h = h
  broken P (err e) s h = Failed-Broken t.snapper s h
  broken P panic s h = tt

  closed-Done :
      (s : World (D × Phase) ResetSpec)
      → Armed t.snapper s
      → Ends
          (Broken t.snapper)
          (Done t.snapper)
          ((close (watched t.snapper) >> conclude (watching t) tools) s)
  closed-Done s h =
      let closed = close (watched t.snapper) s in
      Ends-then_do (Broken t.snapper) (Committed t.snapper) (Done t.snapper) _ closed.0 closed.1
        (broken (Committed t.snapper) closed.0 closed.1 (close-Ends t.snapper s h))
        (λ done s h.
          let ended = conclude (watching t) tools s in
          Ends-Keeps (Broken t.snapper) (Done t.snapper) ended.0 ended.1
            (Done-conclude s (Armed-IsCovered t.snapper s.1 (phase s) h.0, h.1)) (λ h. inr h.0))

  work-Ends :
      (s : World (D × Phase) ResetSpec)
      → Early t.snapper s
      → Ends (Broken t.snapper) (Done t.snapper) (work (watching t) tools s)
  unfolding work
  work-Ends s h =
      let before = prepare (watching t) s in
      Ends-then_do (Broken t.snapper) (Early t.snapper) (Done t.snapper) _ before.0 before.1
        (broken (Early t.snapper) before.0 before.1
          (before-Ends t.snapper (prepare (watching t)) prepare-Calm s h))
        (λ done s h.
          let started = start (watched t.snapper) s in
          Ends-then_do (Broken t.snapper) (Armed t.snapper) (Done t.snapper) _ started.0 started.1
            (broken (Armed t.snapper) started.0 started.1 (start-Ends t.snapper s h))
            (λ done s h.
              let filled = fill (watching t) tools s in
              Ends-then_do (Broken t.snapper) (Armed t.snapper) (Done t.snapper) _ filled.0 filled.1
                (broken (Armed t.snapper) filled.0 filled.1 (
                  Ends-Quiet t.snapper (IsArmed t.snapper) (fill (watching t) tools) Quiet-fill
                    (λ s h. inr h) s h))
                (λ done s h. closed-Done s h)))

  -- A run of the reset with any snapshotter, world and tools, from a state without a transaction. Where
  -- its work (all but the clean-up and the power action) ends without an error, the snapshotter has
  -- closed the transaction, or the clean-up has closed it as failed, which only a run with an error
  -- does. Where it ends with an error, the run ends with an error too, and either no transaction was
  -- begun or it is closed as failed.
  pub run_reset-Settles :
      (u : ActionState (D × Phase) ResetSpec)
      → u.device.1 ≡ idle
      → Settles t.snapper t.append
          (work (watching t) tools (u, new_clean_stack)).0
          (run_reset (watching t) tools u)
  unfolding run_reset run_with_cleanup reset_body new_clean_stack
  run_reset-Settles u h =
      let worked = work (watching t) tools (u, new_clean_stack) in
      finished-Settles t.snapper t.append (or_fail (on_log (power_action t.env t.cfg))) worked.0
        worked.1 (Quiet-log (power_action t.env t.cfg))
        (work-Ends (u, new_clean_stack)
          (is_some u.snapshot, (omega arith, tt, λ i. (h i, is_some u.snapshot))))
