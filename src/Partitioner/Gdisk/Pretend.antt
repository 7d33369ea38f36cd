-- ===== src/Partitioner/Gdisk/Pretend.antt =====
-- `sgdisk` writes only what it has first accepted in a trial run.
use elemental_toolkit.Base.{
  String, ◌≡◌, ◌⊎◌, inl, inr, Option, none, some, List, [], ◌∷◌, ◌++◌, arith, Option-cases,
}
use elemental_toolkit.Base.Outcome.{Error}
use elemental_toolkit.System.{Env, Log, ran}
use elemental_toolkit.Partitioner.Gdisk.{
  GdiskCall, option_if, queued_options, build_options, deletion_options, partition_options,
  set_pretend, write_changes,
}

-- The command lines of a trial and of a real run.
abbrev pub trial_line : GdiskCall → List String
trial_line gd = "-P" ∷ (queued_options gd ++ (gd.dev ∷ []))

abbrev pub real_line : GdiskCall → List String
real_line gd = elim (queued_options gd) [ [] ↦ [] | t ∷ rest ↦ t ∷ (rest ++ (gd.dev ∷ [])) ]

module _ (env : Env) (gd : GdiskCall) (w : Log) where
  abbrev trial : String × Option Error
  trial = env.run w "sgdisk" (trial_line gd)

  -- `WriteChanges` runs `sgdisk -P` with all that is queued. If that fails, no further command runs, the
  -- error is returned and everything stays queued. If it succeeds, `sgdisk` runs with the same options
  -- less `-P`, then `partx`, the result is that of the real run, and nothing but a requested
  -- expansion stays queued.
  pub gdisk_trial_first :
      let ((result, gd'), w') = write_changes env gd w in
      ((e : Error) × (trial.1 ≡ some e)
        × (w' ≡ ran "sgdisk" (trial_line gd) (some e) ∷ w)
        × (result ≡ (trial.0, some e))
        × (queued_options gd' ≡ queued_options gd))
      ⊎ ((trial.1 ≡ none)
          × (let w₁ = ran "sgdisk" (trial_line gd) none ∷ w in
              let real = env.run w₁ "sgdisk" (real_line gd) in
              let w₂ = ran "sgdisk" (real_line gd) real.1 ∷ w₁ in
              let told = (env.run w₂ "partx" ("-u" ∷ gd.dev ∷ [])).1 in
              (w' ≡ ran "partx" ("-u" ∷ gd.dev ∷ []) told ∷ w₂)
              × (result ≡ real)
              × (queued_options gd' ≡ option_if gd.expand "-e")))
  unfolding write_changes queued_options build_options set_pretend deletion_options
      partition_options
  gdisk_trial_first = elim (Option-cases trial.1) [
    | inr (e, failed) ↦ inl (e, failed, ground arith, ground arith, ground arith)
    | inl accepted ↦ inr (accepted, (ground arith, ground arith, ground arith))
  ]
