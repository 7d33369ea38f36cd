-- ===== src/CleanStack/Cleanup.antt =====
-- `Cleanup` runs the pending jobs in their order, each if its type asks for it, and reports every
-- failure.
use mathlib.Core.List.{reverse, reverse-append, append-nil, append_assoc}
use elemental_toolkit.Base.{
  ℕ, zero, suc, ◌≤◌, ◌≡◌, refl, Bool, true, false, not, ◌&&◌, ◌||◌, Option, none, some, List, [],
  ◌∷◌, ◌++◌, All, length, get_elem?, take, arith, inl, inr, Bool-cases, if◌then◌else◌,
}
use elemental_toolkit.Base.Outcome.{Error, Result, ok}
use elemental_toolkit.CleanStack.{
  CleanJob, CleanStack, JobType, always, error_only, success_only, pop, run_clean_job, run_by_type,
  cleanup_loop, cleanup,
}
use elemental_toolkit.CleanStack.Lifo.{IsWellFormed, pending, take-suc, get_elem?-some}

-- Whether a job runs, by its type and by whether something has failed before.
abbrev pub wanted : JobType → Bool → Bool
wanted always failed = true
wanted error_only failed = failed
wanted success_only failed = not failed

abbrev pub to_list {ℓ} : {A : Type ℓ} → Option A → List A
to_list none = []
to_list (some a) = a ∷ []

abbrev pub is_some {ℓ} : {A : Type ℓ} → Option A → Bool
is_some none = false
is_some (some a) = true

or_false : (b : Bool) → (b || false) ≡ b
or_false true = refl
or_false false = refl

module _ {S : Type 0} where
  -- The failures, in the order in which the jobs ran, and the state after them.
  abbrev pub run_jobs : List (CleanJob S) → Bool → S → List Error × S
  run_jobs [] failed s = ([], s)
  run_jobs (job ∷ rest) failed s =
      let (failure, s') = job.clean_func s in
      let ran = run_jobs rest (failed || is_some failure) s' in
      let skipped = run_jobs rest failed s in
      if wanted job.job_type failed then (to_list failure ++ ran.0, ran.1) else skipped

module _ {S : Type 0} where
  -- A job that leaves a property of the state.
  abbrev pub KeepsState : (S → Type 0) → CleanJob S → Type 0
  KeepsState P job = (s : S) → P s → P (job.clean_func s).1

-- The error that the loop begins with.
abbrev pub given : (Option Error → Error → Error) → Option Error → Option Error
given append none = none
given append (some e) = some (append none e)

module _ (append : Option Error → Error → Error) {S : Type 0} where
  -- The loop over the pending jobs, with the error that is passed along.
  abbrev pub run_all : List (CleanJob S) → Option Error → S → Option Error × S
  run_all [] errs s = (errs, s)
  run_all (job ∷ rest) errs s =
      let (errs', s') = run_by_type append job.job_type job errs s in run_all rest errs' s'

  abbrev pub finished :
      List (CleanJob S) → Option Error × S → Result (Option Error × S × CleanStack S)
  finished jobs (errs, s) = ok (errs, s, record { jobs = jobs; count = 0 })

  loop_step :
      (n : ℕ) (jobs : List (CleanJob S)) (job : CleanJob S) (errs : Option Error) (s : S)
      → get_elem? jobs n ≡ some job
      → cleanup_loop append (suc n) (record { jobs = jobs; count = suc n }) errs s
        ≡ cleanup_loop append n
            (record { jobs = jobs; count = n })
            (run_by_type append job.job_type job errs s).0
            (run_by_type append job.job_type job errs s).1
  unfolding cleanup_loop pop
  loop_step n jobs job errs s e = rw (e, pop) (ground arith)

  loop_runs :
      (n : ℕ) (jobs : List (CleanJob S)) (errs : Option Error) (s : S)
      → n ≤ length jobs
      → cleanup_loop append n (record { jobs = jobs; count = n }) errs s
        ≡ finished jobs (run_all (reverse (take n jobs)) errs s)
  unfolding run_all
  loop_runs zero jobs errs s h = unfold cleanup_loop in refl
  loop_runs (suc n) jobs errs s h =
      let (job, e) = get_elem?-some n jobs (omega arith) in
      rw (loop_step n jobs job errs s e, take-suc n jobs job e, reverse-append)
        (loop_runs n jobs _ _ (omega arith))

  pub cleanup-run_all :
      (c : CleanStack S) (e : Option Error) (s : S)
      → IsWellFormed c
      → cleanup append c e s ≡ finished c.jobs (run_all (pending c) (given append e) s)
  unfolding cleanup
  cleanup-run_all c none s h = loop_runs c.count c.jobs none s h
  cleanup-run_all c (some e) s h = loop_runs c.count c.jobs (some (append none e)) s h

  pub by_type-keeps :
      (P : S → Type 0) (t : JobType) (job : CleanJob S) (errs : Option Error) (s : S)
      → ((s : S) → P s → P (job.clean_func s).1)
      → P s
      → P (run_by_type append t job errs s).1
  unfolding run_by_type run_clean_job
  by_type-keeps P success_only job none s h p = h s p
  by_type-keeps P success_only job (some e) s h p = p
  by_type-keeps P error_only job none s h p = p
  by_type-keeps P error_only job (some e) s h p = h s p
  by_type-keeps P always job errs s h p = h s p

  pub run_all-keeps :
      (P : S → Type 0) (jobs : List (CleanJob S)) (errs : Option Error) (s : S)
      → All (KeepsState P) jobs
      → P s
      → P (run_all jobs errs s).1
  run_all-keeps P [] errs s h p = p
  run_all-keeps P (job ∷ rest) errs s h p =
      run_all-keeps P rest (run_by_type append job.job_type job errs s).0
        (run_by_type append job.job_type job errs s).1 h.1
        (by_type-keeps P job.job_type job errs s h.0 p)

  pub by_type-failed :
      (t : JobType) (job : CleanJob S) (e : Error) (s : S)
      → is_some (run_by_type append t job (some e) s).0 ≡ true
  unfolding run_by_type run_clean_job
  by_type-failed t job e s = ground arith

  -- An error stays one.
  pub run_all-failed :
      (jobs : List (CleanJob S)) (errs : Option Error) (s : S)
      → is_some errs ≡ true
      → is_some (run_all jobs errs s).0 ≡ true
  run_all-failed [] errs s h = h
  run_all-failed (job ∷ rest) none s h = cc
  run_all-failed (job ∷ rest) (some e) s h =
      run_all-failed rest _ _ (by_type-failed job.job_type job e s)

module _ (append : Option Error → Error → Error) {S : Type 0}
    (errors_of : Option Error → List Error) (errors_none : errors_of none ≡ [])
    (errors_append : (errs : Option Error) (e : Error)
      → errors_of (some (append errs e)) ≡ errors_of errs ++ (e ∷ [])) where
  by_type-errors :
      (t : JobType) (job : CleanJob S) (errs : Option Error) (s : S)
      → (errors_of (run_by_type append t job errs s).0
          ≡ errors_of errs
            ++ (if wanted t (is_some errs) then to_list (job.clean_func s).0 else []))
        × (is_some (run_by_type append t job errs s).0
            ≡ (is_some errs || (wanted t (is_some errs) && is_some (job.clean_func s).0)))
        × ((run_by_type append t job errs s).1
            ≡ (if wanted t (is_some errs) then (job.clean_func s).1 else s))
  unfolding run_by_type run_clean_job
  by_type-errors t job errs s = grind (arith, errors_append, append-nil)

  run_all-errors :
      (jobs : List (CleanJob S)) (errs : Option Error) (s : S)
      → (errors_of (run_all append jobs errs s).0
          ≡ errors_of errs ++ (run_jobs jobs (is_some errs) s).0)
        × ((run_all append jobs errs s).1 ≡ (run_jobs jobs (is_some errs) s).1)
  unfolding run_all
  run_all-errors [] errs s = (rw append-nil, refl)
  run_all-errors (job ∷ rest) errs s =
      let next = run_by_type append job.job_type job errs s in
      let (errors, failed, state) = by_type-errors job.job_type job errs s in
      let ih = run_all-errors rest next.0 next.1 in
      rw (ih.0, ih.1, errors, failed, state)
        (elim (Bool-cases (wanted job.job_type (is_some errs))) [
          | inl w ↦ rw (w, append_assoc) (refl, refl)
          | inr w ↦ rw (w, append-nil, or_false) (refl, refl)
        ])

  -- `Cleanup` of a well-formed stack never panics and empties the stack. It runs the pending jobs from
  -- the last pushed to the first, a job of each type where that type asks for it given whether the
  -- call or an earlier job has failed, and leaves the state that these runs leave. Its error holds
  -- the given error and then every failure, in order. This is for a multierror that lists the errors
  -- appended to it, read by `errors_of`.
  pub cleanup_runs_jobs :
      (c : CleanStack S) (err₀ : Option Error) (s : S)
      → IsWellFormed c
      → (result : Option Error) × (cleanup append c err₀ s
          ≡ ok (result, (run_jobs (pending c) (is_some err₀) s).1, record c { count = 0 }))
        × (errors_of result ≡ to_list err₀ ++ (run_jobs (pending c) (is_some err₀) s).0)
  unfolding cleanup
  cleanup_runs_jobs c none s h =
      let (errors, state) = run_all-errors (pending c) none s in
      (
        (run_all append (pending c) none s).0,
        rw (loop_runs append c.count c.jobs none s h, state) refl,
        rw (errors, errors_none) refl,
      )
  cleanup_runs_jobs c (some e) s h =
      let first = some (append none e) in
      let (errors, state) = run_all-errors (pending c) first s in
      (
        (run_all append (pending c) first s).0,
        rw (loop_runs append c.count c.jobs first s h, state) refl,
        rw (errors, errors_append, errors_none) refl,
      )
