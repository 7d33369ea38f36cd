-- ===== src/CleanStack/Lifo.antt =====
-- The slice and its count are a stack: the last pushed job is the first popped.
use native.Mathlib.Numerals.{add-one}
use mathlib.Core.List.{reverse, reverse-append}
use elemental_toolkit.Base.{
  ℕ, zero, suc, ◌+◌, ◌≤◌, ◌≡◌, refl, ap, ◌⊎◌, inl, inr, none, some, List, [], ◌∷◌, ◌++◌, length,
  get_elem?, take, length-take, length-append, arith,
}
use elemental_toolkit.Base.Outcome.{ok}
use elemental_toolkit.CleanStack.{
  CleanFunc, CleanJob, CleanStack, always, error_only, success_only, push_job, push,
  push_error_only, push_success_only, pop,
}

module _ {S : Type 0} where
  -- What keeps `Pop` within the slice.
  abbrev pub IsWellFormed : CleanStack S → Type 0
  IsWellFormed c = c.count ≤ length c.jobs

  -- The jobs that are left to run, in the order in which they run.
  abbrev pub pending : CleanStack S → List (CleanJob S)
  pending c = reverse (take c.count c.jobs)

module _ {ℓ} {A : Type ℓ} where
  take-append_self :
      (n : ℕ) (xs : List A) (x : A)
      → n ≤ length xs
      → take (suc n) (take n xs ++ (x ∷ [])) ≡ take n xs ++ (x ∷ [])
  take-append_self zero xs x h = refl
  take-append_self (suc n) [] x h = absurd (omega arith)
  take-append_self (suc n) (y ∷ xs) x h = ap (λ r. y ∷ r) (take-append_self n xs x (omega arith))

  pub take-suc :
      (n : ℕ) (xs : List A) (x : A)
      → get_elem? xs n ≡ some x
      → take (suc n) xs ≡ take n xs ++ (x ∷ [])
  take-suc n [] x h = cc
  take-suc zero (y ∷ xs) x h = ground arith
  take-suc (suc n) (y ∷ xs) x h = ap (λ r. y ∷ r) (take-suc n xs x h)

  pub get_elem?-some :
      (n : ℕ) (xs : List A) → n + 1 ≤ length xs → (x : A) × (get_elem? xs n ≡ some x)
  get_elem?-some n [] h = absurd (omega arith)
  get_elem?-some zero (x ∷ xs) h = (x, refl)
  get_elem?-some (suc n) (x ∷ xs) h = get_elem?-some n xs (omega arith)

module _ {S : Type 0} where
  push_job-IsWellFormed :
      (c : CleanStack S) (job : CleanJob S) → IsWellFormed c → IsWellFormed (push_job c job)
  unfolding push_job
  push_job-IsWellFormed c job h =
      omega (arith, length-append (take c.count c.jobs) (job ∷ []), length-take c.count c.jobs)

  pending-push_job :
      (c : CleanStack S) (job : CleanJob S)
      → IsWellFormed c
      → pending (push_job c job) ≡ job ∷ pending c
  unfolding push_job
  pending-push_job c job h =
      rw (add-one, take-append_self c.count c.jobs job h, reverse-append) refl

  -- Each push, of a well-formed stack, gives a well-formed stack whose first job to run is the new
  -- one, with the type of the call, and leaves those below it as they were.
  pub pushes_refine :
      (c : CleanStack S) (f : CleanFunc S)
      → IsWellFormed c
      → (IsWellFormed (push c f)
          × (pending (push c f) ≡ record { clean_func = f; job_type = always } ∷ pending c))
        × (IsWellFormed (push_error_only c f)
            × (pending (push_error_only c f)
                ≡ record { clean_func = f; job_type = error_only } ∷ pending c))
        × (IsWellFormed (push_success_only c f)
            × (pending (push_success_only c f)
                ≡ record { clean_func = f; job_type = success_only } ∷ pending c))
  unfolding push push_error_only push_success_only
  pushes_refine c f h = (
    (push_job-IsWellFormed c _ h, pending-push_job c _ h),
    (push_job-IsWellFormed c _ h, pending-push_job c _ h),
    (push_job-IsWellFormed c _ h, pending-push_job c _ h),
  )

  -- What `Pop` does to a stack.
  abbrev pub Pops : CleanStack S → Type 0
  Pops c =
      ((c.count ≡ 0) × (pending c ≡ []) × (pop c ≡ ok (none, c)))
      ⊎ ((job : CleanJob S) × (c' : CleanStack S) × (pop c ≡ ok (some job, c'))
          × (pending c ≡ job ∷ pending c')
          × (c.jobs ≡ c'.jobs)
          × (c.count ≡ suc c'.count)
          × IsWellFormed c')

  pop_at :
      (jobs : List (CleanJob S)) (n : ℕ)
      → n ≤ length jobs
      → Pops (record { jobs = jobs; count = n })
  unfolding pop
  pop_at jobs zero h = inl (refl, refl, refl)
  pop_at jobs (suc n) h =
      let (job, e) = get_elem?-some n jobs (omega arith) in
      inr (
        job,
        record { jobs = jobs; count = n },
        rw (e, pop) refl,
        rw (take-suc n jobs job e, reverse-append) refl,
        refl,
        refl,
        omega arith,
      )

  -- `Pop` of a well-formed stack does not panic: it takes the first pending job, or gives nil where
  -- there is none.
  pub pop_refines : (c : CleanStack S) → IsWellFormed c → Pops c
  pop_refines c h = pop_at c.jobs c.count h
