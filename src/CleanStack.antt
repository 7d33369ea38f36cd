-- ===== src/CleanStack.antt =====
-- pkg/utils/cleanstack.go: a stack of clean-up jobs, run last to first, where each job is run
-- always, only after an error or only while there is none.
pub mod Lifo
pub mod Cleanup
use elemental_toolkit.Base.{
  ℕ, zero, suc, ◌+◌, Option, none, some, List, [], ◌∷◌, ◌++◌, get_elem?, take, ◌==◌, nat_eq,
  if◌then◌else◌,
}
use elemental_toolkit.Base.Outcome.{Error, Result, ok, err, panic}

pub data JobType : Type 0 where
  error_only success_only always : JobType

-- The closures read and change the state `S` of the program around them.
module _ (S : Type 0) where
  abbrev pub CleanFunc : Type 0
  CleanFunc = S → Option Error × S

  pub record CleanJob : Type 0 where
    pub clean_func : CleanFunc
    pub job_type : JobType

  -- `jobs` is the slice, whose elements from `count` on are stale.
  pub record CleanStack : Type 0 where
    pub jobs : List CleanJob
    pub count : ℕ

module _ {S : Type 0} where
  unfoldable pub new_clean_stack : CleanStack S
  new_clean_stack = record { jobs = []; count = 0 }

  push_job : CleanStack S → CleanJob S → CleanStack S
  push_job c job = record { jobs = take c.count c.jobs ++ (job ∷ []); count = c.count + 1 }

  unfoldable pub push : CleanStack S → CleanFunc S → CleanStack S
  unfolding push_job
  push c f = push_job c (record { clean_func = f; job_type = always })

  unfoldable pub push_error_only : CleanStack S → CleanFunc S → CleanStack S
  unfolding push_job
  push_error_only c f = push_job c (record { clean_func = f; job_type = error_only })

  unfoldable pub push_success_only : CleanStack S → CleanFunc S → CleanStack S
  unfolding push_job
  push_success_only c f = push_job c (record { clean_func = f; job_type = success_only })

  -- The job, or nil if the stack is empty, and the stack that is left. Go panics where the count is
  -- more than the slice's length.
  unfoldable pub pop : CleanStack S → Result (Option (CleanJob S) × CleanStack S)
  pop c = elim c.count [
    | zero ↦ ok (none, c)
    | suc n ↦ elim (get_elem? c.jobs n) [
      | none ↦ panic
      | some job ↦ ok (some job, record c { count = n })
    ]
  ]

-- `multierror.Append`, of a package that the repository vendors.
module _ (append : Option Error → Error → Error) {S : Type 0} where
  unfoldable pub run_clean_job : CleanJob S → Option Error → S → Option Error × S
  run_clean_job job errs s =
      let (failure, s') = job.clean_func s in
      (elim failure [ none ↦ errs | some e ↦ some (append errs e) ], s')

  -- The switch in `Cleanup`.
  unfoldable pub run_by_type : JobType → CleanJob S → Option Error → S → Option Error × S
  run_by_type success_only job none s = run_clean_job job none s
  run_by_type success_only job (some e) s = (some e, s)
  run_by_type error_only job none s = (none, s)
  run_by_type error_only job (some e) s = run_clean_job job (some e) s
  run_by_type always job errs s = run_clean_job job errs s

  -- The loop of `Cleanup`, which ends when the count is 0: each round lowers it by one, so the count
  -- is fuel enough.
  unfoldable pub cleanup_loop :
      ℕ → CleanStack S → Option Error → S → Result (Option Error × S × CleanStack S)
  cleanup_loop zero c errs s = ok (errs, s, c)
  cleanup_loop (suc fuel) c errs s =
      let round : Result (Option Error × S × CleanStack S) = elim (pop c) [
        | ok (none, c') ↦ panic
        | ok (some job, c') ↦
            let (errs', s') = run_by_type job.job_type job errs s in cleanup_loop fuel c' errs' s'
        | err e ↦ err e
        | panic ↦ panic
      ] in
      if c.count == 0 then ok (errs, s, c) else round

  -- The error that is returned, the state and the stack that are left.
  unfoldable pub cleanup :
      CleanStack S → Option Error → S → Result (Option Error × S × CleanStack S)
  unfolding cleanup_loop run_by_type run_clean_job pop
  cleanup c err₀ s =
      cleanup_loop c.count c (elim err₀ [ none ↦ none | some e ↦ some (append none e) ]) s
