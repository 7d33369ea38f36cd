-- ===== src/Examples/Stack.antt =====
-- A stack of three jobs, one of each type, on a list of notes.
use elemental_toolkit.Base.{String, ◌≡◌, refl, Option, none, some, List, [], ◌∷◌, ◌++◌, arith}
use elemental_toolkit.Base.Outcome.{Error, plain, alone, also, ok}
use elemental_toolkit.CleanStack.{
  CleanFunc, CleanStack, always, error_only, success_only, push, push_error_only, push_success_only,
  cleanup,
}
use elemental_toolkit.CleanStack.Lifo.{IsWellFormed, pending, Pops, pushes_refine, pop_refines}
use elemental_toolkit.CleanStack.Cleanup.{cleanup_runs_jobs}

abbrev note : String → CleanFunc (List String)
note s notes = (none, s ∷ notes)

abbrev break : String → CleanFunc (List String)
break s notes = (some (plain s), s ∷ notes)

abbrev jobs : CleanStack (List String)
jobs = record {
  jobs =
      record { clean_func = note "restore"; job_type = error_only }
      ∷ record { clean_func = note "commit"; job_type = success_only }
      ∷ record { clean_func = break "umount"; job_type = always }
      ∷ [];
  count = 3;
}

abbrev join : Option Error → Error → Error
join none e = alone e
join (some errs) e = also errs e

abbrev parts_of : Error → List Error
parts_of (plain s) = plain s ∷ []
parts_of (alone e) = e ∷ []
parts_of (also errs e) = parts_of errs ++ (e ∷ [])

abbrev listed : Option Error → List Error
listed none = []
listed (some errs) = parts_of errs

listed-join :
    (errs : Option Error) (e : Error) → listed (some (join errs e)) ≡ listed errs ++ (e ∷ [])
listed-join none e = refl
listed-join (some errs) e = refl

pushes_refine_example :
    (IsWellFormed (push jobs (note "sync"))
      × (pending (push jobs (note "sync"))
          ≡ record { clean_func = note "sync"; job_type = always } ∷ pending jobs))
    × (IsWellFormed (push_error_only jobs (note "sync"))
        × (pending (push_error_only jobs (note "sync"))
            ≡ record { clean_func = note "sync"; job_type = error_only } ∷ pending jobs))
    × (IsWellFormed (push_success_only jobs (note "sync"))
        × (pending (push_success_only jobs (note "sync"))
            ≡ record { clean_func = note "sync"; job_type = success_only } ∷ pending jobs))
pushes_refine_example = pushes_refine jobs (note "sync") (omega arith)

pop_refines_example : Pops jobs
pop_refines_example = pop_refines jobs (omega arith)

cleanup_runs_jobs_example :
    (result : Option Error) × (cleanup join jobs none []
      ≡ ok (result, "restore" ∷ "umount" ∷ [], record jobs { count = 0 }))
    × (listed result ≡ plain "umount" ∷ [])
cleanup_runs_jobs_example =
    cleanup_runs_jobs join listed refl listed-join jobs none [] (omega arith)
