-- ===== src/Jobs/Store.antt =====
-- The store of job states (`_JobStateRepository` of backend/src/vision_app/bootstrap.py) and the
-- retry loop `_mutate` of backend/src/vision_app/jobs/service.py, with the writes that other
-- services make before each read and before each swap of the loop.
use vision_app_creator.Prelude.{
  ℕ, zero, suc, ◌+◌, String, Bool, true, false, not, Option, none, some, List, [], ◌∷◌, ◌==◌,
  nat_eq, string_eq, if◌then◌else◌, Dict, lookup, insert,
}
use vision_app_creator.Prelude.Results.{Result, ok, err}
use vision_app_creator.Jobs.State.{
  Job, JobError, job_not_found, job_conflict, initial, Update, update,
}

abbrev pub Jobs : Type 0
Jobs = Dict String Job

-- `0 if current is None else int(current["revision"])`
abbrev pub revision_of : Option Job → ℕ
revision_of none = 0
revision_of (some v) = v.revision

unfoldable pub compare_and_swap : String → String → ℕ → Job → Jobs → Bool × Jobs
compare_and_swap kind i n v jobs =
    if not (kind == "job_run")
    then (false, jobs)
    else if revision_of (lookup i jobs) == n
    then (true, insert i v jobs)
    else (false, jobs)

abbrev pub get_owned : String → String → Jobs → Option Job
get_owned kind i jobs = if kind == "job_run" then lookup i jobs else none

-- One completed write of a service: the creation of a job, or a mutation that was swapped in.
pub data Step : Type 0 where
  created : String → Step
  changed : String → Update → Step

abbrev swap_in : String → Job → Result JobError Job → Jobs → Jobs
swap_in run v (ok v') jobs = insert run (record v' { revision = v.revision + 1 }) jobs
swap_in run v (err e) jobs = jobs

abbrev change : String → Update → Option Job → Jobs → Jobs
change run u none jobs = jobs
change run u (some v) jobs = swap_in run v (update u v) jobs

unfoldable pub perform : Step → Jobs → Jobs
perform (created run) jobs = (compare_and_swap "job_run" run 0 (initial run) jobs).1
perform (changed run u) jobs = change run u (lookup run jobs) jobs

unfoldable pub perform_all : List Step → Jobs → Jobs
perform_all [] jobs = jobs
perform_all (s ∷ ss) jobs = perform_all ss (perform s jobs)

-- What other services write before the read, and between the read and the swap, of each try.
pub record Others : Type 0 where
  pub before_read : ℕ → List Step
  pub before_swap : ℕ → List Step

-- A closure that changes the job and what it keeps in its nonlocal variables. It may read the
-- clock and the id factory at each try, so it is given the number of tries that are left.
abbrev pub Mutation {ℓ} : Type ℓ → Type ℓ
Mutation A = ℕ → A → Job → Result JobError (A × Job)

-- `for _ in range(_MAX_CAS)`
unfoldable pub mutate_tries {ℓ} :
    {A : Type ℓ} → ℕ → Others → String → Mutation A → A → Jobs → Result JobError A × Jobs
mutate_tries zero others run f a jobs = (err job_conflict, jobs)
mutate_tries (suc n) others run f a jobs =
    let found = perform_all (others.before_read n) jobs in
    elim (get_owned "job_run" run found) [
      | none ↦ (err job_not_found, found)
      | some v ↦ elim (f n a v) [
        | err e ↦ (err e, found)
        | ok (a', v') ↦
            let (won, jobs') =
              compare_and_swap "job_run" run v.revision (record v' { revision = v.revision + 1 })
                (perform_all (others.before_swap n) found) in
            elim won [ true ↦ (ok a', jobs') | false ↦ mutate_tries n others run f a' jobs' ]
      ]
    ]

-- `_MAX_CAS`
abbrev pub max_cas : ℕ
max_cas = 100

abbrev pub mutate {ℓ} :
    {A : Type ℓ} → Others → String → Mutation A → A → Jobs → Result JobError A × Jobs
mutate = mutate_tries max_cas
