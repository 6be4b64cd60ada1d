-- ===== src/Jobs/Atomic.antt =====
-- The retry loop `_mutate` of backend/src/vision_app/jobs/service.py among other writers: it makes
-- one change, to the job that is stored at that moment.
use vision_app_creator.Prelude.{
  ℕ, zero, suc, ◌+◌, ◌<◌, String, ◌≡◌, refl, sym, ap, ◌∙◌, subst, ◌⊎◌, Bool, true, false, Option,
  none, some, List, [], ◌∷◌, ◌++◌, arith, nat_eq, string_eq, str_eq_iff, lookup, insert,
  lookup-insert,
}
use vision_app_creator.Prelude.Results.{Result, ok, err}
use vision_app_creator.Jobs.State.{Job, JobError, job_conflict, initial}
use vision_app_creator.Jobs.Store.{
  Jobs, compare_and_swap, Step, created, changed, perform, perform_all, Others, Mutation,
  mutate_tries,
}

-- Only a job that nobody has changed has revision 0.
unfoldable pub IsSound : Jobs → Type 0
IsSound jobs =
    (run : String) (v : Job) → lookup run jobs ≡ some v → v.revision ≡ 0 → v ≡ initial run

-- The job is still there, and it is the same one or has a later revision.
abbrev Later : Option Job → Option Job → Type 0
Later none o = Unit
Later (some v) none = ⊥
Later (some v) (some v') = (v.revision < v'.revision) ⊎ (v' ≡ v)

pub perform-IsSound : (s : Step) (jobs : Jobs) → IsSound jobs → IsSound (perform s jobs)
unfolding IsSound perform compare_and_swap
perform-IsSound (created r) jobs h run v e z =
    grind (arith, h run v, str_eq_iff r run, lookup-insert r run (initial r) jobs)
perform-IsSound (changed r u) jobs h run v e z =
    grind (arith, h run v, str_eq_iff r run, lookup-insert)

pub insert-IsSound :
    (run : String) (n : ℕ) (v : Job) (jobs : Jobs)
    → IsSound jobs
    → IsSound (insert run (record v { revision = n + 1 }) jobs)
unfolding IsSound
insert-IsSound r n v jobs h run v' e z =
    grind
      (arith, h run v', str_eq_iff r run, lookup-insert r run (record v { revision = n + 1 }) jobs)

pub perform_all-IsSound :
    (ss : List Step) (jobs : Jobs) → IsSound jobs → IsSound (perform_all ss jobs)
unfolding perform_all
perform_all-IsSound [] jobs h = h
perform_all-IsSound (s ∷ ss) jobs h =
    perform_all-IsSound ss (perform s jobs) (perform-IsSound s jobs h)

perform-Later :
    (s : Step) (run : String) (jobs : Jobs)
    → IsSound jobs
    → Later (lookup run jobs) (lookup run (perform s jobs))
unfolding IsSound perform compare_and_swap
perform-Later (created r) run jobs h =
    grind (arith, h run, str_eq_iff r run, lookup-insert r run (initial r) jobs)
perform-Later (changed r u) run jobs h = grind (arith, str_eq_iff r run, lookup-insert)

Later_trans : (a b c : Option Job) → Later a b → Later b c → Later a c
Later_trans none b c h k = tt
Later_trans (some v) none c h k = elim h [ ]
Later_trans (some v) (some w) none h k = elim k [ ]
Later_trans (some v) (some w) (some x) h k = ground arith

perform_all-Later :
    (ss : List Step) (run : String) (jobs : Jobs)
    → IsSound jobs
    → Later (lookup run jobs) (lookup run (perform_all ss jobs))
unfolding perform_all
perform_all-Later [] run jobs h = ground arith
perform_all-Later (s ∷ ss) run jobs h =
    Later_trans (lookup run jobs) (lookup run (perform s jobs)) _ (perform-Later s run jobs h)
      (perform_all-Later ss run (perform s jobs) (perform-IsSound s jobs h))

pub perform_all-append :
    (ss ts : List Step) (jobs : Jobs)
    → perform_all (ss ++ ts) jobs ≡ perform_all ts (perform_all ss jobs)
unfolding perform_all
perform_all-append [] ts jobs = refl
perform_all-append (s ∷ ss) ts jobs = perform_all-append ss ts (perform s jobs)

-- A swap that goes through finds the job as it was read.
unchanged :
    (run : String) (v v' : Job) (now : Jobs)
    → Later (some v) (lookup run now)
    → (compare_and_swap "job_run" run v.revision v' now).0 ≡ true
    → (lookup run now ≡ some v)
      × ((compare_and_swap "job_run" run v.revision v' now).1 ≡ insert run v' now)
unfolding compare_and_swap
unchanged run v v' now h won = ground arith

swap-perform_all :
    (run : String) (n : ℕ) (v : Job) (now : Jobs)
    → (compare_and_swap "job_run" run n v now).0 ≡ false
    → (compare_and_swap "job_run" run n v now).1 ≡ now
unfolding compare_and_swap
swap-perform_all run n v now lost = ground arith

-- What the other services have written when the loop returns: some whole rounds, and then at most
-- the writes before a read.
pub data Written (others : Others) : ℕ → List Step → Type 0 where
  nothing : {n : ℕ} → Written others n []
  before_the_read : {n : ℕ} → Written others (suc n) (others.before_read n)
  round :
      {n : ℕ} {ss : List Step}
      → Written others n ss
      → Written others (suc n) (others.before_read n ++ (others.before_swap n ++ ss))

module _ {A : Type 0} (others : Others) (run : String) (f : Mutation A) where
  -- The answer is that of one run of the closure on the job stored after the others' writes, and
  -- the job is changed as that run says; an exception leaves the others' writes alone.
  unfoldable pub IsAtomic : ℕ → Jobs → Result JobError A × Jobs → Type 0
  IsAtomic n jobs (ok a, jobs') =
      (ss : List Step) × Written others n ss
      × (k : ℕ) × (b : A) × (v : Job) × (v' : Job) × (lookup run (perform_all ss jobs) ≡ some v)
      × (f k b v ≡ ok (a, v'))
      × (jobs' ≡ insert run (record v' { revision = v.revision + 1 }) (perform_all ss jobs))
  IsAtomic n jobs (err e, jobs') =
      (ss : List Step) × Written others n ss × (jobs' ≡ perform_all ss jobs)

  round_steps :
      (n : ℕ) (ss : List Step) (jobs : Jobs)
      → perform_all (others.before_read n ++ (others.before_swap n ++ ss)) jobs
        ≡ perform_all ss
            (perform_all (others.before_swap n) (perform_all (others.before_read n) jobs))
  round_steps n ss jobs =
      perform_all-append (others.before_read n) (others.before_swap n ++ ss) jobs
      ∙ perform_all-append (others.before_swap n) ss (perform_all (others.before_read n) jobs)

  later_rounds :
      (n : ℕ) (jobs : Jobs) (o : Result JobError A × Jobs)
      → IsAtomic n (perform_all (others.before_swap n) (perform_all (others.before_read n) jobs)) o
      → IsAtomic (suc n) jobs o
  unfolding IsAtomic
  later_rounds n jobs (ok a, jobs') (ss, w, k, b, v, v', here, ran, e) = (
    others.before_read n ++ (others.before_swap n ++ ss),
    round w,
    k,
    b,
    v,
    v',
    ap (lookup run) (round_steps n ss jobs) ∙ here,
    ran,
    rw round_steps e,
  )
  later_rounds n jobs (err x, jobs') (ss, w, e) =
      (others.before_read n ++ (others.before_swap n ++ ss), round w, rw round_steps e)

  module _ (n : ℕ) (a a' : A) (v v' : Job) (jobs : Jobs) where
    abbrev found : Jobs
    found = perform_all (others.before_read n) jobs

    abbrev now : Jobs
    now = perform_all (others.before_swap n) found

    abbrev swap : Bool × Jobs
    swap = compare_and_swap "job_run" run v.revision (record v' { revision = v.revision + 1 }) now

    one_round : perform_all (others.before_read n ++ (others.before_swap n ++ [])) jobs ≡ now
    unfolding perform_all
    one_round = round_steps n [] jobs

    swapped :
        IsSound found
        → lookup run found ≡ some v
        → f n a v ≡ ok (a', v')
        → swap.0 ≡ true
        → IsAtomic (suc n) jobs (ok a', swap.1)
    unfolding IsAtomic
    swapped sound here ran won =
        let still =
          unchanged run v (record v' { revision = v.revision + 1 }) now
            (subst (λ o. Later o (lookup run now)) here
              (perform_all-Later (others.before_swap n) run found sound))
            won in
        (
          others.before_read n ++ (others.before_swap n ++ []),
          round nothing,
          n,
          a,
          v,
          v',
          ap (lookup run) one_round ∙ still.0,
          ran,
          still.1 ∙ sym (ap (insert run (record v' { revision = v.revision + 1 })) one_round),
        )

  raised :
      (n : ℕ) (e : JobError) (jobs : Jobs)
      → IsAtomic (suc n) jobs (err e, perform_all (others.before_read n) jobs)
  unfolding IsAtomic
  raised n e jobs = (others.before_read n, before_the_read, refl)

  gave_up : (e : JobError) (jobs : Jobs) → IsAtomic zero jobs (err e, jobs)
  unfolding IsAtomic perform_all
  gave_up e jobs = ([], nothing, refl)

  -- The loop, on a store whose unchanged jobs are the initial ones: when it answers, its closure was
  -- run on the very job that was stored when the change went in, and nothing but that change and
  -- whole writes of the other services has happened; when it raises, only theirs have.
  pub mutate-IsAtomic :
      (n : ℕ) (a : A) (jobs : Jobs)
      → IsSound jobs
      → IsAtomic n jobs (mutate_tries n others run f a jobs)
  unfolding mutate_tries
  mutate-IsAtomic zero a jobs h = gave_up job_conflict jobs
  mutate-IsAtomic (suc n) a jobs h =
      let sound = perform_all-IsSound (others.before_read n) jobs h in
      grind (
        arith,
        raised n,
        swapped n a,
        swap-perform_all run,
        perform_all-IsSound (others.before_swap n) (perform_all (others.before_read n) jobs),
        later_rounds n jobs,
        mutate-IsAtomic n,
      )
