-- ===== src/Jobs/Cancelling.antt =====
-- What a cancellation stops, and what it does not (backend/src/vision_app/jobs/service.py).
use vision_app_creator.Prelude.{
  ℕ, ◌+◌, String, ◌≡◌, refl, ap, subst, sym, ◌∙◌, true, false, none, some, List, arith, string_eq,
  lookup, insert, lookup-insert_self,
}
use vision_app_creator.Prelude.Results.{Result, ok, err}
use vision_app_creator.Contracts.{RunProgress}
use vision_app_creator.Jobs.State.{
  Job, JobState, JobError, job_conflict, stale_attempt, claim_state, cancelled_state, commit,
  finish_state, is_attempt,
}
use vision_app_creator.Jobs.Store.{Jobs, Step, perform_all, Others}
use vision_app_creator.Jobs.Service.{
  World, claim, commit_progress, finish, cancel, cancel_left, plain, leased, answered, emitted,
  finishing, is_refused,
}
use vision_app_creator.Jobs.Atomic.{
  IsSound, perform_all-IsSound, insert-IsSound, IsAtomic, mutate-IsAtomic,
}
use vision_app_creator.Jobs.Refusal.{mutate_raises_when, cancelling_at, alone, mutate-alone}

abbrev pub Cancelling : Job → Type 0
Cancelling v = v.cancel_requested ≡ true

module _ (others : Others) (clock : ℕ → ℕ) (run : String) (w w' : World) where
  cancelled_job :
      (o : Result JobError (Unit {0}) × Jobs)
      → IsSound w.jobs
      → IsAtomic others run (λ n. plain (cancelled_state (clock n)) n) 100 w.jobs o
      → cancel_left run w o ≡ (ok tt, w')
      → (v : Job) × (lookup run w'.jobs ≡ some v) × Cancelling v × IsSound w'.jobs
  unfolding IsAtomic cancelled_state
  cancelled_job (ok u, jobs') sound (ss, written, k, b, v, v', here, ran, e) h =
      let v2 : Job = record v' { revision = v.revision + 1 } in
      let same : jobs' ≡ w'.jobs = ground arith in
      let stored : w'.jobs ≡ insert run v2 (perform_all ss w.jobs) = sym same ∙ e in
      (
        v2,
        ap (lookup run) stored ∙ lookup-insert_self run v2 (perform_all ss w.jobs),
        ground arith,
        subst IsSound (sym stored) (
            insert-IsSound run v.revision v' (perform_all ss w.jobs)
              (perform_all-IsSound ss w.jobs sound)),
      )
  cancelled_job (err x, jobs') sound (ss, written, e) h = ground arith

  cancel_marks :
      IsSound w.jobs
      → cancel others clock run w ≡ (ok tt, w')
      → (v : Job) × (lookup run w'.jobs ≡ some v) × Cancelling v × IsSound w'.jobs
  unfolding cancel
  cancel_marks sound h = cancelled_job _ sound (mutate-IsAtomic others run _ 100 tt w.jobs sound) h

-- After a cancellation has answered, whatever other services then write, no claim of the run is
-- granted (JobConflict) and no progress of it is committed (StaleAttempt), by any worker with any
-- fence; both calls leave the store as the others wrote it. (The store is one whose jobs of
-- revision 0 are the initial ones.)
pub cancel_stops_workers :
    (others : Others) (clock : ℕ → ℕ) (w w' : World) (p : RunProgress)
    → IsSound w.jobs
    → cancel others clock p.run_id w ≡ (ok tt, w')
    → (ss : List Step) (others' : Others) (lease : ℕ) (ids : ℕ → String) (now fence : ℕ)
    → let late = record w' { jobs = perform_all ss w'.jobs } in
      let left = record late { jobs = perform_all (others'.before_read 99) late.jobs } in
      (claim lease ids others' now p.run_id late ≡ (err job_conflict, left))
      × (commit_progress others' p fence late ≡ (err stale_attempt, left))
unfolding claim claim_state commit_progress commit
cancel_stops_workers others clock w w' p sound h ss others' lease ids now fence =
    let (v, here, c, sound') = cancel_marks others clock p.run_id w w' sound h in
    let late = record w' { jobs = perform_all ss w'.jobs } in
    let (v2, there, c2) = cancelling_at ss p.run_id v w'.jobs sound' here c in
    let marked =
      cancelling_at (others'.before_read 99) p.run_id v2 late.jobs
        (perform_all-IsSound ss w'.jobs sound') there c2 in
    (
      ap (answered late) (
          mutate_raises_when others' p.run_id (λ n. leased (claim_state lease now (ids n))) none
            late.jobs job_conflict Cancelling (λ v lt. ground arith) marked),
      ap (emitted p fence late) (
          mutate_raises_when others' p.run_id (λ n. commit p fence) false late.jobs stale_attempt
            Cancelling (λ v lt. ground arith) marked),
    )

abbrev marked : ℕ → Job → Job
unfolding cancelled_state
marked now v = record (cancelled_state now v) { revision = v.revision + 1 }

cancel_left-jobs :
    (run : String) (w : World) (jobs : Jobs) (u : Unit {0})
    → (cancel_left run w (ok u, jobs)).1.jobs ≡ jobs
cancel_left-jobs run w jobs u = ground arith

cancelled_jobs :
    (clock : ℕ → ℕ) (run : String) (v : Job) (w : World)
    → lookup run w.jobs ≡ some v
    → (cancel alone clock run w).1.jobs ≡ insert run (marked (clock 99) v) w.jobs
unfolding cancel cancelled_state marked
cancelled_jobs clock run v w here =
    ap (λ o. (cancel_left run w o).1.jobs)
      (mutate-alone run (λ n. plain (cancelled_state (clock n)) n) tt tt v
        (cancelled_state (clock 99) v) w.jobs here refl)
    ∙ cancel_left-jobs run w (insert run (marked (clock 99) v) w.jobs) tt

-- The worker of the current attempt can finish a run that was cancelled: with no other writer, the
-- call answers, and the state that the worker reports stands in place of `cancelled`.
pub finish_overrides_cancel :
    (clock : ℕ → ℕ) (run a : String) (fence : ℕ) (s : JobState) (v : Job) (w : World)
    → lookup run w.jobs ≡ some v
    → is_attempt v a fence ≡ true
    → is_refused s ≡ false
    → let (answer, w') = finish alone run a fence s (cancel alone clock run w).1 in
      (answer ≡ ok tt)
      × (v' : Job) × (lookup run w'.jobs ≡ some v')
      × (v'.state ≡ s)
      × (v'.cancel_requested ≡ true)
unfolding finish finish_state marked cancelled_state
finish_overrides_cancel clock run a fence s v w here current e =
    let v1 = marked (clock 99) v in
    let w1 = (cancel alone clock run w).1 in
    let there : lookup run w1.jobs ≡ some v1 =
      ap (lookup run) (cancelled_jobs clock run v w here) ∙ lookup-insert_self run v1 w.jobs in
    let v2 : Job = record v1 { state = s; lease_expires_at = none } in
    let v3 : Job = record v2 { revision = v1.revision + 1 } in
    let done =
      mutate-alone run (λ n u. finishing a fence s) tt tt v1 v2 w1.jobs there (ground arith) in
    rw (e, done) (refl, v3, lookup-insert_self run v3 w1.jobs, refl, refl)
