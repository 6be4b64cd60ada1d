-- ===== src/Tests/Jobs.antt =====
-- Runs of the job service on a small store (backend/src/vision_app/jobs).
use vision_app_creator.Prelude.{
  ℕ, List, All, String, ◌≡◌, refl, ◌==◌, nat_eq, true, none, some, [], ◌∷◌, arith, string_eq,
  str_eq_iff, lookup, insert, if◌then◌else◌,
}
use vision_app_creator.Prelude.Results.{ok, err}
use vision_app_creator.Contracts.{Event, RunProgress}
use vision_app_creator.Jobs.State.{
  to_dispatching, Job, completed, running, lease_from, job_conflict, stale_attempt, initial,
  claim_state, claim_at, invoked, cancelled_state,
}
use vision_app_creator.Jobs.Store.{
  perform, Step, Jobs, compare_and_swap, changed, perform_all, Others, mutate_tries,
}
use vision_app_creator.Jobs.Executor.{Executor}
use vision_app_creator.Jobs.Sink.{empty_sink}
use vision_app_creator.Jobs.Service.{
  World, claim, heartbeat, commit_progress, finish, cancel, leased,
}
use vision_app_creator.Jobs.Atomic.{
  Written, nothing, before_the_read, round, IsSound, IsAtomic, mutate-IsAtomic,
}
use vision_app_creator.Jobs.Refusal.{alone}
use vision_app_creator.Jobs.Reopening.{dispatching_reopens}
use vision_app_creator.Jobs.Leases.{Respects, lease_is_exclusive}
use vision_app_creator.Jobs.Fencing.{claim_fences_workers}
use vision_app_creator.Jobs.Cancelling.{cancel_stops_workers, finish_overrides_cancel}

abbrev queued_jobs : Jobs
queued_jobs = ("run", initial "run") ∷ []

queued_jobs-IsSound : IsSound queued_jobs
unfolding IsSound lookup
queued_jobs-IsSound run v e z = ground (arith, str_eq_iff "run" run)

-- Another worker claims the run between the read and the swap of the first try.
abbrev rival : Others
rival = record {
  before_read = λ n. [];
  before_swap = λ n. if n == 99 then changed "run" (claim_at 30 5 "other") ∷ [] else [];
}

mutate-IsAtomic_example :
    IsAtomic rival "run"
      (λ n. leased (claim_state 30 7 "mine"))
      100
      queued_jobs
      (mutate_tries 100 rival "run" (λ n. leased (claim_state 30 7 "mine")) none queued_jobs)
mutate-IsAtomic_example =
    mutate-IsAtomic rival "run" (λ n. leased (claim_state 30 7 "mine")) 100 none queued_jobs
      queued_jobs-IsSound

abbrev idle : Executor
idle = record {
  raise_after_submit_once = true;
  submission_count = 0;
  cancelled_invocations = [];
  by_run = [];
  cancel = [];
}

abbrev world : World
world = record { jobs = queued_jobs; executor = idle; sink = empty_sink }

abbrev step : RunProgress
step = record { run_id = "run"; attempt_id = "a"; sequence = 0; processed_ranges = []; body = 0 }

-- The job once it was claimed at time 7.
abbrev held : Job
held = record (initial "run") {
  revision = 1;
  fence = 1;
  attempt_id = some "a";
  lease_expires_at = some 37;
  heartbeat_at = some 7;
  state = running;
}

abbrev held_world : World
held_world = record world { jobs = ("run", held) ∷ [] }

granted : claim 30 (λ n. "a") alone 7 "run" world ≡ (ok (lease_from held), held_world)
unfolding claim mutate_tries perform_all compare_and_swap claim_state lookup insert
granted = refl

claim_fences_workers_example :
    let late = record held_world {
      jobs = perform_all (changed "run" (invoked "i") ∷ []) held_world.jobs;
    } in
    let left = record late { jobs = perform_all [] late.jobs } in
    (heartbeat 30 alone 9 "run" "a" 0 late ≡ (err stale_attempt, left))
    × (commit_progress alone step 0 late ≡ (err stale_attempt, left))
    × (finish alone "run" "a" 0 completed late ≡ (err stale_attempt, left))
claim_fences_workers_example =
    claim_fences_workers 30 (λ n. "a") alone 7 world held_world step (lease_from held)
      queued_jobs-IsSound granted (changed "run" (invoked "i") ∷ []) alone 0 (omega arith) 9 "a"
      completed refl

abbrev stopped_world : World
unfolding cancelled_state
stopped_world = record world {
  jobs = ("run", record (cancelled_state 9 (initial "run")) { revision = 1 }) ∷ [];
}

stopped : cancel alone (λ n. 9) "run" world ≡ (ok tt, stopped_world)
unfolding cancel mutate_tries perform_all compare_and_swap stopped_world cancelled_state lookup
    insert
stopped = refl

cancel_stops_workers_example :
    let late = record stopped_world { jobs = perform_all [] stopped_world.jobs } in
    let left = record late { jobs = perform_all [] late.jobs } in
    (claim 30 (λ n. "b") alone 10 "run" late ≡ (err job_conflict, left))
    × (commit_progress alone step 1 late ≡ (err stale_attempt, left))
cancel_stops_workers_example =
    cancel_stops_workers alone (λ n. 9) world stopped_world step queued_jobs-IsSound stopped []
      alone 30 (λ n. "b") 10 1

there : lookup {K = String} "run" held_world.jobs ≡ some held
unfolding lookup
there = refl

finish_overrides_cancel_example :
    let (answer, w') =
      finish alone "run" "a" 1 completed (cancel alone (λ n. 9) "run" held_world).1 in
    (answer ≡ ok tt)
    × (v' : Job) × (lookup {K = String} "run" w'.jobs ≡ some v')
    × (v'.state ≡ completed)
    × (v'.cancel_requested ≡ true)
finish_overrides_cancel_example =
    finish_overrides_cancel (λ n. 9) "run" "a" 1 completed held held_world there refl refl

abbrev seen : Event
seen = record {
  id = "e";
  run_id = "run";
  attempt_id = "a";
  start_ms = 5;
  human_review = "unreviewed";
  revision = 0;
  body = 9;
}

held_jobs-IsSound : IsSound held_world.jobs
unfolding IsSound lookup
held_jobs-IsSound run v e z = ground (arith, str_eq_iff "run" run)

alone-Respects : (n : ℕ) (ts : List Step) → Written alone n ts → All (Respects "run" 37) ts
alone-Respects n _ nothing = tt
alone-Respects _ _ before_the_read = tt
alone-Respects _ _ (round w) = alone-Respects _ _ w

again : claim 30 (λ n. "b") alone 20 "run" held_world ≡ (
  ok (lease_from held),
  record held_world { jobs = ("run", record held { revision = 2 }) ∷ [] },
)
unfolding claim mutate_tries perform_all compare_and_swap claim_state lookup insert
again = refl

lease_is_exclusive_example : ((lease_from held).fence ≡ 1) × ((lease_from held).attempt_id ≡ "a")
unfolding perform_all
lease_is_exclusive_example =
    lease_is_exclusive 30 20 37 (λ n. "b") alone "run" "a" held held_world
      (record held_world { jobs = ("run", record held { revision = 2 }) ∷ [] }) (lease_from held) []
      held_jobs-IsSound there refl refl tt (alone-Respects 100) (omega arith) again

abbrev ended : Job
ended = record held { revision = 2; state = completed; lease_expires_at = none }

ended_there : lookup {K = String} "run" (("run", ended) ∷ []) ≡ some ended
unfolding lookup
ended_there = refl

dispatching_reopens_example :
    let w = record world { jobs = ("run", ended) ∷ [] } in
    let w' = record w { jobs = perform (changed "run" to_dispatching) w.jobs } in
    ((claim 30 (λ n. "b") alone 50 "run" w).0 ≡ err job_conflict)
    × ((claim 30 (λ n. "b") alone 50 "run" w').0
        ≡ ok (record { run_id = "run"; attempt_id = "b"; fence = 2; expires_at = some 80 }))
dispatching_reopens_example =
    dispatching_reopens 30 50 "b" "run" ended (record world { jobs = ("run", ended) ∷ [] })
      ended_there refl refl refl
