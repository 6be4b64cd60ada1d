-- ===== src/Jobs/Reopening.antt =====
-- What the first write of a dispatch does to a run that has ended
-- (backend/src/vision_app/jobs/service.py).
use vision_app_creator.Prelude.{
  ℕ, ◌+◌, String, ◌≡◌, ap, ◌∙◌, true, false, none, some, arith, string_eq, lookup, insert,
  lookup-insert_self,
}
use vision_app_creator.Prelude.Results.{ok, err}
use vision_app_creator.Jobs.State.{
  Job, dispatching, job_conflict, to_dispatching, update, dispatching_state, claim_state,
  is_terminal, running,
}
use vision_app_creator.Jobs.Store.{changed, perform, perform_all}
use vision_app_creator.Jobs.Service.{World, claim, leased, answered}
use vision_app_creator.Jobs.Refusal.{alone, mutate-alone, mutate_raises}
use vision_app_creator.Prelude.Int.{negsuc}

abbrev reopened : Job → Job
reopened v = record v { state = dispatching; revision = v.revision + 1 }

reopened_jobs :
    (run : String) (v : Job) (w : World)
    → lookup run w.jobs ≡ some v
    → perform (changed run to_dispatching) w.jobs ≡ insert run (reopened v) w.jobs
unfolding perform update dispatching_state
reopened_jobs run v w here = ground arith

-- A run that has ended, has not been cancelled and has no lease is not claimed: with no other
-- writer, a claim raises JobConflict. After the write that marks a run as dispatching, which does
-- not look at the state, a claim of the same run is granted, under the next fence.
pub dispatching_reopens :
    (lease now : ℕ) (new run : String) (v : Job) (w : World)
    → lookup run w.jobs ≡ some v
    → is_terminal v.state ≡ true
    → v.cancel_requested ≡ false
    → v.lease_expires_at ≡ none
    → let w' = record w { jobs = perform (changed run to_dispatching) w.jobs } in
      ((claim lease (λ n. new) alone now run w).0 ≡ err job_conflict)
      × ((claim lease (λ n. new) alone now run w').0
          ≡ ok (record {
            run_id = v.run_id;
            attempt_id = new;
            fence = v.fence + 1;
            expires_at = some (now + lease);
          }))
unfolding claim claim_state
dispatching_reopens lease now new run v w here ended open_ free =
    let w' : World = record w { jobs = perform (changed run to_dispatching) w.jobs } in
    let there =
      ap (lookup run) (reopened_jobs run v w here) ∙ lookup-insert_self run (reopened v) w.jobs in
    let v' : Job = record (reopened v) {
      fence = v.fence + 1;
      attempt_id = some new;
      lease_expires_at = some (now + lease);
      heartbeat_at = some now;
      progress_sequence = negsuc 0;
      state = running;
    } in
    (
      ap (λ o. (answered w o).0)
          (mutate_raises alone run (λ n. leased (claim_state lease now new)) none job_conflict v
            w.jobs (unfold perform_all in here) (ground arith)),
      ap (λ o. (answered w' o).0)
          (mutate-alone run (λ n. leased (claim_state lease now new)) none
            (some (record {
              run_id = v.run_id;
              attempt_id = new;
              fence = v.fence + 1;
              expires_at = some (now + lease);
            }))
            (reopened v) v' w'.jobs there (ground arith)),
    )
