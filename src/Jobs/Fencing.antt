-- ===== src/Jobs/Fencing.antt =====
-- What a claim and a cancellation keep out (backend/src/vision_app/jobs/service.py).
use vision_app_creator.Prelude.{
  ℕ, ◌+◌, ◌<◌, String, ◌≡◌, ap, false, Option, none, some, List, arith, nat_eq, string_eq, lookup,
  insert, lookup-insert_self, subst, sym, ◌∙◌,
}
use vision_app_creator.Prelude.Results.{Result, ok, err}
use vision_app_creator.Contracts.{RunProgress}
use vision_app_creator.Jobs.State.{
  Job, JobState, JobError, stale_attempt, AttemptLease, lease_from, claim_state, renew, commit,
  finish_state,
}
use vision_app_creator.Jobs.Store.{Jobs, Step, perform_all, Others}
use vision_app_creator.Jobs.Service.{
  World, claim, heartbeat, commit_progress, finish, answered, leased, finished, finishing,
  is_refused, emitted,
}
use vision_app_creator.Jobs.Atomic.{
  IsSound, perform_all-IsSound, insert-IsSound, IsAtomic, mutate-IsAtomic,
}
use vision_app_creator.Jobs.Refusal.{mutate_raises_when, met, FencedOff, fenced_at}

-- With the fence behind, every write of a worker raises.
module _ (others : Others) (run : String) (old : ℕ) (w : World) where
  module _ (h : (v : Job) × (lookup run (met others w) ≡ some v) × (old < v.fence)) where
    heartbeat_refused :
        (lease now : ℕ) (a : String)
        → heartbeat lease others now run a old w
          ≡ (err stale_attempt, record w { jobs = met others w })
    unfolding heartbeat renew
    heartbeat_refused lease now a = ap (answered w) (
        mutate_raises_when others run (λ n. leased (renew lease now a old)) none w.jobs
          stale_attempt (FencedOff old) (λ v lt. ground arith) h)

    finish_refused :
        (a : String) (s : JobState)
        → is_refused s ≡ false
        → finish others run a old s w ≡ (err stale_attempt, record w { jobs = met others w })
    unfolding finish finish_state
    finish_refused a s e = rw e (
        ap (finished w) (
          mutate_raises_when others run (λ n u. finishing a old s) tt w.jobs stale_attempt
            (FencedOff old) (λ v lt. ground arith) h))

progress_refused :
    (others : Others) (p : RunProgress) (old : ℕ) (w : World)
    → (v : Job) × (lookup p.run_id (met others w) ≡ some v) × (old < v.fence)
    → commit_progress others p old w ≡ (err stale_attempt, record w { jobs = met others w })
unfolding commit_progress commit
progress_refused others p old w h = ap (emitted p old w) (
    mutate_raises_when others p.run_id (λ n. commit p old) false w.jobs stale_attempt
      (FencedOff old) (λ v lt. ground arith) h)

leased_lease :
    (lease now : ℕ) (new : String) (b : Option AttemptLease) (l : AttemptLease) (v v' : Job)
    → leased (claim_state lease now new) b v ≡ ok (some l, v')
    → l ≡ lease_from v'
unfolding claim_state
leased_lease lease now new b l v v' h = ground arith

module _ (lease : ℕ) (ids : ℕ → String) (others : Others) (now : ℕ) (run : String) (w w' : World)
    (l : AttemptLease) where
  granted :
      (o : Result JobError (Option AttemptLease) × Jobs)
      → IsSound w.jobs
      → IsAtomic others run (λ k. leased (claim_state lease now (ids k))) 100 w.jobs o
      → answered w o ≡ (ok l, w')
      → (v : Job) × (lookup run w'.jobs ≡ some v) × (l ≡ lease_from v) × IsSound w'.jobs
  unfolding IsAtomic
  granted (ok (some l'), jobs') sound (ss, written, k, b, v, v', here, ran, e) h =
      let v2 : Job = record v' { revision = v.revision + 1 } in
      let same : jobs' ≡ w'.jobs = ground arith in
      let stored : w'.jobs ≡ insert run v2 (perform_all ss w.jobs) = sym same ∙ e in
      (
        v2,
        ap (lookup run) stored ∙ lookup-insert_self run v2 (perform_all ss w.jobs),
        ground (arith, leased_lease lease now (ids k) b l' v v' ran),
        subst IsSound (sym stored) (
            insert-IsSound run v.revision v' (perform_all ss w.jobs)
              (perform_all-IsSound ss w.jobs sound)),
      )
  granted (ok none, jobs') sound (ss, written, k, b, v, v', here, ran, e) h = ground arith
  granted (err x, jobs') sound (ss, written, e) h = ground arith

  claim_grants :
      IsSound w.jobs
      → claim lease ids others now run w ≡ (ok l, w')
      → (v : Job) × (lookup run w'.jobs ≡ some v) × (l ≡ lease_from v) × IsSound w'.jobs
  unfolding claim
  claim_grants sound h = granted _ sound (mutate-IsAtomic others run _ 100 none w.jobs sound) h

-- After a claim has answered with a lease, whatever other services then write, a worker whose fence
-- is below the lease's can neither renew nor commit progress nor finish the run: each call raises
-- StaleAttempt and leaves the store as the others wrote it. (The store is one whose jobs of
-- revision 0 are the initial ones, as every store is that the service has written.)
pub claim_fences_workers :
    (lease : ℕ) (ids : ℕ → String) (others : Others) (now : ℕ) (w w' : World) (p : RunProgress)
    (l : AttemptLease)
    → IsSound w.jobs
    → claim lease ids others now p.run_id w ≡ (ok l, w')
    → (ss : List Step) (others' : Others) (old : ℕ) → old < l.fence
    → (now' : ℕ) (a : String) (s : JobState) → is_refused s ≡ false
    → let late = record w' { jobs = perform_all ss w'.jobs } in
      let left = record late { jobs = perform_all (others'.before_read 99) late.jobs } in
      (heartbeat lease others' now' p.run_id a old late ≡ (err stale_attempt, left))
      × (commit_progress others' p old late ≡ (err stale_attempt, left))
      × (finish others' p.run_id a old s late ≡ (err stale_attempt, left))
claim_fences_workers lease ids others now w w' p l sound h ss others' old lt now' a s e =
    let (v, here, e', sound') = claim_grants lease ids others now p.run_id w w' l sound h in
    let above : old < v.fence = ground arith in
    let late = record w' { jobs = perform_all ss w'.jobs } in
    let (v2, there, above2) = fenced_at ss p.run_id old v w'.jobs sound' here above in
    let fenced =
      fenced_at (others'.before_read 99) p.run_id old v2 late.jobs
        (perform_all-IsSound ss w'.jobs sound') there above2 in
    (
      heartbeat_refused others' p.run_id old late fenced lease now' a,
      progress_refused others' p old late fenced,
      finish_refused others' p.run_id old late fenced a s e,
    )
