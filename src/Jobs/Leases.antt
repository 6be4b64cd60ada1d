-- ===== src/Jobs/Leases.antt =====
-- One attempt at a time: what a live lease keeps out (backend/src/vision_app/jobs/service.py).
use vision_app_creator.Prelude.{
  ℕ, ◌+◌, ◌≤◌, ◌<◌, String, ◌≡◌, refl, subst, sym, ◌∙◌, ◌==◌, Bool-cases, inl, inr, Option, none,
  some, List, [], ◌∷◌, arith, string_eq, str_eq_iff, All, lookup, lookup-insert, false,
}
use vision_app_creator.Prelude.Results.{Result, ok, err}
use vision_app_creator.Jobs.State.{
  Job, JobError, AttemptLease, initial, Update, to_dispatching, invoked, claim_at, renew_at,
  cancel_at, progress_to, finish_as, update, dispatching_state, record_invocation, claim_state,
  renew, cancelled_state, commit, finish_state,
}
use vision_app_creator.Jobs.Store.{
  Jobs, compare_and_swap, Step, created, changed, perform, perform_all, Others,
}
use vision_app_creator.Jobs.Service.{World, claim, leased, answered}
use vision_app_creator.Jobs.Atomic.{
  IsSound, perform-IsSound, perform_all-IsSound, Written, IsAtomic, mutate-IsAtomic,
}

-- The write happens before the lease ends: no claim after it, no renewal to an earlier end, and
-- neither a cancellation nor the end of the run.
abbrev pub LeavesLease : ℕ → Update → Type 0
LeavesLease end (claim_at lease now new) = now < end
LeavesLease end (renew_at lease now a fence) = end ≤ now + lease
LeavesLease end (cancel_at now) = ⊥
LeavesLease end (finish_as a fence s) = ⊥
LeavesLease end _ = Unit

abbrev pub Respects : String → ℕ → Step → Type 0
Respects run end (created r) = Unit
Respects run end (changed r u) = r ≡ run → LeavesLease end u

-- The attempt holds the run under this fence, until this time at least.
abbrev HoldsJob : String → ℕ → ℕ → Job → Type 0
HoldsJob a fence end v =
    (v.attempt_id ≡ some a)
    × (v.fence ≡ fence)
    × (e : ℕ) × (v.lease_expires_at ≡ some e)
    × (end ≤ e)

abbrev Holds : String → ℕ → ℕ → Option Job → Type 0
Holds a fence end none = ⊥
Holds a fence end (some v) = HoldsJob a fence end v

module _ (run a : String) (fence end : ℕ) where
  update-HoldsJob :
      (u : Update) (v v' : Job)
      → LeavesLease end u
      → HoldsJob a fence end v
      → update u v ≡ ok v'
      → Holds a fence end (some v')
  unfolding update dispatching_state record_invocation claim_state renew cancelled_state commit
      finish_state
  update-HoldsJob (claim_at lease now new) v v' s (at, f, e, exp, le) h =
      (ground arith, ground arith, e, ground arith, le)
  update-HoldsJob (renew_at lease now b g) v v' s (at, f, e, exp, le) h =
      (ground arith, ground arith, now + lease, ground arith, s)
  update-HoldsJob (cancel_at now) v v' s held h = elim s [ ]
  update-HoldsJob (finish_as b g st) v v' s held h = elim s [ ]
  update-HoldsJob (progress_to p g) v v' s (at, f, e, exp, le) h =
      (ground arith, ground arith, e, ground arith, le)
  update-HoldsJob to_dispatching v v' s (at, f, e, exp, le) h =
      (ground arith, ground arith, e, ground arith, le)
  update-HoldsJob (invoked i) v v' s (at, f, e, exp, le) h =
      (ground arith, ground arith, e, ground arith, le)

  created_same :
      (r : String) (v : Job) (jobs : Jobs)
      → IsSound jobs
      → lookup run jobs ≡ some v
      → v.attempt_id ≡ some a
      → lookup run (perform (created r) jobs) ≡ some v
  unfolding perform compare_and_swap IsSound
  created_same r v jobs h here at =
      grind (arith, h run v here, str_eq_iff r run, lookup-insert r run (initial r) jobs)

  changed_other :
      (r : String) (u : Update) (jobs : Jobs)
      → (r == run) ≡ false
      → lookup run (perform (changed r u) jobs) ≡ lookup run jobs
  unfolding perform
  changed_other r u jobs e = grind (arith, str_eq_iff r run, lookup-insert)

  changed_own :
      (u : Update) (v v' : Job) (jobs : Jobs)
      → lookup run jobs ≡ some v
      → update u v ≡ ok v'
      → lookup run (perform (changed run u) jobs) ≡ some (record v' { revision = v.revision + 1 })
  unfolding perform
  changed_own u v v' jobs here e = grind (arith, str_eq_iff run run, lookup-insert)

  changed_refused :
      (u : Update) (v : Job) (x : JobError) (jobs : Jobs)
      → lookup run jobs ≡ some v
      → update u v ≡ err x
      → lookup run (perform (changed run u) jobs) ≡ some v
  unfolding perform
  changed_refused u v x jobs here e = ground arith

  -- The job that a lookup found.
  abbrev HeldIn : Jobs → Type 0
  HeldIn jobs = (v : Job) × (lookup run jobs ≡ some v) × HoldsJob a fence end v

  own-HeldIn :
      (u : Update) (v : Job) (jobs : Jobs) (o : Result JobError Job)
      → update u v ≡ o
      → LeavesLease end u
      → lookup run jobs ≡ some v
      → HoldsJob a fence end v
      → HeldIn (perform (changed run u) jobs)
  own-HeldIn u v jobs (err x) e s here h = (v, changed_refused u v x jobs here e, h)
  own-HeldIn u v jobs (ok v') e s here h = (
    record v' { revision = v.revision + 1 },
    changed_own u v v' jobs here e,
    update-HoldsJob u v v' s h e,
  )

  perform-HeldIn :
      (s : Step) (jobs : Jobs)
      → IsSound jobs
      → Respects run end s
      → HeldIn jobs
      → HeldIn (perform s jobs)
  perform-HeldIn (created r) jobs sound s (v, here, h) =
      (v, created_same r v jobs sound here h.0, h)
  perform-HeldIn (changed r u) jobs sound s (v, here, h) = elim (Bool-cases (r == run)) [
    | inl e ↦
        let same : run ≡ r = sym ((str_eq_iff r run).0 e) in
        subst (λ k. HeldIn (perform (changed k u) jobs)) same
          (own-HeldIn u v jobs (update u v) refl (s (sym same)) here h)
    | inr e ↦ (v, changed_other r u jobs e ∙ here, h)
  ]

  perform_all-HeldIn :
      (ss : List Step) (jobs : Jobs)
      → IsSound jobs
      → All (Respects run end) ss
      → HeldIn jobs
      → HeldIn (perform_all ss jobs)
  unfolding perform_all
  perform_all-HeldIn [] jobs sound s h = h
  perform_all-HeldIn (x ∷ ss) jobs sound s h =
      perform_all-HeldIn ss (perform x jobs) (perform-IsSound x jobs sound) s.1
        (perform-HeldIn x jobs sound s.0 h)

  held_claim :
      (lease now : ℕ) (new : String) (v v' : Job) (b : Option AttemptLease) (l : AttemptLease)
      → HoldsJob a fence end v
      → now < end
      → leased (claim_state lease now new) b v ≡ ok (some l, v')
      → (l.fence ≡ fence) × (l.attempt_id ≡ a)
  unfolding claim_state
  held_claim lease now new v v' b l (at, f, e, exp, le) lt h = ground arith

  module _ (lease now : ℕ) (ids : ℕ → String) (others : Others) (w w' : World)
      (l : AttemptLease) where
    claimed_same :
        (o : Result JobError (Option AttemptLease) × Jobs)
        → IsSound w.jobs
        → HeldIn w.jobs
        → ((ss : List Step) → Written others 100 ss → All (Respects run end) ss)
        → now < end
        → IsAtomic others run (λ n. leased (claim_state lease now (ids n))) 100 w.jobs o
        → answered w o ≡ (ok l, w')
        → (l.fence ≡ fence) × (l.attempt_id ≡ a)
    unfolding IsAtomic
    claimed_same (ok (some l'), jobs') sound h good lt (ss, written, k, b, v, v', here, ran, e)
          done =
        let (v2, there, held2) = perform_all-HeldIn ss w.jobs sound (good ss written) h in
        let same_job : v2 ≡ v = ground arith in
        let same : l' ≡ l = ground arith in
        let (f, g) =
          held_claim lease now (ids k) v v' b l' (subst (HoldsJob a fence end) same_job held2) lt
            ran in
        (ground arith, ground arith)
    claimed_same (ok none, jobs') sound h good lt h' done = ground arith
    claimed_same (err x, jobs') sound h good lt h' done = ground arith

-- At most one attempt works on a run: while a lease lasts, a claim that answers, by anyone and after
-- any writes, answers the lease of the attempt that holds it. The writes are those before the claim
-- and those that others make while it runs; they come before the lease ends, renew it to no earlier
-- end, and neither cancel nor finish the run. (The store is one whose jobs of revision 0 are the
-- initial ones.)
pub lease_is_exclusive :
    (lease now end : ℕ) (ids : ℕ → String) (others : Others) (run a : String) (v : Job)
    (w w' : World) (l : AttemptLease) (ss : List Step)
    → IsSound w.jobs
    → lookup run w.jobs ≡ some v
    → v.attempt_id ≡ some a
    → v.lease_expires_at ≡ some end
    → All (Respects run end) ss
    → ((ts : List Step) → Written others 100 ts → All (Respects run end) ts)
    → now < end
    → claim lease ids others now run (record w { jobs = perform_all ss w.jobs }) ≡ (ok l, w')
    → (l.fence ≡ v.fence) × (l.attempt_id ≡ a)
unfolding claim
lease_is_exclusive lease now end ids others run a v w w' l ss sound here at exp s good lt done =
    let jobs = perform_all ss w.jobs in
    let sound' = perform_all-IsSound ss w.jobs sound in
    let held =
      perform_all-HeldIn run a v.fence end ss w.jobs sound s
        (v, here, (at, refl, end, exp, omega arith)) in
    claimed_same run a v.fence end lease now ids others (record w { jobs = jobs }) w' l _ sound'
      held good lt
      (mutate-IsAtomic others run (λ n. leased (claim_state lease now (ids n))) 100 none jobs
        sound')
      done
