-- ===== src/Jobs/Growth.antt =====
-- What no write to a stored job undoes (backend/src/vision_app/jobs/service.py): its fence, the
-- request to cancel it, and the progress of its attempt.
use vision_app_creator.Prelude.{
  ◌≤◌, String, ◌≡◌, true, Option, none, some, List, [], ◌∷◌, arith, nat_eq, string_eq, str_eq_iff,
  lookup, lookup-insert,
}
use vision_app_creator.Prelude.Int.{◌≤ℤ◌}
use vision_app_creator.Prelude.Results.{ok}
use vision_app_creator.Jobs.State.{
  Job, initial, Update, update, claim_at, progress_to, dispatching_state, record_invocation,
  claim_state, renew, cancelled_state, commit, finish_state,
}
use vision_app_creator.Jobs.Store.{
  Jobs, compare_and_swap, Step, created, changed, perform, perform_all,
}
use vision_app_creator.Jobs.Atomic.{IsSound, perform-IsSound}

-- From one state of a job to a later one.
abbrev pub JobGrows : Job → Job → Type 0
JobGrows v v' =
    (v.fence ≤ v'.fence)
    × (v.cancel_requested ≡ true → v'.cancel_requested ≡ true)
    × (v.fence ≡ v'.fence
        → (v'.attempt_id ≡ v.attempt_id) × (v.progress_sequence ≤ℤ v'.progress_sequence))

abbrev pub Grows : Option Job → Option Job → Type 0
Grows none o = Unit
Grows (some v) none = ⊥
Grows (some v) (some v') = JobGrows v v'

Grows-trans : (a b c : Option Job) → Grows a b → Grows b c → Grows a c
Grows-trans none b c h k = tt
Grows-trans (some v) none c h k = elim h [ ]
Grows-trans (some v) (some w) none h k = elim k [ ]
Grows-trans (some v) (some w) (some x) h k = ground arith

update-Grows : (u : Update) (v v' : Job) → update u v ≡ ok v' → JobGrows v v'
unfolding update dispatching_state record_invocation claim_state renew cancelled_state commit
    finish_state
update-Grows (claim_at lease now new) v v' h = ground arith
update-Grows (progress_to p fence) v v' h = ground arith
update-Grows _ v v' h = ground arith

perform-Grows :
    (s : Step) (run : String) (jobs : Jobs)
    → IsSound jobs
    → Grows (lookup run jobs) (lookup run (perform s jobs))
unfolding perform compare_and_swap IsSound
perform-Grows (created r) run jobs h =
    grind (arith, h run, str_eq_iff r run, lookup-insert r run (initial r) jobs)
perform-Grows (changed r u) run jobs h =
    grind (arith, str_eq_iff r run, lookup-insert, update-Grows u)

pub perform_all-Grows :
    (ss : List Step) (run : String) (jobs : Jobs)
    → IsSound jobs
    → Grows (lookup run jobs) (lookup run (perform_all ss jobs))
unfolding perform_all
perform_all-Grows [] run jobs h = ground arith
perform_all-Grows (s ∷ ss) run jobs h =
    Grows-trans (lookup run jobs) (lookup run (perform s jobs)) _ (perform-Grows s run jobs h)
      (perform_all-Grows ss run (perform s jobs) (perform-IsSound s jobs h))
