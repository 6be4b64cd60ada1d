-- ===== src/Persistence/Command/Fences.antt =====
-- The fence of a run only grows, and what it keeps out.
use vision_app_creator.Prelude.{
  ℕ, ◌≤◌, ◌<◌, ◌+◌, max, String, ◌≡◌, refl, true, false, List, [], ◌∷◌, arith, string_eq,
  str_eq_iff, lookup_or-insert,
}
use vision_app_creator.Contracts.{Event, RunProgress}
use vision_app_creator.Identity.{principal, workspace, unknown}
use vision_app_creator.Persistence.Value.{ok}
use vision_app_creator.Persistence.Repository.{Repository, ensured}
use vision_app_creator.Persistence.Runs.{
  fence_of, claim_attempt, commit_event, commit_progress, finalize_run, create_run,
  reserve_quota_and_create_run,
}
use vision_app_creator.Persistence.Documents.{
  compare_and_swap, delete_owned, list_owned, list_workspaces, add_immutable,
}
use vision_app_creator.Persistence.Budgets.{reserve_quota, release_reservation}
use vision_app_creator.Persistence.Apps.{create_version, publish_version}
use vision_app_creator.Persistence.Events.{review_event, list_events_after, list_progress_after}
use vision_app_creator.Persistence.Deliveries.{
  create_delivery, claim_delivery, mark_delivery_dispatched,
}
use vision_app_creator.Persistence.Deletion.{mark_deletion, bump_deletion_generation}
use vision_app_creator.Persistence.Command.{
  Command, claim, event, progress, list_all, apply, run_all,
}

claim-fence :
    (run a worker : String) (fence : ℕ) (j : String) (r : Repository)
    → fence_of j r ≤ fence_of j (claim_attempt run a worker fence r).1
unfolding claim_attempt
claim-fence run a worker fence j r = ground (
  arith,
  str_eq_iff run j,
  lookup_or-insert run j (max fence (fence_of run r + 1)) 0 r.run_fences,
)

event-fence :
    (run a : String) (fence : ℕ) (e : Event) (j : String) (r : Repository)
    → fence_of j r ≤ fence_of j (commit_event run a fence e r).1
unfolding commit_event
event-fence run a fence e j r =
    ground (arith, str_eq_iff run j, lookup_or-insert run j fence 0 r.run_fences)

progress-fence :
    (run a : String) (fence : ℕ) (p : RunProgress) (j : String) (r : Repository)
    → fence_of j r ≤ fence_of j (commit_progress run a fence p r).1
unfolding commit_progress
progress-fence run a fence p j r =
    ground (arith, str_eq_iff run j, lookup_or-insert run j fence 0 r.run_fences)

list-fences :
    (kind : String) (ws : List String) (r : Repository)
    → (list_workspaces kind ws r).1.run_fences ≡ r.run_fences
unfolding list_workspaces
list-fences kind [] r = refl
list-fences kind (w ∷ ws) r = list-fences kind ws (ensured w kind r)

-- No call lowers the fence of any run.
pub apply-fence :
    (c : Command) (j : String) (r : Repository) → fence_of j r ≤ fence_of j (apply c r)
unfolding apply compare_and_swap delete_owned list_owned add_immutable reserve_quota
    release_reservation create_version publish_version reserve_quota_and_create_run create_run
    finalize_run review_event list_events_after list_progress_after create_delivery claim_delivery
    mark_delivery_dispatched mark_deletion bump_deletion_generation
apply-fence (claim run a worker fence) j r = claim-fence run a worker fence j r
apply-fence (event run a fence e) j r = event-fence run a fence e j r
apply-fence (progress run a fence p) j r = progress-fence run a fence p j r
apply-fence (list_all kind unknown) j r = ground arith
apply-fence (list_all kind (workspace w)) j r = ground (arith, list-fences kind (w ∷ []) r)
apply-fence (list_all kind (principal p)) j r = ground (arith, list-fences kind p.workspace_ids r)
apply-fence _ j r = ground arith

run_all-fence :
    (cs : List Command) (j : String) (r : Repository) → fence_of j r ≤ fence_of j (run_all cs r)
unfolding run_all
run_all-fence [] j r = omega arith
run_all-fence (c ∷ cs) j r = omega (arith, apply-fence c j r, run_all-fence cs j (apply c r))

-- A claim that is granted leaves a fence above the one before it.
claim_raises_fence :
    (run a worker : String) (fence : ℕ) (r : Repository)
    → (claim_attempt run a worker fence r).0 ≡ ok true
    → fence_of run r < fence_of run (claim_attempt run a worker fence r).1
unfolding claim_attempt
claim_raises_fence run a worker fence r h = ground (
  arith,
  str_eq_iff run run,
  lookup_or-insert run run (max fence (fence_of run r + 1)) 0 r.run_fences,
)

stale_event :
    (run a : String) (fence : ℕ) (e : Event) (r : Repository)
    → fence < fence_of run r
    → commit_event run a fence e r ≡ (false, r)
unfolding commit_event
stale_event run a fence e r h = ground arith

stale_progress :
    (run a : String) (fence : ℕ) (p : RunProgress) (r : Repository)
    → fence < fence_of run r
    → commit_progress run a fence p r ≡ (false, r)
unfolding commit_progress
stale_progress run a fence p r h = ground arith

-- Once an attempt of a run has been claimed, a worker that still holds a fence from before the
-- claim can commit neither an event nor progress of that run, under any attempt id and after any
-- further calls: both commits answer False and change nothing.
pub claim_fences_out :
    (run a worker : String) (fence : ℕ) (r : Repository)
    → (claim_attempt run a worker fence r).0 ≡ ok true
    → (cs : List Command) (b : String) (old : ℕ) (e : Event) (p : RunProgress)
    → old ≤ fence_of run r
    → let r' = run_all cs (claim_attempt run a worker fence r).1 in
      (commit_event run b old e r' ≡ (false, r')) × (commit_progress run b old p r' ≡ (false, r'))
claim_fences_out run a worker fence r h cs b old e p le =
    let r1 = (claim_attempt run a worker fence r).1 in
    let behind : old < fence_of run (run_all cs r1) =
      omega (arith, claim_raises_fence run a worker fence r h, run_all-fence cs run r1) in
    (
      stale_event run b old e (run_all cs r1) behind,
      stale_progress run b old p (run_all cs r1) behind,
    )
