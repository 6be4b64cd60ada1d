-- ===== src/Persistence/Command/Attempts.antt =====
-- The active attempt of a run changes by a claim and by nothing else.
use vision_app_creator.Prelude.{
  ℕ, String, ◌≡◌, ◌≢◌, refl, ◌∙◌, Bool, true, false, some, List, [], ◌∷◌, arith, ◌==◌, string_eq,
  str_eq_iff, lookup, lookup-insert, not,
}
use vision_app_creator.Contracts.{Event}
use vision_app_creator.Identity.{principal, workspace, unknown}
use vision_app_creator.Persistence.Value.{ok}
use vision_app_creator.Persistence.Repository.{Repository, ensured}
use vision_app_creator.Persistence.Documents.{
  compare_and_swap, delete_owned, list_owned, list_workspaces, add_immutable,
}
use vision_app_creator.Persistence.Budgets.{reserve_quota, release_reservation}
use vision_app_creator.Persistence.Apps.{create_version, publish_version}
use vision_app_creator.Persistence.Runs.{
  claim_attempt, commit_event, commit_progress, finalize_run, create_run,
  reserve_quota_and_create_run,
}
use vision_app_creator.Persistence.Events.{review_event, list_events_after, list_progress_after}
use vision_app_creator.Persistence.Deliveries.{
  create_delivery, claim_delivery, mark_delivery_dispatched,
}
use vision_app_creator.Persistence.Deletion.{mark_deletion, bump_deletion_generation}
use vision_app_creator.Persistence.Command.{Command, claim, list_all, apply, run_all}

-- The command is no claim of this run.
unfoldable pub spares : String → Command → Bool
spares run (claim j a worker fence) = not (j == run)
spares run _ = true

abbrev pub Spare : String → List Command → Type 0
Spare run [] = Unit
Spare run (c ∷ cs) = (spares run c ≡ true) × Spare run cs

list-attempts :
    (kind : String) (ws : List String) (r : Repository)
    → (list_workspaces kind ws r).1.run_active_attempts ≡ r.run_active_attempts
unfolding list_workspaces
list-attempts kind [] r = refl
list-attempts kind (w ∷ ws) r = list-attempts kind ws (ensured w kind r)

apply-attempt :
    (c : Command) (run : String) (r : Repository)
    → spares run c ≡ true
    → lookup run (apply c r).run_active_attempts ≡ lookup run r.run_active_attempts
unfolding spares apply compare_and_swap delete_owned list_owned add_immutable reserve_quota
    release_reservation create_version publish_version reserve_quota_and_create_run create_run
    claim_attempt commit_event commit_progress finalize_run review_event list_events_after
    list_progress_after create_delivery claim_delivery mark_delivery_dispatched mark_deletion
    bump_deletion_generation
apply-attempt (claim j a worker fence) run r h =
    ground (arith, lookup-insert j run a r.run_active_attempts)
apply-attempt (list_all kind unknown) run r h = refl
apply-attempt (list_all kind (workspace w)) run r h = ground (arith, list-attempts kind (w ∷ []) r)
apply-attempt (list_all kind (principal p)) run r h =
    ground (arith, list-attempts kind p.workspace_ids r)
apply-attempt _ run r h = ground arith

run_all-attempt :
    (cs : List Command) (run : String) (r : Repository)
    → Spare run cs
    → lookup run (run_all cs r).run_active_attempts ≡ lookup run r.run_active_attempts
unfolding run_all
run_all-attempt [] run r h = refl
run_all-attempt (c ∷ cs) run r h =
    run_all-attempt cs run (apply c r) h.1 ∙ apply-attempt c run r h.0

claim_activates :
    (run a worker : String) (fence : ℕ) (r : Repository)
    → (claim_attempt run a worker fence r).0 ≡ ok true
    → lookup run (claim_attempt run a worker fence r).1.run_active_attempts ≡ some a
unfolding claim_attempt
claim_activates run a worker fence r h =
    ground (arith, str_eq_iff run run, lookup-insert run run a r.run_active_attempts)

inactive_event :
    (run b : String) {a : String} (fence : ℕ) (e : Event) (r : Repository)
    → lookup run r.run_active_attempts ≡ some a
    → a ≢ b
    → commit_event run b fence e r ≡ (false, r)
unfolding commit_event
inactive_event run b {a} fence e r h ne = ground (arith, str_eq_iff a b)

inactive_final :
    (run b : String) {a : String} (r : Repository)
    → lookup run r.run_active_attempts ≡ some a
    → a ≢ b
    → finalize_run run b r ≡ (ok false, r)
unfolding finalize_run
inactive_final run b {a} r h ne = ground (arith, str_eq_iff a b)

-- After a claim of a run is granted, and until another claim of that run, every other attempt is
-- refused, however high its fence: it can neither commit an event nor finalize the run, and the
-- refused calls change nothing.
pub claim_supersedes :
    (run a worker : String) (fence : ℕ) (r : Repository)
    → (claim_attempt run a worker fence r).0 ≡ ok true
    → (cs : List Command) → Spare run cs
    → (b : String) (g : ℕ) (e : Event) → a ≢ b
    → let r' = run_all cs (claim_attempt run a worker fence r).1 in
      (commit_event run b g e r' ≡ (false, r')) × (finalize_run run b r' ≡ (ok false, r'))
claim_supersedes run a worker fence r h cs quiet b g e ne =
    let r1 = (claim_attempt run a worker fence r).1 in
    let active : lookup run (run_all cs r1).run_active_attempts ≡ some a =
      run_all-attempt cs run r1 quiet ∙ claim_activates run a worker fence r h in
    (
      inactive_event run b g e (run_all cs r1) active ne,
      inactive_final run b (run_all cs r1) active ne,
    )
