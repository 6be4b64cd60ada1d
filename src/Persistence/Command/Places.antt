-- ===== src/Persistence/Command/Places.antt =====
-- Every call keeps the workspaces of the store distinct, as a Python dict does by itself.
use vision_app_creator.Prelude.{String, List, [], ◌∷◌, arith, string_eq, Distinct}
use vision_app_creator.Persistence.Docs.Laws.{put_doc-Distinct, ensure-Distinct}
use vision_app_creator.Identity.{principal, workspace, unknown}
use vision_app_creator.Persistence.Repository.{Repository, ensured}
use vision_app_creator.Persistence.Documents.{
  compare_and_swap, delete_owned, list_owned, list_workspaces, add_immutable,
}
use vision_app_creator.Persistence.Budgets.{reserve_quota, release_reservation}
use vision_app_creator.Persistence.Apps.{create_version, publish_version}
use vision_app_creator.Persistence.Runs.{
  claim_attempt, commit_event, commit_progress, finalize_run, create_run,
  reserve_quota_and_create_run,
}
use vision_app_creator.Persistence.Events.{review_event, list_events_after, list_progress_after}
use vision_app_creator.Persistence.Deliveries.{
  create_delivery, claim_delivery, mark_delivery_dispatched,
}
use vision_app_creator.Persistence.Deletion.{mark_deletion, bump_deletion_generation}
use vision_app_creator.Persistence.Command.{Command, list_all, apply, run_all}

list-Distinct :
    (kind : String) (ws : List String) (r : Repository)
    → Distinct r.store
    → Distinct (list_workspaces kind ws r).1.store
unfolding list_workspaces
list-Distinct kind [] r h = h
list-Distinct kind (v ∷ ws) r h =
    list-Distinct kind ws (ensured v kind r) (ensure-Distinct v kind r.store h)

pub apply-Distinct : (c : Command) (r : Repository) → Distinct r.store → Distinct (apply c r).store
unfolding apply compare_and_swap delete_owned list_owned add_immutable reserve_quota
    release_reservation create_version publish_version reserve_quota_and_create_run create_run
    claim_attempt commit_event commit_progress finalize_run review_event list_events_after
    list_progress_after create_delivery claim_delivery mark_delivery_dispatched mark_deletion
    bump_deletion_generation
apply-Distinct (list_all kind unknown) r h = h
apply-Distinct (list_all kind (workspace v)) r h = list-Distinct kind (v ∷ []) r h
apply-Distinct (list_all kind (principal p)) r h = list-Distinct kind p.workspace_ids r h
apply-Distinct _ r h = grind (arith, put_doc-Distinct, ensure-Distinct)

pub run_all-Distinct :
    (cs : List Command) (r : Repository) → Distinct r.store → Distinct (run_all cs r).store
unfolding run_all
run_all-Distinct [] r h = h
run_all-Distinct (c ∷ cs) r h = run_all-Distinct cs (apply c r) (apply-Distinct c r h)
