-- ===== src/Persistence/Command/Isolation.antt =====
-- A call made for a caller changes only the documents and the budgets of the caller's workspaces.
use vision_app_creator.Prelude.{
  String, ◌≡◌, refl, ◌∙◌, ap, lookup_or, true, false, Option, none, some, List, [], ◌∷◌, arith,
  string_eq, str_eq_iff, lookup_or-insert,
}
use vision_app_creator.Prelude.Int.{ℤ, pos, ◌-ℤ◌}
use vision_app_creator.Identity.{Principal, Caller, principal, workspace, unknown, allowed}
use vision_app_creator.Persistence.Value.{Value}
use vision_app_creator.Persistence.Docs.{Doc, Store, get_doc, put_doc}
use vision_app_creator.Persistence.Docs.Laws.{get_doc-put_doc, get_doc-ensure}
use vision_app_creator.Persistence.Repository.{Repository, ensured}
use vision_app_creator.Persistence.Documents.{delete_owned, list_owned, list_workspaces}
use vision_app_creator.Persistence.Budgets.{budget, charge, reserve_quota}
use vision_app_creator.Persistence.Apps.{create_version, publish_version}
use vision_app_creator.Persistence.Runs.{create_run, reserve_quota_and_create_run}
use vision_app_creator.Persistence.Events.{review_event}
use vision_app_creator.Persistence.Deliveries.{
  create_delivery, claim_delivery, mark_delivery_dispatched,
}
use vision_app_creator.Persistence.Deletion.{mark_deletion, bump_deletion_generation}
use vision_app_creator.Persistence.Command.{
  Command, delete, list_all, reserve, new_version, publish, reserve_run, new_run, review,
  new_delivery, take_delivery, mark_dispatched, mark_deleting, bump_generation, apply,
}

-- The caller that a call is made for, where its method takes one.
abbrev pub caller_of : Command → Option Caller
caller_of (delete kind i p) = some (principal p)
caller_of (list_all kind c) = some c
caller_of (reserve w m i c) = some c
caller_of (new_version a n v c) = some c
caller_of (publish a v n c) = some c
caller_of (reserve_run w m i run c key) = some c
caller_of (new_run run c key) = some c
caller_of (review run e n text c) = some c
caller_of (new_delivery e d c) = some c
caller_of (take_delivery i c) = some c
caller_of (mark_dispatched i c) = some c
caller_of (mark_deleting kind i g c) = some c
caller_of (bump_generation kind i c) = some c
caller_of _ = none

-- A write in a workspace that the caller may use leaves the other ones.
outside_write :
    (caller : Caller) (v c j : String) (d : Doc) (s : Store) (w k i : String)
    → allowed caller v ≡ true
    → allowed caller w ≡ false
    → get_doc w k i (put_doc v c j d s) ≡ get_doc w k i s
outside_write caller v c j d s w k i a b =
    ground (arith, get_doc-put_doc v c j w k i d s, str_eq_iff v w)

module _ (w k i : String) where
  list_keeps :
      (kind : String) (ws : List String) (r : Repository)
      → get_doc w k i (list_workspaces kind ws r).1.store ≡ get_doc w k i r.store
  unfolding list_workspaces
  list_keeps kind [] r = refl
  list_keeps kind (v ∷ ws) r =
      list_keeps kind ws (ensured v kind r) ∙ get_doc-ensure v kind w k i r.store

  delete_keeps :
      (kind j : String) (p : Principal) (r : Repository)
      → allowed (principal p) w ≡ false
      → get_doc w k i (delete_owned kind j p r).1.store ≡ get_doc w k i r.store
  unfolding delete_owned allowed
  delete_keeps kind j p r out = grind (arith, outside_write (principal p))

  apply_keeps :
      (c : Command) {caller : Caller} (r : Repository)
      → caller_of c ≡ some caller
      → allowed caller w ≡ false
      → get_doc w k i (apply c r).store ≡ get_doc w k i r.store
  unfolding apply list_owned reserve_quota create_version publish_version
      reserve_quota_and_create_run create_run review_event create_delivery claim_delivery
      mark_delivery_dispatched mark_deletion bump_deletion_generation
  apply_keeps (delete kind j p) {caller} r h out = delete_keeps kind j p r (ground arith)
  apply_keeps (list_all kind unknown) r h out = refl
  apply_keeps (list_all kind (workspace v)) r h out = list_keeps kind (v ∷ []) r
  apply_keeps (list_all kind (principal p)) r h out = list_keeps kind p.workspace_ids r
  apply_keeps _ r h out = grind (arith, get_doc-ensure, outside_write)

list_budgets :
    (kind : String) (ws : List String) (r : Repository)
    → (list_workspaces kind ws r).1.budgets ≡ r.budgets
unfolding list_workspaces
list_budgets kind [] r = refl
list_budgets kind (v ∷ ws) r = list_budgets kind ws (ensured v kind r)

module _ (w : String) where
  charge_outside :
      (caller : Caller) (v : String) (m : ℤ) (j : String) (r : Repository)
      → allowed caller v ≡ true
      → allowed caller w ≡ false
      → budget w (charge v m j r) ≡ budget w r
  unfolding charge
  charge_outside caller v m j r a b =
      ground (arith, str_eq_iff v w, lookup_or-insert v w (budget v r -ℤ m) (pos 0) r.budgets)

  reserve_outside :
      (caller : Caller) (v : String) (m : ℤ) (j : String) (r : Repository)
      → allowed caller w ≡ false
      → budget w (reserve_quota v m j caller r).1 ≡ budget w r
  reserve_outside caller v m j r out =
      unfold reserve_quota in grind (arith, charge_outside caller v m j r)

  reserve_run_outside :
      (caller : Caller) (v : String) (m : ℤ) (j : String) (run : Value) (key : String)
      (r : Repository)
      → allowed caller w ≡ false
      → budget w (reserve_quota_and_create_run v m j run caller key r).1 ≡ budget w r
  reserve_run_outside caller v m j run key r out =
      unfold reserve_quota_and_create_run in grind (arith, charge_outside caller v m j r)

  keeps_budget :
      (c : Command) {caller : Caller} (r : Repository)
      → caller_of c ≡ some caller
      → allowed caller w ≡ false
      → budget w (apply c r) ≡ budget w r
  unfolding apply delete_owned list_owned create_version publish_version create_run review_event
      create_delivery claim_delivery mark_delivery_dispatched mark_deletion bump_deletion_generation
  keeps_budget (reserve v m j c) r h out = reserve_outside c v m j r (ground arith)
  keeps_budget (reserve_run v m j run c key) r h out =
      reserve_run_outside c v m j run key r (ground arith)
  keeps_budget (list_all kind unknown) r h out = refl
  keeps_budget (list_all kind (workspace v)) r h out =
      ap (λ b. lookup_or w (pos 0) b) (list_budgets kind (v ∷ []) r)
  keeps_budget (list_all kind (principal p)) r h out =
      ap (λ b. lookup_or w (pos 0) b) (list_budgets kind p.workspace_ids r)
  keeps_budget _ r h out = ground arith

-- A call made for a caller leaves every document and the budget of each workspace that the caller
-- is no member of as they were, whatever the call and its arguments.
pub isolation :
    (c : Command) (caller : Caller) (r : Repository) (w k i : String)
    → caller_of c ≡ some caller
    → allowed caller w ≡ false
    → (get_doc w k i (apply c r).store ≡ get_doc w k i r.store)
      × (budget w (apply c r) ≡ budget w r)
isolation c caller r w k i h out = (apply_keeps w k i c r h out, keeps_budget w c r h out)
