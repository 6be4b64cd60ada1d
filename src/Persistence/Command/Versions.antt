-- ===== src/Persistence/Command/Versions.antt =====
-- A stored version keeps its content.
use vision_app_creator.Prelude.{
  ℕ, String, Distinct, ◌≡◌, refl, ◌∙◌, ap, false, Option, none, some, List, [], ◌∷◌, arith, ◌==◌,
  string_eq, str_eq_iff, contains,
}
use vision_app_creator.Identity.{Caller, principal, workspace, unknown}
use vision_app_creator.Persistence.Value.{Value, Attr}
use vision_app_creator.Persistence.Docs.{Doc, Store, docs, get_doc, put_doc, find_doc}
use vision_app_creator.Persistence.Docs.Laws.{
  get_doc-put_doc, get_doc-ensure, get_doc_of_find_doc, free_place,
}
use vision_app_creator.Persistence.Repository.{Repository, ensured}
use vision_app_creator.Persistence.Documents.{
  compare_and_swap, delete_owned, list_owned, list_workspaces, add_immutable,
}
use vision_app_creator.Persistence.Budgets.{reserve_quota, release_reservation}
use vision_app_creator.Persistence.Apps.{create_version, publish_version}
use vision_app_creator.Persistence.Runs.{
  claim_attempt, commit_event, commit_progress, finalize_run, create_run,
  reserve_quota_and_create_run,
}
use vision_app_creator.Persistence.Events.{review_event, list_events_after, list_progress_after}
use vision_app_creator.Persistence.Deliveries.{
  create_delivery, claim_delivery, mark_delivery_dispatched,
}
use vision_app_creator.Persistence.Deletion.{mark_deletion, bump_deletion_generation}
use vision_app_creator.Persistence.Command.Places.{apply-Distinct}
use vision_app_creator.Persistence.Command.{
  Command, add, swap, delete, new_version, mark_deleting, bump_generation, list_all, apply, run_all,
}

-- What a version says: its content, its id, its workspace. (Its deletion marks may change.)
abbrev pub content : Option Doc → Option (Attr String × Attr String × ℕ)
content none = none
content (some d) = some (d.value.id, d.value.workspace_id, d.value.body)

-- A write over the document that an id resolves to, with the same content.
found_write :
    (k j v w i : String) (d0 d' d : Doc) (s : Store)
    → Distinct s
    → find_doc k j s ≡ some (v, d0)
    → content (some d') ≡ content (some d0)
    → content (get_doc w "versions" i s) ≡ content (some d)
    → content (get_doc w "versions" i (put_doc v k j d' s)) ≡ content (some d)
found_write k j v w i d0 d' d s u f same h = ground (
  arith,
  get_doc-put_doc v k j w "versions" i d' s,
  get_doc_of_find_doc k j s v d0 u,
  str_eq_iff v w,
  str_eq_iff k "versions",
  str_eq_iff j i,
)

-- A write at a place that is free.
new_write :
    (k j v w i : String) (d' d : Doc) (s : Store)
    → contains j (docs v k s) ≡ false
    → content (get_doc w "versions" i s) ≡ content (some d)
    → content (get_doc w "versions" i (put_doc v k j d' s)) ≡ content (some d)
new_write k j v w i d' d s free h = ground (
  arith,
  get_doc-put_doc v k j w "versions" i d' s,
  free_place v k j s free,
  str_eq_iff v w,
  str_eq_iff k "versions",
  str_eq_iff j i,
)

-- A write in another collection.
other_write :
    (k j v w i : String) (d' : Doc) (s : Store)
    → (k == "versions") ≡ false
    → get_doc w "versions" i (put_doc v k j d' s) ≡ get_doc w "versions" i s
other_write k j v w i d' s ne = ground (arith, get_doc-put_doc v k j w "versions" i d' s)

module _ (w i : String) where
  abbrev version : Repository → Option Doc
  version r = get_doc w "versions" i r.store

  list_version :
      (kind : String) (ws : List String) (r : Repository)
      → version (list_workspaces kind ws r).1 ≡ version r
  unfolding list_workspaces
  list_version kind [] r = refl
  list_version kind (v ∷ ws) r =
      list_version kind ws (ensured v kind r) ∙ get_doc-ensure v kind w "versions" i r.store

  module _ (d : Doc) (r : Repository) (u : Distinct r.store) where
    module _ (h : content (version r) ≡ content (some d)) where
      new_version-keeps :
          (a : String) (n : ℕ) (v : Value) (c : Caller)
          → content (version (create_version a n v c r).1) ≡ content (some d)
      unfolding create_version
      new_version-keeps a n v c = grind (arith, new_write, other_write, get_doc-ensure)

      apply-version : (c : Command) → content (version (apply c r)) ≡ content (some d)
      unfolding apply compare_and_swap delete_owned list_owned add_immutable reserve_quota
          release_reservation publish_version reserve_quota_and_create_run create_run claim_attempt
          commit_event commit_progress finalize_run review_event list_events_after
          list_progress_after create_delivery claim_delivery mark_delivery_dispatched mark_deletion
          bump_deletion_generation
      apply-version (list_all kind unknown) = h
      apply-version (list_all kind (workspace v)) = ap content (list_version kind (v ∷ []) r) ∙ h
      apply-version (list_all kind (principal p)) =
          ap content (list_version kind p.workspace_ids r) ∙ h
      apply-version (new_version a n v c) = new_version-keeps a n v c
      apply-version (swap kind j n v) =
          grind (arith, found_write, new_write, other_write, get_doc-ensure)
      apply-version (add kind j v) = grind (arith, new_write, get_doc-ensure)
      apply-version (delete kind j p) = grind (arith, found_write)
      apply-version (mark_deleting kind j g c) = grind (arith, found_write)
      apply-version (bump_generation kind j c) = grind (arith, found_write)
      apply-version _ = grind (arith, other_write, get_doc-ensure)

run_all-version :
    (w i : String) (d : Doc) (cs : List Command) (r : Repository)
    → Distinct r.store
    → content (version w i r) ≡ content (some d)
    → content (version w i (run_all cs r)) ≡ content (some d)
unfolding run_all
run_all-version w i d [] r u h = h
run_all-version w i d (c ∷ cs) r u h =
    run_all-version w i d cs (apply c r) (apply-Distinct c r u) (apply-version w i d r u h c)

-- Versions are immutable: once a version is stored in a workspace, its id, its workspace and its
-- content are still stored there after any calls of the repository, whoever makes them and whether
-- they succeed or raise.
pub version_immutable :
    (w i : String) (d : Doc) (cs : List Command) (r : Repository)
    → Distinct r.store
    → get_doc w "versions" i r.store ≡ some d
    → content (get_doc w "versions" i (run_all cs r).store) ≡ content (some d)
version_immutable w i d cs r u h = run_all-version w i d cs r u (ap content h)
