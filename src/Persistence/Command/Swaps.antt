-- ===== src/Persistence/Command/Swaps.antt =====
-- Document revisions only grow, so a compare-and-swap that lost a race stays lost.
use vision_app_creator.Prelude.{
  ℕ, ◌+◌, ◌≤◌, ◌<◌, String, Distinct, ◌≡◌, refl, ◌∙◌, subst, Bool, true, false, Option, none, some,
  List, [], ◌∷◌, arith, ◌==◌, nat_eq, string_eq, str_eq_iff, ◌||◌, contains,
}
use vision_app_creator.Identity.{Caller, principal, workspace, unknown}
use vision_app_creator.Persistence.Value.{Value, ok}
use vision_app_creator.Persistence.Docs.{Doc, Store, docs, get_doc, put_doc, ensure, find_doc}
use vision_app_creator.Persistence.Docs.Laws.{
  get_doc-put_doc, find_doc-ensure, put_doc-Distinct, ensure-Distinct, find_doc-put_doc_other,
  get_doc-ensure, get_doc_of_find_doc, free_place,
}
use vision_app_creator.Persistence.Repository.{Repository, ensured}
use vision_app_creator.Persistence.Documents.{
  compare_and_swap, delete_owned, list_owned, list_workspaces, add_immutable,
}
use vision_app_creator.Persistence.Budgets.{reserve_quota, release_reservation}
use vision_app_creator.Persistence.Apps.{create_version, publish_version}
use vision_app_creator.Persistence.Runs.{
  claim_attempt, commit_event, commit_progress, finalize_run, create_run,
  reserve_quota_and_create_run,
}
use vision_app_creator.Persistence.Events.{review_event, list_events_after, list_progress_after}
use vision_app_creator.Persistence.Deliveries.{
  create_delivery, claim_delivery, mark_delivery_dispatched,
}
use vision_app_creator.Persistence.Deletion.{mark_deletion, bump_deletion_generation}
use vision_app_creator.Persistence.Command.Places.{apply-Distinct, run_all-Distinct}
use vision_app_creator.Persistence.Command.{
  Command, publish, swap, new_version, list_all, apply, run_all,
}

-- There is a document, at this revision or a later one.
abbrev AtLeast : ℕ → Option Doc → Type 0
AtLeast n none = ⊥
AtLeast n (some d) = n ≤ d.revision

-- The collections whose documents `commit_event` and `commit_progress` write over.
abbrev overwritten : String → Bool
overwritten k = "events" == k || "run_progress" == k

module _ (w k i : String) (n : ℕ) where
  found_write :
      (c j v : String) (d0 d' : Doc) (s : Store)
      → Distinct s
      → find_doc c j s ≡ some (v, d0)
      → d0.revision ≤ d'.revision
      → AtLeast n (get_doc w k i s)
      → AtLeast n (get_doc w k i (put_doc v c j d' s))
  found_write c j v d0 d' s u f le h = ground (
    arith,
    get_doc-put_doc v c j w k i d' s,
    get_doc_of_find_doc c j s v d0 u,
    str_eq_iff v w,
    str_eq_iff c k,
    str_eq_iff j i,
  )

  new_write :
      (c j v : String) (d' : Doc) (s : Store)
      → contains j (docs v c s) ≡ false
      → AtLeast n (get_doc w k i s)
      → AtLeast n (get_doc w k i (put_doc v c j d' s))
  new_write c j v d' s free h = ground (
    arith,
    get_doc-put_doc v c j w k i d' s,
    free_place v c j s free,
    str_eq_iff v w,
    str_eq_iff c k,
    str_eq_iff j i,
  )

  other_write :
      (c j v : String) (d' : Doc) (s : Store)
      → (c == k) ≡ false
      → AtLeast n (get_doc w k i s)
      → AtLeast n (get_doc w k i (put_doc v c j d' s))
  other_write c j v d' s ne h = ground (arith, get_doc-put_doc v c j w k i d' s)

  keep_ensure :
      (v c : String) (s : Store)
      → AtLeast n (get_doc w k i s)
      → AtLeast n (get_doc w k i (ensure v c s))
  keep_ensure v c s h = rw get_doc-ensure h

  -- The two writes to an app, after the collection of versions was created or added to.
  ensured_write :
      (a v : String) (d0 d' : Doc) (s : Store)
      → Distinct s
      → find_doc "apps" a s ≡ some (v, d0)
      → d0.revision ≤ d'.revision
      → AtLeast n (get_doc w k i s)
      → AtLeast n (get_doc w k i (put_doc v "apps" a d' (ensure v "versions" s)))
  ensured_write a v d0 d' s u f le h =
      found_write "apps" a v d0 d' (ensure v "versions" s) (ensure-Distinct v "versions" s u)
        (find_doc-ensure v "versions" "apps" a s ∙ f) le (keep_ensure v "versions" s h)

  versioned_write :
      (a v x : String) (d0 d' y : Doc) (s : Store)
      → Distinct s
      → find_doc "apps" a s ≡ some (v, d0)
      → contains x (docs v "versions" s) ≡ false
      → d0.revision ≤ d'.revision
      → AtLeast n (get_doc w k i s)
      → AtLeast n (get_doc w k i (put_doc v "apps" a d' (put_doc v "versions" x y s)))
  versioned_write a v x d0 d' y s u f free le h =
      found_write "apps" a v d0 d' (put_doc v "versions" x y s)
        (put_doc-Distinct v "versions" x y s u)
        (find_doc-put_doc_other v "versions" x "apps" a y s refl ∙ f) le
        (new_write "versions" x v y s free h)

  list_revision :
      (kind : String) (ws : List String) (r : Repository)
      → AtLeast n (get_doc w k i r.store)
      → AtLeast n (get_doc w k i (list_workspaces kind ws r).1.store)
  unfolding list_workspaces
  list_revision kind [] r h = h
  list_revision kind (v ∷ ws) r h =
      list_revision kind ws (ensured v kind r) (keep_ensure v kind r.store h)

  module _ (plain : overwritten k ≡ false) (r : Repository) (u : Distinct r.store)
      (h : AtLeast n (get_doc w k i r.store)) where
    create_version-revision :
        (a : String) (m : ℕ) (v : Value) (c : Caller)
        → AtLeast n (get_doc w k i (create_version a m v c r).1.store)
    unfolding create_version
    create_version-revision a m v c = grind (arith, versioned_write a, new_write, keep_ensure)

    publish_version-revision :
        (a v : String) (m : ℕ) (c : Caller)
        → AtLeast n (get_doc w k i (publish_version a v m c r).1.store)
    unfolding publish_version
    publish_version-revision a v m c = grind (arith, ensured_write a, keep_ensure)

    apply-revision : (c : Command) → AtLeast n (get_doc w k i (apply c r).store)
    unfolding apply compare_and_swap delete_owned list_owned add_immutable reserve_quota
        release_reservation reserve_quota_and_create_run create_run claim_attempt commit_event
        commit_progress finalize_run review_event list_events_after list_progress_after
        create_delivery claim_delivery mark_delivery_dispatched mark_deletion
        bump_deletion_generation
    apply-revision (list_all kind unknown) = h
    apply-revision (list_all kind (workspace v)) = list_revision kind (v ∷ []) r h
    apply-revision (list_all kind (principal p)) = list_revision kind p.workspace_ids r h
    apply-revision (new_version a m v c) = create_version-revision a m v c
    apply-revision (publish a v m c) = publish_version-revision a v m c
    apply-revision (swap kind j m v) = grind (arith, found_write, new_write, keep_ensure)
    apply-revision _ = grind (arith, found_write, new_write, keep_ensure, other_write)

run_all-revision :
    (w k i : String) (n : ℕ) (cs : List Command) (r : Repository)
    → overwritten k ≡ false
    → Distinct r.store
    → AtLeast n (get_doc w k i r.store)
    → AtLeast n (get_doc w k i (run_all cs r).store)
unfolding run_all
run_all-revision w k i n [] r plain u h = h
run_all-revision w k i n (c ∷ cs) r plain u h =
    run_all-revision w k i n cs (apply c r) plain (apply-Distinct c r u)
      (apply-revision w k i n plain r u h c)

-- A swap of a document that is there, and that went through, leaves the next revision.
swapped :
    (k i w : String) (n : ℕ) (v : Value) (d : Doc) (r : Repository)
    → Distinct r.store
    → find_doc k i r.store ≡ some (w, d)
    → (compare_and_swap k i n v r).0 ≡ ok true
    → AtLeast (n + 1) (get_doc w k i (compare_and_swap k i n v r).1.store)
unfolding compare_and_swap
swapped k i w n v d r u f h = ground (
  arith,
  str_eq_iff w w,
  str_eq_iff k k,
  str_eq_iff i i,
  get_doc-put_doc w k i w k i (record d { value = v; revision = n + 1 }) r.store,
)

refused :
    (k i w : String) (n : ℕ) (v : Value) (d : Doc) (r : Repository)
    → find_doc k i r.store ≡ some (w, d)
    → n < d.revision
    → compare_and_swap k i n v r ≡ (ok false, r)
unfolding compare_and_swap
refused k i w n v d r f lt = ground arith

-- No update is lost: when a compare-and-swap of a stored document at revision n has gone through,
-- every later one at a revision up to n answers False and changes nothing, after any calls in
-- between, as long as the id resolves to the same workspace. (Events and progress are written
-- without a swap, and are left out.)
pub no_lost_update :
    (k i w : String) (n : ℕ) (v : Value) (d : Doc) (r : Repository)
    → overwritten k ≡ false
    → Distinct r.store
    → find_doc k i r.store ≡ some (w, d)
    → (compare_and_swap k i n v r).0 ≡ ok true
    → (cs : List Command) (m : ℕ) (v' : Value) (d' : Doc) → m ≤ n
    → let r' = run_all cs (compare_and_swap k i n v r).1 in
      find_doc k i r'.store ≡ some (w, d') → compare_and_swap k i m v' r' ≡ (ok false, r')
no_lost_update k i w n v d r plain u f h cs m v' d' le f' =
    let r1 = (compare_and_swap k i n v r).1 in
    let u1 : Distinct r1.store = unfold apply in apply-Distinct (swap k i n v) r u in
    let there = get_doc_of_find_doc k i (run_all cs r1).store w d' (run_all-Distinct cs r1 u1) f' in
    let later = run_all-revision w k i (n + 1) cs r1 plain u1 (swapped k i w n v d r u f h) in
    refused k i w m v' d' (run_all cs r1) f' (omega (arith, subst (AtLeast (n + 1)) there later))
