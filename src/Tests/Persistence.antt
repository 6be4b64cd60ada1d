-- ===== src/Tests/Persistence.antt =====
-- Runs of the repository on a small store (backend/src/vision_app/persistence/memory.py).
use vision_app_creator.Prelude.{
  ℕ, String, ◌≡◌, refl, true, false, none, some, [], ◌∷◌, arith, string_eq, pair_eq, str_eq_iff,
  lookup, insert, lookup_or, contains, Distinct,
}
use vision_app_creator.Prelude.Int.{pos, ◌+ℤ◌}
use vision_app_creator.Contracts.{Event, RunProgress}
use vision_app_creator.Identity.{workspace, allowed, is_member}
use vision_app_creator.Persistence.Value.{Value, ok, absent, is, model, id_of}
use vision_app_creator.Persistence.Docs.{get_doc, find_doc, put_doc, docs, set_docs}
use vision_app_creator.Persistence.Repository.{Repository, fresh}
use vision_app_creator.Persistence.Documents.{compare_and_swap}
use vision_app_creator.Persistence.Budgets.{budget}
use vision_app_creator.Persistence.Runs.{
  claim_attempt, commit_event, commit_progress, finalize_run, reserve_quota_and_create_run,
  value_of,
}
use vision_app_creator.Persistence.Command.{
  publish, event, reserve, release, mark_deleting, apply, run_all,
}
use vision_app_creator.Persistence.Command.Fences.{claim_fences_out}
use vision_app_creator.Persistence.Command.Attempts.{claim_supersedes, spares}
use vision_app_creator.Persistence.Command.Isolation.{isolation}
use vision_app_creator.Persistence.Command.Versions.{content, version_immutable}
use vision_app_creator.Persistence.Command.Held.{held, share}
use vision_app_creator.Persistence.Command.Money.{IsBalanced, money_conserved, reserve_run_loses}
use vision_app_creator.Persistence.Command.Idempotency.{StandsFor, retry_is_free}
use vision_app_creator.Persistence.Command.Swaps.{no_lost_update}

abbrev thing : String → String → ℕ → Value
thing w i body = record {
  shape = model;
  workspace_id = is w;
  id = is i;
  run_id = absent;
  revision = some 0;
  generation = none;
  draft_version_id = absent;
  published_version_id = absent;
  attempt_id = absent;
  selected_attempt_id = absent;
  state = absent;
  human_review = absent;
  start_ms = none;
  sequence = none;
  body = body;
}

-- Two workspaces: one with an app, a version and a run, one with an app.
abbrev start : Repository
start = record {
  store =
      (
        "w1",
        ("apps", ("app", fresh (thing "w1" "app" 1)) ∷ [])
            ∷ ("versions", ("v1", fresh (thing "w1" "v1" 2)) ∷ [])
            ∷ ("run", ("run-1", fresh (thing "w1" "run-1" 3)) ∷ [])
            ∷ [],
      )
      ∷ ("w2", ("apps", ("other", fresh (thing "w2" "other" 4)) ∷ []) ∷ [])
      ∷ [];
  idempotency = [];
  budgets = ("w1", pos 100) ∷ [];
  reservations = ("r0", ("w1", pos 7)) ∷ [];
  run_active_attempts = [];
  run_fences = [];
  attempt_workers = [];
  selected_attempts = [];
}

abbrev seen : Event
seen = record {
  id = "e1";
  run_id = "run-1";
  attempt_id = "a0";
  start_ms = 5;
  human_review = "unreviewed";
  revision = 0;
  body = 9;
}

abbrev step : RunProgress
step = record { run_id = "run-1"; attempt_id = "a0"; sequence = 1; processed_ranges = []; body = 0 }

claimed : (claim_attempt "run-1" "a1" "worker" 0 start).0 ≡ ok true
unfolding claim_attempt find_doc lookup lookup_or insert
claimed = refl

claim_fences_out_example :
    let r' =
      run_all (event "run-1" "a1" 4 seen ∷ []) (claim_attempt "run-1" "a1" "worker" 0 start).1 in
    (commit_event "run-1" "a1" 0 seen r' ≡ (false, r'))
    × (commit_progress "run-1" "a1" 0 step r' ≡ (false, r'))
claim_fences_out_example =
    claim_fences_out "run-1" "a1" "worker" 0 start claimed (event "run-1" "a1" 4 seen ∷ []) "a1" 0
      seen step (omega arith)

claim_supersedes_example :
    let r' =
      run_all (event "run-1" "a1" 4 seen ∷ []) (claim_attempt "run-1" "a1" "worker" 0 start).1 in
    (commit_event "run-1" "a0" 9 seen r' ≡ (false, r'))
    × (finalize_run "run-1" "a0" r' ≡ (ok false, r'))
unfolding spares
claim_supersedes_example =
    claim_supersedes "run-1" "a1" "worker" 0 start claimed (event "run-1" "a1" 4 seen ∷ [])
      (refl, tt) "a0" 9 seen (ground (arith, str_eq_iff "a1" "a0"))

isolation_example :
    let c = publish "app" "v1" 0 (workspace "w2") in
    (get_doc "w1" "apps" "app" (apply c start).store ≡ get_doc "w1" "apps" "app" start.store)
    × (budget "w1" (apply c start) ≡ budget "w1" start)
unfolding allowed is_member
isolation_example =
    isolation (publish "app" "v1" 0 (workspace "w2")) (workspace "w2") start "w1" "apps" "app" refl
      refl

start-Distinct : Distinct start.store
unfolding lookup
start-Distinct = (refl, (refl, tt))

version_immutable_example :
    content (
      get_doc "w1" "versions" "v1"
        (run_all (mark_deleting "versions" "v1" 1 (workspace "w1") ∷ []) start).store)
    ≡ content (some (fresh (thing "w1" "v1" 2)))
unfolding get_doc docs lookup lookup_or
version_immutable_example =
    version_immutable "w1" "v1" (fresh (thing "w1" "v1" 2))
      (mark_deleting "versions" "v1" 1 (workspace "w1") ∷ []) start start-Distinct refl

start-IsBalanced : IsBalanced "w1" (pos 107) start
unfolding held lookup lookup_or ◌+ℤ◌
start-IsBalanced = record { distinct = (refl, tt); adds_up = refl }

money_conserved_example :
    IsBalanced "w1"
      (pos 107)
      (run_all (reserve "w1" (pos 30) "r1" (workspace "w1") ∷ release "r0" ∷ []) start)
money_conserved_example =
    money_conserved "w1" (pos 107) (reserve "w1" (pos 30) "r1" (workspace "w1") ∷ release "r0" ∷ [])
      start start-IsBalanced (tt, (tt, tt))

abbrev new_run : Value
new_run = thing "w1" "run-2" 5

reserved :
    (i : String)
    → (reserve_quota_and_create_run "w1" (pos 10) i new_run (workspace "w1") "key" start).0
      ≡ ok (true, some new_run)
unfolding reserve_quota_and_create_run allowed is_member docs lookup lookup_or contains id_of
reserved i = refl

reserve_run_loses_example :
    let r' =
      (reserve_quota_and_create_run "w1" (pos 10) "r0" new_run (workspace "w1") "key" start).1 in
    budget "w1" r' +ℤ held "w1" r'.reservations +ℤ share "w1" ("w1", pos 7)
    ≡ budget "w1" start +ℤ held "w1" start.reservations
unfolding lookup
reserve_run_loses_example =
    reserve_run_loses "w1" "w1" (pos 10) "r0" ("w1", pos 7) new_run (workspace "w1") "key" start
      refl refl (reserved "r0")

retry_is_free_example :
    let r0 =
      (reserve_quota_and_create_run "w1" (pos 10) "r1" new_run (workspace "w1") "key" start).1 in
    let r1 = run_all (release "r0" ∷ []) r0 in
    let (res, r2) =
      reserve_quota_and_create_run "w1" (pos 20) "r2" new_run (workspace "w1") "key" r1 in
    ((x : String) × StandsFor "w1" "key" new_run (some new_run) x start
      × (some new_run ≡ value_of (get_doc "w1" "run" x r0.store))
      × (res ≡ ok (true, value_of (get_doc "w1" "run" x r1.store))))
    × (r2.budgets ≡ r1.budgets)
    × (r2.reservations ≡ r1.reservations)
unfolding allowed is_member
retry_is_free_example =
    retry_is_free "w1" (pos 10) "r1" new_run (workspace "w1") "key" (some new_run) start
      (reserved "r1") (release "r0" ∷ []) (pos 20) "r2" new_run (workspace "w1") refl

abbrev edited : Value
edited = thing "w1" "app" 8

swapped_once : (compare_and_swap "apps" "app" 0 edited start).0 ≡ ok true
unfolding compare_and_swap find_doc lookup lookup_or
swapped_once = refl

no_lost_update_example :
    let r' = run_all [] (compare_and_swap "apps" "app" 0 edited start).1 in
    compare_and_swap "apps" "app" 0 (thing "w1" "app" 6) r' ≡ (ok false, r')
unfolding run_all compare_and_swap find_doc put_doc set_docs docs lookup lookup_or insert
no_lost_update_example =
    no_lost_update "apps" "app" "w1" 0 edited (fresh (thing "w1" "app" 1)) start refl start-Distinct
      refl swapped_once [] 0 (thing "w1" "app" 6)
      (record { value = edited; revision = 1; generation = 1; deleted = false }) (omega arith) refl
