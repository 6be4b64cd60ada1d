-- ===== src/Persistence/Runs.antt =====
-- Runs, attempts and their fences: `reserve_quota_and_create_run`, `create_run`, `claim_attempt`,
-- `commit_event`, `commit_progress` and `finalize_run` of `InMemoryRepository`.
use vision_app_creator.Prelude.{
  ℕ, ◌+◌, max, String, Bool, true, false, not, ◌&&◌, Option, none, some, ◌==◌, nat_eq, string_eq,
  pair_eq, ltb, if◌then◌else◌, lookup, insert, lookup_or, contains, decimal, ◌+++◌,
}
use vision_app_creator.Prelude.Int.{ℤ, ltb_ℤ}
use vision_app_creator.Contracts.{Event, RunProgress}
use vision_app_creator.Identity.{Caller, allowed}
use vision_app_creator.Persistence.Value.{
  Value, Result, ok, err, value_error, id_of, workspace, has, is_dict, attempt, selected_attempt,
  set_field, with_field,
}
use vision_app_creator.Persistence.Docs.{Doc, docs, find_doc}
use vision_app_creator.Persistence.Repository.{
  Repository, Action, write, ensured, fresh, event_value, progress_value,
}
use vision_app_creator.Persistence.Budgets.{budget, charge}

abbrev pub value_of : Option Doc → Option Value
value_of none = none
value_of (some d) = some d.value

abbrev pub idem_key : String → String → String × (String × String)
idem_key w key = (w, ("run", key))

-- The run's document and its idempotency key.
abbrev add_run : String → String → String → Value → Repository → Repository
add_run w key i run r =
    let r' = write w "run" i (fresh run) r in
    record r' { idempotency = insert (idem_key w key) i r.idempotency }

abbrev reserve_new :
    String
    → ℤ
    → String
    → Value
    → String
    → Option String
    → Repository
    → Result (Bool × Option Value) × Repository
reserve_new w m reservation run key none r = (err value_error, r)
reserve_new w m reservation run key (some i) r =
    if contains i (docs w "run" r.store)
    then (ok (false, none), ensured w "run" r)
    else (ok (true, some run), add_run w key i run (charge w m reservation r))

abbrev reserve_keyed :
    String
    → ℤ
    → String
    → Value
    → String
    → Option String
    → Repository
    → Result (Bool × Option Value) × Repository
reserve_keyed w m reservation run key (some i) r =
    (ok (true, value_of (lookup i (docs w "run" r.store))), ensured w "run" r)
reserve_keyed w m reservation run key none r =
    if ltb_ℤ (budget w r) m
    then (ok (false, none), r)
    else reserve_new w m reservation run key (id_of run) r

unfoldable pub reserve_quota_and_create_run :
    String
    → ℤ
    → String
    → Value
    → Caller
    → String
    → Repository
    → Result (Bool × Option Value) × Repository
unfolding charge
reserve_quota_and_create_run w m reservation run caller key r =
    if not (allowed caller w)
    then (ok (false, none), r)
    else reserve_keyed w m reservation run key (lookup (idem_key w key) r.idempotency) r

abbrev create_new : String → Value → String → Option String → Repository → Option Value × Repository
create_new w run key none r = (none, r)
create_new w run key (some i) r =
    if contains i (docs w "run" r.store)
    then (none, ensured w "run" r)
    else (some run, add_run w key i run r)

abbrev create_keyed :
    String → Value → String → Option String → Repository → Option Value × Repository
create_keyed w run key (some i) r = (value_of (lookup i (docs w "run" r.store)), ensured w "run" r)
create_keyed w run key none r = create_new w run key (id_of run) r

abbrev create_for : Value → Caller → String → Option String → Repository → Option Value × Repository
create_for run caller key none r = (none, r)
create_for run caller key (some w) r =
    if not (allowed caller w)
    then (none, r)
    else create_keyed w run key (lookup (idem_key w key) r.idempotency) r

unfoldable pub create_run : Value → Caller → String → Repository → Option Value × Repository
create_run run caller key r = create_for run caller key (workspace run) r

abbrev pub fence_of : String → Repository → ℕ
fence_of run r = lookup_or run 0 r.run_fences

abbrev is_known : Option String → Bool
is_known none = false
is_known (some worker) = true

-- The run document takes the attempt only if its schema has the field.
abbrev claim_value : String → Value → Result Value
claim_value a v =
    if is_dict v.shape && has v.attempt_id
    then ok (set_field attempt a v)
    else if not (is_dict v.shape) && has v.attempt_id
    then with_field attempt a v
    else ok v

abbrev store_run : String → String → Doc → Result Value → Action Bool
store_run w run d (err e) r = (err e, r)
store_run w run d (ok v) r = (ok true, write w "run" run (record d { value = v }) r)

-- The assignments of a claim that is granted.
abbrev grant : String → String → String → ℕ → Repository → Repository
grant run a worker fence r = record r {
  run_fences = insert run (max fence (fence_of run r + 1)) r.run_fences;
  run_active_attempts = insert run a r.run_active_attempts;
  attempt_workers = insert (run, a) worker r.attempt_workers;
}

abbrev claim_found : String → String → String → ℕ → Option (String × Doc) → Action Bool
claim_found run a worker fence none r = (ok false, r)
claim_found run a worker fence (some (w, d)) r =
    if is_known (lookup (run, a) r.attempt_workers) && ltb fence (fence_of run r)
    then (ok false, r)
    else store_run w run d (claim_value a d.value) (grant run a worker fence r)

unfoldable pub claim_attempt : String → String → String → ℕ → Action Bool
claim_attempt run a worker fence r = claim_found run a worker fence (find_doc "run" run r.store) r

abbrev is_text : Option String → String → Bool
is_text none a = false
is_text (some b) a = b == a

-- The two checks of a commit: the attempt is the active one, and its fence is not behind.
unfoldable pub is_current : String → String → ℕ → Repository → Bool
is_current run a fence r =
    is_text (lookup run r.run_active_attempts) a && not (ltb fence (fence_of run r))

-- The guarded write of `commit_event` and `commit_progress`.
abbrev commit_found :
    String
    → String
    → ℕ
    → String
    → String
    → Doc
    → Option (String × Doc)
    → Repository
    → Bool × Repository
commit_found run a fence c i d none r = (false, r)
commit_found run a fence c i d (some (w, old)) r =
    if is_current run a fence r
    then (true, write w c i d (record r { run_fences = insert run fence r.run_fences }))
    else (false, r)

unfoldable pub commit_event : String → String → ℕ → Event → Repository → Bool × Repository
unfolding is_current
commit_event run a fence e r =
    commit_found run a fence "events" e.id
      (record { value = event_value e; revision = e.revision; generation = 1; deleted = false })
      (find_doc "run" run r.store) r

-- f"{run_id}:{attempt_id}:"
unfoldable pub progress_prefix : String → String → String
progress_prefix run a = run +++ ":" +++ a +++ ":"

unfoldable pub commit_progress : String → String → ℕ → RunProgress → Repository → Bool × Repository
unfolding is_current progress_prefix
commit_progress run a fence p r =
    commit_found run a fence "run_progress" (progress_prefix run a +++ decimal p.sequence)
      (record { value = progress_value p; revision = p.sequence; generation = 1; deleted = false })
      (find_doc "run" run r.store) r

abbrev final_value : String → Value → Result Value
final_value a v =
    if is_dict v.shape then ok (set_field selected_attempt a v) else with_field selected_attempt a v

abbrev finalize_found : String → String → Option (String × Doc) → Action Bool
finalize_found run a none r = (ok false, r)
finalize_found run a (some (w, d)) r =
    if is_text (lookup run r.run_active_attempts) a
    then store_run w run d (final_value a d.value)
        (record r { selected_attempts = insert run a r.selected_attempts })
    else (ok false, r)

-- The outcome that `finalize_run` is given is not used.
unfoldable pub finalize_run : String → String → Action Bool
finalize_run run a r = finalize_found run a (find_doc "run" run r.store) r
