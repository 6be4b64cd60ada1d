-- ===== src/Tests/Releases.antt =====
-- The version and app services on small inputs, over the in-memory repository
-- (backend/src/vision_app/applications/services.py and persistence/memory.py).
use vision_app_creator.Prelude.{
  ℕ, String, ◌≡◌, refl, Option, none, some, List, [], ◌∷◌, string_eq, lookup, insert, contains,
  lookup_or, elem, any,
}
use vision_app_creator.Validation.{AppSpec, installed_registry}
use vision_app_creator.Validation.Checks.{
  state_of, validate_action_refs, validate_classes, validate_installed, validate_limits,
  validate_roi, validate_rules, validate_semantic_condition, validate_semantic_windows,
  validate_tracked_rule, validate_tracked_rules,
}
use vision_app_creator.Validation.Prompts.{
  has_number, lower, occurs_in, requests_exact_count, requests_tracking,
}
use vision_app_creator.Validation.Manifests.{
  all_issues, build_capability_manifest, build_model_manifest, entry_of, note_conditions,
  note_models, note_rules, outcome_of, required_components, validate_app_spec,
}
use vision_app_creator.Validation.Publishing.{semantic_spec}
use vision_app_creator.Identity.{coerce, is_member}
use vision_app_creator.Persistence.Value.{Value, Attr, absent, nil, is, of_attr, model, workspace}
use vision_app_creator.Persistence.Docs.{find_doc, put_doc, set_docs, docs, ensure}
use vision_app_creator.Persistence.Repository.{Repository}
use vision_app_creator.Persistence.Documents.{get_owned, compare_and_swap, add_immutable}
use vision_app_creator.Applications.Stored.{owned_value, swap_value, add_value, stored_value}
use vision_app_creator.Applications.Persisted.{persisted_apps}
use vision_app_creator.Applications.Versions.{VisionApp, AppVersion, ApplicationRepository}
use vision_app_creator.Applications.Versions as Versions
use vision_app_creator.Applications.Apps.{new_app, create, read, revise, publish}
use vision_app_creator.Applications.Releases.{
  Call, creates, revises, publishes, perform, perform_all, IsReleased,
}
use vision_app_creator.Applications.Released.{published_was_ready}

abbrev gate_spec : AppSpec
gate_spec =
    semantic_spec [] (record { max_duration_ms = 1000; max_model_calls = 3 })
      (record { condition_id = "open"; prompt = "the gate is open"; roi_id = none } ∷ [])

-- How an app is stored here, with its title in the place of the state.
abbrev attr : Option String → Attr String
attr none = nil
attr (some s) = is s

abbrev stored_as : String → String → Attr String → Attr String → Attr String → ℕ → Value
stored_as id w title draft published n = record {
  shape = model;
  workspace_id = is w;
  id = is id;
  run_id = absent;
  revision = some n;
  generation = none;
  draft_version_id = draft;
  published_version_id = published;
  attempt_id = absent;
  selected_attempt_id = absent;
  state = title;
  human_review = absent;
  start_ms = none;
  sequence = none;
  body = 0;
}

abbrev dump_app : VisionApp → Value
dump_app a =
    stored_as a.id a.workspace_id (is a.title) (attr a.draft_version_id)
      (attr a.published_version_id) a.revision

abbrev app_from :
    Option String
    → Option String
    → Option String
    → Option ℕ
    → Option String
    → Option String
    → Option VisionApp
app_from (some id) (some w) (some title) (some n) draft published = some (record {
  id = id;
  workspace_id = w;
  title = title;
  draft_version_id = draft;
  published_version_id = published;
  revision = n;
})
app_from _ _ _ _ draft published = none

abbrev load_app : Value → Option VisionApp
load_app v =
    app_from (of_attr v.id) (of_attr v.workspace_id) (of_attr v.state) v.revision
      (of_attr v.draft_version_id) (of_attr v.published_version_id)

of_attr-attr : (o : Option String) → of_attr (attr o) ≡ o
of_attr-attr none = refl
of_attr-attr (some s) = refl

load_app-dump_app : (a : VisionApp) → load_app (dump_app a) ≡ some a
load_app-dump_app a = rw (of_attr-attr a.draft_version_id, of_attr-attr a.published_version_id) refl

-- The versions here are all of the gate's spec.
abbrev dump_version : AppVersion → Value
dump_version v = stored_as v.id v.workspace_id absent absent absent 0

abbrev version_from : Option String → Option String → Option AppVersion
version_from (some id) (some w) = some (record {
  id = id;
  app_id = "app";
  workspace_id = w;
  parent_id = none;
  spec = gate_spec;
  capability_manifest = [];
  model_manifest = [];
  validation_report = [];
  created_by = w;
  created_at = 7;
})
version_from _ _ = none

abbrev load_version : Value → Option AppVersion
load_version v = version_from (of_attr v.id) (of_attr v.workspace_id)

abbrev memory : ApplicationRepository Repository
memory = persisted_apps dump_app load_app load_app-dump_app dump_version load_version

abbrev nothing_stored : Repository
nothing_stored = record {
  store = [];
  idempotency = [];
  budgets = [];
  reservations = [];
  run_active_attempts = [];
  run_fences = [];
  attempt_workers = [];
  selected_attempts = [];
}

abbrev history : List Call
history =
    creates "app" "w" "Gate"
    ∷ revises "v" 7 "w" "app" 0 none gate_spec
    ∷ publishes "w" "app" 1 "v" none []
    ∷ []

abbrev at_the_end : VisionApp
at_the_end = record (new_app "app" "w" "Gate") {
  draft_version_id = some "v";
  published_version_id = some "v";
  revision = 2;
}

run_of_history :
    stored_value "vision_app" dump_app load_app "app"
      (perform_all memory installed_registry history nothing_stored)
    ≡ some at_the_end
unfolding perform_all perform create read revise publish Versions.create Versions.read swap_value
    owned_value add_value stored_value get_owned compare_and_swap add_immutable find_doc put_doc
    set_docs docs ensure lookup_or is_member coerce workspace lookup insert contains elem any
    all_issues build_capability_manifest build_model_manifest entry_of has_number lower
    note_conditions note_models note_rules occurs_in outcome_of requests_exact_count
    requests_tracking required_components state_of validate_action_refs validate_app_spec
    validate_classes validate_installed validate_limits validate_roi validate_rules
    validate_semantic_condition validate_semantic_windows validate_tracked_rule
    validate_tracked_rules
run_of_history = refl

published_was_ready_example : IsReleased memory installed_registry "app" "v" nothing_stored history
unfolding stored_value find_doc
published_was_ready_example =
    published_was_ready memory installed_registry "app" "v" history nothing_stored at_the_end refl
      run_of_history refl
