-- ===== src/Tests/Validation.antt =====
-- The validator on small specs (backend/src/vision_app/validation).
use vision_app_creator.Prelude.{
  ◌≡◌, refl, ◌↔◌, true, false, none, some, [], ◌∷◌, string_eq, elem, All, any,
}
use vision_app_creator.Validation.{
  ExecutionLimits, TrackedRule, tracked_rules, AppSpec, Calibration, installed_registry,
  combinations_are_consistent, are_consistent, is_subset,
}
use vision_app_creator.Validation.Prompts.{requests_exact_count, has_number, lower, occurs_in}
use vision_app_creator.Validation.Checks.{publication_ready}
use vision_app_creator.Validation.Manifests.{validate_app_spec}
use vision_app_creator.Validation.Readiness.{IsElem, IsLimited, IsRunnable, ready_exactly}

registry_is_consistent : combinations_are_consistent installed_registry ≡ true
unfolding are_consistent is_subset elem
registry_is_consistent = refl

counts_cars : requests_exact_count "How many CARS pass?" ≡ true
unfolding requests_exact_count any occurs_in has_number lower
counts_cars = refl

a_number : has_number "wait 12, then stop" ≡ true
unfolding has_number
a_number = refl

no_number : has_number "lane2b" ≡ false
unfolding has_number
no_number = refl

abbrev short_limits : ExecutionLimits
short_limits = record { max_duration_ms = 1000; max_model_calls = 3 }

abbrev red_rule : TrackedRule
red_rule = record {
  rule_id = "red";
  rule_capability = "tracked.red_phase_crossing";
  object_classes = "car" ∷ [];
}

abbrev red_spec : AppSpec
red_spec = record {
  approved_action_refs = "hook" ∷ [];
  limits = short_limits;
  kind = tracked_rules (red_rule ∷ []);
}

abbrev scene : Calibration
scene = record {
  rois = "gate" ∷ [];
  governing_signals = ("line", "signal") ∷ [];
  confirmed_by = none;
  confirmed_at = none;
}

ready_exactly_example :
    ((validate_app_spec red_spec (some scene) ("hook" ∷ []) false installed_registry).state
      ≡ publication_ready)
    ↔ (IsLimited short_limits (record { max_duration_ms = 300000; max_model_calls = 100 })
        × All (IsElem ("hook" ∷ [])) ("hook" ∷ [])
        × IsRunnable (tracked_rules (red_rule ∷ [])) (some scene) installed_registry false)
ready_exactly_example = ready_exactly red_spec (some scene) ("hook" ∷ []) false installed_registry
