-- ===== src/Validation/Manifests.antt =====
-- The manifests of `validate_app_spec`, and the function itself
-- (backend/src/vision_app/validation/validator.py). The components that a spec needs are a list
-- here, and a set there.
use vision_app_creator.Prelude.{
  String, Bool, Option, none, some, List, [], ◌∷◌, ◌++◌, string_eq, Dict, lookup, insert, ◌+++◌,
}
use vision_app_creator.Validation.{
  CapabilityEntry, ModelCapability, CapabilityRegistry, TrackedRule, SemanticCondition, SpecKind,
  tracked_rules, semantic_windows, AppSpec, Calibration,
}
use vision_app_creator.Validation.Checks.{
  Issues, ValidationOutcome, validate_limits, validate_action_refs, validate_tracked_rules,
  validate_semantic_windows, state_of,
}

unfoldable pub entry_of : CapabilityRegistry → TrackedRule → Option CapabilityEntry
unfolding lookup
entry_of r rule = lookup rule.rule_capability r.capabilities

abbrev note_entry : String → Option CapabilityEntry → Dict String String → Dict String String
note_entry id none manifest = manifest
note_entry id (some entry) manifest = insert id entry.capability_id manifest

unfoldable pub note_rules :
    CapabilityRegistry → List TrackedRule → Dict String String → Dict String String
unfolding entry_of insert
note_rules r [] manifest = manifest
note_rules r (rule ∷ rules) manifest =
    note_rules r rules (note_entry rule.rule_id (entry_of r rule) manifest)

unfoldable pub note_conditions : List SemanticCondition → Dict String String → Dict String String
unfolding insert
note_conditions [] manifest = manifest
note_conditions (c ∷ cs) manifest =
    note_conditions cs (insert c.condition_id "semantic.visible_condition" manifest)

abbrev capabilities_of : CapabilityRegistry → SpecKind → Dict String String
capabilities_of r (tracked_rules rules) = note_rules r rules []
capabilities_of r (semantic_windows cs) = note_conditions cs []

unfoldable pub build_capability_manifest : AppSpec → CapabilityRegistry → Dict String String
unfolding note_rules note_conditions
build_capability_manifest spec r = capabilities_of r spec.kind

abbrev required_by : Option CapabilityEntry → List String
required_by none = []
required_by (some entry) = entry.requires

unfoldable pub required_components : CapabilityRegistry → List TrackedRule → List String
unfolding entry_of
required_components r [] = []
required_components r (rule ∷ rules) = required_by (entry_of r rule) ++ required_components r rules

abbrev pub components_of : CapabilityRegistry → SpecKind → List String
components_of r (tracked_rules rules) = required_components r rules
components_of r (semantic_windows cs) = "reasoner.window" ∷ []

abbrev pub model_ref : ModelCapability → String
model_ref m = m.provider +++ "/" +++ m.model +++ ":" +++ m.revision

abbrev pub note_model : String → Option ModelCapability → Dict String String → Dict String String
note_model component none manifest = manifest
note_model component (some m) manifest = insert component (model_ref m) manifest

unfoldable pub note_models :
    Dict String ModelCapability → List String → Dict String String → Dict String String
unfolding lookup insert
note_models models [] manifest = manifest
note_models models (component ∷ components) manifest =
    note_models models components (note_model component (lookup component models) manifest)

unfoldable pub build_model_manifest : AppSpec → CapabilityRegistry → Dict String String
unfolding note_models required_components
build_model_manifest spec r = note_models r.models (components_of r spec.kind) []

abbrev pub kind_issues : SpecKind → Option Calibration → CapabilityRegistry → Bool → Issues
kind_issues (tracked_rules rules) c r publication = validate_tracked_rules rules c r publication
kind_issues (semantic_windows cs) c r publication = validate_semantic_windows 0 cs c r publication

unfoldable pub all_issues :
    AppSpec → Option Calibration → List String → Bool → CapabilityRegistry → Issues
unfolding validate_limits validate_action_refs validate_tracked_rules validate_semantic_windows
all_issues spec c approved publication r =
    validate_limits spec.limits r.max_limits
    ++ validate_action_refs spec.approved_action_refs approved
    ++ kind_issues spec.kind c r publication

unfoldable pub outcome_of : AppSpec → CapabilityRegistry → Issues → ValidationOutcome
unfolding state_of build_capability_manifest build_model_manifest
outcome_of spec r found = record {
  state = state_of found;
  issues = found;
  capability_manifest = build_capability_manifest spec r;
  model_manifest = build_model_manifest spec r;
}

unfoldable pub validate_app_spec :
    AppSpec → Option Calibration → List String → Bool → CapabilityRegistry → ValidationOutcome
unfolding outcome_of all_issues
validate_app_spec spec c approved publication r =
    outcome_of spec r (all_issues spec c approved publication r)
