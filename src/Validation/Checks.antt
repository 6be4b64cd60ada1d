-- ===== src/Validation/Checks.antt =====
-- The checks of `validate_app_spec` (backend/src/vision_app/validation/validator.py), each in a
-- function as there. An issue is its code, severity, field and capability; its message for people
-- is left out.
use vision_app_creator.Prelude.{
  ℕ, ◌+◌, String, Bool, true, false, not, Option, none, some, List, [], ◌∷◌, ◌++◌, ◌==◌, ◌&&◌,
  string_eq, ltb, if◌then◌else◌, filter, elem, Dict, lookup, decimal, ◌+++◌,
}
use vision_app_creator.Validation.{
  CapabilityEntry, ExecutionLimits, CapabilityRegistry, TrackedRule, SemanticCondition, Calibration,
}
use vision_app_creator.Validation.Prompts.{lower, requests_exact_count, requests_tracking}

pub data Severity : Type 0 where
  error calibration : Severity

pub record ValidationIssue : Type 0 where
  pub code : String
  pub severity : Severity
  pub field : Option String
  pub issue_capability : Option String

abbrev pub Issues : Type 0
Issues = List ValidationIssue

-- `issues.append(…)` under a test
abbrev pub issue_if : Bool → ValidationIssue → Issues
issue_if true i = i ∷ []
issue_if false i = []

abbrev issue : String → Severity → Option String → Option String → ValidationIssue
issue c s f k = record { code = c; severity = s; field = f; issue_capability = k }

unfoldable pub validate_limits : ExecutionLimits → ExecutionLimits → Issues
validate_limits limits bound =
    issue_if (ltb bound.max_duration_ms limits.max_duration_ms)
      (issue "limit_exceeded" error (some "limits.max_duration_ms") none)
    ++ issue_if (ltb bound.max_model_calls limits.max_model_calls)
        (issue "limit_exceeded" error (some "limits.max_model_calls") none)

unfoldable pub validate_action_refs : List String → List String → Issues
unfolding elem
validate_action_refs [] approved = []
validate_action_refs (ref ∷ refs) approved =
    issue_if (not (elem ref approved))
      (issue "unapproved_action" error (some "approved_action_refs") none)
    ++ validate_action_refs refs approved

abbrev pub is_some {ℓ} : {A : Type ℓ} → Option A → Bool
is_some none = false
is_some (some a) = true

abbrev pub calibration_confirmed : Calibration → Bool
calibration_confirmed c = is_some c.confirmed_by && is_some c.confirmed_at

abbrev rule_field : TrackedRule → String → Option String
rule_field rule name = some ("rules[" +++ rule.rule_id +++ "]." +++ name)

unfoldable pub validate_classes : TrackedRule → List String → List String → Issues
unfolding elem
validate_classes rule supported [] = []
validate_classes rule supported (cls ∷ classes) =
    issue_if (not (elem cls supported)) (
      issue "unsupported_class" error (rule_field rule "object_classes")
        (some rule.rule_capability))
    ++ validate_classes rule supported classes

-- `calibration is not None and calibration.governing_signals`
abbrev pub has_signals : Option Calibration → Bool
has_signals none = false
has_signals (some c) = elim c.governing_signals [ [] ↦ false | s ∷ ss ↦ true ]

unfoldable pub validate_installed : TrackedRule → Option Calibration → CapabilityEntry → Issues
unfolding validate_classes
validate_installed rule c entry =
    issue_if (not (entry.mode == "tracked_rules")) (
      issue "capability_mode_mismatch" error (rule_field rule "capability_id")
        (some rule.rule_capability))
    ++ validate_classes rule entry.supported_classes rule.object_classes
    ++ issue_if (rule.rule_capability == "tracked.red_phase_crossing" && not (has_signals c)) (
        issue "missing_governing_signal" calibration (some "calibration.governing_signals")
          (some rule.rule_capability))

abbrev pub validate_entry : TrackedRule → Option Calibration → Option CapabilityEntry → Issues
validate_entry rule c none =
    issue "unknown_capability" error (rule_field rule "capability_id") (some rule.rule_capability)
    ∷ []
validate_entry rule c (some entry) = validate_installed rule c entry

unfoldable pub validate_tracked_rule :
    TrackedRule → Option Calibration → CapabilityRegistry → Issues
unfolding lookup
validate_tracked_rule rule c r = validate_entry rule c (lookup rule.rule_capability r.capabilities)

unfoldable pub validate_rules : Option Calibration → CapabilityRegistry → List TrackedRule → Issues
unfolding validate_tracked_rule
validate_rules c r [] = []
validate_rules c r (rule ∷ rules) = validate_tracked_rule rule c r ++ validate_rules c r rules

abbrev is_unconfirmed : Option Calibration → Bool
is_unconfirmed none = false
is_unconfirmed (some c) = not (calibration_confirmed c)

unfoldable pub validate_tracked_rules :
    List TrackedRule → Option Calibration → CapabilityRegistry → Bool → Issues
unfolding validate_rules
validate_tracked_rules rules c r publication =
    issue_if (publication && not (is_some c)) (issue "missing_calibration" calibration none none)
    ++ issue_if (publication && is_unconfirmed c)
        (issue "calibration_unconfirmed" calibration none none)
    ++ validate_rules c r rules

abbrev condition_field : ℕ → String → Option String
condition_field idx name = some ("conditions[" +++ decimal idx +++ "]." +++ name)

unfoldable pub validate_roi : ℕ → Option String → Option Calibration → Issues
unfolding elem decimal
validate_roi idx none c = []
validate_roi idx (some roi) none =
    issue "missing_calibration" calibration (condition_field idx "roi_id") none ∷ []
validate_roi idx (some roi) (some c) =
    issue_if (not (elem roi c.rois))
      (issue "missing_roi" calibration (condition_field idx "roi_id") none)

-- `publication` and the registry are passed on and not read
unfoldable pub validate_semantic_condition :
    ℕ → SemanticCondition → Option Calibration → CapabilityRegistry → Bool → Issues
unfolding validate_roi lower requests_exact_count requests_tracking decimal
validate_semantic_condition idx condition c r publication =
    let prompt = lower condition.prompt in
    issue_if (requests_exact_count prompt)
      (issue "semantic_exact_count_unsupported" error (condition_field idx "prompt") none)
    ++ issue_if (requests_tracking prompt)
        (issue "semantic_tracking_unsupported" error (condition_field idx "prompt") none)
    ++ validate_roi idx condition.roi_id c

-- `for idx, condition in enumerate(spec.conditions)`, from an index on
unfoldable pub validate_semantic_windows :
    ℕ → List SemanticCondition → Option Calibration → CapabilityRegistry → Bool → Issues
unfolding validate_semantic_condition
validate_semantic_windows idx [] c r publication = []
validate_semantic_windows idx (condition ∷ conditions) c r publication =
    validate_semantic_condition idx condition c r publication
    ++ validate_semantic_windows (idx + 1) conditions c r publication

abbrev is_error : ValidationIssue → Bool
is_error i = elim i.severity [ error ↦ true | calibration ↦ false ]

abbrev is_calibration : ValidationIssue → Bool
is_calibration i = elim i.severity [ error ↦ false | calibration ↦ true ]

pub data OutcomeState : Type 0 where
  invalid needs_calibration publication_ready : OutcomeState

abbrev is_empty : Issues → Bool
is_empty [] = true
is_empty (i ∷ is) = false

unfoldable pub state_of : Issues → OutcomeState
state_of issues =
    if not (is_empty (filter is_error issues))
    then invalid
    else if not (is_empty (filter is_calibration issues))
    then needs_calibration
    else publication_ready

pub record ValidationOutcome : Type 0 where
  pub state : OutcomeState
  pub issues : Issues
  pub capability_manifest : Dict String String
  pub model_manifest : Dict String String
