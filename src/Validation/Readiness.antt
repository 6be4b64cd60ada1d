-- ===== src/Validation/Readiness.antt =====
-- When `validate_app_spec` (backend/src/vision_app/validation/validator.py) says that a spec is ready.
use vision_app_creator.Prelude.{
  ℕ, ◌+◌, ◌≤◌, String, ◌≡◌, ◌≢◌, refl, ◌↔◌, ◌⊎◌, Bool, true, false, Option, none, some, List, [],
  ◌∷◌, ◌++◌, arith, string_eq, str_eq_iff, elem, All, lookup,
}
use vision_app_creator.Validation.{
  CapabilityEntry, ExecutionLimits, CapabilityRegistry, TrackedRule, SemanticCondition, SpecKind,
  tracked_rules, semantic_windows, AppSpec, Calibration,
}
use vision_app_creator.Validation.Prompts.{lower, requests_exact_count, requests_tracking}
use vision_app_creator.Validation.Checks.{
  ValidationIssue, Issues, issue_if, validate_limits, validate_action_refs, validate_classes,
  validate_installed, validate_entry, validate_tracked_rule, validate_rules, validate_tracked_rules,
  validate_roi, validate_semantic_condition, validate_semantic_windows, calibration_confirmed,
  has_signals, publication_ready, state_of,
}
use vision_app_creator.Validation.Manifests.{
  entry_of, kind_issues, outcome_of, all_issues, validate_app_spec,
}

append-empty : (xs ys : Issues) → (xs ++ ys ≡ []) ↔ ((xs ≡ []) × (ys ≡ []))
append-empty [] ys = ground arith
append-empty (x ∷ xs) ys = ground arith

issue_if-empty : (b : Bool) (i : ValidationIssue) → (issue_if b i ≡ []) ↔ (b ≡ false)
issue_if-empty true i = ground arith
issue_if-empty false i = ground arith

state_of-ready : (is : Issues) → (state_of is ≡ publication_ready) ↔ (is ≡ [])
unfolding state_of
state_of-ready [] = ground arith
state_of-ready (i ∷ is) = ground arith

-- The spec's limits are within the registry's.
abbrev pub IsLimited : ExecutionLimits → ExecutionLimits → Type 0
IsLimited l bound =
    (l.max_duration_ms ≤ bound.max_duration_ms) × (l.max_model_calls ≤ bound.max_model_calls)

limits_empty : (l bound : ExecutionLimits) → (validate_limits l bound ≡ []) ↔ IsLimited l bound
unfolding validate_limits
limits_empty l bound = ground arith

abbrev pub IsElem : List String → String → Type 0
IsElem xs x = elem x xs ≡ true

refs_empty :
    (refs approved : List String)
    → (validate_action_refs refs approved ≡ []) ↔ All (IsElem approved) refs
unfolding validate_action_refs
refs_empty [] approved = ground arith
refs_empty (ref ∷ refs) approved = ground (arith, refs_empty refs approved)

classes_empty :
    (rule : TrackedRule) (supported classes : List String)
    → (validate_classes rule supported classes ≡ []) ↔ All (IsElem supported) classes
unfolding validate_classes
classes_empty rule supported [] = ground arith
classes_empty rule supported (c ∷ cs) = ground (arith, classes_empty rule supported cs)

-- What a rule needs of its capability: it is one for tracked rules, knows the rule's classes, and
-- a red-phase rule has a governing signal.
abbrev pub EntryFits : TrackedRule → Option Calibration → Option CapabilityEntry → Type 0
EntryFits rule c none = ⊥
EntryFits rule c (some entry) =
    (entry.mode ≡ "tracked_rules")
    × All (IsElem entry.supported_classes) rule.object_classes
    × ((rule.rule_capability ≢ "tracked.red_phase_crossing") ⊎ (has_signals c ≡ true))

unfoldable pub IsSupported : Option Calibration → CapabilityRegistry → TrackedRule → Type 0
unfolding entry_of
IsSupported c r rule = EntryFits rule c (entry_of r rule)

installed_empty :
    (rule : TrackedRule) (c : Option Calibration) (entry : CapabilityEntry)
    → (validate_installed rule c entry ≡ []) ↔ EntryFits rule c (some entry)
unfolding validate_installed
installed_empty rule c entry = ground (
  arith,
  classes_empty rule entry.supported_classes rule.object_classes,
  append-empty (validate_classes rule entry.supported_classes rule.object_classes),
  str_eq_iff entry.mode "tracked_rules",
  str_eq_iff rule.rule_capability "tracked.red_phase_crossing",
)

rule_empty :
    (rule : TrackedRule) (c : Option Calibration) (r : CapabilityRegistry)
    → (validate_tracked_rule rule c r ≡ []) ↔ IsSupported c r rule
unfolding validate_tracked_rule IsSupported entry_of
rule_empty rule c r =
    elim (lookup rule.rule_capability r.capabilities)
      as (λ o. (validate_entry rule c o ≡ []) ↔ EntryFits rule c o) [
        | none ↦ ground arith
        | some entry ↦ installed_empty rule c entry
      ]

rules_empty :
    (c : Option Calibration) (r : CapabilityRegistry) (rules : List TrackedRule)
    → (validate_rules c r rules ≡ []) ↔ All (IsSupported c r) rules
unfolding validate_rules
rules_empty c r [] = ground arith
rules_empty c r (rule ∷ rules) = ground (
  arith,
  append-empty (validate_tracked_rule rule c r) (validate_rules c r rules),
  rule_empty rule c r,
  rules_empty c r rules,
)

abbrev pub IsConfirmed : Option Calibration → Type 0
IsConfirmed none = ⊥
IsConfirmed (some c) = calibration_confirmed c ≡ true

abbrev pub IsRoiKnown : Option String → Option Calibration → Type 0
IsRoiKnown none c = Unit
IsRoiKnown (some roi) none = ⊥
IsRoiKnown (some roi) (some c) = IsElem c.rois roi

-- A condition asks neither for a count nor for tracks, and its region is in the calibration.
unfoldable pub IsSemantic : Option Calibration → SemanticCondition → Type 0
unfolding lower requests_exact_count requests_tracking
IsSemantic c condition =
    (requests_exact_count (lower condition.prompt) ≡ false)
    × (requests_tracking (lower condition.prompt) ≡ false)
    × IsRoiKnown condition.roi_id c

roi_empty :
    (idx : ℕ) (roi : Option String) (c : Option Calibration)
    → (validate_roi idx roi c ≡ []) ↔ IsRoiKnown roi c
unfolding validate_roi
roi_empty idx none c = ground arith
roi_empty idx (some roi) none = ground arith
roi_empty idx (some roi) (some c) = ground arith

condition_empty :
    (idx : ℕ) (condition : SemanticCondition) (c : Option Calibration) (r : CapabilityRegistry)
    (publication : Bool)
    → (validate_semantic_condition idx condition c r publication ≡ []) ↔ IsSemantic c condition
unfolding validate_semantic_condition IsSemantic
condition_empty idx condition c r publication = ground (arith, roi_empty idx condition.roi_id c)

module _ (c : Option Calibration) (r : CapabilityRegistry) (publication : Bool) where
  windows_none : (idx : ℕ) → validate_semantic_windows idx [] c r publication ≡ []
  unfolding validate_semantic_windows
  windows_none idx = refl

  windows_next :
      (idx : ℕ) (condition : SemanticCondition) (conditions : List SemanticCondition)
      → validate_semantic_windows idx (condition ∷ conditions) c r publication
        ≡ validate_semantic_condition idx condition c r publication
          ++ validate_semantic_windows (idx + 1) conditions c r publication
  unfolding validate_semantic_windows
  windows_next idx condition conditions = refl

  windows_empty :
      (idx : ℕ) (conditions : List SemanticCondition)
      → (validate_semantic_windows idx conditions c r publication ≡ [])
        ↔ All (IsSemantic c) conditions
  windows_empty idx [] = ground (arith, windows_none idx)
  windows_empty idx (condition ∷ conditions) = ground (
    arith,
    windows_next idx condition conditions,
    append-empty (validate_semantic_condition idx condition c r publication)
        (validate_semantic_windows (idx + 1) conditions c r publication),
    condition_empty idx condition c r publication,
    windows_empty (idx + 1) conditions,
  )

-- A spec of tracked rules needs a confirmed calibration to be published; each of its rules or
-- conditions is one that the registry and the calibration support.
abbrev pub IsRunnable : SpecKind → Option Calibration → CapabilityRegistry → Bool → Type 0
IsRunnable (tracked_rules rules) c r publication =
    ((publication ≡ false) ⊎ IsConfirmed c) × All (IsSupported c r) rules
IsRunnable (semantic_windows conditions) c r publication = All (IsSemantic c) conditions

kind_empty :
    (kind : SpecKind) (c : Option Calibration) (r : CapabilityRegistry) (publication : Bool)
    → (kind_issues kind c r publication ≡ []) ↔ IsRunnable kind c r publication
unfolding validate_tracked_rules
kind_empty (tracked_rules rules) none r publication = ground (arith, rules_empty none r rules)
kind_empty (tracked_rules rules) (some c) r publication =
    ground (arith, rules_empty (some c) r rules)
kind_empty (semantic_windows conditions) c r publication =
    windows_empty c r publication 0 conditions

-- A spec is ready exactly when its limits are within the registry's, all its action references are
-- approved, and its rules or conditions are supported, with a confirmed calibration if tracked
-- rules are to be published.
pub ready_exactly :
    (spec : AppSpec) (c : Option Calibration) (approved : List String) (publication : Bool)
    (r : CapabilityRegistry)
    → ((validate_app_spec spec c approved publication r).state ≡ publication_ready) ↔ (
        IsLimited spec.limits r.max_limits
        × All (IsElem approved) spec.approved_action_refs
        × IsRunnable spec.kind c r publication)
unfolding validate_app_spec outcome_of all_issues
ready_exactly spec c approved publication r = ground (
  arith,
  state_of-ready (all_issues spec c approved publication r),
  append-empty (validate_limits spec.limits r.max_limits) (
      validate_action_refs spec.approved_action_refs approved
      ++ kind_issues spec.kind c r publication),
  append-empty (validate_action_refs spec.approved_action_refs approved)
      (kind_issues spec.kind c r publication),
  limits_empty spec.limits r.max_limits,
  refs_empty spec.approved_action_refs approved,
  kind_empty spec.kind c r publication,
)
