-- ===== src/Validation/Publishing.antt =====
-- What publication changes for a spec of semantic windows
-- (backend/src/vision_app/validation/validator.py).
use vision_app_creator.Prelude.{
  ℕ, ◌+◌, String, ◌≡◌, refl, ap, Bool, true, false, Option, List, [], ◌∷◌, ◌++◌,
}
use vision_app_creator.Validation.{
  ExecutionLimits, CapabilityRegistry, SemanticCondition, semantic_windows, AppSpec, Calibration,
}
use vision_app_creator.Validation.Checks.{
  validate_limits, validate_action_refs, validate_semantic_condition, validate_semantic_windows,
}
use vision_app_creator.Validation.Manifests.{all_issues, outcome_of, validate_app_spec}

windows_unread :
    (c : Option Calibration) (r : CapabilityRegistry) (p q : Bool) (idx : ℕ)
    (conditions : List SemanticCondition)
    → validate_semantic_windows idx conditions c r p
      ≡ validate_semantic_windows idx conditions c r q
unfolding validate_semantic_windows validate_semantic_condition
windows_unread c r p q idx [] = refl
windows_unread c r p q idx (condition ∷ conditions) =
    ap (λ rest. validate_semantic_condition idx condition c r p ++ rest)
      (windows_unread c r p q (idx + 1) conditions)

-- A spec of semantic windows, with any conditions.
abbrev pub semantic_spec : List String → ExecutionLimits → List SemanticCondition → AppSpec
semantic_spec refs l conditions = record {
  approved_action_refs = refs;
  limits = l;
  kind = semantic_windows conditions;
}

-- To publish a spec of semantic windows takes no more than to try it: the outcome is the same,
-- whether the calibration that its regions come from has been confirmed or not.
pub semantic_needs_no_confirmation :
    (refs : List String) (l : ExecutionLimits) (conditions : List SemanticCondition)
    (c : Option Calibration) (approved : List String) (r : CapabilityRegistry)
    → validate_app_spec (semantic_spec refs l conditions) c approved true r
      ≡ validate_app_spec (semantic_spec refs l conditions) c approved false r
unfolding validate_app_spec all_issues
semantic_needs_no_confirmation refs l conditions c approved r =
    let spec = semantic_spec refs l conditions in
    ap
      (λ found.
        outcome_of spec r
          (validate_limits l r.max_limits ++ validate_action_refs refs approved ++ found))
      (windows_unread c r true false 0 conditions)
