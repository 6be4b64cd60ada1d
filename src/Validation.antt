-- ===== src/Validation.antt =====
-- backend/src/vision_app/validation: the registry of capabilities (registry.py, with the vocabulary
-- of contracts/capabilities.py) and the validator of application specs (validator.py). The spec and
-- calibration records are those of contracts/models.py, less the fields that the validator does
-- not read. Sets are lists.
pub mod Prompts
pub mod Checks
pub mod Readiness
pub mod Manifests
pub mod Models
pub mod Publishing
use vision_app_creator.Prelude.{
  ℕ, String, Bool, true, false, Option, List, [], ◌∷◌, ◌==◌, ◌&&◌, string_eq, Dict, elem,
}

pub record CapabilityEntry : Type 0 where
  pub capability_id : String
  pub mode : String
  pub requires : List String
  pub supported_classes : List String

pub record ModelCapability : Type 0 where
  pub component_id : String
  pub provider : String
  pub model : String
  pub revision : String

pub record ExecutionLimits : Type 0 where
  pub max_duration_ms : ℕ
  pub max_model_calls : ℕ

pub record CapabilityRegistry : Type 0 where
  pub capabilities : Dict String CapabilityEntry
  pub models : Dict String ModelCapability
  pub actions : List String
  pub installed_components : List String
  pub max_limits : ExecutionLimits

-- `xs <= ys` on sets
unfoldable pub is_subset : List String → List String → Bool
unfolding elem
is_subset [] ys = true
is_subset (x ∷ xs) ys = elem x ys && is_subset xs ys

abbrev pub is_known_mode : String → Bool
is_known_mode m = elem m ("tracked_rules" ∷ "semantic_windows" ∷ [])

unfoldable pub are_consistent : List String → Dict String CapabilityEntry → Bool
unfolding is_subset elem
are_consistent installed [] = true
are_consistent installed ((key, entry) ∷ d) =
    entry.capability_id == key
    && is_known_mode entry.mode
    && is_subset entry.requires installed
    && are_consistent installed d

abbrev pub combinations_are_consistent : CapabilityRegistry → Bool
combinations_are_consistent r = are_consistent r.installed_components r.capabilities

pub record TrackedRule : Type 0 where
  pub rule_id : String
  pub rule_capability : String
  pub object_classes : List String

pub record SemanticCondition : Type 0 where
  pub condition_id : String
  pub prompt : String
  pub roi_id : Option String

pub data SpecKind : Type 0 where
  tracked_rules : List TrackedRule → SpecKind
  semantic_windows : List SemanticCondition → SpecKind

pub record AppSpec : Type 0 where
  pub approved_action_refs : List String
  pub limits : ExecutionLimits
  pub kind : SpecKind

-- The regions are their names, the signals the pairs of a dict.
pub record Calibration : Type 0 where
  pub rois : List String
  pub governing_signals : Dict String String
  pub confirmed_by : Option String
  pub confirmed_at : Option ℕ

abbrev vehicles : List String
vehicles = "car" ∷ "bus" ∷ "truck" ∷ "motorcycle" ∷ []

abbrev tracking : List String
tracking = "detector.common" ∷ "tracker.bytetrack" ∷ []

abbrev entry : String → String → List String → List String → String × CapabilityEntry
entry id m needs classes =
    (id, record { capability_id = id; mode = m; requires = needs; supported_classes = classes })

-- `CAPABILITIES`, as the registry's entries
abbrev pub known_capabilities : Dict String CapabilityEntry
known_capabilities =
    entry "tracked.line_crossing" "tracked_rules" tracking ("person" ∷ vehicles)
    ∷ entry "tracked.person_in_zone" "tracked_rules" tracking ("person" ∷ [])
    ∷ entry "tracked.red_phase_crossing" "tracked_rules"
        ("detector.common" ∷ "tracker.bytetrack" ∷ "signal.roi" ∷ []) vehicles
    ∷ entry "semantic.visible_condition" "semantic_windows" ("reasoner.window" ∷ []) []
    ∷ []

abbrev model_of : String → String → String → String × ModelCapability
model_of id by name =
    (id, record { component_id = id; provider = by; model = name; revision = "v1" })

-- `REGISTRY`
abbrev pub installed_registry : CapabilityRegistry
installed_registry = record {
  capabilities = known_capabilities;
  models =
      model_of "detector.common" "roboflow" "rf-detr-small"
      ∷ model_of "tracker.bytetrack" "roboflow" "bytetrack"
      ∷ model_of "signal.roi" "vision_app" "signal_roi_classifier"
      ∷ model_of "reasoner.window" "google" "gemini-3.8-flash"
      ∷ [];
  actions = "action.in_app_event" ∷ "action.webhook_preview" ∷ "action.webhook_dispatch" ∷ [];
  installed_components =
      "detector.common" ∷ "tracker.bytetrack" ∷ "signal.roi" ∷ "reasoner.window" ∷ [];
  max_limits = record { max_duration_ms = 300000; max_model_calls = 100 };
}
