-- ===== src/Applications/Versions.antt =====
-- Apps and their versions (backend/src/vision_app/contracts/models.py), what the services of
-- applications/services.py expect of the repository of them, and `VersionService`. New ids and the
-- clock are given to a call; a principal is a workspace id.
use vision_app_creator.Prelude.{
  ℕ, String, ◌≡◌, ◌⊎◌, Bool, true, false, Option, none, some, List, [], ◌∷◌, ◌==◌, string_eq,
  if◌then◌else◌, Dict,
}
use vision_app_creator.Prelude.Results.{Result, ok, err}
use vision_app_creator.Validation.{AppSpec, CapabilityRegistry}
use vision_app_creator.Validation.Checks.{
  Issues, OutcomeState, invalid, needs_calibration, publication_ready,
}
use vision_app_creator.Validation.Manifests.{validate_app_spec}
use vision_app_creator.Applications.Calibrations.{
  ApplicationError, app_not_found, app_conflict, invalid_proposal,
}

pub record VisionApp : Type 0 where
  pub id : String
  pub workspace_id : String
  pub title : String
  pub draft_version_id : Option String
  pub published_version_id : Option String
  pub revision : ℕ

pub record AppVersion : Type 0 where
  pub id : String
  pub app_id : String
  pub workspace_id : String
  pub parent_id : Option String
  pub spec : AppSpec
  pub capability_manifest : Dict String String
  pub model_manifest : Dict String String
  pub validation_report : List String
  pub created_by : String
  pub created_at : ℕ

-- A repository of apps and versions with state `S`. `stored` is what it holds of an app, for the
-- laws: a swap that goes through stores the app, nothing else changes an app.
pub record ApplicationRepository (S : Type 0) : Type 0 where
  pub get_app : String → String → S → Option VisionApp
  pub compare_and_swap : String → ℕ → VisionApp → S → Bool × S
  pub get_version : String → String → S → Option AppVersion
  pub add_immutable : String → AppVersion → S → Bool × S
  pub stored : String → S → Option VisionApp
  pub get-stored :
      (id w : String) (s : S) (a : VisionApp) → get_app id w s ≡ some a → stored id s ≡ some a
  pub swap-own :
      (id : String) (n : ℕ) (a : VisionApp) (s : S)
      → (compare_and_swap id n a s).0 ≡ true
      → stored id (compare_and_swap id n a s).1 ≡ some a
  pub swap-other :
      (id : String) (n : ℕ) (a : VisionApp) (s : S) (id' : String)
      → (((compare_and_swap id n a s).0 ≡ true) × (id ≡ id'))
        ⊎ (stored id' (compare_and_swap id n a s).1 ≡ stored id' s)
  pub add-stored :
      (id' : String) (v : AppVersion) (s : S) (id : String)
      → stored id (add_immutable id' v s).1 ≡ stored id s

-- `[issue.code for issue in outcome.issues]`
unfoldable pub codes : Issues → List String
codes [] = []
codes (issue ∷ issues) = issue.code ∷ codes issues

-- `ResourceId(parent_id) if parent_id else None`
abbrev pub parent_of : Option String → Option String
parent_of none = none
parent_of (some id) = if id == "" then none else some id

abbrev pub is_invalid : OutcomeState → Bool
is_invalid invalid = true
is_invalid needs_calibration = false
is_invalid publication_ready = false

abbrev pub add_answer :
    {S : Type 0} → AppVersion → Bool × S → Result ApplicationError AppVersion × S
add_answer v (true, s) = (ok v, s)
add_answer v (false, s) = (err app_conflict, s)

module _ {S : Type 0} (repo : ApplicationRepository S) (registry : CapabilityRegistry) where
  abbrev pub new_version :
      String → ℕ → String → String → Option String → AppSpec → VisionApp → AppVersion
  new_version id now w app_id parent spec a =
      let outcome = validate_app_spec spec none [] false registry in
      record {
        id = id;
        app_id = app_id;
        workspace_id = a.workspace_id;
        parent_id = parent_of parent;
        spec = spec;
        capability_manifest = outcome.capability_manifest;
        model_manifest = outcome.model_manifest;
        validation_report = codes outcome.issues;
        created_by = w;
        created_at = now;
      }

  abbrev pub create_for :
      String
      → ℕ
      → String
      → String
      → Option String
      → AppSpec
      → Option VisionApp
      → S
      → Result ApplicationError AppVersion × S
  create_for id now w app_id parent spec none s = (err app_not_found, s)
  create_for id now w app_id parent spec (some a) s =
      let v = new_version id now w app_id parent spec a in add_answer v (repo.add_immutable id v s)

  unfoldable pub create :
      String
      → ℕ
      → String
      → String
      → Option String
      → AppSpec
      → S
      → Result ApplicationError AppVersion × S
  unfolding validate_app_spec codes
  create id now w app_id parent spec s =
      let outcome = validate_app_spec spec none [] false registry in
      if is_invalid outcome.state
      then (err (invalid_proposal outcome), s)
      else create_for id now w app_id parent spec (repo.get_app app_id w s) s

  abbrev pub read_found : Option AppVersion → Result ApplicationError AppVersion
  read_found none = err app_not_found
  read_found (some v) = ok v

  unfoldable pub read : String → String → S → Result ApplicationError AppVersion
  read w id s = read_found (repo.get_version id w s)
