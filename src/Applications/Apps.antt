-- ===== src/Applications/Apps.antt =====
-- `AppService` of backend/src/vision_app/applications/services.py, for calls that do not overlap.
use vision_app_creator.Prelude.{
  ℕ, ◌+◌, String, Bool, true, false, not, Option, none, some, List, ◌==◌, ◌||◌, nat_eqb, string_eq,
  if◌then◌else◌,
}
use vision_app_creator.Prelude.Results.{Result, ok, err}
use vision_app_creator.Validation.{AppSpec, CapabilityRegistry, Calibration}
use vision_app_creator.Validation.Checks.{
  ValidationOutcome, OutcomeState, invalid, needs_calibration, publication_ready,
}
use vision_app_creator.Validation.Manifests.{validate_app_spec}
use vision_app_creator.Applications.Calibrations.{
  ApplicationError, app_not_found, app_conflict, publication_blocked,
}
use vision_app_creator.Applications.Versions.{VisionApp, AppVersion, ApplicationRepository}
use vision_app_creator.Applications.Versions as Versions

abbrev pub new_app : String → String → String → VisionApp
new_app id w title = record {
  id = id;
  workspace_id = w;
  title = title;
  draft_version_id = none;
  published_version_id = none;
  revision = 0;
}

abbrev pub is_ready : OutcomeState → Bool
is_ready publication_ready = true
is_ready invalid = false
is_ready needs_calibration = false

abbrev pub swap_answer : {S B : Type 0} → B → Bool × S → Result ApplicationError B × S
swap_answer answer (true, s) = (ok answer, s)
swap_answer answer (false, s) = (err app_conflict, s)

-- `==` of the current draft and a version id
abbrev pub same_draft : Option String → Option String → Bool
same_draft none none = true
same_draft none (some v) = false
same_draft (some d) none = false
same_draft (some d) (some v) = d == v

abbrev pub published : VisionApp → AppVersion → VisionApp
published a v = record a { published_version_id = some v.id; revision = a.revision + 1 }

module _ {S : Type 0} (repo : ApplicationRepository S) (registry : CapabilityRegistry) where
  unfoldable pub create : String → String → String → S → Result ApplicationError VisionApp × S
  create id w title s = let a = new_app id w title in swap_answer a (repo.compare_and_swap id 0 a s)

  abbrev read_found : Option VisionApp → Result ApplicationError VisionApp
  read_found none = err app_not_found
  read_found (some a) = ok a

  unfoldable pub read : String → String → S → Result ApplicationError VisionApp
  read w id s = read_found (repo.get_app id w s)

  abbrev pub revise_created :
      String
      → ℕ
      → VisionApp
      → Result ApplicationError AppVersion × S
      → Result ApplicationError AppVersion × S
  revise_created id n a (err e, s) = (err e, s)
  revise_created id n a (ok v, s) =
      let updated = record a { draft_version_id = some v.id; revision = a.revision + 1 } in
      swap_answer v (repo.compare_and_swap id n updated s)

  -- `new_id` and `now` are for the version that is created.
  abbrev pub revise_found :
      String
      → ℕ
      → String
      → String
      → ℕ
      → Option String
      → AppSpec
      → Result ApplicationError VisionApp
      → S
      → Result ApplicationError AppVersion × S
  revise_found new_id now w id n base spec (err e) s = (err e, s)
  revise_found new_id now w id n base spec (ok a) s =
      if not (nat_eqb a.revision n) || not (same_draft a.draft_version_id base)
      then (err app_conflict, s)
      else revise_created id n a (Versions.create repo registry new_id now w id base spec s)

  unfoldable pub revise :
      String
      → ℕ
      → String
      → String
      → ℕ
      → Option String
      → AppSpec
      → S
      → Result ApplicationError AppVersion × S
  unfolding read Versions.create
  revise new_id now w id n base spec s = revise_found new_id now w id n base spec (read w id s) s

  abbrev pub publish_version :
      String
      → ℕ
      → Option Calibration
      → List String
      → VisionApp
      → Result ApplicationError AppVersion
      → S
      → Result ApplicationError VisionApp × S
  publish_version id n c approved a (err e) s = (err e, s)
  publish_version id n c approved a (ok v) s =
      let outcome = validate_app_spec v.spec c approved true registry in
      if not (is_ready outcome.state)
      then (err (publication_blocked outcome), s)
      else swap_answer (published a v) (repo.compare_and_swap id n (published a v) s)

  abbrev pub publish_found :
      String
      → String
      → ℕ
      → String
      → Option Calibration
      → List String
      → Result ApplicationError VisionApp
      → S
      → Result ApplicationError VisionApp × S
  publish_found w id n version c approved (err e) s = (err e, s)
  publish_found w id n version c approved (ok a) s =
      if not (nat_eqb a.revision n) || not (same_draft a.draft_version_id (some version))
      then (err app_conflict, s)
      else publish_version id n c approved a (Versions.read repo registry w version s) s

  unfoldable pub publish :
      String
      → String
      → ℕ
      → String
      → Option Calibration
      → List String
      → S
      → Result ApplicationError VisionApp × S
  unfolding read Versions.read validate_app_spec
  publish w id n version c approved s = publish_found w id n version c approved (read w id s) s

  abbrev readiness_of :
      Option Calibration
      → List String
      → Result ApplicationError AppVersion
      → Result ApplicationError ValidationOutcome
  readiness_of c approved (err e) = err e
  readiness_of c approved (ok v) = ok (validate_app_spec v.spec c approved true registry)

  unfoldable pub readiness :
      String
      → String
      → Option Calibration
      → List String
      → S
      → Result ApplicationError ValidationOutcome
  unfolding Versions.read validate_app_spec
  readiness w version c approved s =
      readiness_of c approved (Versions.read repo registry w version s)
