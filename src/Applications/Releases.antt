-- ===== src/Applications/Releases.antt =====
-- Calls of the version and app services (backend/src/vision_app/applications/services.py), one after
-- the other, and what it is for one of them to publish a version.
use vision_app_creator.Prelude.{ℕ, String, ◌≡◌, ◌⊎◌, true, Option, some, List, [], ◌∷◌}
use vision_app_creator.Validation.{AppSpec, CapabilityRegistry, Calibration}
use vision_app_creator.Validation.Checks.{publication_ready}
use vision_app_creator.Validation.Manifests.{validate_app_spec}
use vision_app_creator.Applications.Versions.{VisionApp, AppVersion, ApplicationRepository}
use vision_app_creator.Applications.Versions as Versions
use vision_app_creator.Applications.Apps.{create, revise, publish}

-- A call of a service.
pub data Call : Type 0 where
  creates : String → String → String → Call
  drafts : String → ℕ → String → String → Option String → AppSpec → Call
  revises : String → ℕ → String → String → ℕ → Option String → AppSpec → Call
  publishes : String → String → ℕ → String → Option Calibration → List String → Call

module _ {S : Type 0} (repo : ApplicationRepository S) (registry : CapabilityRegistry) where
  unfoldable pub perform : Call → S → S
  unfolding create Versions.create revise publish
  perform (creates id w title) s = (create repo registry id w title s).1
  perform (drafts id now w app_id parent spec) s =
      (Versions.create repo registry id now w app_id parent spec s).1
  perform (revises new_id now w id n base spec) s =
      (revise repo registry new_id now w id n base spec s).1
  perform (publishes w id n version c approved) s =
      (publish repo registry w id n version c approved s).1

  unfoldable pub perform_all : List Call → S → S
  unfolding perform
  perform_all [] s = s
  perform_all (call ∷ calls) s = perform_all calls (perform call s)

  -- The call publishes version `v` of an app, which is then the app's draft and is found ready.
  unfoldable pub Publishes : String → String → S → Call → Type 0
  unfolding validate_app_spec
  Publishes id v s (publishes w id' n version c approved) =
      (id' ≡ id)
      × ((old : VisionApp) × (repo.stored id s ≡ some old) × (old.draft_version_id ≡ some version))
      × ((found : AppVersion) × (repo.get_version version w s ≡ some found)
          × (found.id ≡ v)
          × ((validate_app_spec found.spec c approved true registry).state ≡ publication_ready))
  Publishes id v s (creates _ _ _) = ⊥
  Publishes id v s (drafts _ _ _ _ _ _) = ⊥
  Publishes id v s (revises _ _ _ _ _ _ _) = ⊥

  -- One of the calls does.
  unfoldable pub IsReleased : String → String → S → List Call → Type 0
  unfolding Publishes perform
  IsReleased id v s [] = ⊥
  IsReleased id v s (call ∷ calls) = Publishes id v s call ⊎ IsReleased id v (perform call s) calls
