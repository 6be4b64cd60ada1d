-- ===== src/Applications/Calls.antt =====
-- Calls of the calibration service (backend/src/vision_app/applications/services.py), one after the
-- other, and what it is for one of them to confirm a calibration.
use vision_app_creator.Prelude.{ℕ, String, ◌≡◌, ◌⊎◌, some, List, [], ◌∷◌, Dict}
use vision_app_creator.Applications.{
  BoxN, Lines, FrameRef, Survey, Calibration, CalibrationRepository,
}
use vision_app_creator.Applications.Calibrations.{create, confirm, bind_source, revise_geometry}

-- A call of the service.
pub data Call : Type 0 where
  creates : String → String → String → String → FrameRef → Survey → Call
  confirms : String → String → ℕ → String → ℕ → Call
  binds : String → String → ℕ → String → FrameRef → String → Call
  revises : String → String → ℕ → Lines → Lines → Dict String BoxN → Dict String String → Call

-- The confirmation of `c` is that of `old`, and so is the scene that it is about.
unfoldable pub IsKept : Calibration → Calibration → Type 0
IsKept old c =
    (old.survey ≡ c.survey)
    × (old.confirmed_by ≡ c.confirmed_by)
    × (old.confirmed_at ≡ c.confirmed_at)

module _ {S : Type 0} (repo : CalibrationRepository S) where
  unfoldable pub perform : Call → S → S
  unfolding create confirm bind_source revise_geometry
  perform (creates id w source camera frame found) s =
      (create repo id w source camera frame found s).1
  perform (confirms w id n by now) s = (confirm repo w id n by now s).1
  perform (binds w id n source frame fingerprint) s =
      (bind_source repo w id n source frame fingerprint s).1
  perform (revises w id n lanes lines rois signals) s =
      (revise_geometry repo w id n lanes lines rois signals s).1

  unfoldable pub perform_all : List Call → S → S
  unfolding perform
  perform_all [] s = s
  perform_all (call ∷ calls) s = perform_all calls (perform call s)

  -- The call confirms the scene of `c`, as it is stored at that moment, by the person and at the
  -- time that `c` names.
  unfoldable pub Confirms : String → Calibration → S → Call → Type 0
  Confirms id c s (confirms w id' n by now) =
      (id' ≡ id)
      × (c.confirmed_by ≡ some by)
      × (c.confirmed_at ≡ some now)
      × ((old : Calibration) × (repo.stored id s ≡ some old) × (old.survey ≡ c.survey))
  Confirms id c s (creates _ _ _ _ _ _) = ⊥
  Confirms id c s (binds _ _ _ _ _ _) = ⊥
  Confirms id c s (revises _ _ _ _ _ _ _) = ⊥

  -- One of the calls does.
  unfoldable pub IsConfirmed : String → Calibration → S → List Call → Type 0
  unfolding Confirms perform
  IsConfirmed id c s [] = ⊥
  IsConfirmed id c s (call ∷ calls) = Confirms id c s call ⊎ IsConfirmed id c (perform call s) calls
