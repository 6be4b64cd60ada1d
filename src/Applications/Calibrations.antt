-- ===== src/Applications/Calibrations.antt =====
-- `CalibrationService` of backend/src/vision_app/applications/services.py, for calls that do not
-- overlap. New ids and the clock are given to a call; a principal is a workspace id.
use vision_app_creator.Prelude.{
  ℕ, ◌+◌, String, Bool, true, false, not, Option, none, some, ◌==◌, nat_eqb, string_eq,
  if◌then◌else◌, Dict,
}
use vision_app_creator.Prelude.Results.{Result, ok, err}
use vision_app_creator.Validation.Checks.{ValidationOutcome}
use vision_app_creator.Applications.{
  BoxN, Lines, FrameRef, Survey, Calibration, CalibrationRepository,
}

pub data ApplicationError : Type 0 where
  app_not_found app_conflict : ApplicationError
  invalid_proposal publication_blocked : ValidationOutcome → ApplicationError

-- A calibration as `create` makes it.
abbrev pub new_calibration : String → String → String → String → FrameRef → Survey → Calibration
new_calibration id w source camera frame found = record {
  id = id;
  source_id = source;
  workspace_id = w;
  camera_binding = camera;
  revision = 1;
  reference_frame = frame;
  survey = found;
  confirmed_by = none;
  confirmed_at = none;
}

-- The `changes` of `confirm`, `bind_source` and `revise_geometry`.
abbrev pub confirmation : String → ℕ → Calibration → Calibration
confirmation by now c = record c { confirmed_by = some by; confirmed_at = some now }

abbrev pub rebound : String → FrameRef → String → Calibration → Calibration
rebound source frame fingerprint c = record c {
  source_id = source;
  reference_frame = frame;
  survey = record c.survey { scene_fingerprint = fingerprint };
}

abbrev pub unconfirmed : Calibration → Calibration
unconfirmed c = record c { confirmed_by = none; confirmed_at = none }

abbrev pub binding : String → FrameRef → String → Calibration → Calibration → Calibration
binding source frame fingerprint current c =
    let bound = rebound source frame fingerprint c in
    if not (current.survey.scene_fingerprint == fingerprint) then unconfirmed bound else bound

abbrev pub regeometry :
    Lines → Lines → Dict String BoxN → Dict String String → Calibration → Calibration
regeometry lanes lines rois signals c = unconfirmed (record c {
  survey = record c.survey {
    lanes = lanes;
    lines = lines;
    rois = rois;
    governing_signals = signals;
  };
})

-- The calibration that `_update` writes.
abbrev pub next_revision : ℕ → Calibration → Calibration
next_revision n c = record c { revision = n + 1 }

abbrev pub swap_answer :
    {S : Type 0} → Calibration → Bool × S → Result ApplicationError Calibration × S
swap_answer c (true, s) = (ok c, s)
swap_answer c (false, s) = (err app_conflict, s)

module _ {S : Type 0} (repo : CalibrationRepository S) where
  unfoldable pub create :
      String
      → String
      → String
      → String
      → FrameRef
      → Survey
      → S
      → Result ApplicationError Calibration × S
  create id w source camera frame found s =
      let c = new_calibration id w source camera frame found in
      swap_answer c (repo.compare_and_swap id 0 c s)

  abbrev read_found : Option Calibration → Result ApplicationError Calibration
  read_found none = err app_not_found
  read_found (some c) = ok c

  unfoldable pub read : String → String → S → Result ApplicationError Calibration
  read w id s = read_found (repo.get_owned id w s)

  abbrev pub update_found :
      String
      → ℕ
      → (Calibration → Calibration)
      → Result ApplicationError Calibration
      → S
      → Result ApplicationError Calibration × S
  update_found id n changes (err e) s = (err e, s)
  update_found id n changes (ok c) s =
      if not (nat_eqb c.revision n)
      then (err app_conflict, s)
      else (let updated = next_revision n (changes c) in
          swap_answer updated (repo.compare_and_swap id n updated s))

  -- `_update`
  unfoldable pub update :
      String
      → String
      → ℕ
      → (Calibration → Calibration)
      → S
      → Result ApplicationError Calibration × S
  unfolding read
  update w id n changes s = update_found id n changes (read w id s) s

  unfoldable pub confirm :
      String → String → ℕ → String → ℕ → S → Result ApplicationError Calibration × S
  unfolding update
  confirm w id n by now s = update w id n (confirmation by now) s

  abbrev pub bind_found :
      String
      → String
      → ℕ
      → String
      → FrameRef
      → String
      → Result ApplicationError Calibration
      → S
      → Result ApplicationError Calibration × S
  bind_found w id n source frame fingerprint (err e) s = (err e, s)
  bind_found w id n source frame fingerprint (ok current) s =
      update w id n (binding source frame fingerprint current) s

  unfoldable pub bind_source :
      String → String → ℕ → String → FrameRef → String → S → Result ApplicationError Calibration × S
  unfolding read update
  bind_source w id n source frame fingerprint s =
      bind_found w id n source frame fingerprint (read w id s) s

  unfoldable pub revise_geometry :
      String
      → String
      → ℕ
      → Lines
      → Lines
      → Dict String BoxN
      → Dict String String
      → S
      → Result ApplicationError Calibration × S
  unfolding update
  revise_geometry w id n lanes lines rois signals s =
      update w id n (regeometry lanes lines rois signals) s
