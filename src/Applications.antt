-- ===== src/Applications.antt =====
-- Calibrations of backend/src/vision_app/contracts/models.py, and what the calibration service of
-- applications/services.py expects of its repository. Nothing here computes with coordinates,
-- which are floats in the code and numbers here.
pub mod Calibrations
pub mod Calls
pub mod Confirmed
pub mod Stored
pub mod Persisted
pub mod Versions
pub mod Apps
pub mod Releases
pub mod Drafting
pub mod Released
use vision_app_creator.Prelude.{ℕ, String, ◌≡◌, ◌⊎◌, Bool, true, Option, some, List, Dict}

abbrev pub PointN : Type 0
PointN = ℕ × ℕ

abbrev pub BoxN : Type 0
BoxN = PointN × PointN

abbrev pub Lines : Type 0
Lines = Dict String (List PointN)

-- `body` stands for all fields that nothing here reads.
pub record FrameRef : Type 0 where
  pub source_id : String
  pub source_hash : String
  pub body : ℕ

-- What a calibration says of the scene.
pub record Survey : Type 0 where
  pub lanes : Lines
  pub lines : Lines
  pub rois : Dict String BoxN
  pub governing_signals : Dict String String
  pub scene_fingerprint : String

pub record Calibration : Type 0 where
  pub id : String
  pub source_id : String
  pub workspace_id : String
  pub camera_binding : String
  pub revision : ℕ
  pub reference_frame : FrameRef
  pub survey : Survey
  pub confirmed_by : Option String
  pub confirmed_at : Option ℕ

-- A repository of calibrations with state `S`. `stored` is what it holds, for the laws: a swap that
-- goes through stores the value, and nothing else that is stored changes.
pub record CalibrationRepository (S : Type 0) : Type 0 where
  pub get_owned : String → String → S → Option Calibration
  pub compare_and_swap : String → ℕ → Calibration → S → Bool × S
  pub stored : String → S → Option Calibration
  pub get-stored :
      (id w : String) (s : S) (c : Calibration) → get_owned id w s ≡ some c → stored id s ≡ some c
  pub swap-own :
      (id : String) (n : ℕ) (c : Calibration) (s : S)
      → (compare_and_swap id n c s).0 ≡ true
      → stored id (compare_and_swap id n c s).1 ≡ some c
  pub swap-other :
      (id : String) (n : ℕ) (c : Calibration) (s : S) (id' : String)
      → (((compare_and_swap id n c s).0 ≡ true) × (id ≡ id'))
        ⊎ (stored id' (compare_and_swap id n c s).1 ≡ stored id' s)
