-- ===== src/Applications/Persisted.antt =====
-- The in-memory repository (backend/src/vision_app/persistence/memory.py) is a repository as the
-- services of applications/services.py expect them: one of calibrations, and one of apps and
-- their versions. What is dumped is loaded again, since the repository keeps the objects.
use vision_app_creator.Prelude.{◌≡◌, refl, Option, some, string_eq}
use vision_app_creator.Persistence.Value.{Value}
use vision_app_creator.Persistence.Repository.{Repository}
use vision_app_creator.Applications.{Calibration, CalibrationRepository}
use vision_app_creator.Applications.Versions.{VisionApp, AppVersion, ApplicationRepository}
use vision_app_creator.Applications.Stored.{
  owned_value, swap_value, stored_value, add_value, owned-stored, swap-stored, swap-elsewhere,
  stored-add,
}

module _ (dump : Calibration → Value) (load : Value → Option Calibration)
    (load-dump : (c : Calibration) → load (dump c) ≡ some c) where
  -- The in-memory repository as the calibration service sees it.
  abbrev pub persisted : CalibrationRepository Repository
  persisted = record {
    get_owned = owned_value "calibration" dump load;
    compare_and_swap = swap_value "calibration" dump load;
    stored = stored_value "calibration" dump load;
    get-stored = owned-stored "calibration" dump load;
    swap-own = swap-stored "calibration" dump load load-dump;
    swap-other = swap-elsewhere "calibration" dump load;
  }

module _ (dump : VisionApp → Value) (load : Value → Option VisionApp)
    (load-dump : (a : VisionApp) → load (dump a) ≡ some a) (dump_version : AppVersion → Value)
    (load_version : Value → Option AppVersion) where
  -- The in-memory repository as the services of apps and versions see it.
  abbrev pub persisted_apps : ApplicationRepository Repository
  persisted_apps = record {
    get_app = owned_value "vision_app" dump load;
    compare_and_swap = swap_value "vision_app" dump load;
    get_version = owned_value "app_version" dump_version load_version;
    add_immutable = add_value "app_version" dump_version load_version;
    stored = stored_value "vision_app" dump load;
    get-stored = owned-stored "vision_app" dump load;
    swap-own = swap-stored "vision_app" dump load load-dump;
    swap-other = swap-elsewhere "vision_app" dump load;
    add-stored = stored-add "vision_app" "app_version" load dump_version dump load_version refl;
  }
