-- ===== src/Contracts.antt =====
-- The contract models of backend/src/vision_app/contracts/models.py that the other parts read.
-- A ResourceId is its text, a SourceTimeMs a number of milliseconds. Fields that no modelled code
-- reads are gathered in `body`.
use vision_app_creator.Prelude.{ℕ, String, Option, none, some, List, ltb, if◌then◌else◌}

pub record TimeRange : Type 0 where
  pub start_ms : ℕ
  pub end_ms : ℕ

-- `TimeRange(start_ms=…, end_ms=…)`: `none` is the ValueError of the validator `ordered`
unfoldable pub time_range : ℕ → ℕ → Option TimeRange
time_range a b = if ltb a b then some (record { start_ms = a; end_ms = b }) else none

pub record CrossingBracket : Type 0 where
  pub last_pre_ms : ℕ
  pub first_post_ms : ℕ

-- `CrossingBracket(last_pre_ms=…, first_post_ms=…)`, in the same way
unfoldable pub crossing_bracket : ℕ → ℕ → Option CrossingBracket
crossing_bracket a b =
    if ltb a b then some (record { last_pre_ms = a; first_post_ms = b }) else none

pub record Event : Type 0 where
  pub id : String
  pub run_id : String
  pub attempt_id : String
  pub start_ms : ℕ
  pub human_review : String
  pub revision : ℕ
  pub body : ℕ

pub record RunProgress : Type 0 where
  pub run_id : String
  pub attempt_id : String
  pub sequence : ℕ
  pub processed_ranges : List TimeRange
  pub body : ℕ

pub record DeliveryAttempt : Type 0 where
  pub id : String
  pub event_id : String
  pub event_revision : ℕ
  pub state : String
  pub body : ℕ

pub record SignalInterval : Type 0 where
  pub state : String
  pub confirmed_range : TimeRange
  pub start_uncertainty : Option CrossingBracket
  pub end_uncertainty : Option CrossingBracket
  pub gaps : List TimeRange
