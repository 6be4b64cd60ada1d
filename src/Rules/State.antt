-- ===== src/Rules/State.antt =====
-- What the reducer keeps (backend/src/vision_app/rules/state.py and config.py) and reads. A box is a
-- number that stands for its four coordinates; the tests on it, which are made on floats, and the
-- hash of the episode ids are given by a record. Fields that only these read, or that nothing
-- reads, are left out.
use vision_app_creator.Prelude.{ℕ, String, Bool, false, Option, none, List, [], Dict}
use vision_app_creator.Prelude.Int.{ℤ}
use vision_app_creator.Contracts.{CrossingBracket, TimeRange}

pub data RuleError : Type 0 where
  value_error assertion_error : RuleError

pub record LineRuleConfig : Type 0 where
  pub rule_id : String
  pub capability_id : String
  pub max_gap_ms : ℕ
  pub valid_from_side : ℤ
  pub valid_to_side : ℤ
  pub margin_ms : ℕ

pub record ZoneRuleConfig : Type 0 where
  pub rule_id : String
  pub capability_id : String
  pub max_gap_ms : ℕ
  pub merge_gap_ms : ℕ

pub data RuleConfig : Type 0 where
  line : LineRuleConfig → RuleConfig
  zone : ZoneRuleConfig → RuleConfig

pub record CrossingEpisode : Type 0 where
  pub episode_id : String
  pub track_id : String
  pub bracket : CrossingBracket
  pub predicted_in_bracket : Bool

pub record ZoneEpisode : Type 0 where
  pub episode_id : String
  pub track_id : String
  pub persistence : TimeRange

pub data Episode : Type 0 where
  crossing : CrossingEpisode → Episode
  zone_visit : ZoneEpisode → Episode

pub record TrackState : Type 0 where
  pub last_anchor : Option ℕ
  pub last_time_ms : Option ℕ
  pub confirmed_side : Option ℤ
  pub last_pre_time_ms : Option ℕ
  pub last_pre_predicted : Bool
  pub last_post_time_ms : Option ℕ
  pub episodes : List Episode
  pub zone_inside : Option Bool
  pub zone_entry_ms : Option ℕ

-- `TrackState()`
abbrev pub new_track : TrackState
new_track = record {
  last_anchor = none;
  last_time_ms = none;
  confirmed_side = none;
  last_pre_time_ms = none;
  last_pre_predicted = false;
  last_post_time_ms = none;
  episodes = [];
  zone_inside = none;
  zone_entry_ms = none;
}

-- `RuleState`: its dict of tracks
abbrev pub Tracks : Type 0
Tracks = Dict String TrackState

-- A `TrackObservation`, with the flag `PREDICTED_ONLY` of its quality.
pub record Observation : Type 0 where
  pub time_ms : ℕ
  pub track_id : String
  pub observed : Bool
  pub predicted_only : Bool
  pub box : ℕ

-- For the rule at hand: `box_anchor`, `line_side` of the anchor, `point_in_polygon` of the anchor,
-- and `episode_id(rule_id, track_id, kind, *values)`.
pub record Outside : Type 0 where
  pub anchor_of : ℕ → ℕ
  pub line_side : ℕ → ℤ
  pub is_inside : ℕ → Bool
  pub episode_id : String → String → String → ℕ → ℕ → String
