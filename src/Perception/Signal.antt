-- ===== src/Perception/Signal.antt =====
-- `ConfirmedSignalIntervals` of backend/src/vision_app/perception/signal/intervals.py. Where the
-- code has checked the order of two times, the `TimeRange` or `CrossingBracket` is built outright.
use vision_app_creator.Prelude.{
  ℕ, ◌+◌, String, Bool, false, Option, none, some, List, [], ◌∷◌, ◌++◌, ◌==◌, string_eq, ltb, leb,
  if◌then◌else◌,
}
use vision_app_creator.Prelude.Results.{Result, ok, err}
use vision_app_creator.Contracts.{CrossingBracket, SignalInterval}

pub data SignalError : Type 0 where
  value_error assertion_error : SignalError

-- A `SignalObservation`: its time and its state, a color or "unknown".
pub record Sample : Type 0 where
  pub time_ms : ℕ
  pub state : String

pub record Intervals : Type 0 where
  pub stability_ms : ℕ
  pub last_time : Option ℕ
  pub candidate : Option String
  pub candidate_since : Option ℕ
  pub candidate_start_uncertainty : Option CrossingBracket
  pub confirmed : Option String
  pub confirmed_since : Option ℕ
  pub last_confirmed_sample : Option ℕ
  pub start_uncertainty : Option CrossingBracket
  pub completed : List SignalInterval

-- `ConfirmedSignalIntervals(stability_ms=…)`
abbrev pub new_intervals : ℕ → Intervals
new_intervals stability = record {
  stability_ms = stability;
  last_time = none;
  candidate = none;
  candidate_since = none;
  candidate_start_uncertainty = none;
  confirmed = none;
  confirmed_since = none;
  last_confirmed_sample = none;
  start_uncertainty = none;
  completed = [];
}

-- `_bracket`
abbrev pub bracket : Option ℕ → ℕ → Option CrossingBracket
bracket none after = none
bracket (some before) after =
    if leb after before then none else some (record { last_pre_ms = before; first_post_ms = after })

-- `time_ms < self._last_time`
abbrev pub is_late : Option ℕ → ℕ → Bool
is_late none time = false
is_late (some last) time = ltb time last

-- An optional color compared with a color.
abbrev pub is_color : Option String → String → Bool
is_color none c = false
is_color (some d) c = d == c

abbrev pub no_candidate : Intervals → Intervals
no_candidate s = record s {
  candidate = none;
  candidate_since = none;
  candidate_start_uncertainty = none;
}

abbrev pub unconfirmed : Intervals → Intervals
unconfirmed s = record s {
  confirmed = none;
  confirmed_since = none;
  last_confirmed_sample = none;
  start_uncertainty = none;
}

abbrev pub interval : String → ℕ → ℕ → Option ℕ → Intervals → SignalInterval
interval color since end previous s = record {
  state = color;
  confirmed_range = record { start_ms = since; end_ms = end };
  start_uncertainty = s.start_uncertainty;
  end_uncertainty = bracket previous end;
  gaps = [];
}

-- `_close_confirmed`; a change at the very time of confirmation leaves no interval
unfoldable pub close_confirmed : String → ℕ → Option ℕ → Intervals → Result SignalError Intervals
close_confirmed color end previous s = elim s.confirmed_since [
  | none ↦ err assertion_error
  | some since ↦ ok (
      unconfirmed (
        if ltb since end
        then record s { completed = s.completed ++ (interval color since end previous s ∷ []) }
        else s))
]

-- The start of a candidate, when the color is not the candidate.
abbrev pub started : String → ℕ → Option ℕ → Intervals → Intervals
started color time previous s = if is_color s.candidate color then s else record s {
  candidate = some color;
  candidate_since = some time;
  candidate_start_uncertainty = bracket previous time;
}

-- `time_ms - candidate_since >= stability_ms`, where the time is not before the candidate's
unfoldable pub confirm : String → ℕ → Intervals → Result SignalError Intervals
confirm color time s = elim s.candidate_since [
  | none ↦ err assertion_error
  | some since ↦
      if leb (since + s.stability_ms) time
      then ok (
          no_candidate (record s {
            confirmed = some color;
            confirmed_since = some time;
            last_confirmed_sample = some time;
            start_uncertainty = s.candidate_start_uncertainty;
          }))
      else ok s
]

-- `update`, after a confirmed color that has changed was closed
abbrev pub observe : Sample → Option ℕ → Intervals → Result SignalError Intervals
observe o previous s =
    if o.state == "unknown"
    then ok (no_candidate s)
    else if is_color s.confirmed o.state
    then ok (record s { last_confirmed_sample = some o.time_ms })
    else confirm o.state o.time_ms (started o.state o.time_ms previous s)

abbrev pub update_confirmed :
    Sample → Option ℕ → Option String → Intervals → Result SignalError Intervals
update_confirmed o previous none s = observe o previous s
update_confirmed o previous (some color) s =
    if o.state == color
    then observe o previous s
    else elim (close_confirmed color o.time_ms previous s) [
      | err e ↦ err e
      | ok s' ↦ observe o previous (no_candidate s')
    ]

unfoldable pub update : Sample → Intervals → Result SignalError Intervals
update o s =
    if is_late s.last_time o.time_ms
    then err value_error
    else update_confirmed o s.last_time s.confirmed (record s { last_time = some o.time_ms })

unfoldable pub flush : ℕ → Intervals → Result SignalError Intervals
flush end s = elim s.confirmed [
  | none ↦ ok s
  | some color ↦ elim s.confirmed_since [
    | none ↦ ok s
    | some since ↦ close_confirmed color end s.last_time s
  ]
]

unfoldable pub update_all : List Sample → Intervals → Result SignalError Intervals
update_all [] s = ok s
update_all (o ∷ os) s = elim (update o s) [ err e ↦ err e | ok s' ↦ update_all os s' ]
