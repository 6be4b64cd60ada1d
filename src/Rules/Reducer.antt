-- ===== src/Rules/Reducer.antt =====
-- The reducer of backend/src/vision_app/rules/reducer.py, with the asserts and the ValueErrors of
-- the contract models as errors.
use vision_app_creator.Prelude.{
  ℕ, ◌+◌, String, Bool, true, false, not, Option, none, some, List, [], ◌∷◌, ◌++◌, ltb,
  if◌then◌else◌, ◌&&◌, ◌||◌, ◌==◌, string_eq, sort_by, lookup_or, insert,
}
use vision_app_creator.Prelude.Int.{ℤ, int_eq}
use vision_app_creator.Prelude.Results.{Result, ok, err}
use vision_app_creator.Contracts.{CrossingBracket, crossing_bracket, time_range}
use vision_app_creator.Rules.State.{
  RuleError, value_error, assertion_error, LineRuleConfig, ZoneRuleConfig, RuleConfig, line, zone,
  CrossingEpisode, ZoneEpisode, Episode, crossing, zone_visit, TrackState, new_track, Tracks,
  Observation, Outside,
}

-- `is_valid_crossing` of rules/geometry.py
abbrev pub is_valid_crossing : ℤ → ℤ → ℤ → ℤ → Bool
is_valid_crossing pre post valid_from valid_to = pre == valid_from && post == valid_to

-- `last is not None and time_ms - last > max_gap_ms`
abbrev pub is_gap : Option ℕ → ℕ → ℕ → Bool
is_gap none time max_gap = false
is_gap (some last) time max_gap = ltb (last + max_gap) time

-- `TrackState(last_anchor=anchor, last_time_ms=time_ms)`
abbrev pub restarted : ℕ → ℕ → TrackState
restarted anchor time = record new_track { last_anchor = some anchor; last_time_ms = some time }

abbrev pub is_predicted : Observation → Bool
is_predicted o = not o.observed || o.predicted_only

abbrev pub is_earlier : Observation → Observation → Bool
is_earlier o p = ltb o.time_ms p.time_ms

module _ (out : Outside) where
  module _ (rule : LineRuleConfig) where
    -- The states that `_line_track_state` returns have no zone.
    abbrev pub seen_at : TrackState → Observation → TrackState
    seen_at ts o = record ts {
      last_anchor = some (out.anchor_of o.box);
      last_time_ms = some o.time_ms;
      zone_inside = none;
      zone_entry_ms = none;
    }

    -- The side is the confirmed one, or the first.
    abbrev pub stay : TrackState → Observation → ℤ → TrackState
    stay ts o side =
        let pre = side == rule.valid_from_side in
        record (seen_at ts o) {
          confirmed_side = some side;
          last_pre_time_ms = if pre then some o.time_ms else ts.last_pre_time_ms;
          last_pre_predicted = if pre then is_predicted o else ts.last_pre_predicted;
          last_post_time_ms =
              if side == rule.valid_to_side then some o.time_ms else ts.last_post_time_ms;
        }

    abbrev pub crossed :
        TrackState → Observation → ℤ → Bool → Option CrossingBracket → Result RuleError TrackState
    crossed ts o side pre_predicted none = err value_error
    crossed ts o side pre_predicted (some b) =
        let ep : CrossingEpisode = record {
          episode_id =
              out.episode_id rule.rule_id o.track_id "crossing" b.last_pre_ms b.first_post_ms;
          track_id = o.track_id;
          bracket = b;
          predicted_in_bracket = pre_predicted || is_predicted o;
        } in
        ok (record (seen_at ts o) {
          confirmed_side = some side;
          last_pre_time_ms = none;
          last_pre_predicted = false;
          last_post_time_ms = some o.time_ms;
          episodes = ts.episodes ++ (crossing ep ∷ []);
        })

    -- Without an observation before it, the bracket would start at the crossing itself.
    abbrev pub cross : TrackState → Observation → ℤ → Result RuleError TrackState
    cross ts o side = elim ts.last_pre_time_ms [
      | none ↦ crossed ts o side (is_predicted o) (crossing_bracket o.time_ms o.time_ms)
      | some pre ↦ crossed ts o side ts.last_pre_predicted (crossing_bracket pre o.time_ms)
    ]

    abbrev pub reversed : TrackState → Observation → ℤ → TrackState
    reversed ts o side = record (seen_at ts o) {
      confirmed_side = some side;
      last_pre_time_ms = some o.time_ms;
      last_pre_predicted = is_predicted o;
      last_post_time_ms = none;
    }

    abbrev pub moved : TrackState → Observation → ℤ → TrackState
    moved ts o side =
        if side == rule.valid_from_side
        then record (seen_at ts o) {
          confirmed_side = some side;
          last_pre_time_ms = some o.time_ms;
          last_pre_predicted = is_predicted o;
        }
        else record (seen_at ts o) {
          confirmed_side = some side;
          last_post_time_ms = some o.time_ms;
        }

    abbrev pub change_side : TrackState → Observation → ℤ → ℤ → Result RuleError TrackState
    change_side ts o side confirmed =
        if side == confirmed
        then ok (stay ts o side)
        else if is_valid_crossing confirmed side rule.valid_from_side rule.valid_to_side
        then cross ts o side
        else if is_valid_crossing confirmed side rule.valid_to_side rule.valid_from_side
        then ok (reversed ts o side)
        else ok (moved ts o side)

    abbrev pub line_from : TrackState → Observation → ℤ → Result RuleError TrackState
    line_from ts o side = if side == ℤ.pos 0 then ok (seen_at ts o) else elim ts.confirmed_side [
      | none ↦ ok (stay ts o side)
      | some confirmed ↦ change_side ts o side confirmed
    ]

    -- `_line_track_state`
    unfoldable pub line_track_state : TrackState → Observation → Result RuleError TrackState
    line_track_state ts o =
        line_from
          (if is_gap ts.last_time_ms o.time_ms rule.max_gap_ms
            then restarted (out.anchor_of o.box) o.time_ms
            else ts)
          o (out.line_side o.box)

  module _ (rule : ZoneRuleConfig) where
    -- `ZoneEpisode(…)` from `entry` to `end`
    abbrev pub zone_episode : String → ℕ → ℕ → Result RuleError ZoneEpisode
    zone_episode track entry end = elim (time_range entry end) [
      | none ↦ err value_error
      | some r ↦ ok (record {
        episode_id = out.episode_id rule.rule_id track "zone" entry end;
        track_id = track;
        persistence = r;
      })
    ]

    abbrev pub at_zone : Observation → List Episode → Option Bool → Option ℕ → TrackState
    at_zone o episodes inside entry = record new_track {
      last_anchor = some (out.anchor_of o.box);
      last_time_ms = some o.time_ms;
      episodes = episodes;
      zone_inside = inside;
      zone_entry_ms = entry;
    }

    abbrev pub leave : TrackState → Observation → Result RuleError TrackState
    leave ts o = elim ts.zone_entry_ms [
      | none ↦ err assertion_error
      | some entry ↦ elim (zone_episode o.track_id entry o.time_ms) [
        | err e ↦ err e
        | ok ep ↦ ok (at_zone o (ts.episodes ++ (zone_visit ep ∷ [])) (some false) none)
      ]
    ]

    abbrev pub zone_from : TrackState → Observation → Bool → Result RuleError TrackState
    zone_from ts o inside = elim ts.zone_inside [
      | none ↦ ok (
          at_zone o ts.episodes (some inside) (if inside then some o.time_ms else ts.zone_entry_ms))
      | some false ↦ ok (
          at_zone o ts.episodes (some inside) (if inside then some o.time_ms else ts.zone_entry_ms))
      | some true ↦
          if inside then ok (at_zone o ts.episodes (some true) ts.zone_entry_ms) else leave ts o
    ]

    -- The episode that a gap ends is built, and may fail, before the state restarts.
    abbrev pub gap_in_zone : TrackState → Observation → ℕ → Result RuleError TrackState
    gap_in_zone ts o last = elim ts.zone_entry_ms [
      | none ↦ err assertion_error
      | some entry ↦ elim (zone_episode o.track_id entry last) [
        | err e ↦ err e
        | ok ep ↦ zone_from (restarted (out.anchor_of o.box) o.time_ms) o (out.is_inside o.box)
      ]
    ]

    abbrev pub is_in : Option Bool → Bool
    is_in (some true) = true
    is_in _ = false

    -- `_zone_track_state`
    unfoldable pub zone_track_state : TrackState → Observation → Result RuleError TrackState
    zone_track_state ts o = elim ts.last_time_ms [
      | none ↦ zone_from ts o (out.is_inside o.box)
      | some last ↦
          if is_in ts.zone_inside && ltb (last + rule.max_gap_ms) o.time_ms
          then gap_in_zone ts o last
          else zone_from ts o (out.is_inside o.box)
    ]

  abbrev pub track_state : RuleConfig → TrackState → Observation → Result RuleError TrackState
  track_state (line rule) ts o = line_track_state rule ts o
  track_state (zone rule) ts o = zone_track_state rule ts o

  -- The loop of `apply_observations` over the ordered observations.
  unfoldable pub advance : RuleConfig → List Observation → Tracks → Result RuleError Tracks
  advance rule [] tracks = ok tracks
  advance rule (o ∷ os) tracks = elim (track_state rule (lookup_or o.track_id new_track tracks) o) [
    | err e ↦ err e
    | ok ts ↦ advance rule os (insert o.track_id ts tracks)
  ]

  unfoldable pub apply_observations :
      RuleConfig → List Observation → Tracks → Result RuleError Tracks
  apply_observations rule os tracks = advance rule (sort_by is_earlier os) tracks
