-- ===== src/Tests/Rules.antt =====
-- Runs of the rules and of the signal intervals on small inputs (backend/src/vision_app/rules and
-- backend/src/vision_app/perception/signal).
use vision_app_creator.Prelude.{
  ℕ, String, ◌≡◌, refl, ◌↔◌, inl, inr, true, false, none, some, List, [], ◌∷◌, arith, All, IsIn,
  lookup, lookup_or, insert, sort_by, insert_by, any, decimal, string_eq, if◌then◌else◌, leb,
}
use vision_app_creator.Prelude.Int.{pos, negsuc}
use vision_app_creator.Prelude.Results.{ok, err}
use vision_app_creator.Contracts.{
  CrossingBracket, crossing_bracket, TimeRange, time_range, SignalInterval,
}
use vision_app_creator.Rules.Intervals.{merge_time_ranges}
use vision_app_creator.Rules.Merging.{IsSeparated, IsRange, IsCovered, merge_covers}
use vision_app_creator.Rules.Disposition.{
  supported, rejected, interval_covers, bracket_overlaps_gap, bracket_in_inter_red_gap,
  red_phase_disposition,
}
use vision_app_creator.Rules.Exactness.{SomeCovers, red_phase_is_exact}
use vision_app_creator.Rules.State.{
  Tracks, zone, value_error, LineRuleConfig, ZoneRuleConfig, line, TrackState, new_track,
  Observation, Outside, crossing,
}
use vision_app_creator.Rules.Reducer.{
  line_track_state, zone_track_state, advance, apply_observations,
}
use vision_app_creator.Rules.Crossings.{IsBracketed, crossings_are_observed}
use vision_app_creator.Rules.Gaps.{line_gap_forgets, zone_gap_forgets, single_sighting_fails}
use vision_app_creator.Rules.Flush.{
  RuleCandidate, candidate_from_crossing, flush, supported_is_on_red,
}
use vision_app_creator.Perception.Signal.{Sample, update_all, new_intervals}
use vision_app_creator.Perception.Coverage.{Answers, IsCovering, intervals_are_ordered}

abbrev range : ℕ → ℕ → TimeRange
range a b = record { start_ms = a; end_ms = b }

merge_covers_example :
    (out : List TimeRange) × (merge_time_ranges (range 5 9 ∷ range 0 3 ∷ range 2 4 ∷ []) 0
      ≡ some out)
    × IsSeparated 0 out
    × All IsRange out
    × All (IsCovered out) (range 5 9 ∷ range 0 3 ∷ range 2 4 ∷ [])
merge_covers_example =
    merge_covers (range 5 9 ∷ range 0 3 ∷ range 2 4 ∷ []) 0
      (omega arith, (omega arith, (omega arith, tt)))

abbrev red : SignalInterval
red = record {
  state = "red";
  confirmed_range = range 100 900;
  start_uncertainty = none;
  end_uncertainty = none;
  gaps = [];
}

abbrev over : CrossingBracket
over = record { last_pre_ms = 300; first_post_ms = 400 }

abbrev later : CrossingBracket
later = record { last_pre_ms = 900; first_post_ms = 950 }

red_phase_is_exact_example :
    ((red_phase_disposition over (red ∷ []) 100).0 ≡ supported) ↔ SomeCovers over 100 (red ∷ [])
red_phase_is_exact_example = red_phase_is_exact over (red ∷ []) 100

outside : (red_phase_disposition later (red ∷ []) 100).0 ≡ rejected
unfolding red_phase_disposition interval_covers bracket_overlaps_gap bracket_in_inter_red_gap any
    sort_by insert_by
outside = refl

-- A box below 5 is before the line and outside the zone.
abbrev scene : Outside
scene = record {
  anchor_of = λ b. b;
  line_side = λ b. if leb 5 b then pos 1 else negsuc 0;
  is_inside = λ b. leb 5 b;
  episode_id = λ r t k a b. k;
}

abbrev stop_line : LineRuleConfig
stop_line = record {
  rule_id = "stop";
  capability_id = "tracked.red_phase_crossing";
  max_gap_ms = 500;
  valid_from_side = negsuc 0;
  valid_to_side = pos 1;
  margin_ms = 100;
}

abbrev yard : ZoneRuleConfig
yard = record { rule_id = "yard"; capability_id = "zone"; max_gap_ms = 500; merge_gap_ms = 0 }

abbrev car : ℕ → ℕ → Observation
car t b = record { time_ms = t; track_id = "car"; observed = true; predicted_only = false; box = b }

abbrev drive : List Observation
drive = car 300 2 ∷ car 400 7 ∷ []

abbrev past_line : TrackState
past_line = record new_track {
  last_anchor = some 7;
  last_time_ms = some 400;
  confirmed_side = some (pos 1);
  last_post_time_ms = some 400;
  episodes =
      crossing (record {
        episode_id = "crossing";
        track_id = "car";
        bracket = over;
        predicted_in_bracket = false;
      })
      ∷ [];
}

driven : apply_observations scene (line stop_line) drive [] ≡ ok (("car", past_line) ∷ [])
unfolding apply_observations advance line_track_state crossing_bracket lookup_or lookup insert
    sort_by insert_by
driven = refl

found : lookup {K = String} "car" (("car", past_line) ∷ []) ≡ some past_line
unfolding lookup
found = refl

crossings_are_observed_example :
    All (IsBracketed scene stop_line (λ o. IsIn o drive) "car") past_line.episodes
crossings_are_observed_example =
    crossings_are_observed scene stop_line drive (("car", past_line) ∷ []) driven
      (λ o. IsIn o drive) (inl refl, (inr (inl refl), tt)) "car" past_line found

abbrev caught : RuleCandidate
caught = record {
  rule_id = "stop";
  episode_id = "crossing";
  crossing = some over;
  persistence = none;
  fact_refs = "crossing:300:400" ∷ "signal:red" ∷ "track:car" ∷ [];
  disposition = supported;
}

flushed : flush scene (line stop_line) 1000 (red ∷ []) (("car", past_line) ∷ []) ≡ ok (caught ∷ [])
unfolding flush candidate_from_crossing red_phase_disposition interval_covers any decimal
flushed = refl

supported_is_on_red_example :
    (b : CrossingBracket) × (caught.crossing ≡ some b) × SomeCovers b 100 (red ∷ [])
supported_is_on_red_example =
    supported_is_on_red scene stop_line 1000 (red ∷ []) (("car", past_line) ∷ []) (caught ∷ [])
      caught refl flushed (inl refl) refl

-- The car is seen again, two seconds later: its crossing is gone.
abbrev after_gap : TrackState
after_gap = record new_track {
  last_anchor = some 7;
  last_time_ms = some 2400;
  confirmed_side = some (pos 1);
  last_post_time_ms = some 2400;
}

reappears : line_track_state scene stop_line past_line (car 2400 7) ≡ ok after_gap
unfolding line_track_state
reappears = refl

line_gap_forgets_example : after_gap.episodes ≡ []
line_gap_forgets_example =
    line_gap_forgets scene stop_line (car 2400 7) past_line after_gap 400 refl (omega arith)
      reappears

abbrev in_yard : TrackState
in_yard = record new_track {
  last_anchor = some 7;
  last_time_ms = some 400;
  zone_inside = some true;
  zone_entry_ms = some 100;
}

abbrev back_in_yard : TrackState
back_in_yard = record new_track {
  last_anchor = some 7;
  last_time_ms = some 2400;
  zone_inside = some true;
  zone_entry_ms = some 2400;
}

returns : zone_track_state scene yard in_yard (car 2400 7) ≡ ok back_in_yard
unfolding zone_track_state time_range
returns = refl

zone_gap_forgets_example : back_in_yard.episodes ≡ []
zone_gap_forgets_example =
    zone_gap_forgets scene yard (car 2400 7) in_yard back_in_yard 400 refl (omega arith) refl
      returns

single_sighting_fails_example :
    ((later : Tracks) × (apply_observations scene (zone yard) (car 400 7 ∷ []) [] ≡ ok later)
      × (apply_observations scene (zone yard) (car 2400 7 ∷ []) later ≡ err value_error))
    × (apply_observations scene (zone yard) (car 400 7 ∷ car 2400 7 ∷ []) [] ≡ err value_error)
    × (apply_observations scene (zone yard) (car 2400 7 ∷ car 400 7 ∷ []) [] ≡ err value_error)
unfolding lookup
single_sighting_fails_example =
    single_sighting_fails scene yard (car 400 7) (car 2400 7) [] refl refl refl (omega arith)

abbrev light : ℕ → String → Sample
light t s = record { time_ms = t; state = s }

intervals_are_ordered_example :
    Answers IsCovering
      (update_all (light 0 "red" ∷ light 200 "red" ∷ light 900 "green" ∷ []) (new_intervals 100))
intervals_are_ordered_example =
    intervals_are_ordered 100 (light 0 "red" ∷ light 200 "red" ∷ light 900 "green" ∷ [])
      (omega arith, (omega arith, (omega arith, tt)))
