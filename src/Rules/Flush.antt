-- ===== src/Rules/Flush.antt =====
-- `flush` of backend/src/vision_app/rules/reducer.py: the candidates of the recorded episodes.
use vision_app_creator.Prelude.{
  ℕ, String, ◌≡◌, refl, true, false, Option, none, some, List, [], ◌∷◌, ◌++◌, map, ◌==◌, string_eq,
  str_eq_iff, if◌then◌else◌, decimal, ◌+++◌, All, subst, All-IsIn, IsIn, All-append, ap, arith,
}
use vision_app_creator.Prelude.Results.{Result, ok, err}
use vision_app_creator.Contracts.{CrossingBracket, TimeRange, SignalInterval}
use vision_app_creator.Rules.Intervals.{merge_time_ranges}
use vision_app_creator.Rules.Disposition.{
  Disposition, supported, inconclusive, red_phase_disposition, line_crossing_disposition,
}
use vision_app_creator.Rules.Exactness.{SomeCovers, red_phase_is_exact}
use vision_app_creator.Rules.State.{
  RuleError, value_error, LineRuleConfig, ZoneRuleConfig, RuleConfig, line, zone, CrossingEpisode,
  ZoneEpisode, Episode, crossing, zone_visit, TrackState, Tracks, Outside,
}
use vision_app_creator.Rules.Reducer.{zone_episode}

pub record RuleCandidate : Type 0 where
  pub rule_id : String
  pub episode_id : String
  pub crossing : Option CrossingBracket
  pub persistence : Option TimeRange
  pub fact_refs : List String
  pub disposition : Disposition

abbrev disposition_of :
    LineRuleConfig → CrossingEpisode → List SignalInterval → Disposition × List String
disposition_of rule ep reds =
    if rule.capability_id == "tracked.red_phase_crossing"
    then red_phase_disposition ep.bracket reds rule.margin_ms
    else line_crossing_disposition ep.bracket

-- `_candidate_from_crossing`; without intervals, `red_intervals or []` is the empty list
unfoldable pub candidate_from_crossing :
    LineRuleConfig → CrossingEpisode → List SignalInterval → RuleCandidate
candidate_from_crossing rule ep reds =
    let (disp, facts) = disposition_of rule ep reds in
    record {
      rule_id = rule.rule_id;
      episode_id = ep.episode_id;
      crossing = some ep.bracket;
      persistence = none;
      fact_refs =
          (if ep.predicted_in_bracket then facts ++ ("predicted_only" ∷ []) else facts)
          ++ (("track:" +++ ep.track_id) ∷ []);
      disposition = if ep.predicted_in_bracket then inconclusive else disp;
    }

-- `_candidate_from_zone`
abbrev candidate_from_zone : ZoneRuleConfig → ZoneEpisode → RuleCandidate
candidate_from_zone rule ep = record {
  rule_id = rule.rule_id;
  episode_id = ep.episode_id;
  crossing = none;
  persistence = some ep.persistence;
  fact_refs =
      ("zone:" +++ rule.rule_id)
      ∷ ("track:" +++ ep.track_id)
      ∷ ("persistence:"
          +++ decimal ep.persistence.start_ms
          +++ ":"
          +++ decimal ep.persistence.end_ms)
      ∷ [];
  disposition = supported;
}

abbrev crossing_candidates :
    LineRuleConfig → List SignalInterval → List Episode → List RuleCandidate
crossing_candidates rule reds [] = []
crossing_candidates rule reds (crossing ep ∷ eps) =
    candidate_from_crossing rule ep reds ∷ crossing_candidates rule reds eps
crossing_candidates rule reds (zone_visit ep ∷ eps) = crossing_candidates rule reds eps

-- `list(ts.episodes)`, of which a zone rule records visits.
abbrev visits : List Episode → List ZoneEpisode
visits [] = []
visits (zone_visit ep ∷ eps) = ep ∷ visits eps
visits (crossing ep ∷ eps) = visits eps

abbrev spans : List ZoneEpisode → List TimeRange
spans = map (λ ep. ep.persistence)

module _ (out : Outside) (rule : ZoneRuleConfig) where
  -- `_merge_zone_episodes`
  abbrev merged_episodes : String → Option (List TimeRange) → Result RuleError (List ZoneEpisode)
  merged_episodes track none = err value_error
  merged_episodes track (some rs) = ok (
      map
        (λ (r : TimeRange). record {
          episode_id = out.episode_id rule.rule_id track "zone" r.start_ms r.end_ms;
          track_id = track;
          persistence = r;
        })
        rs)

  abbrev merge_zone_episodes : List ZoneEpisode → Result RuleError (List ZoneEpisode)
  merge_zone_episodes [] = ok []
  merge_zone_episodes (first ∷ rest) =
      merged_episodes first.track_id (merge_time_ranges (spans (first ∷ rest)) rule.merge_gap_ms)

  abbrev with_pending : String → ℕ → TrackState → Result RuleError (List ZoneEpisode)
  with_pending track end ts = elim ts.zone_inside [
    | none ↦ ok (visits ts.episodes)
    | some false ↦ ok (visits ts.episodes)
    | some true ↦ elim ts.zone_entry_ms [
      | none ↦ ok (visits ts.episodes)
      | some entry ↦ elim (zone_episode out rule track entry end) [
        | err e ↦ err e
        | ok ep ↦ ok (visits ts.episodes ++ (ep ∷ []))
      ]
    ]
  ]

  abbrev zone_candidates : String → ℕ → TrackState → Result RuleError (List RuleCandidate)
  zone_candidates track end ts = elim (with_pending track end ts) [
    | err e ↦ err e
    | ok eps ↦ elim (merge_zone_episodes eps) [
      | err e ↦ err e
      | ok merged ↦ ok (map (candidate_from_zone rule) merged)
    ]
  ]

abbrev track_candidates :
    Outside
    → RuleConfig
    → ℕ
    → List SignalInterval
    → String
    → TrackState
    → Result RuleError (List RuleCandidate)
track_candidates out (line rule) end reds track ts = ok (crossing_candidates rule reds ts.episodes)
track_candidates out (zone rule) end reds track ts = zone_candidates out rule track end ts

unfoldable pub flush :
    Outside → RuleConfig → ℕ → List SignalInterval → Tracks → Result RuleError (List RuleCandidate)
flush out rule end reds [] = ok []
flush out rule end reds ((track, ts) ∷ tracks) =
    let rest = flush out rule end reds tracks in
    elim (track_candidates out rule end reds track ts) [
      | err e ↦ err e
      | ok cs ↦ elim rest [ err e ↦ err e | ok ds ↦ ok (cs ++ ds) ]
    ]

-- What a supported candidate of a red-phase rule stands on.
abbrev pub IsOnRed : ℕ → List SignalInterval → RuleCandidate → Type 0
IsOnRed margin reds c =
    c.disposition ≡ supported
    → (b : CrossingBracket) × (c.crossing ≡ some b) × SomeCovers b margin reds

module _ (rule : LineRuleConfig) (reds : List SignalInterval)
    (red : rule.capability_id ≡ "tracked.red_phase_crossing") where
  candidate-IsOnRed :
      (ep : CrossingEpisode) → IsOnRed rule.margin_ms reds (candidate_from_crossing rule ep reds)
  unfolding candidate_from_crossing
  candidate-IsOnRed ep s = (
    ep.bracket,
    refl,
    (red_phase_is_exact ep.bracket reds rule.margin_ms).0
        (ground (arith, str_eq_iff rule.capability_id "tracked.red_phase_crossing")),
  )

  candidates-AreOnRed :
      (eps : List Episode) → All (IsOnRed rule.margin_ms reds) (crossing_candidates rule reds eps)
  candidates-AreOnRed [] = tt
  candidates-AreOnRed (crossing ep ∷ eps) = (candidate-IsOnRed ep, candidates-AreOnRed eps)
  candidates-AreOnRed (zone_visit ep ∷ eps) = candidates-AreOnRed eps

  -- Flushing a line rule never fails.
  pub flush-AreOnRed :
      (out : Outside) (end : ℕ) (tracks : Tracks)
      → (cs : List RuleCandidate) × (flush out (line rule) end reds tracks ≡ ok cs)
        × All (IsOnRed rule.margin_ms reds) cs
  unfolding flush
  flush-AreOnRed out end [] = ([], refl, tt)
  flush-AreOnRed out end ((track, ts) ∷ tracks) =
      let (ds, e, h) = flush-AreOnRed out end tracks in
      let cs = crossing_candidates rule reds ts.episodes in
      (
        cs ++ ds,
        ap
            (λ (r : Result RuleError (List RuleCandidate)). elim r [
              | err x ↦ err x
              | ok ds ↦ ok (cs ++ ds)
            ])
            e,
        All-append (IsOnRed rule.margin_ms reds) cs ds (candidates-AreOnRed ts.episodes) h,
      )

-- A candidate that the flush of a red-phase rule marks as supported has a crossing that some
-- confirmed red interval covers: from the margin before its bracket until after the margin behind
-- it, without a gap of the interval in the bracket.
pub supported_is_on_red :
    (out : Outside) (rule : LineRuleConfig) (end : ℕ) (reds : List SignalInterval) (tracks : Tracks)
    (cs : List RuleCandidate) (c : RuleCandidate)
    → rule.capability_id ≡ "tracked.red_phase_crossing"
    → flush out (line rule) end reds tracks ≡ ok cs
    → IsIn c cs
    → c.disposition ≡ supported
    → (b : CrossingBracket) × (c.crossing ≡ some b) × SomeCovers b rule.margin_ms reds
supported_is_on_red out rule end reds tracks cs c red done m s =
    let (ds, e, h) = flush-AreOnRed rule reds red out end tracks in
    let same : ds ≡ cs = ground arith in
    All-IsIn (IsOnRed rule.margin_ms reds) c cs (subst (All (IsOnRed rule.margin_ms reds)) same h) m
      s
