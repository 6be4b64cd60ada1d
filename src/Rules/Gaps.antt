-- ===== src/Rules/Gaps.antt =====
-- What a gap in a track does to its episodes (backend/src/vision_app/rules/reducer.py).
use vision_app_creator.Prelude.{
  ℕ, ◌+◌, ◌<◌, String, ◌≡◌, refl, ◌∙◌, true, none, some, List, [], ◌∷◌, arith, if◌then◌else◌, subst,
  string_eq, str_eq_iff, lookup, insert, lookup_or, lookup_or-insert, sort_by, insert_by,
}
use vision_app_creator.Prelude.Int.{int_eq}
use vision_app_creator.Prelude.Results.{ok, err}
use vision_app_creator.Contracts.{time_range}
use vision_app_creator.Rules.State.{
  value_error, LineRuleConfig, ZoneRuleConfig, TrackState, new_track, Observation, Outside, Tracks,
  zone,
}
use vision_app_creator.Rules.Reducer.{
  is_gap, restarted, line_from, zone_from, line_track_state, zone_track_state, at_zone, advance,
  apply_observations,
}

module _ (out : Outside) (o : Observation) where
  line_restarts :
      (rule : LineRuleConfig) (ts' : TrackState)
      → line_from out rule (restarted (out.anchor_of o.box) o.time_ms) o (out.line_side o.box)
        ≡ ok ts'
      → ts'.episodes ≡ []
  line_restarts rule ts' e = ground arith

  zone_restarts :
      (rule : ZoneRuleConfig) (ts' : TrackState)
      → zone_from out rule (restarted (out.anchor_of o.box) o.time_ms) o (out.is_inside o.box)
        ≡ ok ts'
      → ts'.episodes ≡ []
  zone_restarts rule ts' e = ground arith

-- A gap in a track that is longer than a line rule allows forgets the track's crossings: whatever
-- was recorded before, the state after the gap has no episode.
pub line_gap_forgets :
    (out : Outside) (rule : LineRuleConfig) (o : Observation) (ts ts' : TrackState) (last : ℕ)
    → ts.last_time_ms ≡ some last
    → last + rule.max_gap_ms < o.time_ms
    → line_track_state out rule ts o ≡ ok ts'
    → ts'.episodes ≡ []
unfolding line_track_state
line_gap_forgets out rule o ts ts' last e far run =
    let gap : is_gap ts.last_time_ms o.time_ms rule.max_gap_ms ≡ true = ground arith in
    line_restarts out o rule ts' (
      subst
        (λ b.
          line_from out rule (if b then restarted (out.anchor_of o.box) o.time_ms else ts) o
            (out.line_side o.box)
          ≡ ok ts')
        gap run)

-- A gap that is longer than a zone rule allows forgets the visits of a track that was inside: the
-- state after the gap has no episode, not even the visit that the gap has just ended.
pub zone_gap_forgets :
    (out : Outside) (rule : ZoneRuleConfig) (o : Observation) (ts ts' : TrackState) (last : ℕ)
    → ts.last_time_ms ≡ some last
    → last + rule.max_gap_ms < o.time_ms
    → ts.zone_inside ≡ some true
    → zone_track_state out rule ts o ≡ ok ts'
    → ts'.episodes ≡ []
unfolding zone_track_state
zone_gap_forgets out rule o ts ts' last e far inside run = ground arith

lookup_or-none :
    (k : String) (a : TrackState) (d : Tracks) → lookup k d ≡ none → lookup_or k a d ≡ a
unfolding lookup_or
lookup_or-none k a d h = ground (arith, h)

-- The step after a single sighting inside a zone, when a gap has gone by.
single_step :
    (out : Outside) (rule : ZoneRuleConfig) (o : Observation) (ts : TrackState) (last : ℕ)
    → ts.last_time_ms ≡ some last
    → ts.zone_inside ≡ some true
    → ts.zone_entry_ms ≡ some last
    → last + rule.max_gap_ms < o.time_ms
    → zone_track_state out rule ts o ≡ err value_error
unfolding zone_track_state time_range
single_step out rule o ts last e inside entry far = ground arith

abbrev sighted : Outside → ZoneRuleConfig → Observation → TrackState
sighted out rule o = at_zone out rule o [] (some true) (some o.time_ms)

first_step :
    (out : Outside) (rule : ZoneRuleConfig) (o : Observation)
    → out.is_inside o.box ≡ true
    → zone_track_state out rule new_track o ≡ ok (sighted out rule o)
unfolding zone_track_state
first_step out rule o inside = ground (arith, inside)

module _ (out : Outside) (rule : ZoneRuleConfig) (o o' : Observation) (tracks : Tracks)
    (new : lookup o.track_id tracks ≡ none) (same : o'.track_id ≡ o.track_id)
    (inside : out.is_inside o.box ≡ true) (far : o.time_ms + rule.max_gap_ms < o'.time_ms) where
  abbrev after_one : Tracks
  after_one = insert o.track_id (sighted out rule o) tracks

  one_is_taken :
      (os : List Observation)
      → advance out (zone rule) (o ∷ os) tracks ≡ advance out (zone rule) os after_one
  unfolding advance
  one_is_taken os =
      ground (arith, first_step out rule o inside, lookup_or-none o.track_id new_track tracks new)

  next_fails : advance out (zone rule) (o' ∷ []) after_one ≡ err value_error
  unfolding advance
  next_fails = ground (
    arith,
    single_step out rule o' (sighted out rule o) o.time_ms refl refl refl far,
    lookup_or-insert o.track_id o'.track_id (sighted out rule o) new_track tracks,
    str_eq_iff o.track_id o'.track_id,
  )

nothing_left :
    (out : Outside) (rule : ZoneRuleConfig) (tracks : Tracks)
    → advance out (zone rule) [] tracks ≡ ok tracks
unfolding advance
nothing_left out rule tracks = refl

-- When a track that is not known is seen inside a zone once, and next after a gap that is longer
-- than the rule allows, `apply_observations` raises ValueError at the second sighting, whether it
-- gets the sightings in two calls or, in any order, in one.
pub single_sighting_fails :
    (out : Outside) (rule : ZoneRuleConfig) (o o' : Observation) (tracks : Tracks)
    → lookup o.track_id tracks ≡ none
    → o'.track_id ≡ o.track_id
    → out.is_inside o.box ≡ true
    → o.time_ms + rule.max_gap_ms < o'.time_ms
    → ((later : Tracks) × (apply_observations out (zone rule) (o ∷ []) tracks ≡ ok later)
        × (apply_observations out (zone rule) (o' ∷ []) later ≡ err value_error))
      × (apply_observations out (zone rule) (o ∷ o' ∷ []) tracks ≡ err value_error)
      × (apply_observations out (zone rule) (o' ∷ o ∷ []) tracks ≡ err value_error)
unfolding apply_observations sort_by insert_by
single_sighting_fails out rule o o' tracks new same inside far =
    let fails = next_fails out rule o o' tracks new same inside far in
    let both = one_is_taken out rule o o' tracks new same inside far (o' ∷ []) ∙ fails in
    (
      (
        after_one out rule o o' tracks new same inside far,
        one_is_taken out rule o o' tracks new same inside far []
            ∙ nothing_left out rule (after_one out rule o o' tracks new same inside far),
        fails,
      ),
      ground (arith, both),
      ground (arith, both),
    )
