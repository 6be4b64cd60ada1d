-- ===== src/Rules/Crossings.antt =====
-- Where the crossings of a line come from, and what a gap does to them
-- (backend/src/vision_app/rules/reducer.py).
use vision_app_creator.Prelude.{
  ℕ, ◌<◌, String, ◌≡◌, refl, ◌∙◌, Bool-cases, inl, inr, ◌==◌, ◌||◌, ltb, ltb→lt, subst,
  if◌then◌else◌, Bool, true, false, Option, none, some, List, [], ◌∷◌, ◌++◌, arith, string_eq,
  str_eq_iff, All, All-append, sort_by, sort_by-All, lookup, lookup_or, insert, lookup-insert,
}
use vision_app_creator.Prelude.Int.{ℤ, int_eq, eqb_ℤ_iff}
use vision_app_creator.Prelude.Results.{ok}
use vision_app_creator.Contracts.{CrossingBracket, crossing_bracket}
use vision_app_creator.Rules.State.{
  LineRuleConfig, line, Episode, crossing, zone_visit, TrackState, new_track, Tracks, Observation,
  Outside,
}
use vision_app_creator.Rules.Reducer.{
  is_gap, is_predicted, seen_at, line_from, restarted, stay, moved, reversed, crossed,
  line_track_state, advance, apply_observations, is_earlier,
}

module _ (out : Outside) (rule : LineRuleConfig) (P : Observation → Type 0) where
  -- An observation with P shows the track on this side at this time.
  abbrev pub IsSeen : String → ℕ → ℤ → Type 0
  IsSeen track t side =
      (o : Observation) × P o
      × (o.track_id ≡ track)
      × (o.time_ms ≡ t)
      × (out.line_side o.box ≡ side)

  -- The bracket of a crossing starts where the track is on the side that it comes from, and ends,
  -- later, where it is on the other.
  abbrev pub IsBracketed : String → Episode → Type 0
  IsBracketed track (crossing ep) =
      (ep.bracket.last_pre_ms < ep.bracket.first_post_ms)
      × IsSeen track ep.bracket.last_pre_ms rule.valid_from_side
      × IsSeen track ep.bracket.first_post_ms rule.valid_to_side
  IsBracketed track (zone_visit ep) = Unit

  abbrev IsPreSeen : String → Option ℕ → Type 0
  IsPreSeen track none = Unit
  IsPreSeen track (some t) = IsSeen track t rule.valid_from_side

  IsGrounded : String → TrackState → Type 0
  IsGrounded track ts = IsPreSeen track ts.last_pre_time_ms × All (IsBracketed track) ts.episodes

  new_track-IsGrounded : (track : String) → IsGrounded track new_track
  unfolding IsGrounded
  new_track-IsGrounded track = (tt, tt)

  module _ (ts : TrackState) (o : Observation) (p : P o) (h : IsGrounded o.track_id ts) where
    abbrev side : ℤ
    side = out.line_side o.box

    shown : (t : ℕ) (s : ℤ) → o.time_ms ≡ t → side ≡ s → IsSeen o.track_id t s
    shown t s e f = (o, p, refl, e, f)

    pre-IsSeen :
        (s : ℤ)
        → side ≡ s
        → (s == rule.valid_from_side) ≡ true
        → IsSeen o.track_id o.time_ms rule.valid_from_side
    pre-IsSeen s e f =
        shown o.time_ms rule.valid_from_side refl (e ∙ (eqb_ℤ_iff s rule.valid_from_side).0 f)

    stay-IsGrounded : IsGrounded o.track_id (stay out rule ts o side)
    unfolding IsGrounded
    stay-IsGrounded = elim (Bool-cases (side == rule.valid_from_side)) [
      | inl e ↦ rw e (pre-IsSeen side refl e, h.1)
      | inr e ↦ rw e h
    ]

    moved-IsGrounded : IsGrounded o.track_id (moved out rule ts o side)
    unfolding IsGrounded
    moved-IsGrounded = elim (Bool-cases (side == rule.valid_from_side)) [
      | inl e ↦ rw e (pre-IsSeen side refl e, h.1)
      | inr e ↦ rw e h
    ]

    reversed-IsGrounded :
        (side == rule.valid_from_side) ≡ true → IsGrounded o.track_id (reversed out rule ts o side)
    unfolding IsGrounded
    reversed-IsGrounded e = (pre-IsSeen side refl e, h.1)

    crossed-IsGrounded :
        (q : Bool) (b : CrossingBracket) (ts' : TrackState)
        → b.last_pre_ms < b.first_post_ms
        → IsSeen o.track_id b.last_pre_ms rule.valid_from_side
        → IsSeen o.track_id b.first_post_ms rule.valid_to_side
        → crossed out rule ts o side q (some b) ≡ ok ts'
        → IsGrounded o.track_id ts'
    unfolding IsGrounded
    crossed-IsGrounded q b ts' lt before after e =
        let ended : TrackState = record new_track {
          episodes =
              ts.episodes
              ++ (crossing (record {
                episode_id =
                    out.episode_id rule.rule_id o.track_id "crossing" b.last_pre_ms b.first_post_ms;
                track_id = o.track_id;
                bracket = b;
                predicted_in_bracket = q || is_predicted o;
              })
                  ∷ []);
        } in
        let none_pre : none ≡ ts'.last_pre_time_ms = ground arith in
        let new_episodes : ended.episodes ≡ ts'.episodes = ground arith in
        (
          subst (IsPreSeen o.track_id) none_pre tt,
          subst (All (IsBracketed o.track_id)) new_episodes
              (All-append (IsBracketed o.track_id) ts.episodes _ h.1 ((lt, before, after), tt)),
        )

    post-IsSeen :
        (side == rule.valid_to_side) ≡ true → IsSeen o.track_id o.time_ms rule.valid_to_side
    post-IsSeen e =
        shown o.time_ms rule.valid_to_side refl ((eqb_ℤ_iff side rule.valid_to_side).0 e)

    cross-IsGrounded :
        (pre : Option ℕ) (ts' : TrackState)
        → IsPreSeen o.track_id pre
        → (side == rule.valid_to_side) ≡ true
        → elim pre [
          | none ↦
              crossed out rule ts o side (is_predicted o) (crossing_bracket o.time_ms o.time_ms)
          | some t ↦ crossed out rule ts o side ts.last_pre_predicted (crossing_bracket t o.time_ms)
        ]
          ≡ ok ts'
        → IsGrounded o.track_id ts'
    unfolding crossing_bracket
    cross-IsGrounded none ts' seen to e = ground arith
    cross-IsGrounded (some t) ts' seen to e = elim (Bool-cases (ltb t o.time_ms)) [
      | inl lt ↦
          crossed-IsGrounded ts.last_pre_predicted
            (record { last_pre_ms = t; first_post_ms = o.time_ms }) ts' (ltb→lt t o.time_ms lt) seen
            (post-IsSeen to) (ground arith)
      | inr ge ↦ ground arith
    ]

    pre_of : IsPreSeen o.track_id ts.last_pre_time_ms
    unfolding IsGrounded
    pre_of = h.0

    seen_at-IsGrounded : IsGrounded o.track_id (seen_at out rule ts o)
    unfolding IsGrounded
    seen_at-IsGrounded = h

    line_from-IsGrounded :
        (ts' : TrackState) → line_from out rule ts o side ≡ ok ts' → IsGrounded o.track_id ts'
    line_from-IsGrounded ts' e = grind (
      arith,
      stay-IsGrounded,
      moved-IsGrounded,
      reversed-IsGrounded,
      cross-IsGrounded ts.last_pre_time_ms ts' pre_of,
      seen_at-IsGrounded,
      eqb_ℤ_iff,
    )

  restarted-IsGrounded :
      (track : String) (anchor time : ℕ) → IsGrounded track (restarted anchor time)
  unfolding IsGrounded
  restarted-IsGrounded track anchor time = (tt, tt)

  base-IsGrounded :
      (track : String) (gap : Bool) (anchor time : ℕ) (ts : TrackState)
      → IsGrounded track ts
      → IsGrounded track (if gap then restarted anchor time else ts)
  base-IsGrounded track true anchor time ts h = restarted-IsGrounded track anchor time
  base-IsGrounded track false anchor time ts h = h

  line-IsGrounded :
      (ts ts' : TrackState) (o : Observation)
      → P o
      → IsGrounded o.track_id ts
      → line_track_state out rule ts o ≡ ok ts'
      → IsGrounded o.track_id ts'
  unfolding line_track_state
  line-IsGrounded ts ts' o p h e =
      let gap = is_gap ts.last_time_ms o.time_ms rule.max_gap_ms in
      line_from-IsGrounded _ o p
        (base-IsGrounded o.track_id gap (out.anchor_of o.box) o.time_ms ts h) ts' e

  AreGrounded : Tracks → Type 0
  AreGrounded tracks =
      (track : String) (ts : TrackState) → lookup track tracks ≡ some ts → IsGrounded track ts

  found-IsGrounded :
      (track : String) (tracks : Tracks)
      → AreGrounded tracks
      → IsGrounded track (lookup_or track new_track tracks)
  unfolding lookup_or AreGrounded
  found-IsGrounded track tracks h = grind (arith, h track, new_track-IsGrounded track)

  insert-AreGrounded :
      (track : String) (ts : TrackState) (tracks : Tracks)
      → IsGrounded track ts
      → AreGrounded tracks
      → AreGrounded (insert track ts tracks)
  unfolding AreGrounded
  insert-AreGrounded track ts tracks g h other us e =
      grind (arith, h other us, lookup-insert track other ts tracks, str_eq_iff track other)

  advance-AreGrounded :
      (os : List Observation) (tracks tracks' : Tracks)
      → All P os
      → AreGrounded tracks
      → advance out (line rule) os tracks ≡ ok tracks'
      → AreGrounded tracks'
  unfolding advance
  advance-AreGrounded [] tracks tracks' ps h e = ground arith
  advance-AreGrounded (o ∷ os) tracks tracks' ps h e = grind (
    arith,
    line-IsGrounded (lookup_or o.track_id new_track tracks),
    found-IsGrounded o.track_id tracks h,
    insert-AreGrounded o.track_id,
    advance-AreGrounded os,
  )

  no_tracks-AreGrounded : AreGrounded []
  unfolding AreGrounded lookup
  no_tracks-AreGrounded track ts e = ground arith

  grounded_episodes :
      (tracks : Tracks) (track : String) (ts : TrackState)
      → AreGrounded tracks
      → lookup track tracks ≡ some ts
      → All (IsBracketed track) ts.episodes
  unfolding AreGrounded IsGrounded
  grounded_episodes tracks track ts h e = (h track ts e).1

-- Every crossing that the reducer records was observed: whatever holds of all observations (such as
-- being one of those given), there is an observation with it of the same track on the side that
-- the rule comes from, at the start of the bracket, and one on the side that it goes to, at the end
-- of the bracket, which is later. (The reducer starts without tracks.)
pub crossings_are_observed :
    (out : Outside) (rule : LineRuleConfig) (os : List Observation) (tracks : Tracks)
    → apply_observations out (line rule) os [] ≡ ok tracks
    → (P : Observation → Type 0) → All P os
    → (track : String) (ts : TrackState) → lookup track tracks ≡ some ts
    → All (IsBracketed out rule P track) ts.episodes
unfolding apply_observations
crossings_are_observed out rule os tracks e P ps track ts here =
    grounded_episodes out rule P tracks track ts
      (advance-AreGrounded out rule P (sort_by is_earlier os) [] tracks
        (sort_by-All is_earlier P os ps) (no_tracks-AreGrounded out rule P) e)
      here
