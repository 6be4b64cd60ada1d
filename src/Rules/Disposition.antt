-- ===== src/Rules/Disposition.antt =====
-- The dispositions of backend/src/vision_app/rules/disposition.py. `r0 > a - margin` is written as
-- `a < r0 + margin`, as the times are numbers.
use vision_app_creator.Prelude.{
  ℕ, ◌+◌, String, Bool, false, not, List, [], ◌∷◌, ◌++◌, ltb, leb, if◌then◌else◌, ◌&&◌, ◌||◌, any,
  sort_by, decimal, ◌+++◌,
}
use vision_app_creator.Contracts.{CrossingBracket, SignalInterval, TimeRange}

pub data Disposition : Type 0 where
  candidate supported rejected inconclusive : Disposition

-- `gap.end_ms.root > a and gap.start_ms.root < b`
abbrev pub overlaps : CrossingBracket → TimeRange → Bool
overlaps bracket gap = ltb bracket.last_pre_ms gap.end_ms && ltb gap.start_ms bracket.first_post_ms

-- `_interval_covers`
unfoldable pub interval_covers : CrossingBracket → ℕ → SignalInterval → Bool
interval_covers bracket margin red =
    if ltb bracket.last_pre_ms (red.confirmed_range.start_ms + margin)
      || leb red.confirmed_range.end_ms (bracket.first_post_ms + margin)
    then false
    else not (any (overlaps bracket) red.gaps)

-- `_bracket_overlaps_gap`
unfoldable pub bracket_overlaps_gap : List SignalInterval → CrossingBracket → Bool
bracket_overlaps_gap reds bracket = any (λ red. any (overlaps bracket) red.gaps) reds

abbrev pub red_starts_before : SignalInterval → SignalInterval → Bool
red_starts_before r s = ltb r.confirmed_range.start_ms s.confirmed_range.start_ms

-- The loop over neighbours of the sorted intervals.
abbrev between_neighbours : CrossingBracket → SignalInterval → List SignalInterval → Bool
between_neighbours bracket prev [] = false
between_neighbours bracket prev (nxt ∷ rest) =
    leb prev.confirmed_range.end_ms bracket.last_pre_ms
      && leb bracket.first_post_ms nxt.confirmed_range.start_ms
    || between_neighbours bracket nxt rest

abbrev between_any : CrossingBracket → List SignalInterval → Bool
between_any bracket [] = false
between_any bracket (first ∷ rest) = between_neighbours bracket first rest

-- `_bracket_in_inter_red_gap`: with fewer than two intervals there are no neighbours
unfoldable pub bracket_in_inter_red_gap : List SignalInterval → CrossingBracket → Bool
bracket_in_inter_red_gap reds bracket = between_any bracket (sort_by red_starts_before reds)

abbrev pub crossing_fact : CrossingBracket → String
crossing_fact bracket =
    "crossing:" +++ decimal bracket.last_pre_ms +++ ":" +++ decimal bracket.first_post_ms

abbrev pub overlaps_red : CrossingBracket → SignalInterval → Bool
overlaps_red bracket red =
    ltb bracket.last_pre_ms red.confirmed_range.end_ms
    && ltb red.confirmed_range.start_ms bracket.first_post_ms

abbrev red_disposition :
    CrossingBracket → List SignalInterval → ℕ → List String → Disposition × List String
red_disposition bracket [] margin facts = (rejected, facts ++ ("signal:no_red_interval" ∷ []))
red_disposition bracket reds margin facts =
    if any (interval_covers bracket margin) reds
    then (supported, facts ++ ("signal:red" ∷ []))
    else if any (overlaps_red bracket) reds || bracket_overlaps_gap reds bracket
    then (inconclusive, facts ++ ("signal:partial_or_gap" ∷ []))
    else if bracket_in_inter_red_gap reds bracket
    then (inconclusive, facts ++ ("signal:unknown_gap" ∷ []))
    else (rejected, facts ++ ("signal:outside_red" ∷ []))

unfoldable pub red_phase_disposition :
    CrossingBracket → List SignalInterval → ℕ → Disposition × List String
red_phase_disposition bracket reds margin =
    red_disposition bracket reds margin (crossing_fact bracket ∷ [])

unfoldable pub line_crossing_disposition : CrossingBracket → Disposition × List String
line_crossing_disposition bracket = (supported, crossing_fact bracket ∷ "direction:valid" ∷ [])
