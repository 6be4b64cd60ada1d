-- ===== src/Rules/Intervals.antt =====
-- `merge_time_ranges` of backend/src/vision_app/rules/intervals.py. `none` is the ValueError of a
-- `TimeRange` that is not ordered.
use vision_app_creator.Prelude.{
  ℕ, ◌+◌, max, Bool, true, false, Option, none, some, List, [], ◌∷◌, ltb, leb, sort_by,
}
use vision_app_creator.Contracts.{TimeRange, time_range}

-- `key=lambda r: r.start_ms.root`
abbrev pub starts_before : TimeRange → TimeRange → Bool
starts_before r s = ltb r.start_ms s.start_ms

-- The loop, where `last` is `merged[-1]`.
unfoldable pub merge_from : ℕ → TimeRange → List TimeRange → Option (List TimeRange)
merge_from gap last [] = some (last ∷ [])
merge_from gap last (current ∷ rest) = elim (leb current.start_ms (last.end_ms + gap)) [
  | true ↦ elim (time_range last.start_ms (max last.end_ms current.end_ms)) [
    | none ↦ none
    | some r ↦ merge_from gap r rest
  ]
  | false ↦ elim (merge_from gap current rest) [ none ↦ none | some rs ↦ some (last ∷ rs) ]
]

abbrev pub merge_sorted : ℕ → List TimeRange → Option (List TimeRange)
merge_sorted gap [] = some []
merge_sorted gap (first ∷ rest) = merge_from gap first rest

unfoldable pub merge_time_ranges : List TimeRange → ℕ → Option (List TimeRange)
merge_time_ranges ranges gap = merge_sorted gap (sort_by starts_before ranges)
