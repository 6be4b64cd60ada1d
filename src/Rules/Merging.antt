-- ===== src/Rules/Merging.antt =====
-- What `merge_time_ranges` (backend/src/vision_app/rules/intervals.py) answers.
use vision_app_creator.Prelude.{
  ℕ, ◌+◌, ◌≤◌, ◌<◌, max, ◌≡◌, refl, ◌⊎◌, inl, inr, Option, none, some, List, [], ◌∷◌, arith, All,
  sort_by, insert_by, sort_by-All, All-sort_by,
}
use vision_app_creator.Contracts.{TimeRange, time_range}
use vision_app_creator.Rules.Intervals.{starts_before, merge_sorted, merge_from, merge_time_ranges}

abbrev pub IsRange : TimeRange → Type 0
IsRange r = r.start_ms < r.end_ms

abbrev Contains : TimeRange → TimeRange → Type 0
Contains o r = (o.start_ms ≤ r.start_ms) × (r.end_ms ≤ o.end_ms)

-- One of the ranges contains this one.
abbrev pub IsCovered : List TimeRange → TimeRange → Type 0
IsCovered [] r = ⊥
IsCovered (o ∷ os) r = Contains o r ⊎ IsCovered os r

-- Every range starts later than the gap after the end of the one before it.
abbrev pub IsSeparated : ℕ → List TimeRange → Type 0
IsSeparated gap [] = Unit
IsSeparated gap (r ∷ []) = Unit
IsSeparated gap (r ∷ s ∷ rs) = (r.end_ms + gap < s.start_ms) × IsSeparated gap (s ∷ rs)

abbrev IsAscending : List TimeRange → Type 0
IsAscending [] = Unit
IsAscending (r ∷ []) = Unit
IsAscending (r ∷ s ∷ rs) = (r.start_ms ≤ s.start_ms) × IsAscending (s ∷ rs)

insert_by-IsAscending :
    (r : TimeRange) (rs : List TimeRange)
    → IsAscending rs
    → IsAscending (insert_by starts_before r rs)
unfolding insert_by
insert_by-IsAscending r [] h = tt
insert_by-IsAscending r (s ∷ []) h = ground arith
insert_by-IsAscending r (s ∷ t ∷ rs) h = ground (arith, insert_by-IsAscending r (t ∷ rs) h.1)

sort_by-IsAscending : (rs : List TimeRange) → IsAscending (sort_by starts_before rs)
unfolding sort_by
sort_by-IsAscending [] = tt
sort_by-IsAscending (r ∷ rs) =
    insert_by-IsAscending r (sort_by starts_before rs) (sort_by-IsAscending rs)

contained-IsCovered :
    (os : List TimeRange) (r s : TimeRange) → Contains r s → IsCovered os r → IsCovered os s
contained-IsCovered [] r s c h = elim h [ ]
contained-IsCovered (o ∷ os) r s c (inl h) = inl (omega arith, omega arith)
contained-IsCovered (o ∷ os) r s c (inr h) = inr (contained-IsCovered os r s c h)

-- The answer of the loop: `last` begins the first range.
abbrev IsMerged : ℕ → TimeRange → List TimeRange → Option (List TimeRange) → Type 0
IsMerged gap last rest none = ⊥
IsMerged gap last rest (some []) = ⊥
IsMerged gap last rest (some (o ∷ os)) =
    (o.start_ms ≡ last.start_ms)
    × IsSeparated gap (o ∷ os)
    × All IsRange (o ∷ os)
    × IsCovered (o ∷ os) last
    × All (IsCovered (o ∷ os)) rest

IsCovered-behind :
    (o : TimeRange) (os rs : List TimeRange) → All (IsCovered os) rs → All (IsCovered (o ∷ os)) rs
IsCovered-behind o os [] h = tt
IsCovered-behind o os (r ∷ rs) h = (inr h.0, IsCovered-behind o os rs h.1)

module _ (gap : ℕ) (last current : TimeRange) (rest : List TimeRange) where
  apart :
      (o : Option (List TimeRange))
      → IsRange last
      → last.end_ms + gap < current.start_ms
      → IsMerged gap current rest o
      → IsMerged gap last (current ∷ rest) (elim o [ none ↦ none | some rs ↦ some (last ∷ rs) ])
  apart none v far h = h
  apart (some []) v far h = elim h [ ]
  apart (some (o ∷ os)) v far (starts, separated, ranges, here, others) = (
    refl,
    (ground arith, separated),
    (v, ranges),
    inl (omega arith, omega arith),
    (inr here, IsCovered-behind last (o ∷ os) rest others),
  )

  joined :
      (r : TimeRange) (o : Option (List TimeRange))
      → r.start_ms ≡ last.start_ms
      → r.end_ms ≡ max last.end_ms current.end_ms
      → last.start_ms ≤ current.start_ms
      → IsMerged gap r rest o
      → IsMerged gap last (current ∷ rest) o
  joined r none s e le h = h
  joined r (some []) s e le h = h
  joined r (some (o ∷ os)) s e le (starts, separated, ranges, here, others) = (
    ground arith,
    separated,
    ranges,
    contained-IsCovered (o ∷ os) r last (omega arith, omega arith) here,
    (contained-IsCovered (o ∷ os) r current (omega arith, omega arith) here, others),
  )

-- The range that `TimeRange` builds when two are joined.
abbrev hull : TimeRange → TimeRange → TimeRange
hull r s = record { start_ms = r.start_ms; end_ms = max r.end_ms s.end_ms }

IsAscending-after :
    (last current : TimeRange) (rest : List TimeRange)
    → IsAscending (last ∷ current ∷ rest)
    → IsAscending (hull last current ∷ rest)
IsAscending-after last current [] h = tt
IsAscending-after last current (s ∷ rest) h = (omega (arith, h.0, h.1.0), h.1.1)

merge_from-IsMerged :
    (gap : ℕ) (last : TimeRange) (rest : List TimeRange)
    → IsRange last
    → All IsRange rest
    → IsAscending (last ∷ rest)
    → IsMerged gap last rest (merge_from gap last rest)
unfolding merge_from time_range
merge_from-IsMerged gap last [] v vs h = (refl, tt, (v, tt), inl (omega arith, omega arith), tt)
merge_from-IsMerged gap last (current ∷ rest) v vs h = grind (
  arith,
  apart gap last current rest (merge_from gap current rest) v,
  joined gap last current rest (hull last current) (merge_from gap (hull last current) rest) refl
      refl h.0,
  merge_from-IsMerged gap current rest vs.0 vs.1 h.1,
  merge_from-IsMerged gap (hull last current) rest,
  IsAscending-after last current rest h,
)

answer_parts :
    (gap : ℕ) (last : TimeRange) (rest : List TimeRange) (o : Option (List TimeRange))
    → IsMerged gap last rest o
    → (out : List TimeRange) × (o ≡ some out)
      × IsSeparated gap out
      × All IsRange out
      × All (IsCovered out) (last ∷ rest)
answer_parts gap last rest none h = elim h [ ]
answer_parts gap last rest (some []) h = elim h [ ]
answer_parts gap last rest (some (o ∷ os)) (starts, separated, ranges, here, others) =
    (o ∷ os, refl, separated, ranges, (here, others))

merge_sorted_covers :
    (gap : ℕ) (rs : List TimeRange)
    → All IsRange rs
    → IsAscending rs
    → (out : List TimeRange) × (merge_sorted gap rs ≡ some out)
      × IsSeparated gap out
      × All IsRange out
      × All (IsCovered out) rs
merge_sorted_covers gap [] v h = ([], refl, tt, tt, tt)
merge_sorted_covers gap (r ∷ rs) v h =
    answer_parts gap r rs (merge_from gap r rs) (merge_from-IsMerged gap r rs v.0 v.1 h)

-- Merging proper ranges never raises, whatever their order: the answer is a list of proper ranges,
-- each of which starts later than the gap after the end of the one before it, and every range that
-- was given lies within one of them.
pub merge_covers :
    (ranges : List TimeRange) (gap : ℕ)
    → All IsRange ranges
    → (out : List TimeRange) × (merge_time_ranges ranges gap ≡ some out)
      × IsSeparated gap out
      × All IsRange out
      × All (IsCovered out) ranges
unfolding merge_time_ranges
merge_covers ranges gap v =
    let (out, done, separated, proper, covered) =
      merge_sorted_covers gap (sort_by starts_before ranges)
        (sort_by-All starts_before IsRange ranges v) (sort_by-IsAscending ranges) in
    (out, done, separated, proper, All-sort_by starts_before (IsCovered out) ranges covered)
