-- ===== src/Rules/Exactness.antt =====
-- When a crossing counts as made on red (backend/src/vision_app/rules/disposition.py).
use vision_app_creator.Prelude.{
  ℕ, ◌+◌, ◌≤◌, ◌<◌, ◌≡◌, refl, ◌⊎◌, inl, inr, ◌↔◌, true, false, Bool-cases, List, [], ◌∷◌, arith,
  any, All,
}
use vision_app_creator.Contracts.{CrossingBracket, SignalInterval, TimeRange}
use vision_app_creator.Rules.Disposition.{
  supported, rejected, overlaps, interval_covers, bracket_overlaps_gap, overlaps_red,
  red_phase_disposition,
}

-- A range and the bracket have no instant in common.
abbrev pub IsApart : CrossingBracket → TimeRange → Type 0
IsApart bracket r = (r.end_ms ≤ bracket.last_pre_ms) ⊎ (bracket.first_post_ms ≤ r.start_ms)

-- The signal was red from the margin before the bracket until after the margin behind it, and no
-- gap of the interval meets the bracket.
abbrev pub Covers : CrossingBracket → ℕ → SignalInterval → Type 0
Covers bracket margin red =
    (red.confirmed_range.start_ms + margin ≤ bracket.last_pre_ms)
    × (bracket.first_post_ms + margin < red.confirmed_range.end_ms)
    × All (IsApart bracket) red.gaps

abbrev pub SomeCovers : CrossingBracket → ℕ → List SignalInterval → Type 0
SomeCovers bracket margin [] = ⊥
SomeCovers bracket margin (red ∷ reds) = Covers bracket margin red ⊎ SomeCovers bracket margin reds

module _ (bracket : CrossingBracket) where
  no_gap :
      (gaps : List TimeRange) → any (overlaps bracket) gaps ≡ false → All (IsApart bracket) gaps
  unfolding any
  no_gap [] h = tt
  no_gap (g ∷ gaps) h = (ground arith, no_gap gaps (ground arith))

  gap_free :
      (gaps : List TimeRange) → All (IsApart bracket) gaps → any (overlaps bracket) gaps ≡ false
  unfolding any
  gap_free [] h = refl
  gap_free (g ∷ gaps) h = ground (arith, gap_free gaps h.1)

  covers :
      (margin : ℕ) (red : SignalInterval)
      → interval_covers bracket margin red ≡ true
      → Covers bracket margin red
  unfolding interval_covers
  covers margin red h = (ground arith, ground arith, no_gap red.gaps (ground arith))

  covered :
      (margin : ℕ) (red : SignalInterval)
      → Covers bracket margin red
      → interval_covers bracket margin red ≡ true
  unfolding interval_covers
  covered margin red h = ground (arith, gap_free red.gaps h.2)

  some_covers :
      (margin : ℕ) (reds : List SignalInterval)
      → any (interval_covers bracket margin) reds ≡ true
      → SomeCovers bracket margin reds
  unfolding any
  some_covers margin [] h = ground arith
  some_covers margin (red ∷ reds) h = elim (Bool-cases (interval_covers bracket margin red)) [
    | inl e ↦ inl (covers margin red e)
    | inr e ↦ inr (some_covers margin reds (ground arith))
  ]

  any_covered :
      (margin : ℕ) (reds : List SignalInterval)
      → SomeCovers bracket margin reds
      → any (interval_covers bracket margin) reds ≡ true
  unfolding any
  any_covered margin [] h = elim h [ ]
  any_covered margin (red ∷ reds) (inl h) = ground (arith, covered margin red h)
  any_covered margin (red ∷ reds) (inr h) = ground (arith, any_covered margin reds h)

  none_met :
      (reds : List SignalInterval)
      → any (overlaps_red bracket) reds ≡ false
      → bracket_overlaps_gap reds bracket ≡ false
      → All (λ red. IsApart bracket red.confirmed_range × All (IsApart bracket) red.gaps) reds
  unfolding any bracket_overlaps_gap
  none_met [] h k = tt
  none_met (red ∷ reds) h k =
      ((ground arith, no_gap red.gaps (ground arith)), none_met reds (ground arith) (ground arith))

  supported_covers :
      (margin : ℕ) (reds : List SignalInterval)
      → (red_phase_disposition bracket reds margin).0 ≡ supported
      → SomeCovers bracket margin reds
  unfolding red_phase_disposition
  supported_covers margin [] h = ground arith
  supported_covers margin (red ∷ reds) h = some_covers margin (red ∷ reds) (ground arith)

  covers_supported :
      (margin : ℕ) (reds : List SignalInterval)
      → SomeCovers bracket margin reds
      → (red_phase_disposition bracket reds margin).0 ≡ supported
  unfolding red_phase_disposition
  covers_supported margin [] h = elim h [ ]
  covers_supported margin (red ∷ reds) h = ground (arith, any_covered margin (red ∷ reds) h)

  rejected-IsApart :
      (margin : ℕ) (reds : List SignalInterval)
      → (red_phase_disposition bracket reds margin).0 ≡ rejected
      → All (λ red. IsApart bracket red.confirmed_range × All (IsApart bracket) red.gaps) reds
  unfolding red_phase_disposition
  rejected-IsApart margin [] h = tt
  rejected-IsApart margin (red ∷ reds) h = none_met (red ∷ reds) (ground arith) (ground arith)

-- A crossing is supported exactly when some confirmed red interval starts the margin before the
-- bracket or earlier, ends later than the margin after it, and has no gap that meets the bracket.
pub red_phase_is_exact :
    (bracket : CrossingBracket) (reds : List SignalInterval) (margin : ℕ)
    → ((red_phase_disposition bracket reds margin).0 ≡ supported) ↔ SomeCovers bracket margin reds
red_phase_is_exact bracket reds margin =
    (supported_covers bracket margin reds, covers_supported bracket margin reds)

-- A crossing that is rejected meets no confirmed red interval and no gap of one.
pub rejected_is_clear :
    (bracket : CrossingBracket) (reds : List SignalInterval) (margin : ℕ)
    → (red_phase_disposition bracket reds margin).0 ≡ rejected
    → All (λ red. IsApart bracket red.confirmed_range × All (IsApart bracket) red.gaps) reds
rejected_is_clear bracket reds margin h = rejected-IsApart bracket margin reds h
