-- ===== src/Perception/Coverage.antt =====
-- The intervals that a signal's samples confirm (backend/src/vision_app/perception/signal/intervals.py).
use vision_app_creator.Prelude.{
  ℕ, ◌≤◌, ◌<◌, String, ◌≡◌, refl, inl, inr, false, Option, none, some, List, [], ◌∷◌, ◌++◌, arith,
  string_eq, Option-cases, subst, sym, Bool-cases, ◌==◌,
}
use vision_app_creator.Prelude.Results.{Result, ok, err}
use vision_app_creator.Contracts.{SignalInterval}
use vision_app_creator.Perception.Signal.{
  SignalError, Sample, Intervals, new_intervals, close_confirmed, confirm, is_late, update, flush,
  update_all, observe, update_confirmed, interval, no_candidate,
}

-- The intervals are proper, disjoint and in order, and end by this time.
abbrev pub AreOrdered : ℕ → List SignalInterval → Type 0
AreOrdered from [] = Unit
AreOrdered from (i ∷ is) =
    (from ≤ i.confirmed_range.start_ms)
    × (i.confirmed_range.start_ms < i.confirmed_range.end_ms)
    × AreOrdered i.confirmed_range.end_ms is

-- The end of the last one.
abbrev last_end : ℕ → List SignalInterval → ℕ
last_end from [] = from
last_end from (i ∷ is) = last_end i.confirmed_range.end_ms is

ordered_append :
    (from : ℕ) (is : List SignalInterval) (i : SignalInterval)
    → AreOrdered from is
    → last_end from is ≤ i.confirmed_range.start_ms
    → i.confirmed_range.start_ms < i.confirmed_range.end_ms
    → AreOrdered from (is ++ (i ∷ [])) × (last_end from (is ++ (i ∷ [])) ≡ i.confirmed_range.end_ms)
ordered_append from [] i h le lt = ((le, lt, tt), refl)
ordered_append from (j ∷ is) i h le lt =
    let (k, e) = ordered_append j.confirmed_range.end_ms is i h.2 le lt in ((h.0, h.1, k), e)

time_of : Option ℕ → ℕ
time_of none = 0
time_of (some t) = t

-- A confirmed color has its time, after the complete intervals and not after this time; a candidate
-- has its time.
abbrev HasTime : ℕ → ℕ → Option String → Option ℕ → Type 0
HasTime from to none o = Unit
HasTime from to (some c) none = ⊥
HasTime from to (some c) (some t) = (from ≤ t) × (t ≤ to)

abbrev HasStart : Option String → Option ℕ → Type 0
HasStart none o = Unit
HasStart (some c) none = ⊥
HasStart (some c) (some t) = Unit

-- What holds between updates, when the last sample was at this time or before.
abbrev IsConsistent : ℕ → Intervals → Type 0
IsConsistent now s =
    AreOrdered 0 s.completed
    × (last_end 0 s.completed ≤ now)
    × HasTime (last_end 0 s.completed) now s.confirmed s.confirmed_since
    × HasStart s.candidate s.candidate_since

-- An answer, and it is consistent.
abbrev Good : ℕ → Result SignalError Intervals → Type 0
Good now (err e) = ⊥
Good now (ok s) = IsConsistent now s

module _ (s : Intervals) (color : String) (since : ℕ) (previous : Option ℕ) where
  close-Good :
      (now end : ℕ)
      → IsConsistent now s
      → s.confirmed_since ≡ some since
      → last_end 0 s.completed ≤ since
      → now ≤ end
      → Good end (close_confirmed color end previous s)
  unfolding close_confirmed
  close-Good now end h e le later =
      grind (arith, ordered_append 0 s.completed (interval color since end previous s) h.0)

observe-Good :
    (o : Sample) (previous : Option ℕ) (s : Intervals)
    → IsConsistent o.time_ms s
    → Good o.time_ms (observe o previous s)
unfolding confirm
observe-Good o previous s h = ground arith

-- The last sample was not after this time.
abbrev NotAfter : Option ℕ → ℕ → Type 0
NotAfter none t = Unit
NotAfter (some last) t = last ≤ t

later-IsConsistent :
    (now time : ℕ) (s : Intervals)
    → now ≤ time
    → IsConsistent now s
    → IsConsistent time (record s { last_time = some time })
later-IsConsistent now time s le h = ground arith

-- A confirmed color that changes is closed, and the rest goes on from there.
changed-Good :
    (o : Sample) (previous : Option ℕ) (r : Result SignalError Intervals)
    → Good o.time_ms r
    → Good o.time_ms (elim r [ err e ↦ err e | ok s' ↦ observe o previous (no_candidate s') ])
changed-Good o previous (err e) h = h
changed-Good o previous (ok s) h = observe-Good o previous (no_candidate s) (ground arith)

closing-Good :
    (s : Intervals) (color : String) (previous : Option ℕ) (now end : ℕ)
    → IsConsistent now s
    → s.confirmed ≡ some color
    → now ≤ end
    → Good end (close_confirmed color end previous s)
closing-Good s color previous now end h e le = elim (Option-cases s.confirmed_since) [
  | inl none_since ↦ ground arith
  | inr (since, f) ↦ close-Good s color since previous now end h f (ground arith) le
]

confirmed-Good :
    (o : Sample) (previous : Option ℕ) (s : Intervals) (c : Option String)
    → s.confirmed ≡ c
    → IsConsistent o.time_ms s
    → Good o.time_ms (update_confirmed o previous c s)
confirmed-Good o previous s none e h = observe-Good o previous s h
confirmed-Good o previous s (some color) e h = elim (Bool-cases (o.state == color)) [
  | inl same ↦ rw same (observe-Good o previous s h)
  | inr other ↦ rw other (
      changed-Good o previous (close_confirmed color o.time_ms previous s)
        (closing-Good s color previous o.time_ms o.time_ms h e (omega arith)))
]

update-Good :
    (o : Sample) (now : ℕ) (s : Intervals)
    → IsConsistent now s
    → NotAfter s.last_time now
    → now ≤ o.time_ms
    → Good o.time_ms (update o s)
unfolding update
update-Good o now s h seen le =
    let on_time : is_late s.last_time o.time_ms ≡ false = ground arith in
    rw on_time (
      confirmed-Good o s.last_time (record s { last_time = some o.time_ms }) s.confirmed refl
        (later-IsConsistent now o.time_ms s le h))

update-last_time :
    (o : Sample) (s s' : Intervals) → update o s ≡ ok s' → s'.last_time ≡ some o.time_ms
unfolding update close_confirmed confirm
update-last_time o s s' e = ground arith

-- The samples come in the order of their times, from this time on.
abbrev pub AreAscending : ℕ → List Sample → Type 0
AreAscending now [] = Unit
AreAscending now (o ∷ os) = (now ≤ o.time_ms) × AreAscending o.time_ms os

-- The call answers, and its state has P.
abbrev pub Answers : (Intervals → Type 0) → Result SignalError Intervals → Type 0
Answers P (err e) = ⊥
Answers P (ok s) = P s

closed_ordered :
    (s : Intervals) (color : String) (since end : ℕ) (previous : Option ℕ)
    → AreOrdered 0 s.completed
    → s.confirmed_since ≡ some since
    → last_end 0 s.completed ≤ since
    → Answers (λ s'. AreOrdered 0 s'.completed) (close_confirmed color end previous s)
unfolding close_confirmed
closed_ordered s color since end previous h e le =
    grind (arith, ordered_append 0 s.completed (interval color since end previous s) h)

flush_found :
    (now end : ℕ) (s : Intervals) (c : Option String) (t : Option ℕ)
    → s.confirmed ≡ c
    → s.confirmed_since ≡ t
    → IsConsistent now s
    → Answers
        (λ s'. AreOrdered 0 s'.completed)
        (elim c [
          | none ↦ ok s
          | some color ↦ elim t [
            | none ↦ ok s
            | some since ↦ close_confirmed color end s.last_time s
          ]
        ])
flush_found now end s none t e f h = h.0
flush_found now end s (some color) none e f h = h.0
flush_found now end s (some color) (some since) e f h =
    closed_ordered s color since end s.last_time h.0 f (ground arith)

flush_ordered :
    (now end : ℕ) (s : Intervals)
    → IsConsistent now s
    → Answers (λ s'. AreOrdered 0 s'.completed) (flush end s)
unfolding flush
flush_ordered now end s h = flush_found now end s s.confirmed s.confirmed_since refl refl h

abbrev pub IsCovering : Intervals → Type 0
IsCovering s =
    AreOrdered 0 s.completed × ((end : ℕ) → Answers (λ s'. AreOrdered 0 s'.completed) (flush end s))

rest_ordered :
    (os : List Sample) (time : ℕ) (r : Result SignalError Intervals)
    → Good time r
    → ((s : Intervals) → r ≡ ok s → s.last_time ≡ some time)
    → ((s : Intervals)
        → IsConsistent time s
        → NotAfter s.last_time time
        → Answers IsCovering (update_all os s))
    → Answers IsCovering (elim r [ err e ↦ err e | ok s' ↦ update_all os s' ])
rest_ordered os time (err e) h last go = h
rest_ordered os time (ok s) h last go =
    go s h (subst (λ t. NotAfter t time) (sym (last s refl)) (omega arith))

updates_ordered :
    (os : List Sample) (now : ℕ) (s : Intervals)
    → IsConsistent now s
    → NotAfter s.last_time now
    → AreAscending now os
    → Answers IsCovering (update_all os s)
unfolding update_all
updates_ordered [] now s h seen asc = (h.0, λ end. flush_ordered now end s h)
updates_ordered (o ∷ os) now s h seen asc =
    rest_ordered os o.time_ms (update o s) (update-Good o now s h seen asc.0)
      (λ s'. update-last_time o s s') (λ s' g t. updates_ordered os o.time_ms s' g t asc.1)

-- Samples that come in the order of their times are all taken, without an error, and the intervals
-- that they complete are proper, in order and without overlap; a flush at any time answers, too,
-- and leaves such intervals.
pub intervals_are_ordered :
    (stability : ℕ) (os : List Sample)
    → AreAscending 0 os
    → Answers IsCovering (update_all os (new_intervals stability))
intervals_are_ordered stability os asc =
    updates_ordered os 0 (new_intervals stability) (tt, omega arith, tt, tt) tt asc
