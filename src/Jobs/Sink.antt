-- ===== src/Jobs/Sink.antt =====
-- `InMemoryEventSink` of backend/src/vision_app/jobs/sinks.py.
use vision_app_creator.Prelude.{
  ℕ, String, Bool, false, List, [], ◌∷◌, ◌++◌, Option, none, some, nat_eq, string_eq, pair_eq, elem,
  ltb, if◌then◌else◌, Dict, lookup, insert,
}
use vision_app_creator.Contracts.{Event, RunProgress, TimeRange}

abbrev pub ProgressKey : Type 0
ProgressKey = (String × String) × (ℕ × ℕ)

pub record Sink : Type 0 where
  pub events : Dict String Event
  pub progress_updates : List RunProgress
  pub coverage : List TimeRange
  pub progress_keys : List ProgressKey
  pub event_fences : Dict String ℕ

abbrev pub empty_sink : Sink
empty_sink = record {
  events = [];
  progress_updates = [];
  coverage = [];
  progress_keys = [];
  event_fences = [];
}

-- `fence < previous`, where an event that is not there has the fence -1
abbrev pub is_older : ℕ → Option ℕ → Bool
is_older fence none = false
is_older fence (some previous) = ltb fence previous

unfoldable pub upsert : Event → ℕ → Sink → Sink
upsert e fence s = if is_older fence (lookup e.id s.event_fences) then s else record s {
  events = insert e.id e s.events;
  event_fences = insert e.id fence s.event_fences;
}

abbrev pub key_of : RunProgress → ℕ → ProgressKey
key_of p fence = ((p.run_id, p.attempt_id), (fence, p.sequence))

unfoldable pub progress : RunProgress → ℕ → Sink → Sink
progress p fence s = if elem (key_of p fence) s.progress_keys then s else record s {
  progress_keys = key_of p fence ∷ s.progress_keys;
  progress_updates = s.progress_updates ++ (p ∷ []);
  coverage = s.coverage ++ p.processed_ranges;
}
