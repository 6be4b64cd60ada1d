-- ===== src/Jobs/Dispatching.antt =====
-- Submitting twice (backend/src/vision_app/jobs/service.py and executors.py), and delivering twice
-- to the sink (backend/src/vision_app/jobs/sinks.py).
use vision_app_creator.Prelude.{
  ℕ, String, ◌≡◌, true, false, some, List, [], ◌∷◌, arith, nat_eq, string_eq, pair_eq, str_eq_iff,
  lookup, lookup-insert_self, lookup-insert, elem, All, ==_refl, ◌⊎◌, inl, inr, Option-cases, ◌<◌,
}
use vision_app_creator.Prelude.Results.{ok, err}
use vision_app_creator.Contracts.{Event, RunProgress}
use vision_app_creator.Jobs.State.{connection_error}
use vision_app_creator.Jobs.Executor.{Executor, next_invocation, submit, cancel_invocation}
use vision_app_creator.Jobs.Sink.{Sink, upsert, progress, key_of, is_older}

-- What an executor does after a submission.
pub data Later : Type 0 where
  submits cancels : String → Later

abbrev pub act : Later → Executor → Executor
act (submits r) x = (submit r x).1
act (cancels i) x = cancel_invocation i x

unfoldable pub act_all : List Later → Executor → Executor
act_all [] x = x
act_all (a ∷ acts) x = act_all acts (act a x)

-- A run that was submitted keeps its invocation.
act_keeps :
    (a : Later) (run i : String) (x : Executor)
    → lookup run x.by_run ≡ some i
    → lookup run (act a x).by_run ≡ some i
unfolding submit cancel_invocation
act_keeps (submits r) run i x h = grind (arith, str_eq_iff r run, lookup-insert)
act_keeps (cancels j) run i x h = ground arith

act_all_keeps :
    (acts : List Later) (run i : String) (x : Executor)
    → lookup run x.by_run ≡ some i
    → lookup run (act_all acts x).by_run ≡ some i
unfolding act_all
act_all_keeps [] run i x h = h
act_all_keeps (a ∷ acts) run i x h = act_all_keeps acts run i (act a x) (act_keeps a run i x h)

submit_records :
    (run : String) (x : Executor)
    → (i : String) × (lookup run (submit run x).1.by_run ≡ some i)
      × (((submit run x).0 ≡ ok i) ⊎ ((submit run x).0 ≡ err connection_error))
unfolding submit
submit_records run x = elim (Option-cases (lookup run x.by_run)) [
  | inl e ↦ (
    next_invocation x,
    ground (arith, lookup-insert_self run (next_invocation x) x.by_run),
    ground arith,
  )
  | inr (i, e) ↦ (i, ground arith, ground arith)
]

-- A run is submitted once: when `submit` has answered an invocation, or has lost its answer, then
-- after any further submissions and cancellations a retry answers the run's invocation (the one
-- that was answered) and starts nothing.
pub submit_once :
    (run : String) (x : Executor) (acts : List Later)
    → let x' = act_all acts (submit run x).1 in
      (i : String) × (submit run x' ≡ (ok i, x'))
      × (((submit run x).0 ≡ ok i) ⊎ ((submit run x).0 ≡ err connection_error))
submit_once run x acts =
    let (i, there, answer) = submit_records run x in
    let kept = act_all_keeps acts run i (submit run x).1 there in
    (i, (unfold submit in ground arith), answer)

-- What workers deliver to the sink.
pub data Delivery : Type 0 where
  event : Event → ℕ → Delivery
  update : RunProgress → ℕ → Delivery

abbrev pub deliver : Delivery → Sink → Sink
deliver (event e fence) s = upsert e fence s
deliver (update p fence) s = progress p fence s

unfoldable pub deliver_all : List Delivery → Sink → Sink
deliver_all [] s = s
deliver_all (d ∷ ds) s = deliver_all ds (deliver d s)

deliver_keeps_key :
    (d : Delivery) (p : RunProgress) (fence : ℕ) (s : Sink)
    → elem (key_of p fence) s.progress_keys ≡ true
    → elem (key_of p fence) (deliver d s).progress_keys ≡ true
unfolding upsert progress elem
deliver_keeps_key (event e f) p fence s h = ground arith
deliver_keeps_key (update q f) p fence s h = ground arith

deliver_all_keeps_key :
    (ds : List Delivery) (p : RunProgress) (fence : ℕ) (s : Sink)
    → elem (key_of p fence) s.progress_keys ≡ true
    → elem (key_of p fence) (deliver_all ds s).progress_keys ≡ true
unfolding deliver_all
deliver_all_keeps_key [] p fence s h = h
deliver_all_keeps_key (d ∷ ds) p fence s h =
    deliver_all_keeps_key ds p fence (deliver d s) (deliver_keeps_key d p fence s h)

progress_keeps :
    (p : RunProgress) (fence : ℕ) (s : Sink)
    → elem (key_of p fence) (progress p fence s).progress_keys ≡ true
unfolding progress elem
progress_keeps p fence s = ground (arith, ==_refl (key_of p fence))

-- No older write than this fence is allowed for the event.
abbrev pub IsFreshest : Event → ℕ → Delivery → Type 0
IsFreshest e fence (event e' f) = e'.id ≡ e.id → f < fence
IsFreshest e fence (update p f) = Unit

stored_event :
    (d : Delivery) (e : Event) (fence : ℕ) (s : Sink)
    → IsFreshest e fence d
    → (lookup e.id s.events ≡ some e) × (lookup e.id s.event_fences ≡ some fence)
    → (lookup e.id (deliver d s).events ≡ some e)
      × (lookup e.id (deliver d s).event_fences ≡ some fence)
unfolding upsert progress
stored_event (event e' f) e fence s new h = ground (
  arith,
  str_eq_iff e'.id e.id,
  lookup-insert e'.id e.id e' s.events,
  lookup-insert e'.id e.id f s.event_fences,
)
stored_event (update p f) e fence s new h = ground arith

stored_events :
    (ds : List Delivery) (e : Event) (fence : ℕ) (s : Sink)
    → All (IsFreshest e fence) ds
    → (lookup e.id s.events ≡ some e) × (lookup e.id s.event_fences ≡ some fence)
    → lookup e.id (deliver_all ds s).events ≡ some e
unfolding deliver_all
stored_events [] e fence s new h = h.0
stored_events (d ∷ ds) e fence s new h =
    stored_events ds e fence (deliver d s) new.1 (stored_event d e fence s new.0 h)

-- At-least-once delivery shows as exactly-once: progress that the sink has taken under a fence
-- changes nothing when it comes again, after any other deliveries.
pub progress_is_idempotent :
    (p : RunProgress) (fence : ℕ) (s : Sink) (ds : List Delivery)
    → let s' = deliver_all ds (progress p fence s) in progress p fence s' ≡ s'
unfolding progress
progress_is_idempotent p fence s ds =
    let kept = deliver_all_keeps_key ds p fence (progress p fence s) (progress_keeps p fence s) in
    ground arith

-- Late workers lose: an event that is stored, under a fence that is not below the one known, stays
-- as long as only lower fences write it.
pub newest_event_stays :
    (e : Event) (fence : ℕ) (s : Sink) (ds : List Delivery)
    → is_older fence (lookup e.id s.event_fences) ≡ false
    → All (IsFreshest e fence) ds
    → lookup e.id (deliver_all ds (upsert e fence s)).events ≡ some e
newest_event_stays e fence s ds new older = stored_events ds e fence (upsert e fence s) older (
    unfold upsert in
    ground
      (arith, lookup-insert_self e.id e s.events, lookup-insert_self e.id fence s.event_fences))
