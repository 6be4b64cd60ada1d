-- ===== src/Persistence/Repository.antt =====
-- The state of `InMemoryRepository` and what its methods share. Every method runs under one lock,
-- so a method is a function from the state before to its result and the state after. An exception
-- leaves what was written before it.
use vision_app_creator.Prelude.{ℕ, String, false, none, some, string_eq, Dict}
use vision_app_creator.Prelude.Int.{ℤ}
use vision_app_creator.Contracts.{Event, RunProgress, DeliveryAttempt}
use vision_app_creator.Persistence.Value.{Value, Result, absent, is, model}
use vision_app_creator.Persistence.Docs.{Doc, Store, ensure, put_doc}

pub record Repository : Type 0 where
  pub store : Store
  -- (workspace_id, (collection, key)) -> doc_id
  pub idempotency : Dict (String × (String × String)) String
  pub budgets : Dict String ℤ
  -- reservation_id -> (workspace_id, microusd)
  pub reservations : Dict String (String × ℤ)
  pub run_active_attempts : Dict String String
  pub run_fences : Dict String ℕ
  -- (run_id, attempt_id) -> worker_id
  pub attempt_workers : Dict (String × String) String
  pub selected_attempts : Dict String String

abbrev pub Action : Type 0 → Type 0
Action A = Repository → Result A × Repository

abbrev pub write : String → String → String → Doc → Repository → Repository
write w c i d r = record r { store = put_doc w c i d r.store }

abbrev pub ensured : String → String → Repository → Repository
ensured w c r = record r { store = ensure w c r.store }

-- `_Doc(value=…)`
abbrev pub fresh : Value → Doc
fresh v = record { value = v; revision = 0; generation = 1; deleted = false }

-- The contract models as stored values.
abbrev pub event_value : Event → Value
event_value e = record {
  shape = model;
  workspace_id = absent;
  id = is e.id;
  run_id = is e.run_id;
  revision = some e.revision;
  generation = none;
  draft_version_id = absent;
  published_version_id = absent;
  attempt_id = is e.attempt_id;
  selected_attempt_id = absent;
  state = absent;
  human_review = is e.human_review;
  start_ms = some e.start_ms;
  sequence = none;
  body = e.body;
}

abbrev pub progress_value : RunProgress → Value
progress_value p = record {
  shape = model;
  workspace_id = absent;
  id = absent;
  run_id = is p.run_id;
  revision = none;
  generation = none;
  draft_version_id = absent;
  published_version_id = absent;
  attempt_id = is p.attempt_id;
  selected_attempt_id = absent;
  state = absent;
  human_review = absent;
  start_ms = none;
  sequence = some p.sequence;
  body = p.body;
}

abbrev pub delivery_value : DeliveryAttempt → Value
delivery_value d = record {
  shape = model;
  workspace_id = absent;
  id = is d.id;
  run_id = absent;
  revision = none;
  generation = none;
  draft_version_id = absent;
  published_version_id = absent;
  attempt_id = absent;
  selected_attempt_id = absent;
  state = is d.state;
  human_review = absent;
  start_ms = none;
  sequence = none;
  body = d.body;
}
