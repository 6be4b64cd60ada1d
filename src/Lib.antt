-- ===== src/Lib.antt =====
-- Vision app creator: the parts of the Python backend (backend/src/vision_app) that decide what is
-- stored, who may change it, which worker may write, what a run may cost, what counts as an event,
-- and which actions are sent.
--
-- How the parts interact. A run is created in the repository, with a reservation of budget. The job
-- service dispatches it to an executor; workers claim attempts, which carry a fence, and commit
-- progress to the event sink. A worker feeds signal samples and track observations, in the order
-- of their times, to the signal intervals and to the rules; the rules' candidates become events.
-- Events that are supported, and reviewed or approved in advance, may be sent by the outbox. Each
-- request names a resource, and the authorization boundary decides whether its caller may touch it.
-- The app service publishes a version that the validator finds ready; some tracked rules need a
-- calibration of the scene for it, which a person has confirmed. The privacy service deletes an
-- asset through the repository interface and fences the writers that are still running. The media
-- store keeps what is uploaded. The snapshot's codec writes the repository's values as JSON and
-- reads them back.
--
-- Which file models what (paths under backend/src/vision_app):
-- - Prelude and its children: Python's dict, list, sorted, str(int), int and exceptions.
-- - Contracts: contracts/models.py, the records that the other parts read.
-- - Identity: security/identity/models.py, and the principals of persistence/memory.py.
-- - Persistence: persistence/memory.py. Value is what the repository reads of stored values, Docs
--   and Repository its state, Documents, Budgets, Apps, Runs, Events, Deliveries and Deletion its
--   methods, one function each; Command is one call of any method, and a history is a list of them,
--   since every method holds the repository's lock.
-- - Jobs: jobs/service.py (State: the stored job and the closures given to `_mutate`; Store:
--   `_mutate` itself and `_JobStateRepository` of bootstrap.py; Service: the methods),
--   jobs/executors.py (Executor) and jobs/sinks.py (Sink). The other files hold proofs, and
--   sequences of calls of the executor and of the sink (Dispatching).
-- - Operations: operations/ledger.py (Ledger) and operations/limits.py (Limits). Atomic, Entries,
--   Solvency and Usage hold proofs.
-- - Rules: rules/intervals.py, rules/disposition.py, rules/state.py with rules/config.py, and
--   rules/reducer.py (Reducer: `apply_observations`; Flush: `flush`).
-- - Perception: perception/signal/intervals.py (Signal).
-- - Actions: actions/eligibility.py with actions/models.py, and actions/outbox.py.
-- - Authorization: security/authorization/boundary.py (Access holds proofs).
-- - Validation: validation/registry.py with contracts/capabilities.py (the module itself), and
--   validation/validator.py: Prompts (the scans of texts), Checks (one function per check) and
--   Manifests. Readiness, Models and Publishing hold proofs.
-- - Applications: applications/services.py. Calibrations models `CalibrationService` over a record
--   CalibrationRepository; Versions models `VersionService`, over a record ApplicationRepository,
--   and Apps `AppService`. Persisted fills both records with the in-memory repository, of which
--   Stored is the values of one kind. Calls and Releases have calls of the services in a row, the
--   other files proofs.
-- - Privacy: privacy/service.py over a record Repository, the interface of contracts/ports.py that
--   the service uses. Deletion models tombstones and jobs, HardDelete the cleanup of one job. Assets
--   fills the interface with `_MediaRepositoryAdapter` of bootstrap.py. LateWrites has sequences of
--   calls, the other files proofs.
-- - Storage: storage/_grant.py with the metadata of uploads (the module itself), and
--   storage/local.py: Local (upload and finalize) and Reading (grants, artifacts, deletion). Intact
--   has sequences of calls, the other files proofs.
-- - Snapshot: persistence/snapshot.py: Codec (`_encode`), Decoding (`_decode`) and Checks
--   (`_check_fields`). Restoring holds proofs.
-- - Tests: runs on small inputs.
--
-- State and errors. A method that changes state is a function that returns its answer and the new
-- state; an exception is a value beside the state that it leaves. Ids and clocks are given to a
-- call, since the code takes them from a factory, a random source and a clock.
--
-- Concurrency. The two compare-and-swap loops take what other services write before each read or
-- swap. Their bound is the code's, 100 tries, and giving up is modelled as the exception that it
-- raises. Other loops run over lists. `str(n)` has n + 1 units of fuel: each step divides by ten.
--
-- Numbers. Times, revisions, fences and amounts are natural numbers where the code or a contract
-- model rejects negative ones, and integers where a negative one is possible. Python's integers do
-- not overflow.
--
-- Not modelled. Float geometry, the validation of pydantic models, SHA-256, the parsing of ISO times
-- and the hashes of episode and delivery ids are arguments. Stored values keep the fields that the
-- code reads, the rest is gathered in one field. The validator's issues keep their code and severity, not their message,
-- and its prompts are ASCII. Of the snapshot, the codec is modelled and not the files, nor `save`
-- and `restore` of a whole repository. `AppService.list` and `CacheReuseService` are left out. The
-- outbox, and the services of apps and calibrations, are modelled for calls that do not overlap. The
-- asyncio tasks of the executor, the HTTP routes, the cloud adapters, media decoding, detection,
-- tracking, the builder's language model and the web frontend are left out.
pub mod Prelude
pub mod Contracts
pub mod Identity
pub mod Authorization
pub mod Persistence
pub mod Jobs
pub mod Operations
pub mod Rules
pub mod Perception
pub mod Actions
pub mod Validation
pub mod Applications
pub mod Privacy
pub mod Storage
pub mod Snapshot
pub mod Tests
