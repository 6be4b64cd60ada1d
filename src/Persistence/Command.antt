-- ===== src/Persistence/Command.antt =====
-- A history of the repository: each call that can write is a command, and the lock makes any
-- interleaving of concurrent callers a list of commands.
pub mod Fences
pub mod Swaps
pub mod Idempotency
pub mod Held
pub mod Money
pub mod Places
pub mod Versions
pub mod Isolation
pub mod Attempts
use vision_app_creator.Prelude.{ℕ, String, List, [], ◌∷◌}
use vision_app_creator.Prelude.Int.{ℤ}
use vision_app_creator.Contracts.{Event, RunProgress, DeliveryAttempt}
use vision_app_creator.Identity.{Principal, Caller}
use vision_app_creator.Persistence.Value.{Value}
use vision_app_creator.Persistence.Repository.{Repository}
use vision_app_creator.Persistence.Documents.{
  compare_and_swap, delete_owned, list_owned, add_immutable,
}
use vision_app_creator.Persistence.Budgets.{reserve_quota, release_reservation}
use vision_app_creator.Persistence.Apps.{create_version, publish_version}
use vision_app_creator.Persistence.Runs.{
  reserve_quota_and_create_run, create_run, claim_attempt, commit_event, commit_progress,
  finalize_run,
}
use vision_app_creator.Persistence.Events.{review_event, list_events_after, list_progress_after}
use vision_app_creator.Persistence.Deliveries.{
  create_delivery, claim_delivery, mark_delivery_dispatched,
}
use vision_app_creator.Persistence.Deletion.{mark_deletion, bump_deletion_generation}

pub data Command : Type 0 where
  swap : String → String → ℕ → Value → Command
  delete : String → String → Principal → Command
  list_all : String → Caller → Command
  add : String → String → Value → Command
  reserve : String → ℤ → String → Caller → Command
  release : String → Command
  new_version : String → ℕ → Value → Caller → Command
  publish : String → String → ℕ → Caller → Command
  reserve_run : String → ℤ → String → Value → Caller → String → Command
  new_run : Value → Caller → String → Command
  claim : String → String → String → ℕ → Command
  event : String → String → ℕ → Event → Command
  progress : String → String → ℕ → RunProgress → Command
  finalize : String → String → Command
  review : String → String → ℕ → String → Caller → Command
  read_events : String → Command
  read_progress : String → Command
  new_delivery : String → DeliveryAttempt → Caller → Command
  take_delivery : String → Caller → Command
  mark_dispatched : String → Caller → Command
  mark_deleting : String → String → ℕ → Caller → Command
  bump_generation : String → String → Caller → Command

-- The state after a call, whether it returned or raised.
unfoldable pub apply : Command → Repository → Repository
apply (swap kind i n v) r = (compare_and_swap kind i n v r).1
apply (delete kind i p) r = (delete_owned kind i p r).1
apply (list_all kind c) r = (list_owned kind c r).1
apply (add kind i v) r = (add_immutable kind i v r).1
apply (reserve w m i c) r = (reserve_quota w m i c r).1
apply (release i) r = (release_reservation i r).1
apply (new_version a n v c) r = (create_version a n v c r).1
apply (publish a v n c) r = (publish_version a v n c r).1
apply (reserve_run w m i run c key) r = (reserve_quota_and_create_run w m i run c key r).1
apply (new_run run c key) r = (create_run run c key r).1
apply (claim run a worker fence) r = (claim_attempt run a worker fence r).1
apply (event run a fence e) r = (commit_event run a fence e r).1
apply (progress run a fence p) r = (commit_progress run a fence p r).1
apply (finalize run a) r = (finalize_run run a r).1
apply (review run e n text c) r = (review_event run e n text c r).1
apply (read_events run) r = list_events_after run r
apply (read_progress run) r = list_progress_after run r
apply (new_delivery e d c) r = (create_delivery e d c r).1
apply (take_delivery i c) r = (claim_delivery i c r).1
apply (mark_dispatched i c) r = (mark_delivery_dispatched i c r).1
apply (mark_deleting kind i g c) r = (mark_deletion kind i g c r).1
apply (bump_generation kind i c) r = (bump_deletion_generation kind i c r).1

unfoldable pub run_all : List Command → Repository → Repository
unfolding apply
run_all [] r = r
run_all (c ∷ cs) r = run_all cs (apply c r)
