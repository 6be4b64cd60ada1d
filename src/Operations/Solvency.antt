-- ===== src/Operations/Solvency.antt =====
-- What the ledger guarantees (backend/src/vision_app/operations/ledger.py), among other writers.
use vision_app_creator.Prelude.{ℕ, String, ◌≡◌, nat_eq, string_eq, insert}
use vision_app_creator.Operations.Ledger.{Account, Accounts, read, Interference}
use vision_app_creator.Operations.Atomic.{Written}

module _ (others : Interference) (limit : ℕ) (owner : String) (accounts accounts' : Accounts) where
  -- The one change of the owner's account, to what the others have left in the end: `P` holds of
  -- the account before and after it, and no other account is touched.
  unfoldable pub Changes : (Account → Account → Type 0) → Type 0
  unfolding read
  Changes P =
      (now : Accounts) × Written others 100 accounts now
      × P (read limit owner now) (read limit owner accounts')
      × (accounts' ≡ insert owner (read limit owner accounts') now)
