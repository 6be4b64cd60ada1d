-- ===== src/Operations/Ledger.antt =====
-- `BudgetLedgerService` of backend/src/vision_app/operations/ledger.py. Its base64 owner codes and
-- its id factory are arguments; the repository holds one document for each owner, and compares
-- revisions on a swap, with 0 for a document that is not there.
use vision_app_creator.Prelude.{
  ℕ, zero, suc, ◌+◌, ◌-◌, String, Bool, true, false, Option, none, some, List, [], ◌∷◌, ◌==◌,
  nat_eq, string_eq, ltb, if◌then◌else◌, Dict, lookup, insert, erase, length,
}
use vision_app_creator.Prelude.Int.{ℤ, pos, negsuc}
use vision_app_creator.Prelude.Results.{Result, ok, err}

pub data BudgetError : Type 0 where
  value_error budget_exceeded reservation_not_found budget_contention : BudgetError

pub record Account : Type 0 where
  pub revision : ℕ
  pub workspace_id : String
  pub limit_microusd : ℕ
  pub estimated_total_microusd : ℕ
  pub measured_microusd : ℕ
  pub released_microusd : ℕ
  pub reservations : Dict String ℕ

abbrev pub Accounts : Type 0
Accounts = Dict String Account

-- `_initial_state`
abbrev pub initial_state : ℕ → String → Account
initial_state limit owner = record {
  revision = 0;
  workspace_id = owner;
  limit_microusd = limit;
  estimated_total_microusd = 0;
  measured_microusd = 0;
  released_microusd = 0;
  reservations = [];
}

-- `sum(int(item) for item in state["reservations"].values())`
unfoldable pub reserved : Dict String ℕ → ℕ
reserved [] = 0
reserved ((k, n) ∷ d) = n + reserved d

-- `mutate` of `reserve`
unfoldable pub add_reservation : String → ℕ → Account → Result BudgetError Account
add_reservation i m s =
    if ltb s.limit_microusd (s.measured_microusd + reserved s.reservations + m)
    then err budget_exceeded
    else ok (record s {
      estimated_total_microusd = s.estimated_total_microusd + m;
      reservations = insert i m s.reservations;
    })

-- `mutate` of `settle`; `max(0, estimated - actual)` is the subtraction that stops at 0
unfoldable pub settle_reservation : String → ℕ → Account → Result BudgetError Account
settle_reservation i actual s = elim (lookup i s.reservations) [
  | none ↦ err reservation_not_found
  | some estimated ↦ ok (record s {
    reservations = erase i s.reservations;
    measured_microusd = s.measured_microusd + actual;
    released_microusd = s.released_microusd + (estimated - actual);
  })
]

-- `mutate` of `release`
unfoldable pub drop_reservation : String → Account → Result BudgetError Account
drop_reservation i s = elim (lookup i s.reservations) [
  | none ↦ err reservation_not_found
  | some estimated ↦ ok (record s {
    reservations = erase i s.reservations;
    released_microusd = s.released_microusd + estimated;
  })
]

-- `_read`
unfoldable pub read : ℕ → String → Accounts → Account
read limit owner accounts = elim (lookup owner accounts) [
  | none ↦ initial_state limit owner
  | some s ↦ s
]

abbrev pub revision_at : Option Account → ℕ
revision_at none = 0
revision_at (some s) = s.revision

abbrev pub swap : String → ℕ → Account → Accounts → Bool × Accounts
swap owner n s accounts =
    if revision_at (lookup owner accounts) == n
    then (true, insert owner s accounts)
    else (false, accounts)

-- What other services do between the read and the swap of each try.
abbrev pub Interference : Type 0
Interference = ℕ → Accounts → Accounts

-- `_update`: `for _ in range(_MAX_CAS_ATTEMPTS)`
unfoldable pub update_tries :
    ℕ
    → Interference
    → ℕ
    → String
    → (Account → Result BudgetError Account)
    → Accounts
    → Result BudgetError (Unit {0}) × Accounts
update_tries zero others limit owner f accounts = (err budget_contention, accounts)
update_tries (suc n) others limit owner f accounts =
    let s = read limit owner accounts in
    elim (f s) [
      | err e ↦ (err e, accounts)
      | ok s' ↦
          let (won, later) =
            swap owner s.revision (record s' { revision = s.revision + 1 }) (others n accounts) in
          elim won [ true ↦ (ok tt, later) | false ↦ update_tries n others limit owner f later ]
    ]

-- `_MAX_CAS_ATTEMPTS`
abbrev pub max_cas_attempts : ℕ
max_cas_attempts = 100

abbrev pub update :
    Interference
    → ℕ
    → String
    → (Account → Result BudgetError Account)
    → Accounts
    → Result BudgetError (Unit {0}) × Accounts
update = update_tries max_cas_attempts

abbrev pub answer :
    String → Result BudgetError (Unit {0}) × Accounts → Result BudgetError String × Accounts
answer i (err e, accounts) = (err e, accounts)
answer i (ok u, accounts) = (ok i, accounts)

-- The id is the owner's code and what the id factory gives.
unfoldable pub reserve :
    Interference → ℕ → String → ℤ → String → Accounts → Result BudgetError String × Accounts
reserve others limit owner (negsuc m) i accounts = (err value_error, accounts)
reserve others limit owner (pos m) i accounts =
    if owner == ""
    then (err value_error, accounts)
    else if m == 0
    then (err value_error, accounts)
    else answer i (update others limit owner (add_reservation i m) accounts)

-- `_owner_from_reservation`, where `none` is the id that does not decode
abbrev pub for_owner :
    Option String
    → (String → Result BudgetError (Unit {0}) × Accounts)
    → Accounts
    → Result BudgetError (Unit {0}) × Accounts
for_owner none f accounts = (err reservation_not_found, accounts)
for_owner (some owner) f accounts = f owner

unfoldable pub settle :
    (String → Option String)
    → Interference
    → ℕ
    → String
    → ℤ
    → Accounts
    → Result BudgetError (Unit {0}) × Accounts
settle owner_of others limit i (negsuc actual) accounts = (err value_error, accounts)
settle owner_of others limit i (pos actual) accounts =
    for_owner (owner_of i)
      (λ owner. update others limit owner (settle_reservation i actual) accounts) accounts

unfoldable pub release :
    (String → Option String)
    → Interference
    → ℕ
    → String
    → Accounts
    → Result BudgetError (Unit {0}) × Accounts
release owner_of others limit i accounts =
    for_owner (owner_of i) (λ owner. update others limit owner (drop_reservation i) accounts)
      accounts

module _ (owner_of : String → Option String) (others : Interference) (limit : ℕ) where
  release_each : List String → Accounts → Result BudgetError (Unit {0}) × Accounts
  release_each [] accounts = (ok tt, accounts)
  release_each (i ∷ is) accounts =
      let (done, later) = release owner_of others limit i accounts in
      elim done [ err e ↦ (err e, later) | ok u ↦ release_each is later ]

  -- `cancel`: settles the calls in flight, then releases what did not start
  unfoldable pub cancel :
      List (String × ℤ) → List String → Accounts → Result BudgetError (Unit {0}) × Accounts
  unfolding release_each
  cancel [] idle accounts = release_each idle accounts
  cancel ((i, m) ∷ busy) idle accounts =
      let (done, later) = settle owner_of others limit i m accounts in
      elim done [ err e ↦ (err e, later) | ok u ↦ cancel busy idle later ]

pub record BudgetSnapshot : Type 0 where
  pub limit_microusd : ℕ
  pub estimated_total_microusd : ℕ
  pub estimated_reserved_microusd : ℕ
  pub measured_microusd : ℕ
  pub released_microusd : ℕ
  pub active_reservations : ℕ

unfoldable pub snapshot : ℕ → String → Accounts → BudgetSnapshot
snapshot limit owner accounts =
    let s = read limit owner accounts in
    record {
      limit_microusd = s.limit_microusd;
      estimated_total_microusd = s.estimated_total_microusd;
      estimated_reserved_microusd = reserved s.reservations;
      measured_microusd = s.measured_microusd;
      released_microusd = s.released_microusd;
      active_reservations = length s.reservations;
    }
