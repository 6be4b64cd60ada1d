-- ===== src/Operations/Atomic.antt =====
-- The retry loop `_update` of backend/src/vision_app/operations/ledger.py among other writers: it
-- makes one change, to the account that is stored at that moment.
use vision_app_creator.Prelude.{
  ℕ, zero, suc, ◌+◌, ◌<◌, String, ◌≡◌, sym, ap, ◌∙◌, ◌⊎◌, true, arith, nat_eq, string_eq, insert,
}
use vision_app_creator.Prelude.Results.{Result, ok, err}
use vision_app_creator.Operations.Ledger.{
  BudgetError, budget_contention, Account, Accounts, read, swap, Interference, update_tries,
}

-- The others write through compare-and-swap as well: what they leave of the owner's account is the
-- same account, or one of a later revision.
unfoldable pub ByRevision : ℕ → String → Interference → Type 0
unfolding read
ByRevision limit owner others =
    (n : ℕ) (accounts : Accounts)
    → (read limit owner (others n accounts) ≡ read limit owner accounts)
      ⊎ ((read limit owner accounts).revision < (read limit owner (others n accounts)).revision)

-- What is stored after some of the rounds, by the writes of the others alone.
pub data Written (others : Interference) : ℕ → Accounts → Accounts → Type 0 where
  nothing : {n : ℕ} {accounts : Accounts} → Written others n accounts accounts
  round :
      {n : ℕ} {accounts now : Accounts}
      → Written others n (others n accounts) now
      → Written others (suc n) accounts now

module _ (others : Interference) (limit : ℕ) (owner : String)
    (f : Account → Result BudgetError Account) where
  -- An answer has changed the owner's account, as it was stored after the others' writes, and an
  -- exception nothing.
  unfoldable pub IsAtomic : ℕ → Accounts → Result BudgetError (Unit {0}) × Accounts → Type 0
  IsAtomic n accounts (ok u, accounts') =
      (now : Accounts) × Written others n accounts now
      × (s' : Account) × (f (read limit owner now) ≡ ok s')
      × (accounts'
          ≡ insert owner (record s' { revision = (read limit owner now).revision + 1 }) now)
  IsAtomic n accounts (err e, accounts') = Written others n accounts accounts'

  later_round :
      (n : ℕ) (accounts : Accounts) (o : Result BudgetError (Unit {0}) × Accounts)
      → IsAtomic n (others n accounts) o
      → IsAtomic (suc n) accounts o
  unfolding IsAtomic
  later_round n accounts (ok u, accounts') (now, w, s', ran, e) = (now, round w, s', ran, e)
  later_round n accounts (err e, accounts') w = round w

  -- A swap that goes through finds the account as it was read.
  unchanged :
      (s : Account) (n : ℕ) (accounts : Accounts)
      → ByRevision limit owner others
      → (swap owner (read limit owner accounts).revision s (others n accounts)).0 ≡ true
      → read limit owner (others n accounts) ≡ read limit owner accounts
  unfolding ByRevision read
  unchanged s n accounts by won = ground (arith, by n accounts)

  swap_won :
      (n : ℕ) (s : Account) (accounts : Accounts)
      → (swap owner n s accounts).0 ≡ true
      → (swap owner n s accounts).1 ≡ insert owner s accounts
  swap_won n s accounts won = ground (arith, won)

  raised : (n : ℕ) (e : BudgetError) (accounts : Accounts) → IsAtomic n accounts (err e, accounts)
  unfolding IsAtomic
  raised n e accounts = nothing

  swapped :
      (n : ℕ) (s' : Account) (accounts : Accounts)
      → ByRevision limit owner others
      → f (read limit owner accounts) ≡ ok s'
      → let s = read limit owner accounts in
        let answer =
          swap owner s.revision (record s' { revision = s.revision + 1 }) (others n accounts) in
        answer.0 ≡ true → IsAtomic (suc n) accounts (ok tt, answer.1)
  unfolding IsAtomic
  swapped n s' accounts by ran won =
      let s = read limit owner accounts in
      let next = record s' { revision = s.revision + 1 } in
      let same = unchanged next n accounts by won in
      (
        others n accounts,
        round nothing,
        s',
        ap f same ∙ ran,
        swap_won s.revision next (others n accounts) won
            ∙ ap (λ x. insert owner (record s' { revision = x.revision + 1 }) (others n accounts))
                (sym same),
      )

  pub update_tries-IsAtomic :
      (n : ℕ) (accounts : Accounts)
      → ByRevision limit owner others
      → IsAtomic n accounts (update_tries n others limit owner f accounts)
  unfolding update_tries
  update_tries-IsAtomic zero accounts by = raised zero budget_contention accounts
  update_tries-IsAtomic (suc n) accounts by =
      let again = update_tries n others limit owner f (others n accounts) in
      grind (
        arith,
        raised (suc n),
        swapped n,
        later_round n accounts again (update_tries-IsAtomic n (others n accounts) by),
      )
