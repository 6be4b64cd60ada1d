-- ===== src/Operations/Entries.antt =====
-- What one entry changes of an account (backend/src/vision_app/operations/ledger.py): a reservation,
-- and how it ends.
use vision_app_creator.Prelude.{
  ℕ, ◌+◌, ◌-◌, ◌≤◌, String, ◌≡◌, ap, inl, inr, Option-cases, ◌∙◌, Option, none, some, [], ◌∷◌,
  arith, ◌==◌, nat_eq, string_eq, if◌then◌else◌, Dict, lookup, insert, erase, lookup-insert,
  lookup-erase,
}
use vision_app_creator.Prelude.Int.{pos}
use vision_app_creator.Prelude.Results.{Result, ok, err}
use vision_app_creator.Operations.Ledger.{
  BudgetError, reservation_not_found, Account, Accounts, reserved, add_reservation,
  settle_reservation, drop_reservation, Interference, settle, release,
}

reserved-insert_new :
    (i : String) (m : ℕ) (d : Dict String ℕ)
    → lookup i d ≡ none
    → reserved (insert i m d) ≡ reserved d + m
unfolding reserved insert lookup
reserved-insert_new i m [] h = omega arith
reserved-insert_new i m ((j, n) ∷ d) h = ground (arith, reserved-insert_new i m d)

-- The account `s` with one more reservation, in all its amounts.
unfoldable pub IsBooked : String → ℕ → Account → Account → Type 0
IsBooked i m s s' =
    (s'.limit_microusd ≡ s.limit_microusd)
    × (s'.measured_microusd ≡ s.measured_microusd)
    × (s'.released_microusd ≡ s.released_microusd)
    × (s'.estimated_total_microusd ≡ s.estimated_total_microusd + m)
    × ((j : String)
        → lookup j s'.reservations ≡ (if i == j then some m else lookup j s.reservations))

-- The account `s` without a reservation that it had, of which `spent` was measured.
unfoldable pub IsEnded : String → ℕ → Account → Account → Type 0
IsEnded i spent s s' =
    (estimated : ℕ) × (lookup i s.reservations ≡ some estimated)
    × (s'.limit_microusd ≡ s.limit_microusd)
    × (s'.measured_microusd ≡ s.measured_microusd + spent)
    × (s'.released_microusd ≡ s.released_microusd + (estimated - spent))
    × (s'.estimated_total_microusd ≡ s.estimated_total_microusd)
    × ((j : String) → lookup j s'.reservations ≡ (if i == j then none else lookup j s.reservations))

pub add-IsBooked :
    (i : String) (m : ℕ) (s s' : Account)
    → lookup i s.reservations ≡ none
    → add_reservation i m s ≡ ok s'
    → IsBooked i m s s' × (s'.measured_microusd + reserved s'.reservations ≤ s'.limit_microusd)
unfolding add_reservation IsBooked
add-IsBooked i m s s' new e =
    let booked : s'.reservations ≡ insert i m s.reservations = ground (arith, e) in
    (
      (
        ground (arith, e),
        ground (arith, e),
        ground (arith, e),
        ground (arith, e),
        (λ j. ap (lookup j) booked ∙ lookup-insert i j m s.reservations),
      ),
      ground (arith, e, reserved-insert_new i m s.reservations new),
    )

-- How a reservation ends: it is settled for an amount, or released.
pub data Ending : Type 0 where
  settled : ℕ → Ending
  released : Ending

abbrev pub end_with :
    Ending
    → (String → Option String)
    → Interference
    → ℕ
    → String
    → Accounts
    → Result BudgetError (Unit {0}) × Accounts
end_with (settled m) owner_of others limit i accounts =
    settle owner_of others limit i (pos m) accounts
end_with released owner_of others limit i accounts = release owner_of others limit i accounts

abbrev pub spent_by : Ending → ℕ
spent_by (settled m) = m
spent_by released = 0

abbrev pub ended : Ending → String → Account → Result BudgetError Account
ended (settled m) i s = settle_reservation i m s
ended released i s = drop_reservation i s

-- What an ending leaves, `estimated` being what was reserved.
ended_leaves :
    (how : Ending) (i : String) (estimated : ℕ) (s s' : Account)
    → lookup i s.reservations ≡ some estimated
    → ended how i s ≡ ok s'
    → s' ≡ record s {
      reservations = erase i s.reservations;
      measured_microusd = s.measured_microusd + spent_by how;
      released_microusd = s.released_microusd + (estimated - spent_by how);
    }
unfolding settle_reservation drop_reservation
ended_leaves (settled m) i estimated s s' there e = ground (arith, there, e)
ended_leaves released i estimated s s' there e = ground (arith, there, e)

pub ended_there :
    (how : Ending) (i : String) (s : Account)
    → lookup i s.reservations ≡ none
    → ended how i s ≡ err reservation_not_found
unfolding settle_reservation drop_reservation
ended_there (settled m) i s gone = ground (arith, gone)
ended_there released i s gone = ground (arith, gone)

pub ended-IsEnded :
    (how : Ending) (i : String) (s s' : Account)
    → ended how i s ≡ ok s'
    → IsEnded i (spent_by how) s s'
unfolding IsEnded
ended-IsEnded how i s s' e = elim (Option-cases (lookup i s.reservations)) [
  | inl gone ↦ let absurd : ⊥ = ground (arith, e, ended_there how i s gone) in elim absurd [ ]
  | inr (estimated, there) ↦
      let left = ended_leaves how i estimated s s' there e in
      (
        estimated,
        there,
        ap (λ x. x.limit_microusd) left,
        ap (λ x. x.measured_microusd) left,
        ap (λ x. x.released_microusd) left,
        ap (λ x. x.estimated_total_microusd) left,
        (λ j. ap (λ x. lookup j x.reservations) left ∙ lookup-erase i j s.reservations),
      )
]
