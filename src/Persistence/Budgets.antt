-- ===== src/Persistence/Budgets.antt =====
-- `reserve_quota` and `release_reservation` of `InMemoryRepository`.
use vision_app_creator.Prelude.{
  String, Bool, true, false, not, Option, none, some, string_eq, if◌then◌else◌, lookup, insert,
  erase, lookup_or, contains,
}
use vision_app_creator.Prelude.Int.{ℤ, pos, ◌+ℤ◌, ◌-ℤ◌, ltb_ℤ}
use vision_app_creator.Identity.{Caller, allowed}
use vision_app_creator.Persistence.Repository.{Repository}

-- `_seed_budget`
unfoldable pub seed_budget : String → ℤ → Repository → Repository
seed_budget w m r = record r { budgets = insert w m r.budgets }

-- `self._budgets.get(workspace_id, 0)`
abbrev pub budget : String → Repository → ℤ
budget w r = lookup_or w (pos 0) r.budgets

-- `_budgets[workspace_id] = available - microusd; _reservations[reservation_id] = …`
unfoldable pub charge : String → ℤ → String → Repository → Repository
charge w m i r = record r {
  budgets = insert w (budget w r -ℤ m) r.budgets;
  reservations = insert i (w, m) r.reservations;
}

-- The answer names the reservation and the workspace.
unfoldable pub reserve_quota :
    String → ℤ → String → Caller → Repository → Option (String × String) × Repository
unfolding charge
reserve_quota w m i caller r =
    if not (allowed caller w)
    then (none, r)
    else if contains i r.reservations
    then (some (i, w), r)
    else if ltb_ℤ (budget w r) m
    then (none, r)
    else (some (i, w), charge w m i r)

abbrev release_entry : Option (String × ℤ) → String → Repository → Bool × Repository
release_entry none i r = (false, r)
release_entry (some (w, m)) i r = (
  true,
  record r {
    reservations = erase i r.reservations;
    budgets = insert w (budget w r +ℤ m) r.budgets;
  },
)

unfoldable pub release_reservation : String → Repository → Bool × Repository
release_reservation i r = release_entry (lookup i r.reservations) i r
