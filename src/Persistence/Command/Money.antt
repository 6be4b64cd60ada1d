-- ===== src/Persistence/Command/Money.antt =====
-- Where the money of a workspace is: its budget, and its reservations.
use vision_app_creator.Prelude.{
  String, ◌≡◌, refl, ◌⊎◌, true, none, some, List, [], ◌∷◌, arith, ◌==◌, Bool-cases, Option-cases,
  inl, inr, string_eq, pair_eq, str_eq_iff, lookup, erase, contains, lookup_or-insert,
  if◌then◌else◌, Distinct, insert-Distinct, erase-Distinct,
}
use vision_app_creator.Prelude.Int.{ℤ, ◌+ℤ◌, ◌-ℤ◌, int_laws, parts_of_eq}
use vision_app_creator.Identity.{Caller, principal, workspace, unknown}
use vision_app_creator.Persistence.Value.{Value, ok}
use vision_app_creator.Persistence.Repository.{Repository, ensured}
use vision_app_creator.Persistence.Documents.{
  compare_and_swap, delete_owned, list_owned, list_workspaces, add_immutable,
}
use vision_app_creator.Persistence.Budgets.{budget, charge, reserve_quota, release_reservation}
use vision_app_creator.Persistence.Apps.{create_version, publish_version}
use vision_app_creator.Persistence.Runs.{
  claim_attempt, commit_event, commit_progress, finalize_run, create_run,
  reserve_quota_and_create_run, idem_key,
}
use vision_app_creator.Persistence.Events.{review_event, list_events_after, list_progress_after}
use vision_app_creator.Persistence.Deliveries.{
  create_delivery, claim_delivery, mark_delivery_dispatched,
}
use vision_app_creator.Persistence.Deletion.{mark_deletion, bump_deletion_generation}
use vision_app_creator.Persistence.Command.{
  Command, reserve, release, reserve_run, list_all, apply, run_all,
}
use vision_app_creator.Persistence.Command.Held.{
  share, held, held-insert_new, held-insert_over, held-erase,
}

-- The reservations are a dict, and a workspace's budget and reservations add up to a total.
pub record IsBalanced (w : String) (total : ℤ) (r : Repository) : Type 0 where
  pub distinct : Distinct r.reservations
  pub adds_up : budget w r +ℤ held w r.reservations ≡ total

module _ (w : String) (total : ℤ) (r : Repository) (b : IsBalanced w total r) where
  charge_adds_up :
      (v : String) (m : ℤ) (i : String)
      → lookup i r.reservations ≡ none
      → (if v == w then budget v r -ℤ m else budget w r)
          +ℤ (held w r.reservations +ℤ share w (v, m))
        ≡ total
  charge_adds_up v m i free = elim (Bool-cases (v == w)) [
    | inl same ↦
        let here : v ≡ w = (str_eq_iff v w).0 same in
        rw (same, here) (omega (int_laws, parts_of_eq _ _ b.adds_up))
    | inr other ↦ rw other (omega (int_laws, parts_of_eq _ _ b.adds_up))
  ]

  charge-IsBalanced :
      (v : String) (m : ℤ) (i : String)
      → lookup i r.reservations ≡ none
      → IsBalanced w total (charge v m i r)
  unfolding charge
  charge-IsBalanced v m i free = record {
    distinct = insert-Distinct i (v, m) r.reservations b.distinct;
    adds_up =
        simp (lookup_or-insert, held-insert_new w i (v, m) r.reservations free)
          (charge_adds_up v m i free);
  }

  release_adds_up :
      (v : String) (m : ℤ) (i : String)
      → lookup i r.reservations ≡ some (v, m)
      → (if v == w then budget v r +ℤ m else budget w r) +ℤ held w (erase i r.reservations) ≡ total
  release_adds_up v m i there =
      let gone = held-erase w i (v, m) r.reservations b.distinct there in
      elim (Bool-cases (v == w)) [
        | inl same ↦
            let here : v ≡ w = (str_eq_iff v w).0 same in
            rw (same, here)
              (omega (int_laws, parts_of_eq _ _ b.adds_up, parts_of_eq _ _ (rw (same) at gone)))
        | inr other ↦
            rw other
              (omega (int_laws, parts_of_eq _ _ b.adds_up, parts_of_eq _ _ (rw other at gone)))
      ]

  release-IsBalanced : (i : String) → IsBalanced w total (release_reservation i r).1
  unfolding release_reservation
  release-IsBalanced i = elim (Option-cases (lookup i r.reservations)) [
    | inl gone ↦ rw gone b
    | inr ((v, m), there) ↦ rw there (record {
      distinct = erase-Distinct i r.reservations b.distinct;
      adds_up = simp lookup_or-insert (release_adds_up v m i there);
    })
  ]

list_money :
    (kind : String) (ws : List String) (r : Repository)
    → let r' = (list_workspaces kind ws r).1 in
      (r'.budgets ≡ r.budgets) × (r'.reservations ≡ r.reservations)
unfolding list_workspaces
list_money kind [] r = (refl, refl)
list_money kind (v ∷ ws) r = list_money kind ws (ensured v kind r)

same-IsBalanced :
    (w : String) (total : ℤ) (r r' : Repository)
    → IsBalanced w total r
    → (r'.budgets ≡ r.budgets) × (r'.reservations ≡ r.reservations)
    → IsBalanced w total r'
same-IsBalanced w total r r' b (same_budgets, same_reservations) = record {
  distinct = rw same_reservations b.distinct;
  adds_up = rw (same_budgets, same_reservations) b.adds_up;
}

abbrev SameMoney : Repository → Repository → Type 0
SameMoney r r' = (r'.budgets ≡ r.budgets) × (r'.reservations ≡ r.reservations)

reserve_run-money :
    (v : String) (m : ℤ) (i : String) (run : Value) (c : Caller) (key : String) (r : Repository)
    → let r' = (reserve_quota_and_create_run v m i run c key r).1 in
      SameMoney r r' ⊎ SameMoney (charge v m i r) r'
unfolding reserve_quota_and_create_run
reserve_run-money v m i run c key r = ground arith

reserve_run_charges :
    (v : String) (m : ℤ) (i : String) (run : Value) (c : Caller) (key : String) (r : Repository)
    → lookup (idem_key v key) r.idempotency ≡ none
    → (reserve_quota_and_create_run v m i run c key r).0 ≡ ok (true, some run)
    → SameMoney (charge v m i r) (reserve_quota_and_create_run v m i run c key r).1
unfolding reserve_quota_and_create_run
reserve_run_charges v m i run c key r new done = ground arith

-- The one call that could write over a reservation does not.
abbrev pub Fresh : Command → Repository → Type 0
Fresh (reserve_run v m i run c key) r = lookup i r.reservations ≡ none
Fresh _ r = Unit

module _ (w : String) (total : ℤ) (r : Repository) (b : IsBalanced w total r) where
  reserve-IsBalanced :
      (v : String) (m : ℤ) (i : String) (c : Caller)
      → IsBalanced w total (reserve_quota v m i c r).1
  unfolding contains
  reserve-IsBalanced v m i c =
      unfold reserve_quota in
      grind (arith, charge-IsBalanced w total r b v m i, same-IsBalanced w total r r b)

  reserve_run-IsBalanced :
      (v : String) (m : ℤ) (i : String) (run : Value) (c : Caller) (key : String)
      → lookup i r.reservations ≡ none
      → IsBalanced w total (reserve_quota_and_create_run v m i run c key r).1
  reserve_run-IsBalanced v m i run c key free = elim (reserve_run-money v m i run c key r) [
    | inl same ↦ same-IsBalanced w total r _ b same
    | inr charged ↦
        same-IsBalanced w total (charge v m i r) _ (charge-IsBalanced w total r b v m i free)
          charged
  ]

  pub apply-IsBalanced : (c : Command) → Fresh c r → IsBalanced w total (apply c r)
  unfolding apply compare_and_swap delete_owned list_owned add_immutable create_version
      publish_version create_run claim_attempt commit_event commit_progress finalize_run
      review_event list_events_after list_progress_after create_delivery claim_delivery
      mark_delivery_dispatched mark_deletion bump_deletion_generation
  apply-IsBalanced (reserve v m i c) fresh = reserve-IsBalanced v m i c
  apply-IsBalanced (release i) fresh = release-IsBalanced w total r b i
  apply-IsBalanced (reserve_run v m i run c key) fresh =
      reserve_run-IsBalanced v m i run c key fresh
  apply-IsBalanced (list_all kind unknown) fresh = b
  apply-IsBalanced (list_all kind (workspace v)) fresh =
      same-IsBalanced w total r _ b (list_money kind (v ∷ []) r)
  apply-IsBalanced (list_all kind (principal p)) fresh =
      same-IsBalanced w total r _ b (list_money kind p.workspace_ids r)
  apply-IsBalanced c fresh = same-IsBalanced w total r (apply c r) b (ground arith)

-- Along a history, each call is fresh in the state that it meets.
abbrev pub AllFresh : List Command → Repository → Type 0
AllFresh [] r = Unit
AllFresh (c ∷ cs) r = Fresh c r × AllFresh cs (apply c r)

-- Money is conserved: along any calls in which `reserve_quota_and_create_run` is given reservation
-- ids that are not in use, the budget of every workspace and its open reservations add up to what
-- they did at the start, to the microusd, and no reservation is held twice.
pub money_conserved :
    (w : String) (total : ℤ) (cs : List Command) (r : Repository)
    → IsBalanced w total r
    → AllFresh cs r
    → IsBalanced w total (run_all cs r)
unfolding run_all
money_conserved w total [] r b fresh = b
money_conserved w total (c ∷ cs) r b fresh =
    money_conserved w total cs (apply c r) (apply-IsBalanced w total r b c fresh.0) fresh.1

charged_sum :
    (w v : String) (m h h' x : ℤ) (r : Repository)
    → h' +ℤ x ≡ h +ℤ share w (v, m)
    → (if v == w then budget v r -ℤ m else budget w r) +ℤ h' +ℤ x ≡ budget w r +ℤ h
charged_sum w v m h h' x r e = elim (Bool-cases (v == w)) [
  | inl same ↦
      let here : v ≡ w = (str_eq_iff v w).0 same in
      rw (same, here) (omega (int_laws, parts_of_eq _ _ (rw same at e)))
  | inr other ↦ rw other (omega (int_laws, parts_of_eq _ _ (rw other at e)))
]

charge_over :
    (w v : String) (m : ℤ) (i : String) (old : String × ℤ) (r : Repository)
    → lookup i r.reservations ≡ some old
    → budget w (charge v m i r) +ℤ held w (charge v m i r).reservations +ℤ share w old
      ≡ budget w r +ℤ held w r.reservations
unfolding charge
charge_over w v m i old r taken =
    simp lookup_or-insert
      (charged_sum w v m _ _ _ r (held-insert_over w i (v, m) old r.reservations taken))

-- A reservation id that is in use is not noticed by `reserve_quota_and_create_run`: when the call
-- goes through with a fresh idempotency key, the amount that the id held before is in no budget and
-- in no reservation any more, and so is lost to its workspace.
pub reserve_run_loses :
    (w v : String) (m : ℤ) (i : String) (old : String × ℤ) (run : Value) (c : Caller) (key : String)
    (r : Repository)
    → lookup i r.reservations ≡ some old
    → lookup (idem_key v key) r.idempotency ≡ none
    → (reserve_quota_and_create_run v m i run c key r).0 ≡ ok (true, some run)
    → let r' = (reserve_quota_and_create_run v m i run c key r).1 in
      budget w r' +ℤ held w r'.reservations +ℤ share w old ≡ budget w r +ℤ held w r.reservations
reserve_run_loses w v m i old run c key r taken new done =
    let (same_budgets, same_reservations) = reserve_run_charges v m i run c key r new done in
    rw (same_budgets, same_reservations) (charge_over w v m i old r taken)
