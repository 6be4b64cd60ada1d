-- ===== src/Persistence/Command/Idempotency.antt =====
-- An idempotency key that is taken stays taken, for the same run.
use vision_app_creator.Prelude.{
  String, ◌≡◌, refl, ap, true, Option, none, some, List, [], ◌∷◌, arith, string_eq, str_eq_iff,
  pair_eq, lookup, lookup-insert_new, lookup-insert_self, ◌⊎◌, Option-cases, inl, inr,
}
use vision_app_creator.Prelude.Int.{ℤ}
use vision_app_creator.Identity.{allowed, Caller, principal, workspace, unknown}
use vision_app_creator.Persistence.Value.{Value, ok, id_of}
use vision_app_creator.Persistence.Docs.{get_doc, ensure, docs}
use vision_app_creator.Persistence.Docs.Laws.{get_doc-put_doc, get_doc-ensure}
use vision_app_creator.Persistence.Repository.{Repository, ensured, fresh}
use vision_app_creator.Persistence.Documents.{
  compare_and_swap, delete_owned, list_owned, list_workspaces, add_immutable,
}
use vision_app_creator.Persistence.Budgets.{reserve_quota, release_reservation}
use vision_app_creator.Persistence.Apps.{create_version, publish_version}
use vision_app_creator.Persistence.Runs.{
  claim_attempt, commit_event, commit_progress, finalize_run, create_run,
  reserve_quota_and_create_run, idem_key, value_of,
}
use vision_app_creator.Persistence.Events.{review_event, list_events_after, list_progress_after}
use vision_app_creator.Persistence.Deliveries.{
  create_delivery, claim_delivery, mark_delivery_dispatched,
}
use vision_app_creator.Persistence.Deletion.{mark_deletion, bump_deletion_generation}
use vision_app_creator.Persistence.Command.{Command, reserve_run, new_run, list_all, apply, run_all}

list_keys :
    (kind : String) (ws : List String) (r : Repository)
    → (list_workspaces kind ws r).1.idempotency ≡ r.idempotency
unfolding list_workspaces
list_keys kind [] r = refl
list_keys kind (v ∷ ws) r = list_keys kind ws (ensured v kind r)

abbrev Key : Type 0
Key = String × (String × String)

apply-key :
    (c : Command) (k : Key) (i : String) (r : Repository)
    → lookup k r.idempotency ≡ some i
    → lookup k (apply c r).idempotency ≡ some i
unfolding apply compare_and_swap delete_owned list_owned add_immutable reserve_quota
    release_reservation create_version publish_version reserve_quota_and_create_run create_run
    claim_attempt commit_event commit_progress finalize_run review_event list_events_after
    list_progress_after create_delivery claim_delivery mark_delivery_dispatched mark_deletion
    bump_deletion_generation
apply-key (list_all kind unknown) k i r h = h
apply-key (list_all kind (workspace v)) k i r h = rw (list_keys kind (v ∷ []) r) h
apply-key (list_all kind (principal p)) k i r h = rw (list_keys kind p.workspace_ids r) h
apply-key (reserve_run w m j run c key) k i r h =
    grind (arith, lookup-insert_new k (idem_key w key) i)
apply-key (new_run run c key) k i r h = grind (arith, lookup-insert_new {V = String} k)
apply-key _ k i r h = ground arith

run_all-key :
    (cs : List Command) (k : Key) (i : String) (r : Repository)
    → lookup k r.idempotency ≡ some i
    → lookup k (run_all cs r).idempotency ≡ some i
unfolding run_all
run_all-key [] k i r h = h
run_all-key (c ∷ cs) k i r h = run_all-key cs k i (apply c r) (apply-key c k i r h)

get_doc-docs :
    (w x : String) (r : Repository) → get_doc w "run" x r.store ≡ lookup x (docs w "run" r.store)
unfolding get_doc
get_doc-docs w x r = refl

-- The run that a key stands for once a call has gone through: the one that it stood for before, or
-- the run of the call, if the key was free.
unfoldable pub StandsFor : String → String → Value → Option Value → String → Repository → Type 0
StandsFor w key run v x r =
    (lookup (idem_key w key) r.idempotency ≡ some x)
    ⊎ ((lookup (idem_key w key) r.idempotency ≡ none) × (id_of run ≡ some x) × (v ≡ some run))

-- A call that went through has taken its key for the run that it answers.
reserve_run_takes :
    (w : String) (m : ℤ) (i : String) (run : Value) (c : Caller) (key : String) (v : Option Value)
    (r : Repository)
    → (reserve_quota_and_create_run w m i run c key r).0 ≡ ok (true, v)
    → let r0 = (reserve_quota_and_create_run w m i run c key r).1 in
      (x : String) × StandsFor w key run v x r
      × (lookup (idem_key w key) r0.idempotency ≡ some x)
      × (v ≡ value_of (get_doc w "run" x r0.store))
unfolding reserve_quota_and_create_run StandsFor
reserve_run_takes w m i run c key v r h =
    elim (Option-cases (lookup (idem_key w key) r.idempotency)) [
      | inr (x, e) ↦ (
        x,
        inl e,
        ground (arith, h, e),
        ground (arith, h, e, get_doc-docs w x r, get_doc-ensure w "run" w "run" x r.store),
      )
      | inl e ↦ elim (Option-cases (id_of run)) [
        | inl e' ↦ let absurd : ⊥ = ground (arith, h, e, e') in elim absurd [ ]
        | inr (x, e') ↦ (
          x,
          inr (e, e', ground (arith, h, e, e')),
          ground
              (arith, h, e, e', lookup-insert_self {V = String} (idem_key w key) x r.idempotency),
          ground (
            arith,
            h,
            e,
            e',
            get_doc-put_doc w "run" x w "run" x (fresh run) r.store,
            str_eq_iff w w,
            str_eq_iff x x,
          ),
        )
      ]
    ]

reserve_run_again :
    (w : String) (m : ℤ) (i : String) (run : Value) (c : Caller) (key x : String) (r : Repository)
    → lookup (idem_key w key) r.idempotency ≡ some x
    → allowed c w ≡ true
    → let (res, r') = reserve_quota_and_create_run w m i run c key r in
      (res ≡ ok (true, value_of (get_doc w "run" x r.store)))
      × (r' ≡ record r { store = ensure w "run" r.store })
unfolding reserve_quota_and_create_run get_doc
reserve_run_again w m i run c key x r h member = ground arith

-- A retry is free: when `reserve_quota_and_create_run` has gone through under an idempotency key, the
-- key stands for the run that it has answered: the one of the call, or the one that the key stood
-- for before. Any later call with that key, by any member and with any amount, reservation id and
-- run, after any other calls, answers True with what is then stored of that same run (None, if it
-- is gone), and changes no budget and no reservation.
pub retry_is_free :
    (w : String) (m : ℤ) (i : String) (run : Value) (c : Caller) (key : String) (v : Option Value)
    (r : Repository)
    → (reserve_quota_and_create_run w m i run c key r).0 ≡ ok (true, v)
    → (cs : List Command) (m' : ℤ) (i' : String) (run' : Value) (c' : Caller) → allowed c' w ≡ true
    → let r0 = (reserve_quota_and_create_run w m i run c key r).1 in
      let r1 = run_all cs r0 in
      let (res, r2) = reserve_quota_and_create_run w m' i' run' c' key r1 in
      ((x : String) × StandsFor w key run v x r
        × (v ≡ value_of (get_doc w "run" x r0.store))
        × (res ≡ ok (true, value_of (get_doc w "run" x r1.store))))
      × (r2.budgets ≡ r1.budgets)
      × (r2.reservations ≡ r1.reservations)
retry_is_free w m i run c key v r h cs m' i' run' c' member =
    let r0 = (reserve_quota_and_create_run w m i run c key r).1 in
    let (x, named, taken, first) = reserve_run_takes w m i run c key v r h in
    let still = run_all-key cs (idem_key w key) x r0 taken in
    let again = reserve_run_again w m' i' run' c' key x (run_all cs r0) still member in
    ((x, named, first, again.0), ap (λ s. s.budgets) again.1, ap (λ s. s.reservations) again.1)
