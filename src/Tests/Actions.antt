-- ===== src/Tests/Actions.antt =====
-- Runs of the outbox on small inputs (backend/src/vision_app/actions).
use vision_app_creator.Prelude.{
  ◌≤◌, String, ◌≡◌, refl, ◌↔◌, Bool, true, false, none, some, List, [], ◌∷◌, string_eq, lookup,
  insert,
}
use vision_app_creator.Actions.Eligibility.{
  Permission, ActionContext, reasons_for, eligibility, MayAct, eligible_exactly,
}
use vision_app_creator.Actions.Outbox.{
  DeliveryRecord, status, raises, delivered, create_once, new_record, enqueue, deliver,
}
use vision_app_creator.Actions.Delivering.{
  Call, enqueues, delivers, perform_all, empty_outbox, count, attempts_of, deliveries_are_bounded,
  settled_is_final,
}

abbrev hook : Permission
hook = record {
  id = "hook";
  version = 1;
  workspace_id = "w";
  destination_ref = "site";
  enabled = true;
  preapproved = false;
}

abbrev confirmed : ActionContext
confirmed = record {
  workspace_id = "w";
  event_id = "e";
  event_revision = 2;
  machine_decision = "supported";
  human_review = "confirmed_by_user";
  selected_finalized = true;
  run_mode = "normal";
  action_ref = "hook";
  explicitly_enabled = true;
  deleted = false;
  cancelled = false;
  budget_available = true;
}

eligible_exactly_example :
    ((eligibility confirmed hook (some 2)).eligible ≡ true) ↔ MayAct confirmed hook (some 2)
eligible_exactly_example = eligible_exactly confirmed hook (some 2)

abbrev key : ActionContext → Permission → String
key c p = c.event_id

abbrev short : DeliveryRecord → Bool
short r = false

-- The first attempt fails, the second one arrives.
abbrev twice : List Call
twice =
    enqueues confirmed hook none
    ∷ delivers "e" confirmed hook (raises "TimeoutError")
    ∷ delivers "e" confirmed hook (status 204)
    ∷ []

deliveries_are_bounded_example :
    let x = perform_all key 3 short twice empty_outbox in
    (count "e" x.sends ≡ attempts_of (lookup {K = String} "e" x.records)) × (count "e" x.sends ≤ 3)
deliveries_are_bounded_example = deliveries_are_bounded key 3 short twice "e"

abbrev arrived : DeliveryRecord
arrived = record (new_record key confirmed hook) {
  state = delivered;
  attempts = 2;
  last_error = some "TimeoutError";
  response_status = some 204;
}

recorded :
    lookup {K = String} "e" (perform_all key 3 short twice empty_outbox).records ≡ some arrived
unfolding perform_all enqueue deliver create_once eligibility reasons_for lookup insert
recorded = refl

settled_is_final_example :
    let x = perform_all key 3 short twice empty_outbox in
    let later = perform_all key 3 short (delivers "e" confirmed hook (status 204) ∷ []) x in
    (lookup {K = String} "e" later.records ≡ some arrived)
    × (count "e" later.sends ≡ count "e" x.sends)
settled_is_final_example =
    settled_is_final key 3 short twice (delivers "e" confirmed hook (status 204) ∷ []) "e" arrived
      recorded refl
