-- ===== src/Persistence/Deliveries.antt =====
-- The action outbox of `InMemoryRepository`: `create_delivery`, `claim_delivery` and
-- `mark_delivery_dispatched`.
use vision_app_creator.Prelude.{
  String, Bool, true, false, not, Option, none, some, ◌==◌, string_eq, if◌then◌else◌, contains,
}
use vision_app_creator.Contracts.{DeliveryAttempt}
use vision_app_creator.Identity.{Caller, allowed}
use vision_app_creator.Persistence.Value.{
  Value, Shape, Result, ok, err, attribute_error, Attr, absent, is, model, dict,
}
use vision_app_creator.Persistence.Docs.{Doc, docs, find_doc}
use vision_app_creator.Persistence.Repository.{
  Repository, Action, write, ensured, fresh, delivery_value,
}

abbrev deliver_found :
    DeliveryAttempt
    → Caller
    → Option (String × Doc)
    → Repository
    → (Bool × Option String) × Repository
deliver_found dl caller none r = ((false, none), r)
deliver_found dl caller (some (w, d)) r =
    if not (allowed caller w)
    then ((false, none), r)
    else if contains dl.id (docs w "deliveries" r.store)
    then ((false, none), ensured w "deliveries" r)
    else ((true, some dl.id), write w "deliveries" dl.id (fresh (delivery_value dl)) r)

unfoldable pub create_delivery :
    String → DeliveryAttempt → Caller → Repository → (Bool × Option String) × Repository
create_delivery event dl caller r = deliver_found dl caller (find_doc "events" event r.store) r

-- `delivery.state`, an AttributeError where a value has none
abbrev state_of : Shape → Attr String → Result (Option String)
state_of dict s = err attribute_error
state_of _ absent = err attribute_error
state_of _ (is s) = ok (some s)
state_of _ _ = ok none

abbrev is_pending : Option String → Bool
is_pending none = false
is_pending (some s) = s == "pending"

-- `delivery.model_copy(update={"state": "dispatched"})`
abbrev dispatched : Shape → Value → Result Value
dispatched model v = ok (record v { state = is "dispatched" })
dispatched _ v = err attribute_error

abbrev claim_stored : String → String → Doc → Result Value → Action (Option Value)
claim_stored w i d (err e) r = (err e, r)
claim_stored w i d (ok v) r = (ok (some v), write w "deliveries" i (record d { value = v }) r)

abbrev claim_state : String → String → Doc → Result (Option String) → Action (Option Value)
claim_state w i d (err e) r = (err e, r)
claim_state w i d (ok s) r =
    if not (is_pending s)
    then (ok none, r)
    else claim_stored w i d (dispatched d.value.shape d.value) r

abbrev claim_found : String → Caller → Option (String × Doc) → Action (Option Value)
claim_found i caller none r = (ok none, r)
claim_found i caller (some (w, d)) r =
    if not (allowed caller w)
    then (ok none, r)
    else claim_state w i d (state_of d.value.shape d.value.state) r

unfoldable pub claim_delivery : String → Caller → Action (Option Value)
claim_delivery i caller r = claim_found i caller (find_doc "deliveries" i r.store) r

abbrev mark_result : Result (Option Value) → Result Bool
mark_result (ok none) = ok false
mark_result (ok (some v)) = ok true
mark_result (err e) = err e

-- The same checks and the same write, with a flag for the answer.
unfoldable pub mark_delivery_dispatched : String → Caller → Action Bool
mark_delivery_dispatched i caller r =
    let (res, r') = claim_found i caller (find_doc "deliveries" i r.store) r in
    (mark_result res, r')
