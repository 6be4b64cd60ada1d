-- ===== src/Actions/Outbox.antt =====
-- The outbox of backend/src/vision_app/actions/outbox.py. The SHA-256 key of a delivery, the size of
-- its payload and the answer of the webhook transport are arguments. `sends` records the calls of
-- the transport. Calls run one after the other.
use vision_app_creator.Prelude.{
  ℕ, ◌+◌, String, Bool, true, false, not, Option, none, some, List, [], ◌∷◌, ◌++◌, ◌==◌, ◌||◌, ◌&&◌,
  string_eq, ltb, leb, if◌then◌else◌, Dict, lookup, insert,
}
use vision_app_creator.Prelude.Results.{Result, ok, err}
use vision_app_creator.Actions.Eligibility.{Permission, ActionContext, eligibility}

pub data DeliveryState : Type 0 where
  pending delivering delivered suppressed exhausted : DeliveryState

pub data ActionError : Type 0 where
  not_eligible retry_budget_exhausted key_error value_error : ActionError
  transport_error : String → ActionError

pub record DeliveryRecord : Type 0 where
  pub id : String
  pub event_id : String
  pub event_revision : ℕ
  pub destination_ref : String
  pub permission_id : String
  pub permission_version : ℕ
  pub state : DeliveryState
  pub attempts : ℕ
  pub last_error : Option String
  pub response_status : Option ℕ

-- What `send` does: it answers a status, or raises an exception of this class.
pub data Sending : Type 0 where
  status : ℕ → Sending
  raises : String → Sending

pub record Outbox : Type 0 where
  pub records : Dict String DeliveryRecord
  pub sends : List String

abbrev pub put : DeliveryRecord → Outbox → Outbox
put r x = record x { records = insert r.id r x.records }

-- `setdefault`
unfoldable pub create_once : DeliveryRecord → Outbox → DeliveryRecord × Outbox
create_once r x = elim (lookup r.id x.records) [ none ↦ (r, put r x) | some old ↦ (old, x) ]

abbrev pub is_settled : DeliveryState → Bool
is_settled delivered = true
is_settled suppressed = true
is_settled _ = false

abbrev pub is_exhausted : DeliveryState → Bool
is_exhausted exhausted = true
is_exhausted _ = false

module _ (key : ActionContext → Permission → String) where
  abbrev pub new_record : ActionContext → Permission → DeliveryRecord
  new_record c p = record {
    id = key c p;
    event_id = c.event_id;
    event_revision = c.event_revision;
    destination_ref = p.destination_ref;
    permission_id = p.id;
    permission_version = p.version;
    state = pending;
    attempts = 0;
    last_error = none;
    response_status = none;
  }

  unfoldable pub enqueue :
      ActionContext → Permission → Option ℕ → Outbox → Result ActionError DeliveryRecord × Outbox
  enqueue c p reviewed x =
      if (eligibility c p reviewed).eligible
      then (ok (create_once (new_record c p) x).0, (create_once (new_record c p) x).1)
      else (err not_eligible, x)

  module _ (max_attempts : ℕ) (is_too_long : DeliveryRecord → Bool) where
    -- The record of an attempt that failed with an exception of this class.
    abbrev pub failed :
        DeliveryRecord → String → Outbox → Result ActionError DeliveryRecord × Outbox
    failed attempt error x =
        let state = if leb max_attempts attempt.attempts then exhausted else pending in
        (
          err (transport_error error),
          put (record attempt { state = state; last_error = some error }) x,
        )

    abbrev pub sent : DeliveryRecord → Sending → Outbox → Result ActionError DeliveryRecord × Outbox
    sent attempt (raises error) x = failed attempt error x
    sent attempt (status n) x =
        let done = record attempt { state = delivered; response_status = some n } in
        if leb 200 n && ltb n 300 then (ok done, put done x) else failed attempt "ConnectionError" x

    abbrev pub try : DeliveryRecord → Sending → Outbox → Result ActionError DeliveryRecord × Outbox
    try r answer x =
        let attempt = record r { state = delivering; attempts = r.attempts + 1 } in
        let put_first = put attempt x in
        sent attempt answer (record put_first { sends = x.sends ++ (r.id ∷ []) })

    abbrev pub deliver_found :
        ActionContext
        → Permission
        → Sending
        → DeliveryRecord
        → Outbox
        → Result ActionError DeliveryRecord × Outbox
    deliver_found c p answer r x =
        if is_settled r.state
        then (ok r, x)
        else if not (eligibility c p none).eligible || not (key c p == r.id)
        then (ok (record r { state = suppressed }), put (record r { state = suppressed }) x)
        else if leb max_attempts r.attempts || is_exhausted r.state
        then (err retry_budget_exhausted, x)
        else if is_too_long r
        then (err value_error, x)
        else try r answer x

    unfoldable pub deliver :
        String
        → ActionContext
        → Permission
        → Sending
        → Outbox
        → Result ActionError DeliveryRecord × Outbox
    deliver i c p answer x = elim (lookup i x.records) [
      | none ↦ (err key_error, x)
      | some r ↦ deliver_found c p answer r x
    ]
