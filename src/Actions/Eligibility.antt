-- ===== src/Actions/Eligibility.antt =====
-- `eligibility` of backend/src/vision_app/actions/eligibility.py, with the records of models.py.
use vision_app_creator.Prelude.{
  ℕ, String, ◌≡◌, ◌≢◌, ◌⊎◌, ◌↔◌, Bool, true, false, not, Option, none, some, List, [], ◌∷◌, ◌++◌,
  ◌==◌, ◌||◌, ◌&&◌, arith, nat_eq, string_eq, str_eq_iff, if◌then◌else◌,
}

pub record Permission : Type 0 where
  pub id : String
  pub version : ℕ
  pub workspace_id : String
  pub destination_ref : String
  pub enabled : Bool
  pub preapproved : Bool

pub record ActionContext : Type 0 where
  pub workspace_id : String
  pub event_id : String
  pub event_revision : ℕ
  pub machine_decision : String
  pub human_review : String
  pub selected_finalized : Bool
  pub run_mode : String
  pub action_ref : String
  pub explicitly_enabled : Bool
  pub deleted : Bool
  pub cancelled : Bool
  pub budget_available : Bool

pub record EligibilityResult : Type 0 where
  pub eligible : Bool
  pub reasons : List String

-- `if test: reasons.append(reason)`
abbrev pub because : Bool → String → List String
because true reason = reason ∷ []
because false reason = []

abbrev pub review_reasons : ActionContext → Permission → List String
review_reasons c p =
    if c.human_review == "dismissed_by_user"
    then "event_dismissed" ∷ []
    else because (not (c.human_review == "confirmed_by_user") && not p.preapproved)
        "human_review_required"

-- `reviewed_revision is not None and reviewed_revision != context.event_revision`
abbrev pub is_stale_review : Option ℕ → ℕ → Bool
is_stale_review none n = false
is_stale_review (some m) n = not (m == n)

abbrev pub no_reasons : List String → Bool
no_reasons [] = true
no_reasons (r ∷ rs) = false

unfoldable pub reasons_for : ActionContext → Permission → Option ℕ → List String
reasons_for c p reviewed =
    because (not c.selected_finalized) "event_not_selected_and_finalized"
    ++ because (not (c.machine_decision == "supported")) "event_not_supported"
    ++ because (not (c.run_mode == "normal")) "run_mode_forbids_delivery"
    ++ because (c.deleted || c.cancelled) "event_unavailable"
    ++ because (not c.budget_available) "budget_unavailable"
    ++ because (not c.explicitly_enabled) "action_not_explicitly_enabled"
    ++ because (not (c.action_ref == p.id)) "authorization_reference_mismatch"
    ++ because (not (c.workspace_id == p.workspace_id)) "authorization_workspace_mismatch"
    ++ because (not p.enabled) "permission_revoked"
    ++ review_reasons c p
    ++ because (is_stale_review reviewed c.event_revision) "stale_review_revision"

unfoldable pub eligibility : ActionContext → Permission → Option ℕ → EligibilityResult
eligibility c p reviewed = record {
  eligible = no_reasons (reasons_for c p reviewed);
  reasons = reasons_for c p reviewed;
}

-- What an action needs: the event is chosen, final, supported and there; the run is a normal one
-- with a budget; the action is enabled under the permission that it names, in its workspace; and a
-- person has confirmed the event, or the permission approves in advance and nobody has dismissed it.
abbrev pub MayAct : ActionContext → Permission → Option ℕ → Type 0
MayAct c p reviewed =
    (c.selected_finalized ≡ true)
    × (c.machine_decision ≡ "supported")
    × (c.run_mode ≡ "normal")
    × (c.deleted ≡ false)
    × (c.cancelled ≡ false)
    × (c.budget_available ≡ true)
    × (c.explicitly_enabled ≡ true)
    × (c.action_ref ≡ p.id)
    × (c.workspace_id ≡ p.workspace_id)
    × (p.enabled ≡ true)
    × (c.human_review ≢ "dismissed_by_user")
    × ((c.human_review ≡ "confirmed_by_user") ⊎ (p.preapproved ≡ true))
    × (is_stale_review reviewed c.event_revision ≡ false)

-- An action is eligible exactly when everything that it needs holds.
pub eligible_exactly :
    (c : ActionContext) (p : Permission) (reviewed : Option ℕ)
    → ((eligibility c p reviewed).eligible ≡ true) ↔ MayAct c p reviewed
unfolding eligibility reasons_for
eligible_exactly c p reviewed = ground (
  arith,
  str_eq_iff c.machine_decision "supported",
  str_eq_iff c.run_mode "normal",
  str_eq_iff c.action_ref p.id,
  str_eq_iff c.workspace_id p.workspace_id,
  str_eq_iff c.human_review "dismissed_by_user",
  str_eq_iff c.human_review "confirmed_by_user",
)
