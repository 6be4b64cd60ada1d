-- ===== src/Authorization.antt =====
-- The authorization boundary of backend/src/vision_app/security/authorization/boundary.py: the
-- resolver that is kept in memory, `require`, and one method for each family of resources.
-- `caller_workspace_id` is deleted unread, and is no argument here.
pub mod Access
use vision_app_creator.Prelude.{
  String, ◌≡◌, refl, sym, ap, ◌∙◌, ◌↔◌, Bool, true, false, not, Option, none, some, List, [], ◌∷◌,
  ◌==◌, ◌||◌, arith, string_eq, str_eq_iff, if◌then◌else◌, HasEq, pair_eq, Dict, lookup, insert,
}
use vision_app_creator.Prelude.Results.{Result, ok, err}
use vision_app_creator.Identity.{Principal, is_member}

pub data ResourceFamily : Type 0 where
  app version asset calibration build_turn run attempt event evidence : ResourceFamily
  delivery reservation deletion_job upload action_destination : ResourceFamily

-- The value of the `StrEnum`, by which its members are compared.
abbrev pub family_value : ResourceFamily → String
family_value app = "app"
family_value version = "version"
family_value asset = "asset"
family_value calibration = "calibration"
family_value build_turn = "build_turn"
family_value run = "run"
family_value attempt = "attempt"
family_value event = "event"
family_value evidence = "evidence"
family_value delivery = "delivery"
family_value reservation = "reservation"
family_value deletion_job = "deletion_job"
family_value upload = "upload"
family_value action_destination = "action_destination"

abbrev family_of : String → ResourceFamily
family_of s =
    if s == "app"
    then app
    else if s == "version"
    then version
    else if s == "asset"
    then asset
    else if s == "calibration"
    then calibration
    else if s == "build_turn"
    then build_turn
    else if s == "run"
    then run
    else if s == "attempt"
    then attempt
    else if s == "event"
    then event
    else if s == "evidence"
    then evidence
    else if s == "delivery"
    then delivery
    else if s == "reservation"
    then reservation
    else if s == "deletion_job"
    then deletion_job
    else if s == "upload"
    then upload
    else action_destination

family_of-family_value : (f : ResourceFamily) → family_of (family_value f) ≡ f
family_of-family_value app = refl
family_of-family_value version = refl
family_of-family_value asset = refl
family_of-family_value calibration = refl
family_of-family_value build_turn = refl
family_of-family_value run = refl
family_of-family_value attempt = refl
family_of-family_value event = refl
family_of-family_value evidence = refl
family_of-family_value delivery = refl
family_of-family_value reservation = refl
family_of-family_value deletion_job = refl
family_of-family_value upload = refl
family_of-family_value action_destination = refl

family_value_injective : (f g : ResourceFamily) → family_value f ≡ family_value g → f ≡ g
family_value_injective f g h =
    sym (family_of-family_value f) ∙ ap family_of h ∙ family_of-family_value g

abbrev family_eqb : ResourceFamily → ResourceFamily → Bool
family_eqb f g = family_value f == family_value g

pub family_eqb_iff : (f g : ResourceFamily) → (family_eqb f g ≡ true) ↔ (f ≡ g)
family_eqb_iff f g = (
  λ h. family_value_injective f g ((str_eq_iff (family_value f) (family_value g)).0 h),
  λ h. (str_eq_iff (family_value f) (family_value g)).1 (ap family_value h),
)

instance abbrev pub family_eq : HasEq ResourceFamily
family_eq = record { eqb = family_eqb; eqb_iff = family_eqb_iff }

pub record ResourceOwnership : Type 0 where
  pub family : ResourceFamily
  pub resource_id : String
  pub workspace_id : String

-- `(item.family, item.resource_id)`
abbrev pub key_of_item : ResourceOwnership → ResourceFamily × String
key_of_item o = (o.family, o.resource_id)

-- `InMemoryOwnershipResolver`: a later item takes the place of an earlier one with its key.
abbrev pub OwnershipItems : Type 0
OwnershipItems = Dict (ResourceFamily × String) ResourceOwnership

unfoldable pub add_items : List ResourceOwnership → OwnershipItems → OwnershipItems
unfolding insert
add_items [] items = items
add_items (o ∷ os) items = add_items os (insert (key_of_item o) o items)

abbrev pub ownership_resolver : List ResourceOwnership → OwnershipItems
ownership_resolver os = add_items os []

unfoldable pub resolve : OwnershipItems → ResourceFamily → String → Option ResourceOwnership
unfolding lookup
resolve items f id = lookup {K = ResourceFamily × String} (f, id) items

-- `PublicSecurityError(404, "resource_not_found", …)`, the one error of the boundary.
pub data PublicSecurityError : Type 0 where
  resource_not_found : PublicSecurityError

abbrev pub Answer : Type 0
Answer = Result PublicSecurityError ResourceOwnership

-- `ownership is None or not principal.is_member(ownership.workspace_id)`
abbrev pub checked : Principal → Option ResourceOwnership → Answer
checked p none = err resource_not_found
checked p (some o) = if not (is_member p o.workspace_id) then err resource_not_found else ok o

unfoldable pub require : OwnershipItems → Principal → ResourceFamily → String → Answer
unfolding resolve is_member
require items p f id = checked p (resolve items f id)

module _ (items : OwnershipItems) (p : Principal) (id : String) where
  abbrev pub require_app : Answer
  require_app = require items p app id

  abbrev pub require_version : Answer
  require_version = require items p version id

  abbrev pub require_asset : Answer
  require_asset = require items p asset id

  abbrev pub require_calibration : Answer
  require_calibration = require items p calibration id

  abbrev pub require_build_turn : Answer
  require_build_turn = require items p build_turn id

  abbrev pub require_run : Answer
  require_run = require items p run id

  abbrev pub require_attempt : Answer
  require_attempt = require items p attempt id

  abbrev pub require_event : Answer
  require_event = require items p event id

  abbrev pub require_evidence : Answer
  require_evidence = require items p evidence id

  abbrev pub require_delivery : Answer
  require_delivery = require items p delivery id

  abbrev pub require_reservation : Answer
  require_reservation = require items p reservation id

  abbrev pub require_deletion_job : Answer
  require_deletion_job = require items p deletion_job id

  abbrev pub require_upload : Answer
  require_upload = require items p upload id

  abbrev pub require_action_destination : Answer
  require_action_destination = require items p action_destination id

  -- The method of a family.
  unfoldable pub ask : ResourceFamily → Answer
  unfolding require
  ask app = require_app
  ask version = require_version
  ask asset = require_asset
  ask calibration = require_calibration
  ask build_turn = require_build_turn
  ask run = require_run
  ask attempt = require_attempt
  ask event = require_event
  ask evidence = require_evidence
  ask delivery = require_delivery
  ask reservation = require_reservation
  ask deletion_job = require_deletion_job
  ask upload = require_upload
  ask action_destination = require_action_destination
