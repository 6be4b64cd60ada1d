-- ===== src/Identity.antt =====
-- backend/src/vision_app/security/identity/models.py, and the callers that
-- backend/src/vision_app/persistence/memory.py turns into principals.
use vision_app_creator.Prelude.{
  String, Bool, false, Option, none, some, List, [], ◌∷◌, string_eq, elem,
}

pub record Principal : Type 0 where
  pub user_id : String
  pub email : Option String
  pub workspace_ids : List String

unfoldable pub is_member : Principal → String → Bool
unfolding elem
is_member p w = elem w p.workspace_ids

-- What a repository method is given as its `principal`.
pub data Caller : Type 0 where
  principal : Principal → Caller
  workspace : String → Caller
  unknown : Caller

-- `_coerce_principal`
unfoldable pub coerce : Caller → Option Principal
coerce (principal p) = some p
coerce (workspace w) = some (record { user_id = w; email = none; workspace_ids = w ∷ [] })
coerce unknown = none

-- `principal is not None and principal.is_member(workspace_id)`
unfoldable pub allowed : Caller → String → Bool
unfolding coerce
allowed c w = elim (coerce c) [ none ↦ false | some p ↦ is_member p w ]
