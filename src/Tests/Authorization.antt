-- ===== src/Tests/Authorization.antt =====
-- The boundary at small inputs (backend/src/vision_app/security/authorization/boundary.py).
use vision_app_creator.Prelude.{◌≡◌, refl, ◌↔◌, none, List, [], ◌∷◌, string_eq, filter, elem}
use vision_app_creator.Prelude.Results.{ok, err}
use vision_app_creator.Identity.{Principal, is_member}
use vision_app_creator.Authorization.{
  ResourceOwnership, app, run, ownership_resolver, resource_not_found, add_items, ask, require,
  resolve,
}
use vision_app_creator.Authorization.Access.{
  DistinctItems, Lacks, has_key, is_own, MayUse, ask_tells_own, ask_exactly,
}

abbrev alice : Principal
alice = record { user_id = "alice"; email = none; workspace_ids = "w" ∷ [] }

abbrev own_run : ResourceOwnership
own_run = record { family = run; resource_id = "r"; workspace_id = "w" }

abbrev other_app : ResourceOwnership
other_app = record { family = app; resource_id = "r"; workspace_id = "v" }

abbrev stored : List ResourceOwnership
stored = other_app ∷ own_run ∷ []

stored-DistinctItems : DistinctItems stored
unfolding DistinctItems Lacks has_key
stored-DistinctItems = ((refl, tt), (tt, tt))

ask-own_run : ask (ownership_resolver stored) alice "r" run ≡ ok own_run
unfolding ask require resolve add_items is_member elem
ask-own_run = refl

ask_other_app : ask (ownership_resolver stored) alice "r" app ≡ err resource_not_found
unfolding ask require resolve add_items is_member elem
ask_other_app = refl

ask_tells_own_example :
    ask (ownership_resolver stored) alice "r" app
    ≡ ask (ownership_resolver (filter (is_own alice) stored)) alice "r" app
ask_tells_own_example = ask_tells_own stored alice "r" app stored-DistinctItems

ask_exactly_example :
    (ask (ownership_resolver stored) alice "r" run ≡ ok own_run)
    ↔ MayUse alice run "r" own_run stored
ask_exactly_example = ask_exactly stored alice "r" run own_run stored-DistinctItems
