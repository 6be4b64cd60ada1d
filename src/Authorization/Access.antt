-- ===== src/Authorization/Access.antt =====
-- What the methods of the boundary (backend/src/vision_app/security/authorization/boundary.py)
-- answer, and what their answers tell.
use vision_app_creator.Prelude.{
  String, ◌≡◌, refl, sym, ◌∙◌, ap, ◌↔◌, inl, inr, Bool, true, false, Option, none, some, List, [],
  ◌∷◌, ◌==◌, ◌&&◌, subst, str_eq_iff, arith, string_eq, if◌then◌else◌, pair_eq, insert,
  lookup-insert, filter, IsIn, Bool-cases,
}
use vision_app_creator.Prelude.Results.{ok}
use vision_app_creator.Identity.{Principal, is_member}
use vision_app_creator.Authorization.{
  ResourceFamily, family_eq, family_eqb_iff, ResourceOwnership, key_of_item, OwnershipItems,
  add_items, ownership_resolver, resolve, checked, require, ask,
}

unfoldable pub has_key : ResourceFamily → String → ResourceOwnership → Bool
has_key f id o = o.family == f && o.resource_id == id

-- The last item with a key, or what stood there before.
unfoldable last_owner :
    ResourceFamily
    → String
    → List ResourceOwnership
    → Option ResourceOwnership
    → Option ResourceOwnership
last_owner f id [] found = found
last_owner f id (o ∷ os) found = last_owner f id os (if has_key f id o then some o else found)

resolve-add_items :
    (f : ResourceFamily) (id : String) (os : List ResourceOwnership) (items : OwnershipItems)
    → resolve (add_items os items) f id ≡ last_owner f id os (resolve items f id)
unfolding add_items last_owner resolve has_key
resolve-add_items f id [] items = refl
resolve-add_items f id (o ∷ os) items =
    resolve-add_items f id os (insert (key_of_item o) o items)
    ∙ ap (last_owner f id os)
        (lookup-insert {K = ResourceFamily × String} (key_of_item o) (f, id) o items)

-- `Lacks f id os`: no item has the key; `DistinctItems os`: no two items have the same.
unfoldable pub Lacks : ResourceFamily → String → List ResourceOwnership → Type 0
Lacks f id [] = Unit
Lacks f id (o ∷ os) = (has_key f id o ≡ false) × Lacks f id os

unfoldable pub DistinctItems : List ResourceOwnership → Type 0
unfolding Lacks
DistinctItems [] = Unit
DistinctItems (o ∷ os) = Lacks o.family o.resource_id os × DistinctItems os

last_owner-Lacks :
    (f : ResourceFamily) (id : String) (os : List ResourceOwnership)
    (found : Option ResourceOwnership)
    → Lacks f id os
    → last_owner f id os found ≡ found
unfolding last_owner Lacks
last_owner-Lacks f id [] found h = refl
last_owner-Lacks f id (o ∷ os) found h = ground (arith, last_owner-Lacks f id os found h.1)

abbrev pub is_own : Principal → ResourceOwnership → Bool
is_own p o = is_member p o.workspace_id

filter-Lacks :
    (p : Principal) (f : ResourceFamily) (id : String) (os : List ResourceOwnership)
    → Lacks f id os
    → Lacks f id (filter (is_own p) os)
unfolding Lacks
filter-Lacks p f id [] h = tt
filter-Lacks p f id (o ∷ os) h = ground (arith, filter-Lacks p f id os h.1)

-- The item itself, when its key is the one that is looked for.
Lacks-key :
    (f : ResourceFamily) (id : String) (o : ResourceOwnership) (os : List ResourceOwnership)
    → has_key f id o ≡ true
    → Lacks o.family o.resource_id os
    → Lacks f id os
unfolding has_key
Lacks-key f id o os e h =
    subst (λ g. Lacks g id os) ((family_eqb_iff o.family f).0 (ground (arith, e)))
      (subst (λ i. Lacks o.family i os) ((str_eq_iff o.resource_id id).0 (ground (arith, e))) h)

own_is_enough :
    (p : Principal) (f : ResourceFamily) (id : String) (os : List ResourceOwnership)
    → DistinctItems os
    → checked p (last_owner f id os none) ≡ checked p (last_owner f id (filter (is_own p) os) none)
unfolding last_owner DistinctItems
own_is_enough p f id [] h = refl
own_is_enough p f id (o ∷ os) h =
    let rest = own_is_enough p f id os h.1 in
    elim (Bool-cases (has_key f id o)) [
      | inl e ↦
          let none_left = Lacks-key f id o os e h.0 in
          ground (
            arith,
            last_owner-Lacks f id os (some o) none_left,
            last_owner-Lacks f id (filter (is_own p) os) (some o)
                (filter-Lacks p f id os none_left),
            last_owner-Lacks f id (filter (is_own p) os) none (filter-Lacks p f id os none_left),
          )
      | inr e ↦ ground (arith, rest)
    ]

ask-require :
    (items : OwnershipItems) (p : Principal) (id : String) (f : ResourceFamily)
    → ask items p id f ≡ require items p f id
unfolding ask
ask-require items p id f = ground arith

ask-last_owner :
    (os : List ResourceOwnership) (p : Principal) (id : String) (f : ResourceFamily)
    → ask (ownership_resolver os) p id f ≡ checked p (last_owner f id os none)
unfolding require
ask-last_owner os p id f =
    ask-require (ownership_resolver os) p id f
    ∙ ap (checked p) (resolve-add_items f id os [] ∙ unfold resolve in refl)

-- The answers to a principal tell nothing of other workspaces: when no two items have the same
-- family and id, every method answers as if the items of the workspaces that the principal is no
-- member of were not there.
pub ask_tells_own :
    (os : List ResourceOwnership) (p : Principal) (id : String) (f : ResourceFamily)
    → DistinctItems os
    → ask (ownership_resolver os) p id f ≡ ask (ownership_resolver (filter (is_own p) os)) p id f
ask_tells_own os p id f h =
    ask-last_owner os p id f
    ∙ own_is_enough p f id os h
    ∙ sym (ask-last_owner (filter (is_own p) os) p id f)

-- The items that a principal may use under a family and an id.
abbrev pub MayUse :
    Principal → ResourceFamily → String → ResourceOwnership → List ResourceOwnership → Type 0
MayUse p f id o os =
    IsIn o os × (o.family ≡ f) × (o.resource_id ≡ id) × (is_member p o.workspace_id ≡ true)

Lacks-IsIn :
    (f : ResourceFamily) (id : String) (o : ResourceOwnership) (os : List ResourceOwnership)
    → Lacks f id os
    → IsIn o os
    → has_key f id o ≡ false
unfolding Lacks
Lacks-IsIn f id o [] h m = elim m [ ]
Lacks-IsIn f id o (x ∷ os) h (inl e) = subst (λ y. has_key f id y ≡ false) e h.0
Lacks-IsIn f id o (x ∷ os) h (inr m) = Lacks-IsIn f id o os h.1 m

last_owner-IsIn :
    (f : ResourceFamily) (id : String) (o : ResourceOwnership) (os : List ResourceOwnership)
    → DistinctItems os
    → (last_owner f id os none ≡ some o) ↔ (IsIn o os × (has_key f id o ≡ true))
unfolding last_owner DistinctItems
last_owner-IsIn f id o [] h = ground arith
last_owner-IsIn f id o (x ∷ os) h =
    let rest = last_owner-IsIn f id o os h.1 in
    elim (Bool-cases (has_key f id x)) [
      | inl e ↦
          let none_left = Lacks-key f id x os e h.0 in
          ground
            (arith, last_owner-Lacks f id os (some x) none_left, Lacks-IsIn f id o os none_left)
      | inr e ↦ ground (arith, rest)
    ]

has_key_iff :
    (f : ResourceFamily) (id : String) (o : ResourceOwnership)
    → (has_key f id o ≡ true) ↔ ((o.family ≡ f) × (o.resource_id ≡ id))
unfolding has_key
has_key_iff f id o = ground (arith, family_eqb_iff o.family f, str_eq_iff o.resource_id id)

-- When no two items have the same family and id, the method of a family answers an item exactly
-- when it is one of the items, of that family and under that id, in a workspace that the principal
-- is a member of.
pub ask_exactly :
    (os : List ResourceOwnership) (p : Principal) (id : String) (f : ResourceFamily)
    (o : ResourceOwnership)
    → DistinctItems os
    → (ask (ownership_resolver os) p id f ≡ ok o) ↔ MayUse p f id o os
ask_exactly os p id f o h =
    ground (arith, ask-last_owner os p id f, last_owner-IsIn f id o os h, has_key_iff f id o)
