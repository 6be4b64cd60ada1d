-- ===== src/Persistence/Documents.antt =====
-- The base contract and the generic ownership helpers of `InMemoryRepository`.
use vision_app_creator.Prelude.{
  ℕ, ◌+◌, String, Bool, true, false, not, ◌||◌, Option, none, some, List, [], ◌∷◌, ◌++◌, ◌==◌,
  nat_eq, string_eq, if◌then◌else◌, contains, values,
}
use vision_app_creator.Identity.{Principal, Caller, coerce, is_member}
use vision_app_creator.Persistence.Value.{Value, ok, err, value_error, conflict, workspace}
use vision_app_creator.Persistence.Docs.{Doc, docs, find_doc}
use vision_app_creator.Persistence.Repository.{Repository, Action, write, ensured}

abbrev option_or {ℓ} : {A : Type ℓ} → A → Option A → A
option_or a none = a
option_or a (some b) = b

-- `_Doc(value=…, revision=value.revision or 0, generation=value.generation or 1)`
abbrev pub doc_of : Value → Doc
doc_of v = record {
  value = v;
  revision = option_or 0 v.revision;
  generation = option_or 1 v.generation;
  deleted = false;
}

abbrev live_owner : Option (String × Doc) → Option String
live_owner none = none
live_owner (some (w, d)) = if d.deleted then none else some w

unfoldable pub resolve_workspace : String → String → Repository → Option String
resolve_workspace kind i r = live_owner (find_doc kind i r.store)

abbrev owned : Option Principal → Option (String × Doc) → Option Value
owned p none = none
owned none (some found) = none
owned (some p) (some (w, d)) = if not (is_member p w) || d.deleted then none else some d.value

unfoldable pub get_owned : String → String → Caller → Repository → Option Value
get_owned kind i caller r = owned (coerce caller) (find_doc kind i r.store)

-- A document that is not there is created in the workspace of the value.
abbrev create_in : String → String → Value → Option String → Action Bool
create_in kind i v none r = (err value_error, r)
create_in kind i v (some w) r =
    if contains i (docs w kind r.store)
    then (ok false, ensured w kind r)
    else (ok true, write w kind i (doc_of v) r)

abbrev swap_found : String → String → ℕ → Value → Option (String × Doc) → Action Bool
swap_found kind i n v none r =
    if not (n == 0) then (ok false, r) else create_in kind i v (workspace v) r
swap_found kind i n v (some (w, d)) r =
    if not (d.revision == n) || d.deleted
    then (ok false, r)
    else if kind == "versions"
    then (err conflict, r)
    else (ok true, write w kind i (record d { value = v; revision = n + 1 }) r)

unfoldable pub compare_and_swap : String → String → ℕ → Value → Action Bool
compare_and_swap kind i n v r = swap_found kind i n v (find_doc kind i r.store) r

abbrev delete_found : String → String → Principal → Option (String × Doc) → Action Bool
delete_found kind i p none r = (ok false, r)
delete_found kind i p (some (w, d)) r =
    if not (is_member p w) || d.deleted then (ok false, r) else (
      ok true,
      write w kind i
          (record d { deleted = true; revision = d.revision + 1; generation = d.generation + 1 }) r,
    )

unfoldable pub delete_owned : String → String → Principal → Action Bool
delete_owned kind i p r = delete_found kind i p (find_doc kind i r.store) r

abbrev live_values : List Doc → List Value
live_values [] = []
live_values (d ∷ ds) = let rest = live_values ds in if d.deleted then rest else d.value ∷ rest

-- The loop of `list_owned`, which creates the collections that it reads.
unfoldable pub list_workspaces : String → List String → Repository → List Value × Repository
list_workspaces kind [] r = ([], r)
list_workspaces kind (w ∷ ws) r =
    let (rest, r') = list_workspaces kind ws (ensured w kind r) in
    (live_values (values (docs w kind r.store)) ++ rest, r')

abbrev list_for : String → Option Principal → Repository → List Value × Repository
list_for kind none r = ([], r)
list_for kind (some p) r = list_workspaces kind p.workspace_ids r

unfoldable pub list_owned : String → Caller → Repository → List Value × Repository
unfolding coerce
list_owned kind caller r = list_for kind (coerce caller) r

unfoldable pub add_immutable : String → String → Value → Action Bool
add_immutable kind i v r = create_in kind i v (workspace v) r
