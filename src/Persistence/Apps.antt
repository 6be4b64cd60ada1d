-- ===== src/Persistence/Apps.antt =====
-- `create_version` and `publish_version` of `InMemoryRepository`.
use vision_app_creator.Prelude.{
  ℕ, ◌+◌, String, Bool, true, false, not, ◌||◌, Option, none, some, ◌==◌, nat_eq, string_eq,
  if◌then◌else◌, lookup, contains,
}
use vision_app_creator.Identity.{Caller, allowed}
use vision_app_creator.Persistence.Value.{
  Value, Result, ok, err, value_error, id_of, Field, draft_version, published_version, with_field,
  with_revision,
}
use vision_app_creator.Persistence.Docs.{Doc, docs, find_doc}
use vision_app_creator.Persistence.Repository.{Repository, Action, write, ensured, fresh}

-- `app_doc.value` with one field set, and the next revision
unfoldable pub advance_app : Field → String → ℕ → Value → Result Value
advance_app f i n v = elim (with_field f i v) [ ok u ↦ with_revision n u | err e ↦ err e ]

-- The two assignments to `app_doc`, if the copies were made.
abbrev store_app : String → String → Doc → ℕ → Result Value → Action Value
store_app w app d n (err e) r = (err e, r)
store_app w app d n (ok v) r = (ok v, write w "apps" app (record d { value = v; revision = n }) r)

-- The part of `create_version` after the checks of the app document.
abbrev add_version :
    String
    → String
    → Doc
    → ℕ
    → Value
    → Option String
    → Repository
    → Result (Bool × Option Value) × Repository
add_version w app d n version none r = (err value_error, r)
add_version w app d n version (some i) r =
    if contains i (docs w "versions" r.store)
    then (ok (false, none), ensured w "versions" r)
    else let (res, r') =
        store_app w app d (n + 1) (advance_app draft_version i (n + 1) d.value)
          (write w "versions" i (fresh version) r) in
      (elim res [ ok v ↦ ok (true, some v) | err e ↦ err e ], r')

abbrev create_found :
    String
    → ℕ
    → Value
    → Caller
    → Option (String × Doc)
    → Repository
    → Result (Bool × Option Value) × Repository
create_found app n version caller none r = (ok (false, none), r)
create_found app n version caller (some (w, d)) r =
    if not (allowed caller w)
    then (ok (false, none), r)
    else if not (d.revision == n) || d.deleted
    then (ok (false, none), r)
    else add_version w app d n version (id_of version) r

unfoldable pub create_version :
    String → ℕ → Value → Caller → Repository → Result (Bool × Option Value) × Repository
create_version app n version caller r =
    create_found app n version caller (find_doc "apps" app r.store) r

abbrev missing : Option Doc → Bool
missing none = true
missing (some d) = d.deleted

abbrev publish_found : String → String → ℕ → Caller → Option (String × Doc) → Action Bool
publish_found app version n caller none r = (ok false, r)
publish_found app version n caller (some (w, d)) r =
    if not (allowed caller w)
    then (ok false, r)
    else if not (d.revision == n) || d.deleted
    then (ok false, r)
    else if missing (lookup version (docs w "versions" r.store))
    then (ok false, ensured w "versions" r)
    else let (res, r') =
        store_app w app d (n + 1) (advance_app published_version version (n + 1) d.value)
          (ensured w "versions" r) in
      (elim res [ ok v ↦ ok true | err e ↦ err e ], r')

unfoldable pub publish_version : String → String → ℕ → Caller → Action Bool
publish_version app version n caller r =
    publish_found app version n caller (find_doc "apps" app r.store) r
