-- ===== src/Persistence/Docs.antt =====
-- The documents of backend/src/vision_app/persistence/memory.py: `_Doc`, `_store`, `_ensure` and
-- `_find_doc`. The store is workspace_id -> collection -> doc_id -> _Doc, in insertion order.
pub mod Laws
use vision_app_creator.Prelude.{
  ℕ, String, Bool, Option, none, some, [], ◌∷◌, string_eq, Dict, lookup, insert, lookup_or,
}
use vision_app_creator.Persistence.Value.{Value}

pub record Doc : Type 0 where
  pub value : Value
  pub revision : ℕ
  pub generation : ℕ
  pub deleted : Bool

abbrev pub Docs : Type 0
Docs = Dict String Doc

abbrev pub Collections : Type 0
Collections = Dict String Docs

abbrev pub Store : Type 0
Store = Dict String Collections

-- `_store.get(workspace_id, {}).get(collection, {})`
unfoldable pub docs : String → String → Store → Docs
docs w c s = lookup_or c [] (lookup_or w [] s)

-- The store in which these are the documents of one collection.
unfoldable pub set_docs : String → String → Docs → Store → Store
set_docs w c ds s = insert w (insert c ds (lookup_or w [] s)) s

-- `_ensure`: the missing levels are created empty
unfoldable pub ensure : String → String → Store → Store
ensure w c s = set_docs w c (docs w c s) s

-- `_ensure(workspace_id, collection)[doc_id] = doc`
unfoldable pub put_doc : String → String → String → Doc → Store → Store
put_doc w c i d s = set_docs w c (insert i d (docs w c s)) s

unfoldable pub get_doc : String → String → String → Store → Option Doc
get_doc w c i s = lookup i (docs w c s)

-- `_find_doc`: the first workspace that has the document
unfoldable pub find_doc : String → String → Store → Option (String × Doc)
find_doc c i [] = none
find_doc c i ((w, cols) ∷ s) = elim (lookup i (lookup_or c [] cols)) [
  | some d ↦ some (w, d)
  | none ↦ find_doc c i s
]
