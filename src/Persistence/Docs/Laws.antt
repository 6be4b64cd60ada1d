-- ===== src/Persistence/Docs/Laws.antt =====
-- How the reads of the store see its writes.
use vision_app_creator.Prelude.{
  String, ◌≡◌, ◌≢◌, false, ◌&&◌, none, some, [], ◌∷◌, arith, ◌==◌, string_eq, str_eq_iff, ==_refl,
  if◌then◌else◌, lookup, insert, lookup_or, dict_laws, inl, inr, Bool-cases, contains, Distinct,
  insert-Distinct,
}
use vision_app_creator.Persistence.Docs.{
  Doc, Docs, Collections, Store, docs, set_docs, ensure, put_doc, get_doc, find_doc,
}

pub docs-set_docs :
    (w c w' c' : String) (ds : Docs) (s : Store)
    → docs w' c' (set_docs w c ds s) ≡ (if w == w' && c == c' then ds else docs w' c' s)
unfolding docs set_docs
docs-set_docs w c w' c' ds s = elim (Bool-cases (w == w')) [
  | inl e ↦ simp (dict_laws, e) (cc ((str_eq_iff w w').0 e))
  | inr e ↦ simp (dict_laws, e)
]

-- A read of one document after a write of another, or of the same.
pub get_doc-put_doc :
    (w c i w' c' i' : String) (d : Doc) (s : Store)
    → get_doc w' c' i' (put_doc w c i d s)
      ≡ (if w == w' && c == c' && i == i' then some d else get_doc w' c' i' s)
unfolding get_doc put_doc
get_doc-put_doc w c i w' c' i' d s = elim (Bool-cases (w == w' && c == c')) [
  | inl e ↦
      rw docs-set_docs (simp (dict_laws, e) (ground (arith, str_eq_iff w w', str_eq_iff c c')))
  | inr e ↦ rw docs-set_docs (simp (dict_laws, e))
]

pub get_doc-ensure :
    (w c w' c' i' : String) (s : Store) → get_doc w' c' i' (ensure w c s) ≡ get_doc w' c' i' s
unfolding get_doc ensure
get_doc-ensure w c w' c' i' s = rw docs-set_docs (ground (arith, str_eq_iff w w', str_eq_iff c c'))

-- `_find_doc` after a write to one workspace `w`, by what the write does to the document.
module _ (c i w : String) (cols : Collections) where
  find_doc-insert_same :
      (s : Store)
      → lookup i (lookup_or c [] cols) ≡ lookup i (lookup_or c [] (lookup_or w [] s))
      → find_doc c i (insert w cols s) ≡ find_doc c i s
  unfolding find_doc insert lookup_or
  find_doc-insert_same [] h = ground arith
  find_doc-insert_same ((v, vs) ∷ s) h = ground (arith, str_eq_iff v w, find_doc-insert_same s)

  module _ (d : Doc) (there : lookup i (lookup_or c [] cols) ≡ some d) where
    find_doc-insert_new :
        (s : Store) → find_doc c i s ≡ none → find_doc c i (insert w cols s) ≡ some (w, d)
    unfolding find_doc insert
    find_doc-insert_new [] h = ground arith
    find_doc-insert_new ((v, vs) ∷ s) h = ground (arith, str_eq_iff v w, find_doc-insert_new s)

    find_doc-insert_found :
        (s : Store) (old : Doc)
        → find_doc c i s ≡ some (w, old)
        → find_doc c i (insert w cols s) ≡ some (w, d)
    unfolding find_doc insert
    find_doc-insert_found [] old h = cc
    find_doc-insert_found ((v, vs) ∷ s) old h =
        ground (arith, str_eq_iff v w, find_doc-insert_found s old)

pub find_doc-put_doc_found :
    (w c i : String) (d : Doc) (s : Store) {old : Doc}
    → find_doc c i s ≡ some (w, old)
    → find_doc c i (put_doc w c i d s) ≡ some (w, d)
unfolding put_doc set_docs
find_doc-put_doc_found w c i d s {old} h =
    find_doc-insert_found c i w _ d (simp (dict_laws, ==_refl)) s old h

pub find_doc-put_doc_new :
    (w c i : String) (d : Doc) (s : Store)
    → find_doc c i s ≡ none
    → find_doc c i (put_doc w c i d s) ≡ some (w, d)
unfolding put_doc set_docs
find_doc-put_doc_new w c i d s h = find_doc-insert_new c i w _ d (simp (dict_laws, ==_refl)) s h

-- A write of another document moves nothing.
pub find_doc-put_doc_other :
    (w c i c' i' : String) (d : Doc) (s : Store)
    → (c == c' && i == i') ≡ false
    → find_doc c' i' (put_doc w c i d s) ≡ find_doc c' i' s
unfolding put_doc set_docs docs
find_doc-put_doc_other w c i c' i' d s h =
    find_doc-insert_same c' i' w _ s (elim (Bool-cases (c == c')) [
      | inl e ↦ simp (dict_laws, e, rw e at h) (cc ((str_eq_iff c c').0 e))
      | inr e ↦ simp (dict_laws, e)
    ])

pub find_doc-ensure :
    (w c c' i' : String) (s : Store) → find_doc c' i' (ensure w c s) ≡ find_doc c' i' s
unfolding ensure set_docs docs
find_doc-ensure w c c' i' s = find_doc-insert_same c' i' w _ s (elim (Bool-cases (c == c')) [
  | inl e ↦ simp (dict_laws, e) (cc ((str_eq_iff c c').0 e))
  | inr e ↦ simp (dict_laws, e)
])

-- A write keeps the workspaces distinct.
pub put_doc-Distinct :
    (w c i : String) (d : Doc) (s : Store) → Distinct s → Distinct (put_doc w c i d s)
unfolding put_doc set_docs
put_doc-Distinct w c i d s h = insert-Distinct w _ s h

pub ensure-Distinct : (w c : String) (s : Store) → Distinct s → Distinct (ensure w c s)
unfolding ensure set_docs
ensure-Distinct w c s h = insert-Distinct w _ s h

found_workspace :
    (c i : String) (s : Store) (w : String) (d : Doc)
    → find_doc c i s ≡ some (w, d)
    → lookup w s ≢ none
unfolding find_doc lookup
found_workspace c i [] w d h = ground arith
found_workspace c i ((v, vs) ∷ s) w d h =
    ground (arith, str_eq_iff v w, str_eq_iff v v, found_workspace c i s w d)

workspace-cons :
    (w v : String) (vs : Collections) (s : Store)
    → lookup_or w [] ((v, vs) ∷ s) ≡ (if v == w then vs else lookup_or w [] s)
unfolding lookup_or
workspace-cons w v vs s = ground arith

get_doc-cons :
    (w c i v : String) (vs : Collections) (s : Store)
    → get_doc w c i ((v, vs) ∷ s)
      ≡ (if v == w then lookup i (lookup_or c [] vs) else get_doc w c i s)
unfolding get_doc docs
get_doc-cons w c i v vs s =
    rw workspace-cons (elim (Bool-cases (v == w)) [ inl e ↦ rw e | inr e ↦ rw e ])

-- What `_find_doc` finds is the document at that place.
pub get_doc_of_find_doc :
    (c i : String) (s : Store) (w : String) (d : Doc)
    → Distinct s
    → find_doc c i s ≡ some (w, d)
    → get_doc w c i s ≡ some d
unfolding find_doc
get_doc_of_find_doc c i [] w d u h = ground arith
get_doc_of_find_doc c i ((v, vs) ∷ s) w d u h = ground (
  arith,
  str_eq_iff v w,
  str_eq_iff v v,
  get_doc-cons w c i v vs s,
  found_workspace c i s w d,
  get_doc_of_find_doc c i s w d u.1,
)

pub free_place :
    (w c i : String) (s : Store) → contains i (docs w c s) ≡ false → get_doc w c i s ≡ none
unfolding get_doc contains
free_place w c i s h = ground arith
