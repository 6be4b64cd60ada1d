-- ===== src/Persistence/Events.antt =====
-- `review_event`, `list_events` and `list_progress` of `InMemoryRepository`.
use vision_app_creator.Prelude.{
  ℕ, ◌+◌, String, Bool, true, not, ◌||◌, ◌&&◌, Option, none, some, List, [], ◌∷◌, ◌==◌, nat_eq,
  string_eq, ltb, if◌then◌else◌, lookup, values, length, take, filter, sort_by, str_ltb,
  starts_with, Dict,
}
use vision_app_creator.Identity.{Caller, allowed}
use vision_app_creator.Persistence.Value.{
  Value, Shape, Result, ok, err, not_found, attribute_error, index_error, Attr, is, model,
}
use vision_app_creator.Persistence.Docs.{Doc, docs, find_doc}
use vision_app_creator.Persistence.Repository.{Repository, Action, write, ensured}
use vision_app_creator.Persistence.Runs.{progress_prefix}

-- `event.model_copy(update={"human_review": review, "revision": event.revision + 1})`
abbrev reviewed_at : String → Value → Shape → Option ℕ → Option (Value × ℕ)
reviewed_at review v model (some n) =
    some (record v { human_review = is review; revision = some (n + 1) }, n + 1)
reviewed_at review v _ _ = none

unfoldable pub reviewed : String → Value → Option (Value × ℕ)
reviewed review v = reviewed_at review v v.shape v.revision

abbrev review_stored : String → String → Doc → Option (Value × ℕ) → Action (Option Value)
review_stored w event d none r = (err attribute_error, r)
review_stored w event d (some (v, n)) r =
    (ok (some v), write w "events" event (record d { value = v; revision = n }) r)

abbrev review_doc : String → String → ℕ → String → Option Doc → Action (Option Value)
review_doc w event n review none r = (ok none, ensured w "events" r)
review_doc w event n review (some d) r =
    if not (d.revision == n)
    then (ok none, ensured w "events" r)
    else review_stored w event d (reviewed review d.value) r

abbrev review_found : String → ℕ → String → Caller → Option (String × Doc) → Action (Option Value)
review_found event n review caller none r = (ok none, r)
review_found event n review caller (some (w, d)) r =
    if not (allowed caller w)
    then (ok none, r)
    else review_doc w event n review (lookup event (docs w "events" r.store)) r

unfoldable pub review_event : String → String → ℕ → String → Caller → Action (Option Value)
review_event run event n review caller r =
    review_found event n review caller (find_doc "run" run r.store) r

-- (e.source_range.start_ms.root, e.id.root)
abbrev pub EventKey : Type 0
EventKey = ℕ × String

-- Python's order of such pairs
unfoldable pub key_ltb : EventKey → EventKey → Bool
key_ltb (t, i) (u, j) = ltb t u || (t == u && str_ltb i j)

abbrev key_at : Option ℕ → Attr String → Option EventKey
key_at (some t) (is i) = some (t, i)
key_at _ _ = none

abbrev cons_key :
    Option EventKey → Value → Option (List (EventKey × Value)) → Option (List (EventKey × Value))
cons_key (some k) v (some rest) = some ((k, v) ∷ rest)
cons_key _ v _ = none

-- The values of the live documents with their keys: `none` where a value has no such attribute.
unfoldable pub keyed : List Doc → Option (List (EventKey × Value))
keyed [] = some []
keyed (d ∷ ds) =
    let rest = keyed ds in
    if d.deleted then rest else cons_key (key_at d.value.start_ms d.value.id) d.value rest

abbrev pub before_event : EventKey × Value → EventKey × Value → Bool
before_event x y = key_ltb x.0 y.0

-- `items` after the cursor, in order
unfoldable pub after_cursor : Option EventKey → List (EventKey × Value) → List (EventKey × Value)
unfolding key_ltb
after_cursor none xs = xs
after_cursor (some c) xs = filter (λ x. key_ltb c x.0) xs

abbrev last_key : EventKey → List (EventKey × Value) → EventKey
last_key k [] = k
last_key k ((j, v) ∷ xs) = last_key j xs

-- `page[-1]`, an IndexError on an empty page
abbrev cursor_of : List (EventKey × Value) → Result (Option EventKey)
cursor_of [] = err index_error
cursor_of ((k, v) ∷ xs) = ok (some (last_key k xs))

abbrev pub Page : Type 0
Page = List (EventKey × Value) × Option EventKey

-- `page = items[:limit]` and `next_cursor`
unfoldable pub page_of : ℕ → List (EventKey × Value) → Result Page
page_of limit items =
    if ltb limit (length items)
    then elim (cursor_of (take limit items)) [ ok c ↦ ok (take limit items, c) | err e ↦ err e ]
    else ok (take limit items, none)

abbrev sorted_page : Option EventKey → ℕ → Option (List (EventKey × Value)) → Result Page
sorted_page after limit none = err attribute_error
sorted_page after limit (some xs) = page_of limit (after_cursor after (sort_by before_event xs))

abbrev events_found : Option EventKey → ℕ → Option (String × Doc) → Repository → Result Page
events_found after limit none r = err not_found
events_found after limit (some (w, d)) r =
    sorted_page after limit (keyed (values (docs w "events" r.store)))

-- The result; the call also creates the empty collection, see `list_events_after`.
unfoldable pub list_events : String → Option EventKey → ℕ → Repository → Result Page
list_events run after limit r = events_found after limit (find_doc "run" run r.store) r

abbrev read_after : String → Option (String × Doc) → Repository → Repository
read_after c none r = r
read_after c (some (w, d)) r = ensured w c r

unfoldable pub list_events_after : String → Repository → Repository
list_events_after run r = read_after "events" (find_doc "run" run r.store) r

abbrev is_after : Option ℕ → ℕ → Bool
is_after none n = true
is_after (some m) n = ltb m n

abbrev pub before_progress : ℕ × Value → ℕ × Value → Bool
before_progress x y = ltb x.0 y.0

-- One step of the comprehension; its only error is the AttributeError of a value with no sequence.
abbrev progress_item :
    String
    → Option ℕ
    → String
    → Doc
    → Option ℕ
    → Result (List (ℕ × Value))
    → Result (List (ℕ × Value))
progress_item prefix after key d sequence (err e) = err e
progress_item prefix after key d none (ok rest) =
    if not (starts_with key prefix) then ok rest else err attribute_error
progress_item prefix after key d (some n) (ok rest) =
    if starts_with key prefix && is_after after n && not d.deleted
    then ok ((n, d.value) ∷ rest)
    else ok rest

unfoldable pub progress_items : String → Option ℕ → Dict String Doc → Result (List (ℕ × Value))
progress_items prefix after [] = ok []
progress_items prefix after ((key, d) ∷ ds) =
    progress_item prefix after key d d.value.sequence (progress_items prefix after ds)

abbrev progress_found :
    String → String → Option ℕ → ℕ → Option (String × Doc) → Repository → Result (List (ℕ × Value))
progress_found run a after limit none r = err not_found
progress_found run a after limit (some (w, d)) r =
    elim (progress_items (progress_prefix run a) after (docs w "run_progress" r.store)) [
      | ok xs ↦ ok (take limit (sort_by before_progress xs))
      | err e ↦ err e
    ]

unfoldable pub list_progress :
    String → String → Option ℕ → ℕ → Repository → Result (List (ℕ × Value))
unfolding progress_prefix
list_progress run a after limit r = progress_found run a after limit (find_doc "run" run r.store) r

unfoldable pub list_progress_after : String → Repository → Repository
list_progress_after run r = read_after "run_progress" (find_doc "run" run r.store) r
