-- ===== src/Snapshot/Checks.antt =====
-- What `_encode` of backend/src/vision_app/persistence/snapshot.py lets through, `_check_fields` lets
-- through again when it is restored.
use vision_app_creator.Prelude.{
  String, ◌≡◌, subst, refl, sym, Bool, true, false, not, Option, none, some, ◌&&◌, inl, inr, arith,
  string_eq, elem, Option-cases,
}
use vision_app_creator.Snapshot.{
  Json, leaf, array, object, Items, nil, cons, Fields, end, field, RunRecord, Value, scalar, moment,
  model, run_record, dict, list, tuple, unsupported, Values, no_values, value, Entries, no_entries,
  entry, is_secret, replace_dashes, is_finite,
}
use vision_app_creator.Validation.Prompts.{lower}
use vision_app_creator.Snapshot.Codec.{
  check_json, check_items, check_fields, is_open_key, check_value, check_entries, check_value,
  Tagged, dumped, optional_text, run_fields, encode_model, encode, encode_values, encode_entries,
}

-- `json.dumps(…, allow_nan=False)` takes the tree: its floats are finite.
unfoldable mutual
  pub finite_json : Json → Bool
  finite_json (leaf x) = is_finite x
  finite_json (array xs) = finite_items xs
  finite_json (object fs) = finite_fields fs

  pub finite_items : Items → Bool
  finite_items nil = true
  finite_items (cons x xs) = finite_json x && finite_items xs

  pub finite_fields : Fields → Bool
  finite_fields end = true
  finite_fields (field k x fs) = finite_json x && finite_fields fs

type_is_open : is_secret "type" ≡ false
unfolding is_secret elem lower replace_dashes
type_is_open = refl

value_is_open : is_secret "value" ≡ false
unfolding is_secret elem lower replace_dashes
value_is_open = refl

check-dumped : (t : Tagged) → check_json (dumped t) ≡ check_json t.content
unfolding check_json
check-dumped t = ground (arith, type_is_open, value_is_open)

pub finite-dumped : (t : Tagged) → finite_json (dumped t) ≡ finite_json t.content
unfolding finite_json
finite-dumped t = ground arith

check-optional_text : (o : Option String) → check_json (optional_text o) ≡ true
unfolding check_json
check-optional_text none = refl
check-optional_text (some s) = refl

pub check-run_fields : (r : RunRecord) → check_json (object (run_fields r)) ≡ true
unfolding check_json is_secret elem lower replace_dashes
check-run_fields r = ground (
  arith,
  check-optional_text r.calibration_id,
  check-optional_text r.selected_attempt_id,
  check-optional_text r.app_id,
)

next_field :
    (k : String) (t : Tagged) (fs : Fields)
    → is_secret k ≡ false
    → check_json t.content ≡ true
    → check_fields fs ≡ true
    → check_fields (field k (dumped t) fs) ≡ true
unfolding check_json
next_field k t fs h c d = ground (arith, h, c, d, check-dumped t)

pub finite_field :
    (k : String) (t : Tagged) (fs : Fields)
    → finite_fields (field k (dumped t) fs) ≡ true
    → (finite_json t.content ≡ true) × (finite_fields fs ≡ true)
unfolding finite_json
finite_field k t fs h = ground (arith, h)

pub both_true : (a b : Bool) → (a && b) ≡ true → (a ≡ true) × (b ≡ true)
both_true true b h = (refl, h)
both_true false b h = ground (arith, h)

not-true : (b : Bool) → not b ≡ true → b ≡ false
not-true true h = ground (arith, h)
not-true false h = refl

is_open_key-some : (k : String) → is_open_key (some k) ≡ true → is_secret k ≡ false
unfolding is_open_key
is_open_key-some k h = not-true (is_secret k) h

pub checked_entry :
    (k : String) (v : Value) (es : Entries)
    → check_entries (entry (some k) v es) ≡ true
    → (is_secret k ≡ false) × (check_entries es ≡ true)
unfolding check_entries
checked_entry k v es h =
    let (first, more) = both_true (is_open_key (some k) && check_value v) (check_entries es) h in
    let (free, rest) = both_true (is_open_key (some k)) (check_value v) first in
    (is_open_key-some k free, more)

mutual
  unfolding encode check_json finite_json encode_model check_entries is_open_key

  pub encode-check :
      (v : Value) (t : Tagged)
      → encode v ≡ some t
      → finite_json t.content ≡ true
      → check_json t.content ≡ true
  encode-check (scalar x) t h f = ground (arith, h, f)
  encode-check (moment m) t h f = ground (arith, h, f)
  encode-check (model m) t h f = ground (arith, h, f)
  encode-check (run_record r) t h f = ground (arith, h, f, check-run_fields r)
  encode-check (dict es) t h f = elim (Option-cases (encode_entries es)) [
    | inl e ↦ ground (arith, h, e)
    | inr (fs, e) ↦ ground (arith, h, e, f, entries-check es fs e)
  ]
  encode-check (list vs) t h f = elim (Option-cases (encode_values vs)) [
    | inl e ↦ ground (arith, h, e)
    | inr (xs, e) ↦ ground (arith, h, e, f, values-check vs xs e)
  ]
  encode-check (tuple vs) t h f = elim (Option-cases (encode_values vs)) [
    | inl e ↦ ground (arith, h, e)
    | inr (xs, e) ↦ ground (arith, h, e, f, values-check vs xs e)
  ]
  encode-check (unsupported c) t h f = ground (arith, h)

  pub values-check :
      (vs : Values) (xs : Items)
      → encode_values vs ≡ some xs
      → finite_items xs ≡ true
      → check_items xs ≡ true
  values-check no_values xs h f = ground (arith, h)
  values-check (value v vs) xs h f = elim (Option-cases (encode v)) [
    | inl e ↦ ground (arith, h, e)
    | inr (t, e) ↦ elim (Option-cases (encode_values vs)) [
      | inl e' ↦ ground (arith, h, e, e')
      | inr (ys, e') ↦ ground (
        arith,
        h,
        e,
        e',
        f,
        check-dumped t,
        finite-dumped t,
        encode-check v t e,
        values-check vs ys e',
      )
    ]
  ]

  pub entries-check :
      (es : Entries) (fs : Fields)
      → encode_entries es ≡ some fs
      → check_entries es ≡ true
      → finite_fields fs ≡ true
      → check_fields fs ≡ true
  entries-check no_entries fs h c f = ground (arith, h)
  entries-check (entry none v es) fs h c f = ground (arith, h)
  entries-check (entry (some k) v es) fs h c f = elim (Option-cases (encode v)) [
    | inl e ↦ ground (arith, h, e)
    | inr (t, e) ↦ elim (Option-cases (encode_entries es)) [
      | inl e' ↦ ground (arith, h, e, e')
      | inr (gs, e') ↦
          let same : field k (dumped t) gs ≡ fs = ground (arith, h, e, e') in
          let (free, rest) = checked_entry k v es c in
          let (ft, fg) = finite_field k t gs (subst (λ x. finite_fields x ≡ true) (sym same) f) in
          subst (λ x. check_fields x ≡ true) same
            (next_field k t gs free (encode-check v t e ft) (entries-check es gs e' rest fg))
    ]
  ]
