-- ===== src/Snapshot/Restoring.antt =====
-- What is saved is restored (backend/src/vision_app/persistence/snapshot.py).
use vision_app_creator.Prelude.{
  String, ◌≡◌, subst, refl, sym, ap, ◌∙◌, true, Option, none, some, inl, inr, arith, string_eq,
  elem, Option-cases, Bool-cases,
}
use vision_app_creator.Snapshot.{
  Scalar, text, Json, leaf, array, object, Items, nil, cons, Fields, end, field, Model, Moment,
  RunRecord, Value, scalar, moment, model, run_record, dict, list, tuple, unsupported, Values,
  no_values, value, Entries, no_entries, entry, model_names,
}
use vision_app_creator.Snapshot.Codec.{
  check_json, Tagged, dumped, optional_text, run_fields, tag, encode_model, encode, encode_values,
  encode_entries,
}
use vision_app_creator.Snapshot.Decoding.{
  field_of, has_only, nullable_of, run_of, model_of, list_or_tuple, dict_of, value_values,
  entry_entries, decode, decode_dumped, decode_items, decode_fields,
}
use vision_app_creator.Snapshot.Checks.{
  finite_json, finite_items, finite_fields, finite_field, finite-dumped, encode-check,
}

nullable_of-optional_text : (o : Option String) → nullable_of (some (optional_text o)) ≡ some o
nullable_of-optional_text none = refl
nullable_of-optional_text (some s) = refl

run_of-run_fields : (r : RunRecord) → run_of (run_fields r) ≡ some r
unfolding run_of field_of has_only elem
run_of-run_fields r = ground (
  arith,
  nullable_of-optional_text r.calibration_id,
  nullable_of-optional_text r.selected_attempt_id,
  nullable_of-optional_text r.app_id,
)

module _ (validate : String → Json → Option Model) (from_iso : String → Option Moment) where
  -- The models in a value are what the validation of their dumps answers, and its moments are what
  -- their texts say.
  unfoldable mutual
    pub AreValid : Value → Type 0
    AreValid (scalar x) = Unit
    AreValid (moment m) = from_iso m.iso ≡ some m
    AreValid (model m) = validate m.class_name m.payload ≡ some m
    AreValid (run_record r) = Unit
    AreValid (dict es) = AreValidEntries es
    AreValid (list vs) = AreValidValues vs
    AreValid (tuple vs) = AreValidValues vs
    AreValid (unsupported c) = Unit

    pub AreValidValues : Values → Type 0
    AreValidValues no_values = Unit
    AreValidValues (value v vs) = AreValid v × AreValidValues vs

    pub AreValidEntries : Entries → Type 0
    AreValidEntries no_entries = Unit
    AreValidEntries (entry k v es) = AreValid v × AreValidEntries es

  abbrev back : String → Json → Option Value
  back kind payload = decode validate from_iso kind payload

  decode_dumped-dumped :
      (t : Tagged) → decode_dumped validate from_iso (dumped t) ≡ back t.type t.content
  unfolding decode
  decode_dumped-dumped t = refl

  back_scalar : (x : Scalar) → check_json (leaf x) ≡ true → back "scalar" (leaf x) ≡ some (scalar x)
  unfolding decode elem
  back_scalar x h = ground (arith, h)

  back_moment :
      (m : Moment)
      → from_iso m.iso ≡ some m
      → m.is_aware ≡ true
      → back "datetime" (leaf (text m.iso)) ≡ some (moment m)
  unfolding decode elem check_json
  back_moment m h a = ground (arith, h, a)

  back_named :
      (kind : String) (payload : Json)
      → elem kind model_names ≡ true
      → check_json payload ≡ true
      → back kind payload ≡ model_of validate from_iso kind payload
  unfolding decode
  back_named kind (leaf x) h c = ground (arith, h, c)
  back_named kind (array xs) h c = ground (arith, h, c)
  back_named kind (object fs) h c = ground (arith, h, c)

  back_model :
      (m : Model)
      → elem m.class_name model_names ≡ true
      → check_json m.payload ≡ true
      → validate m.class_name m.payload ≡ some m
      → back m.class_name m.payload ≡ some (model m)
  back_model m h c v = back_named m.class_name m.payload h c ∙ ground (arith, v)

  back_run :
      (r : RunRecord)
      → check_json (object (run_fields r)) ≡ true
      → back "RunRecord" (object (run_fields r)) ≡ some (run_record r)
  unfolding decode elem
  back_run r h = ground (arith, h, run_of-run_fields r)

  back_dict :
      (fs : Fields)
      → check_json (object fs) ≡ true
      → back "dict" (object fs)
        ≡ dict_of validate from_iso "dict" (decode_fields validate from_iso fs)
  unfolding decode elem
  back_dict fs h = ground (arith, h)

  back_list :
      (xs : Items)
      → check_json (array xs) ≡ true
      → back "list" (array xs)
        ≡ list_or_tuple validate from_iso "list" (decode_items validate from_iso xs)
  unfolding decode elem
  back_list xs h = ground (arith, h)

  back_tuple :
      (xs : Items)
      → check_json (array xs) ≡ true
      → back "tuple" (array xs)
        ≡ list_or_tuple validate from_iso "tuple" (decode_items validate from_iso xs)
  unfolding decode elem
  back_tuple xs h = ground (arith, h)

  model_encoded :
      (m : Model) (t : Tagged)
      → encode_model m ≡ some t
      → (elem m.class_name model_names ≡ true)
        × (check_json m.payload ≡ true)
        × (tag m.class_name m.payload ≡ t)
  unfolding encode_model
  model_encoded m t h = ground (arith, h)

  next_item :
      (t : Tagged) (xs : Items)
      → decode_items validate from_iso (cons (dumped t) xs)
        ≡ value_values validate from_iso (back t.type t.content) (decode_items validate from_iso xs)
  unfolding decode
  next_item t xs = refl

  next_entry :
      (k : String) (t : Tagged) (fs : Fields)
      → decode_fields validate from_iso (field k (dumped t) fs)
        ≡ entry_entries validate from_iso k
            (back t.type t.content)
            (decode_fields validate from_iso fs)
  unfolding decode
  next_entry k t fs = refl

  no_items : decode_items validate from_iso nil ≡ some no_values
  unfolding decode
  no_items = refl

  no_fields : decode_fields validate from_iso end ≡ some no_entries
  unfolding decode
  no_fields = refl

  finite_item :
      (t : Tagged) (xs : Items)
      → finite_items (cons (dumped t) xs) ≡ true
      → (finite_json t.content ≡ true) × (finite_items xs ≡ true)
  unfolding finite_json
  finite_item t xs h = ground (arith, h, finite-dumped t)

  -- A value comes back from the tag that it is encoded as.
  abbrev ComesBack : Value → Tagged → Type 0
  ComesBack v t = back t.type t.content ≡ some v

  checked :
      (v : Value) (t u : Tagged)
      → encode v ≡ some t
      → finite_json t.content ≡ true
      → u ≡ t
      → check_json u.content ≡ true
  checked v t u h f same =
      subst (λ x. check_json x.content ≡ true) (sym same) (encode-check v t h f)

  finite_as : (t u : Tagged) → finite_json t.content ≡ true → u ≡ t → finite_json u.content ≡ true
  finite_as t u f same = subst (λ x. finite_json x.content ≡ true) (sym same) f

  mutual
    unfolding encode finite_json AreValid

    decode-encode :
        (v : Value) (t : Tagged)
        → encode v ≡ some t
        → finite_json t.content ≡ true
        → AreValid v
        → ComesBack v t
    decode-encode (scalar x) t h f a =
        let u = tag "scalar" (leaf x) in
        let same : u ≡ t = ground (arith, h) in
        subst (ComesBack (scalar x)) same (back_scalar x (checked (scalar x) t u h f same))
    decode-encode (moment m) t h f a = elim (Bool-cases m.is_aware) [
      | inl e ↦
          let same : tag "datetime" (leaf (text m.iso)) ≡ t = ground (arith, h, e) in
          subst (ComesBack (moment m)) same (back_moment m a e)
      | inr e ↦ let absurd : ⊥ = ground (arith, h, e) in elim absurd [ ]
    ]
    decode-encode (model m) t h f a =
        let (known, clean, same) = model_encoded m t h in
        subst (ComesBack (model m)) same (back_model m known clean a)
    decode-encode (run_record r) t h f a =
        let u = tag "RunRecord" (object (run_fields r)) in
        let same : u ≡ t = ground (arith, h) in
        subst (ComesBack (run_record r)) same (back_run r (checked (run_record r) t u h f same))
    decode-encode (dict es) t h f a = elim (Option-cases (encode_entries es)) [
      | inl e ↦ let absurd : ⊥ = ground (arith, h, e) in elim absurd [ ]
      | inr (fs, e) ↦
          let u = tag "dict" (object fs) in
          let same : u ≡ t = ground (arith, h, e) in
          subst (ComesBack (dict es)) same (
            back_dict fs (checked (dict es) t u h f same)
            ∙ ap (dict_of validate from_iso "dict")
                (decode-encode_entries es fs e (finite_as t u f same) a))
    ]
    decode-encode (list vs) t h f a = elim (Option-cases (encode_values vs)) [
      | inl e ↦ let absurd : ⊥ = ground (arith, h, e) in elim absurd [ ]
      | inr (xs, e) ↦
          let u = tag "list" (array xs) in
          let same : u ≡ t = ground (arith, h, e) in
          subst (ComesBack (list vs)) same (
            back_list xs (checked (list vs) t u h f same)
            ∙ ap (list_or_tuple validate from_iso "list")
                (decode-encode_values vs xs e (finite_as t u f same) a))
    ]
    decode-encode (tuple vs) t h f a = elim (Option-cases (encode_values vs)) [
      | inl e ↦ let absurd : ⊥ = ground (arith, h, e) in elim absurd [ ]
      | inr (xs, e) ↦
          let u = tag "tuple" (array xs) in
          let same : u ≡ t = ground (arith, h, e) in
          subst (ComesBack (tuple vs)) same (
            back_tuple xs (checked (tuple vs) t u h f same)
            ∙ ap (list_or_tuple validate from_iso "tuple")
                (decode-encode_values vs xs e (finite_as t u f same) a))
    ]
    decode-encode (unsupported c) t h f a = let absurd : ⊥ = ground (arith, h) in elim absurd [ ]

    decode-encode_values :
        (vs : Values) (xs : Items)
        → encode_values vs ≡ some xs
        → finite_items xs ≡ true
        → AreValidValues vs
        → decode_items validate from_iso xs ≡ some vs
    decode-encode_values no_values xs h f a =
        let same : nil ≡ xs = ground (arith, h) in
        subst (λ ys. decode_items validate from_iso ys ≡ some no_values) same no_items
    decode-encode_values (value v vs) xs h f a = elim (Option-cases (encode v)) [
      | inl e ↦ let absurd : ⊥ = ground (arith, h, e) in elim absurd [ ]
      | inr (t, e) ↦ elim (Option-cases (encode_values vs)) [
        | inl e' ↦ let absurd : ⊥ = ground (arith, h, e, e') in elim absurd [ ]
        | inr (ys, e') ↦
            let same : cons (dumped t) ys ≡ xs = ground (arith, h, e, e') in
            let (ft, fy) = finite_item t ys (subst (λ zs. finite_items zs ≡ true) (sym same) f) in
            subst (λ zs. decode_items validate from_iso zs ≡ some (value v vs)) same
              (next_item t ys
                ∙ ap (λ o. value_values validate from_iso o (decode_items validate from_iso ys))
                    (decode-encode v t e ft a.0)
                ∙ ap (λ o. value_values validate from_iso (some v) o)
                    (decode-encode_values vs ys e' fy a.1))
      ]
    ]

    decode-encode_entries :
        (es : Entries) (fs : Fields)
        → encode_entries es ≡ some fs
        → finite_fields fs ≡ true
        → AreValidEntries es
        → decode_fields validate from_iso fs ≡ some es
    decode-encode_entries no_entries fs h f a =
        let same : end ≡ fs = ground (arith, h) in
        subst (λ gs. decode_fields validate from_iso gs ≡ some no_entries) same no_fields
    decode-encode_entries (entry none v es) fs h f a =
        let absurd : ⊥ = ground (arith, h) in elim absurd [ ]
    decode-encode_entries (entry (some k) v es) fs h f a = elim (Option-cases (encode v)) [
      | inl e ↦ let absurd : ⊥ = ground (arith, h, e) in elim absurd [ ]
      | inr (t, e) ↦ elim (Option-cases (encode_entries es)) [
        | inl e' ↦ let absurd : ⊥ = ground (arith, h, e, e') in elim absurd [ ]
        | inr (gs, e') ↦
            let same : field k (dumped t) gs ≡ fs = ground (arith, h, e, e') in
            let (ft, fg) = finite_field k t gs (subst (λ x. finite_fields x ≡ true) (sym same) f) in
            subst (λ x. decode_fields validate from_iso x ≡ some (entry (some k) v es)) same
              (next_entry k t gs
                ∙ ap (λ o. entry_entries validate from_iso k o (decode_fields validate from_iso gs))
                    (decode-encode v t e ft a.0)
                ∙ ap (λ o. entry_entries validate from_iso k (some v) o)
                    (decode-encode_entries es gs e' fg a.1))
      ]
    ]

  -- What is saved is restored: when a value is encoded and `json.dumps` takes the result, each model
  -- in it is what `model_validate` answers to its dump, and each moment is what its text says, then
  -- what is decoded is the value: its dicts, lists and tuples, its run records and scalars, and
  -- these models and moments.
  pub restores_what_is_saved :
      (v : Value) (t : Tagged)
      → encode v ≡ some t
      → finite_json t.content ≡ true
      → AreValid v
      → decode validate from_iso t.type t.content ≡ some v
  restores_what_is_saved v t h f a = decode-encode v t h f a
