-- ===== src/Snapshot/Decoding.antt =====
-- `_decode` of backend/src/vision_app/persistence/snapshot.py, with the validation of a model and the
-- parse of an ISO text as arguments.
use vision_app_creator.Prelude.{
  String, Bool, true, false, not, Option, none, some, List, [], ◌∷◌, ◌==◌, ◌&&◌, string_eq, elem,
  if◌then◌else◌,
}
use vision_app_creator.Snapshot.{
  null, text, integer, real, boolean, Json, leaf, array, object, Items, nil, cons, Fields, end,
  field, Model, Moment, RunRecord, Value, scalar, moment, model, run_record, dict, list, tuple,
  Values, no_values, value, Entries, no_entries, entry, model_names,
}
use vision_app_creator.Snapshot.Codec.{check_json}

unfoldable pub field_of : String → Fields → Option Json
field_of k end = none
field_of k (field j x fs) = if j == k then some x else field_of k fs

abbrev pub text_of : Option Json → Option String
text_of (some (leaf (text s))) = some s
text_of (some (leaf null)) = none
text_of (some (leaf (integer n))) = none
text_of (some (leaf (real f b))) = none
text_of (some (leaf (boolean b))) = none
text_of (some (array xs)) = none
text_of (some (object fs)) = none
text_of none = none

abbrev pub is_text : Json → Bool
is_text x = elim (text_of (some x)) [ none ↦ false | some s ↦ true ]

abbrev pub type_of : Json → String
type_of x = elim (text_of (some x)) [ none ↦ "" | some s ↦ s ]

-- A field that is a text or null: `none` is the ValidationError.
abbrev pub nullable_of : Option Json → Option (Option String)
nullable_of (some (leaf (text s))) = some (some s)
nullable_of (some (leaf null)) = some none
nullable_of (some (leaf (integer n))) = none
nullable_of (some (leaf (real f b))) = none
nullable_of (some (leaf (boolean b))) = none
nullable_of (some (array xs)) = none
nullable_of (some (object fs)) = none
nullable_of none = none

abbrev run_keys : List String
run_keys =
    "id" ∷ "workspace_id" ∷ "version_id" ∷ "asset_id" ∷ "calibration_id" ∷ "selected_attempt_id"
    ∷ "app_id" ∷ "analysis_mode" ∷ []

unfoldable pub has_only : List String → Fields → Bool
unfolding elem
has_only ks end = true
has_only ks (field k x fs) = elem k ks && has_only ks fs

infixl 5 ◌>>=◌
abbrev pub ◌>>=◌ {ℓ κ} : {A : Type ℓ} {B : Type κ} → Option A → (A → Option B) → Option B
none >>= k = none
some a >>= k = k a

-- `set(payload) != set(fields)`, then the validation; a missing field fails in the latter.
unfoldable pub run_of : Fields → Option RunRecord
unfolding field_of has_only
run_of fs = if not (has_only run_keys fs) then none else do
  id ← text_of (field_of "id" fs)
  workspace ← text_of (field_of "workspace_id" fs)
  version ← text_of (field_of "version_id" fs)
  asset ← text_of (field_of "asset_id" fs)
  calibration ← nullable_of (field_of "calibration_id" fs)
  selected ← nullable_of (field_of "selected_attempt_id" fs)
  app ← nullable_of (field_of "app_id" fs)
  mode ← text_of (field_of "analysis_mode" fs)
  some (record {
    id = id;
    workspace_id = workspace;
    version_id = version;
    asset_id = asset;
    calibration_id = calibration;
    selected_attempt_id = selected;
    app_id = app;
    analysis_mode = mode;
  })

module _ (validate : String → Json → Option Model) (from_iso : String → Option Moment) where
  -- `_MODELS[kind].model_validate(payload)`
  abbrev pub model_of : String → Json → Option Value
  model_of kind payload = elim (validate kind payload) [ none ↦ none | some m ↦ some (model m) ]

  abbrev pub run_value : Json → Option Value
  run_value (leaf x) = none
  run_value (array xs) = none
  run_value (object fs) = elim (run_of fs) [ none ↦ none | some r ↦ some (run_record r) ]

  abbrev pub aware_only : Option Moment → Option Value
  aware_only none = none
  aware_only (some m) = if m.is_aware then some (moment m) else none

  abbrev pub moment_value : Option String → Option Value
  moment_value none = none
  moment_value (some s) = aware_only (from_iso s)

  -- The branches before those of dicts, lists, tuples and scalars, which are `others`.
  abbrev pub decode_by : String → Json → Option Value → Option Value
  decode_by kind payload others =
      if not (check_json payload)
      then none
      else if elem kind model_names
      then model_of kind payload
      else if kind == "RunRecord"
      then run_value payload
      else if kind == "datetime"
      then moment_value (text_of (some payload))
      else others

  abbrev pub list_or_tuple : String → Option Values → Option Value
  list_or_tuple kind none = none
  list_or_tuple kind (some vs) =
      if kind == "tuple" then some (tuple vs) else if kind == "list" then some (list vs) else none

  abbrev pub dict_of : String → Option Entries → Option Value
  dict_of kind none = none
  dict_of kind (some es) = if kind == "dict" then some (dict es) else none

  abbrev pub value_values : Option Value → Option Values → Option Values
  value_values (some v) (some vs) = some (value v vs)
  value_values (some v) none = none
  value_values none o = none

  abbrev pub entry_entries : String → Option Value → Option Entries → Option Entries
  entry_entries k (some v) (some es) = some (entry (some k) v es)
  entry_entries k (some v) none = none
  entry_entries k none o = none

  unfoldable mutual
    unfolding check_json elem run_of

    pub decode : String → Json → Option Value
    decode kind (leaf x) =
        decode_by kind (leaf x) (if kind == "scalar" then some (scalar x) else none)
    decode kind (array xs) = decode_by kind (array xs) (list_or_tuple kind (decode_items xs))
    decode kind (object fs) = decode_by kind (object fs) (dict_of kind (decode_fields fs))

    -- `_decode(_Value.model_validate(v))`
    pub decode_dumped : Json → Option Value
    decode_dumped (leaf x) = none
    decode_dumped (array xs) = none
    decode_dumped (object end) = none
    decode_dumped (object (field a x end)) = none
    decode_dumped (object (field a x (field b y end))) =
        let forth = decode (type_of x) y in
        let back = decode (type_of y) x in
        if a == "type" && b == "value" && is_text x
        then forth
        else if a == "value" && b == "type" && is_text y
        then back
        else none
    decode_dumped (object (field a x (field b y (field c z fs)))) = none

    pub decode_items : Items → Option Values
    decode_items nil = some no_values
    decode_items (cons x xs) = value_values (decode_dumped x) (decode_items xs)

    pub decode_fields : Fields → Option Entries
    decode_fields end = some no_entries
    decode_fields (field k x fs) = entry_entries k (decode_dumped x) (decode_fields fs)
