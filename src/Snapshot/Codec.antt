-- ===== src/Snapshot/Codec.antt =====
-- `_check_fields`, `_encode` and `_decode` of backend/src/vision_app/persistence/snapshot.py: `none` is the
-- exception, which `save` and `restore` turn into a SnapshotError whatever it is. The validation of a
-- model and the parse of an ISO text are arguments.
use vision_app_creator.Prelude.{
  String, Bool, true, false, not, Option, none, some, ◌&&◌, string_eq, elem, if◌then◌else◌,
}
use vision_app_creator.Snapshot.{
  null, text, Json, leaf, array, object, Items, nil, cons, Fields, end, field, Model, RunRecord,
  Value, scalar, moment, model, run_record, dict, list, tuple, unsupported, Values, no_values,
  value, Entries, no_entries, entry, model_names, is_secret, is_finite,
}

-- `_check_fields` on a JSON tree: `false` is the ValueError
unfoldable mutual
  unfolding is_secret

  pub check_json : Json → Bool
  check_json (leaf x) = is_finite x
  check_json (array xs) = check_items xs
  check_json (object fs) = check_fields fs

  pub check_items : Items → Bool
  check_items nil = true
  check_items (cons x xs) = check_json x && check_items xs

  pub check_fields : Fields → Bool
  check_fields end = true
  check_fields (field k x fs) = not (is_secret k) && check_json x && check_fields fs

unfoldable pub is_open_key : Option String → Bool
unfolding is_secret
is_open_key none = false
is_open_key (some k) = not (is_secret k)

-- `_check_fields` on a value that is saved
unfoldable mutual
  unfolding is_secret is_open_key

  pub check_value : Value → Bool
  check_value (scalar x) = is_finite x
  check_value (moment m) = true
  check_value (model m) = true
  check_value (run_record r) = true
  check_value (dict es) = check_entries es
  check_value (list vs) = check_values vs
  check_value (tuple vs) = check_values vs
  check_value (unsupported c) = true

  pub check_values : Values → Bool
  check_values no_values = true
  check_values (value v vs) = check_value v && check_values vs

  pub check_entries : Entries → Bool
  check_entries no_entries = true
  check_entries (entry k v es) = is_open_key k && check_value v && check_entries es

-- `_Value`, and the dict of its `model_dump()`
pub record Tagged : Type 0 where
  pub type : String
  pub content : Json

abbrev pub dumped : Tagged → Json
dumped t = object (field "type" (leaf (text t.type)) (field "value" t.content end))

abbrev pub optional_text : Option String → Json
optional_text none = leaf null
optional_text (some s) = leaf (text s)

-- `asdict(run)`
abbrev pub run_fields : RunRecord → Fields
run_fields r = field "id" (leaf (text r.id)) (
    field "workspace_id" (leaf (text r.workspace_id)) (
      field "version_id" (leaf (text r.version_id)) (
        field "asset_id" (leaf (text r.asset_id)) (
          field "calibration_id" (optional_text r.calibration_id) (
            field "selected_attempt_id" (optional_text r.selected_attempt_id) (
              field "app_id" (optional_text r.app_id)
                (field "analysis_mode" (leaf (text r.analysis_mode)) end)))))))

abbrev pub tag : String → Json → Tagged
tag t j = record { type = t; content = j }

abbrev pub tag_object : Option Fields → Option Tagged
tag_object none = none
tag_object (some fs) = some (tag "dict" (object fs))

abbrev pub tag_array : String → Option Items → Option Tagged
tag_array t none = none
tag_array t (some xs) = some (tag t (array xs))

abbrev pub cons_dumped : Option Tagged → Option Items → Option Items
cons_dumped (some t) (some xs) = some (cons (dumped t) xs)
cons_dumped (some t) none = none
cons_dumped none o = none

abbrev pub field_dumped : Option String → Option Tagged → Option Fields → Option Fields
field_dumped (some k) (some t) (some fs) = some (field k (dumped t) fs)
field_dumped (some k) (some t) none = none
field_dumped (some k) none o = none
field_dumped none t o = none

unfoldable pub encode_model : Model → Option Tagged
unfolding check_json elem
encode_model m =
    if elem m.class_name model_names && check_json m.payload
    then some (tag m.class_name m.payload)
    else none

unfoldable mutual
  unfolding check_entries encode_model

  pub encode : Value → Option Tagged
  encode (scalar x) = some (tag "scalar" (leaf x))
  encode (moment m) = if m.is_aware then some (tag "datetime" (leaf (text m.iso))) else none
  encode (model m) = encode_model m
  encode (run_record r) = some (tag "RunRecord" (object (run_fields r)))
  encode (dict es) =
      let inner = encode_entries es in if check_entries es then tag_object inner else none
  encode (list vs) = tag_array "list" (encode_values vs)
  encode (tuple vs) = tag_array "tuple" (encode_values vs)
  encode (unsupported c) = none

  pub encode_values : Values → Option Items
  encode_values no_values = some nil
  encode_values (value v vs) = cons_dumped (encode v) (encode_values vs)

  pub encode_entries : Entries → Option Fields
  encode_entries no_entries = some end
  encode_entries (entry k v es) = field_dumped k (encode v) (encode_entries es)
