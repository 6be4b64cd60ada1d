-- ===== src/Tests/Snapshot.antt =====
-- A value that is saved and restored (backend/src/vision_app/persistence/snapshot.py).
use vision_app_creator.Prelude.{String, ◌≡◌, refl, true, Option, none, some, string_eq, elem}
use vision_app_creator.Prelude.Int.{pos}
use vision_app_creator.Validation.Prompts.{lower}
use vision_app_creator.Snapshot.{
  text, integer, Json, leaf, array, object, nil, cons, end, field, Model, Moment, Value, scalar,
  moment, model, dict, list, no_values, value, no_entries, entry, is_secret, replace_dashes,
}
use vision_app_creator.Snapshot.Codec.{
  Tagged, dumped, tag, encode, encode_model, check_entries, check_json, is_open_key,
}
use vision_app_creator.Snapshot.Decoding.{decode}
use vision_app_creator.Snapshot.Checks.{finite_json}
use vision_app_creator.Snapshot.Restoring.{AreValid, restores_what_is_saved}

abbrev noon : Moment
noon = record { iso = "2024-05-01T12:00:00+00:00"; is_aware = true }

abbrev app : Model
app = record {
  class_name = "VisionApp";
  payload = object (field "id" (leaf (text "a")) end);
  held = 4;
}

abbrev saved : Value
saved = dict (
    entry (some "at") (moment noon) (
      entry (some "app") (model app)
        (entry (some "counts") (list (value (scalar (integer (pos 3))) no_values)) no_entries)))

abbrev written : Tagged
written = tag "dict" (
    object (
      field "at" (dumped (tag "datetime" (leaf (text "2024-05-01T12:00:00+00:00")))) (
        field "app" (dumped (tag "VisionApp" (object (field "id" (leaf (text "a")) end)))) (
          field "counts"
            (dumped
              (tag "list" (array (cons (dumped (tag "scalar" (leaf (integer (pos 3))))) nil))))
            end))))

-- Stands for the parse of an ISO text: each is taken for one with a time zone.
abbrev parsed : String → Option Moment
parsed s = some (record { iso = s; is_aware = true })

-- Stands for the validation of dumps.
abbrev accepts : String → Json → Option Model
accepts class payload = some (record { class_name = class; payload = payload; held = 4 })

encode-saved : encode saved ≡ some written
unfolding encode encode_model check_entries check_json is_open_key is_secret elem lower
    replace_dashes
encode-saved = refl

written_finite : finite_json written.content ≡ true
unfolding finite_json
written_finite = refl

saved-AreValid : AreValid accepts parsed saved
unfolding AreValid
saved-AreValid = (refl, (refl, ((tt, tt), tt)))

secrets_are_not_saved : encode (dict (entry (some "API-Key") (scalar (text "k")) no_entries)) ≡ none
unfolding encode encode_model check_entries check_json is_open_key is_secret elem lower
    replace_dashes
secrets_are_not_saved = refl

restores_what_is_saved_example : decode accepts parsed written.type written.content ≡ some saved
restores_what_is_saved_example =
    restores_what_is_saved accepts parsed saved written encode-saved written_finite saved-AreValid
