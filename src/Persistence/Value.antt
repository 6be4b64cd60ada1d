-- ===== src/Persistence/Value.antt =====
-- What the repository reads of the values that it stores (`_workspace`, `_id`, `_with_field` of
-- backend/src/vision_app/persistence/memory.py). A stored value is a dict, a Pydantic model or a
-- dataclass; the wrappers with a `root` are read as their text. `body` stands for all other fields.
use vision_app_creator.Prelude.{
  ℕ, String, Bool, true, false, Option, none, some, ◌==◌, string_eq, if◌then◌else◌,
}

pub data Error : Type 0 where
  value_error conflict not_found type_error attribute_error index_error : Error

pub data Result {ℓ} (A : Type ℓ) : Type ℓ where
  ok : A → Result A
  err : Error → Result A

-- A key or attribute that is not there, is there and `None`, or has a value.
pub data Attr (A : Type 0) : Type 0 where
  absent nil : Attr A
  is : A → Attr A

pub data Shape : Type 0 where
  dict model dataclass : Shape

pub record Value : Type 0 where
  pub shape : Shape
  pub workspace_id : Attr String
  pub id : Attr String
  pub run_id : Attr String
  pub revision : Option ℕ
  pub generation : Option ℕ
  pub draft_version_id : Attr String
  pub published_version_id : Attr String
  pub attempt_id : Attr String
  pub selected_attempt_id : Attr String
  pub state : Attr String
  pub human_review : Attr String
  pub start_ms : Option ℕ
  pub sequence : Option ℕ
  pub body : ℕ

abbrev pub of_attr : Attr String → Option String
of_attr absent = none
of_attr nil = none
of_attr (is s) = some s

-- `hasattr(value, field)`, `field in value`
abbrev pub has : Attr String → Bool
has absent = false
has _ = true

-- `x or y`, where the empty text counts as false
abbrev or_else : Attr String → Option String → Option String
or_else (is s) y = if s == "" then y else some s
or_else _ y = y

abbrev pub is_dict : Shape → Bool
is_dict dict = true
is_dict _ = false

-- `_workspace`
unfoldable pub workspace : Value → Option String
workspace v = of_attr v.workspace_id

-- `_id`: a dict falls through to `run_id` on a false `id`, an object only on a missing one
unfoldable pub id_of : Value → Option String
id_of v =
    if is_dict v.shape
    then or_else v.id (of_attr v.run_id)
    else if has v.id
    then of_attr v.id
    else of_attr v.run_id

-- The fields that `_with_field` is called with.
pub data Field : Type 0 where
  draft_version published_version attempt selected_attempt : Field

abbrev pub get_field : Field → Value → Attr String
get_field draft_version v = v.draft_version_id
get_field published_version v = v.published_version_id
get_field attempt v = v.attempt_id
get_field selected_attempt v = v.selected_attempt_id

abbrev pub set_field : Field → String → Value → Value
set_field draft_version s v = record v { draft_version_id = is s }
set_field published_version s v = record v { published_version_id = is s }
set_field attempt s v = record v { attempt_id = is s }
set_field selected_attempt s v = record v { selected_attempt_id = is s }

-- `_with_field` by the shape: a model takes any field, a dataclass those that it declares.
abbrev with_shape : Shape → Bool → Value → Result Value
with_shape model declared v = ok v
with_shape dataclass declared v = if declared then ok v else err type_error
with_shape dict declared v = err type_error

unfoldable pub with_field : Field → String → Value → Result Value
with_field f s v = with_shape v.shape (has (get_field f v)) (set_field f s v)

abbrev is_number : Option ℕ → Bool
is_number none = false
is_number (some n) = true

unfoldable pub with_revision : ℕ → Value → Result Value
with_revision n v = with_shape v.shape (is_number v.revision) (record v { revision = some n })
