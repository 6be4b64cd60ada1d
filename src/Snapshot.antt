-- ===== src/Snapshot.antt =====
-- The values that backend/src/vision_app/persistence/snapshot.py saves and restores, and the JSON trees
-- that it writes. A pydantic model is its class, its dump in JSON mode, and what it holds (`held`), of which
-- the dump need not tell all; a datetime is its ISO text and whether it has a time zone.
pub mod Codec
pub mod Decoding
pub mod Checks
pub mod Restoring
use Prim.Native.Char.{Char, code, char}
use Prim.Native.String as Str
use vision_app_creator.Prelude.{
  ℕ, String, Bool, true, false, not, Option, none, some, List, [], ◌∷◌, ◌==◌, ◌&&◌, ◌||◌, nat_eqb,
  string_eq, elem, if◌then◌else◌,
}
use vision_app_creator.Prelude.Int.{ℤ}
use vision_app_creator.Validation.Prompts.{lower}

-- A float is whether it is finite, and its bits.
pub data Scalar : Type 0 where
  null : Scalar
  text : String → Scalar
  integer : ℤ → Scalar
  real : Bool → ℕ → Scalar
  boolean : Bool → Scalar

mutual
  pub data Json : Type 0 where
    leaf : Scalar → Json
    array : Items → Json
    object : Fields → Json

  pub data Items : Type 0 where
    nil : Items
    cons : Json → Items → Items

  pub data Fields : Type 0 where
    end : Fields
    field : String → Json → Fields → Fields

pub record Model : Type 0 where
  pub class_name : String
  pub payload : Json
  pub held : ℕ

pub record Moment : Type 0 where
  pub iso : String
  pub is_aware : Bool

-- backend/src/vision_app/api/runs/router.py
pub record RunRecord : Type 0 where
  pub id : String
  pub workspace_id : String
  pub version_id : String
  pub asset_id : String
  pub calibration_id : Option String
  pub selected_attempt_id : Option String
  pub app_id : Option String
  pub analysis_mode : String

-- A key of a dict that is not a string is `none`.
mutual
  pub data Value : Type 0 where
    scalar : Scalar → Value
    moment : Moment → Value
    model : Model → Value
    run_record : RunRecord → Value
    dict : Entries → Value
    list : Values → Value
    tuple : Values → Value
    unsupported : String → Value

  pub data Values : Type 0 where
    no_values : Values
    value : Value → Values → Values

  pub data Entries : Type 0 where
    no_entries : Entries
    entry : Option String → Value → Entries → Entries

abbrev pub model_names : List String
model_names =
    "VisionApp" ∷ "AppVersion" ∷ "Calibration" ∷ "SourceAsset" ∷ "Event" ∷ "RunProgress"
    ∷ "DeliveryAttempt" ∷ "BuildTurn" ∷ []

abbrev secret_fields : List String
secret_fields =
    "api_key" ∷ "gemini_api_key" ∷ "authorization" ∷ "password" ∷ "secret" ∷ "secrets"
    ∷ "access_token" ∷ "refresh_token" ∷ "test_token" ∷ "credentials" ∷ "private_key" ∷ "upload_url"
    ∷ "read_url" ∷ "grant_id" ∷ "token" ∷ "client_secret" ∷ "signing_key" ∷ []

abbrev underscore_for_dash : Char → Char
underscore_for_dash c = if nat_eqb (code c) 45 then char 95 tt else c

-- `s.replace("-", "_")`
unfoldable pub replace_dashes : String → String
replace_dashes Str.[] = Str.[]
replace_dashes (Str.◌∷◌ c s) = Str.◌∷◌ (underscore_for_dash c) (replace_dashes s)

-- `key.lower().replace("-", "_") in _SECRET_FIELDS`
unfoldable pub is_secret : String → Bool
unfolding elem lower replace_dashes
is_secret key = elem (replace_dashes (lower key)) secret_fields

abbrev pub is_finite : Scalar → Bool
is_finite null = true
is_finite (text s) = true
is_finite (integer n) = true
is_finite (real finite bits) = finite
is_finite (boolean b) = true
