-- ===== src/Storage.antt =====
-- Grants and metadata of backend/src/vision_app/storage: `GrantManager` of _grant.py with the errors
-- of errors.py, and `StoredMetadata` of contracts/models.py with its validation. Times are numbers
-- of seconds; new ids are given to a call, since the code draws them at random.
pub mod Local
pub mod Reading
pub mod Intact
pub mod Ready
pub mod Finalizing
pub mod Whole
pub mod Uploading
pub mod Leftover
use Prim.Native.Char.{Char, code}
use Prim.Native.String as Str
use vision_app_creator.Prelude.{
  ℕ, zero, suc, ◌+◌, String, Bool, true, false, not, Option, none, some, List, [], ◌∷◌, ◌==◌, ◌&&◌,
  ◌||◌, leb, ltb, nat_eqb, if◌then◌else◌, string_eq, Dict, lookup, insert,
}
use vision_app_creator.Prelude.Results.{Result, ok, err}

-- The codes of `StorageError`; `validation_error` is pydantic's, `missing_file` is the OSError of a
-- file that is not there.
pub data StorageError : Type 0 where
  invalid_grant grant_expired grant_scope_mismatch size_exceeded : StorageError
  invalid_idempotency_key upload_already_used upload_not_found : StorageError
  size_mismatch hash_mismatch not_found already_deleted generation_mismatch : StorageError
  validation_error missing_file : StorageError

pub record GrantRecord : Type 0 where
  pub grant_id : String
  pub scope : String
  pub resource_id : String
  pub owner_id : String
  pub expires_at : ℕ
  pub used : Bool
  pub result_resource_id : Option String

abbrev pub Grants : Type 0
Grants = Dict String GrantRecord

-- The grant that `issue` makes; no caller in this repository gives an `upload_url`.
abbrev pub new_grant : String → String → String → String → ℕ → GrantRecord
new_grant grant scope id owner expires = record {
  grant_id = grant;
  scope = scope;
  resource_id = id;
  owner_id = owner;
  expires_at = expires;
  used = false;
  result_resource_id = none;
}

unfoldable pub issue : ℕ → String → String → String → String → ℕ → Grants → Grants
unfolding insert
issue now grant scope id owner ttl grants =
    insert grant (new_grant grant scope id owner (now + ttl)) grants

abbrev consume_found : ℕ → String → Option GrantRecord → Result StorageError GrantRecord
consume_found now scope none = err invalid_grant
consume_found now scope (some g) =
    if ltb g.expires_at now
    then err grant_expired
    else if not (g.scope == scope)
    then err grant_scope_mismatch
    else ok g

unfoldable pub consume : ℕ → String → String → Grants → Result StorageError GrantRecord
unfolding lookup
consume now grant scope grants = consume_found now scope (lookup grant grants)

abbrev grant_found : Option GrantRecord → Result StorageError GrantRecord
grant_found none = err invalid_grant
grant_found (some g) = ok g

unfoldable pub get_grant : String → Grants → Result StorageError GrantRecord
unfolding lookup
get_grant grant grants = grant_found (lookup grant grants)

pub record StoredMetadata : Type 0 where
  pub meta_id : String
  pub meta_owner : String
  pub content_type : String
  pub size : ℕ
  pub sha256 : String
  pub generation : ℕ
  pub state : String

-- `[0-9a-f]`
abbrev is_hex : Char → Bool
is_hex c = (leb 48 (code c) && leb (code c) 57) || (leb 97 (code c) && leb (code c) 102)

-- `^[0-9a-f]{n}$`
unfoldable pub is_hex_text : ℕ → String → Bool
is_hex_text zero Str.[] = true
is_hex_text zero (Str.◌∷◌ c s) = false
is_hex_text (suc n) Str.[] = false
is_hex_text (suc n) (Str.◌∷◌ c s) = is_hex c && is_hex_text n s

abbrev is_state : String → Bool
is_state s = s == "uploading" || s == "ready" || s == "deleted"

-- `StoredMetadata.model_validate`
unfoldable pub is_valid_metadata : StoredMetadata → Bool
unfolding is_hex_text
is_valid_metadata m =
    not (m.meta_owner == "")
    && not (m.content_type == "")
    && is_hex_text 64 m.sha256
    && leb 1 m.generation
    && is_state m.state
