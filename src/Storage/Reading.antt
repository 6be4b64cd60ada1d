-- ===== src/Storage/Reading.antt =====
-- Reading and deleting in `FileSystemMediaStore` of backend/src/vision_app/storage/local.py.
use vision_app_creator.Prelude.{
  ℕ, String, Bool, false, not, Option, none, some, ◌==◌, nat_eqb, if◌then◌else◌, string_eq, lookup,
  insert, erase,
}
use vision_app_creator.Prelude.Results.{Result, ok, err}
use vision_app_creator.Storage.{
  StorageError, not_found, already_deleted, generation_mismatch, missing_file, grant_scope_mismatch,
  GrantRecord, issue, consume, StoredMetadata,
}
use vision_app_creator.Storage.Local.{Bytes, MediaStore, meta_of, read_meta}

abbrev pub grant_read :
    ℕ
    → ℕ
    → String
    → String
    → String
    → Result StorageError StoredMetadata
    → MediaStore
    → Result StorageError String × MediaStore
grant_read ttl now owner id grant (err e) s = (err e, s)
grant_read ttl now owner id grant (ok m) s =
    if not (m.meta_owner == owner)
    then (err not_found, s)
    else (ok grant, record s { grants = issue now grant "read" id owner ttl s.grants })

-- The new grant's id is given.
unfoldable pub issue_read_grant :
    ℕ → ℕ → String → String → String → MediaStore → Result StorageError String × MediaStore
unfolding read_meta issue
issue_read_grant ttl now owner id grant s = grant_read ttl now owner id grant (read_meta id s) s

abbrev pub bytes_of : Option Bytes → Result StorageError Bytes
bytes_of none = err missing_file
bytes_of (some b) = ok b

abbrev pub read_ready :
    String → Result StorageError StoredMetadata → MediaStore → Result StorageError Bytes
read_ready id (err e) s = err e
read_ready id (ok m) s =
    if m.state == "deleted"
    then err already_deleted
    else if not (m.state == "ready")
    then err not_found
    else bytes_of (lookup id s.objects)

abbrev pub read_granted : Result StorageError GrantRecord → MediaStore → Result StorageError Bytes
read_granted (err e) s = err e
read_granted (ok g) s = read_ready g.resource_id (read_meta g.resource_id s) s

unfoldable pub read : ℕ → String → MediaStore → Result StorageError Bytes
unfolding consume read_meta lookup
read now grant s = read_granted (consume now grant "read" s.grants) s

unfoldable pub read_artifact : ℕ → String → String → MediaStore → Result StorageError Bytes
unfolding consume read
read_artifact now id grant s = elim (consume now grant "read" s.grants) [
  | err e ↦ err e
  | ok g ↦ if not (g.resource_id == id) then err grant_scope_mismatch else read now grant s
]

abbrev pub is_other : Option ℕ → ℕ → Bool
is_other none n = false
is_other (some g) n = not (nat_eqb n g)

abbrev pub deleted_store : String → StoredMetadata → MediaStore → MediaStore
deleted_store id m s = record s {
  objects = erase id s.objects;
  meta =
      insert id (meta_of id m.meta_owner m.content_type m.size m.sha256 m.generation "deleted")
        s.meta;
}

abbrev pub delete_found :
    String
    → Option ℕ
    → Result StorageError StoredMetadata
    → MediaStore
    → Result StorageError (Unit {0}) × MediaStore
delete_found id generation (err e) s = (err e, s)
delete_found id generation (ok m) s =
    if m.state == "deleted"
    then (err already_deleted, s)
    else if is_other generation m.generation
    then (err generation_mismatch, s)
    else (ok tt, deleted_store id m s)

unfoldable pub delete_artifact :
    String → Option ℕ → MediaStore → Result StorageError (Unit {0}) × MediaStore
unfolding read_meta erase insert
delete_artifact id generation s = delete_found id generation (read_meta id s) s

abbrev pub metadata_found : Result StorageError StoredMetadata → Result StorageError StoredMetadata
metadata_found (err e) = err e
metadata_found (ok m) = if m.state == "deleted" then err already_deleted else ok m

unfoldable pub get_metadata : String → MediaStore → Result StorageError StoredMetadata
unfolding read_meta
get_metadata id s = metadata_found (read_meta id s)
