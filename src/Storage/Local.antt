-- ===== src/Storage/Local.antt =====
-- `FileSystemMediaStore` of backend/src/vision_app/storage/local.py. Files are dicts from ids to
-- contents, bytes are lists of numbers, and the SHA-256 in hexadecimal digits is an argument. A
-- size is a number: 0 stands for the ones that are not positive.
use vision_app_creator.Prelude.{
  ℕ, String, Bool, true, false, not, Option, none, some, List, [], ◌==◌, ◌&&◌, ◌||◌, leb, ltb,
  nat_eqb, if◌then◌else◌, string_eq, Dict, lookup, insert, length,
}
use vision_app_creator.Prelude.Results.{Result, ok, err}
use vision_app_creator.Storage.{
  StorageError, size_exceeded, invalid_idempotency_key, upload_already_used, upload_not_found,
  size_mismatch, hash_mismatch, not_found, validation_error, GrantRecord, Grants, issue, consume,
  StoredMetadata, is_valid_metadata,
}

abbrev pub Bytes : Type 0
Bytes = List ℕ

pub record MediaStore : Type 0 where
  pub objects : Dict String Bytes
  pub meta : Dict String StoredMetadata
  pub grants : Grants

-- A store whose directories are empty.
abbrev pub no_media : MediaStore
no_media = record { objects = []; meta = []; grants = [] }

abbrev pub size_allowed : ℕ → ℕ → Bool
size_allowed max n = not (leb n 0 || ltb max n)

-- `"0" * 64`
abbrev pub no_sha : String
no_sha = "0000000000000000000000000000000000000000000000000000000000000000"

abbrev pub meta_of : String → String → String → ℕ → String → ℕ → String → StoredMetadata
meta_of id owner content size sha generation state = record {
  meta_id = id;
  meta_owner = owner;
  content_type = content;
  size = size;
  sha256 = sha;
  generation = generation;
  state = state;
}

abbrev pub validated : Option StoredMetadata → Result StorageError StoredMetadata
validated none = err not_found
validated (some m) = if is_valid_metadata m then ok m else err validation_error

-- `_read_meta`
unfoldable pub read_meta : String → MediaStore → Result StorageError StoredMetadata
unfolding lookup is_valid_metadata
read_meta id s = validated (lookup id s.meta)

abbrev pub sha_or_none : Option String → String
sha_or_none none = no_sha
sha_or_none (some sha) = if sha == "" then no_sha else sha

abbrev is_blank : Option String → Bool
is_blank none = false
is_blank (some key) = key == ""

module _ (max_bytes : ℕ) (sha_of : Bytes → String) where
  -- The id of the new resource and of its grant, and the new store.
  unfoldable pub begin_upload :
      ℕ
      → ℕ
      → String
      → String
      → String
      → String
      → ℕ
      → Option String
      → Option String
      → MediaStore
      → Result StorageError (String × String) × MediaStore
  unfolding insert issue
  begin_upload ttl now id grant owner content declared sha key s =
      if not (size_allowed max_bytes declared)
      then (err size_exceeded, s)
      else if is_blank key
      then (err invalid_idempotency_key, s)
      else (
        ok (id, grant),
        record s {
          meta =
              insert id (meta_of id owner content declared (sha_or_none sha) 1 "uploading") s.meta;
          grants = issue now grant "upload" id owner ttl s.grants;
        },
      )

  abbrev pub received :
      String
      → Bytes
      → Result StorageError GrantRecord
      → MediaStore
      → Result StorageError (Unit {0}) × MediaStore
  received grant data_bytes (err e) s = (err e, s)
  received grant data_bytes (ok g) s =
      if g.used
      then (err upload_already_used, s)
      else if not (size_allowed max_bytes (length data_bytes))
      then (err size_exceeded, s)
      else (
        ok tt,
        record s {
          objects = insert g.resource_id data_bytes s.objects;
          grants = insert grant (record g { used = true }) s.grants;
        },
      )

  unfoldable pub receive_upload :
      ℕ → String → Bytes → MediaStore → Result StorageError (Unit {0}) × MediaStore
  unfolding consume insert
  receive_upload now grant data_bytes s =
      received grant data_bytes (consume now grant "upload" s.grants) s

  -- the checks of `finalize_upload` on the object
  abbrev pub check_upload :
      StoredMetadata → ℕ → String → Option Bytes → Result StorageError (Unit {0})
  check_upload m size sha none = err upload_not_found
  check_upload m size sha (some b) =
      if not (size_allowed max_bytes size)
      then err size_exceeded
      else if not (nat_eqb size m.size) || not (nat_eqb size (length b))
      then err size_mismatch
      else if not (sha_of b == sha)
      then err hash_mismatch
      else if not (m.sha256 == no_sha) && not (m.sha256 == sha)
      then err hash_mismatch
      else ok tt

  -- The store once the upload of a grant is ready, and what is read back from it.
  abbrev pub ready_store :
      String → GrantRecord → StoredMetadata → ℕ → String → MediaStore → MediaStore
  ready_store grant g m size sha s = record s {
    meta =
        insert g.resource_id
          (meta_of g.resource_id m.meta_owner m.content_type size sha m.generation "ready") s.meta;
    grants = insert grant (record g { result_resource_id = some g.resource_id }) s.grants;
  }

  abbrev pub finalize_checked :
      String
      → GrantRecord
      → StoredMetadata
      → ℕ
      → String
      → Result StorageError (Unit {0})
      → MediaStore
      → Result StorageError StoredMetadata × MediaStore
  finalize_checked grant g m size sha (err e) s = (err e, s)
  finalize_checked grant g m size sha (ok u) s =
      (read_meta g.resource_id (ready_store grant g m size sha s), ready_store grant g m size sha s)

  abbrev pub finalize_meta :
      String
      → GrantRecord
      → ℕ
      → String
      → Result StorageError StoredMetadata
      → MediaStore
      → Result StorageError StoredMetadata × MediaStore
  finalize_meta grant g size sha (err e) s = (err e, s)
  finalize_meta grant g size sha (ok m) s =
      if not (m.state == "uploading")
      then (ok m, s)
      else finalize_checked grant g m size sha
          (check_upload m size sha (lookup g.resource_id s.objects)) s

  -- `record.used and record.result_resource_id`
  abbrev finalized_id : GrantRecord → Option String
  finalized_id g = elim g.result_resource_id [
    | none ↦ none
    | some id ↦ if g.used && not (id == "") then some id else none
  ]

  abbrev pub finalize_found :
      String
      → ℕ
      → String
      → Result StorageError GrantRecord
      → MediaStore
      → Result StorageError StoredMetadata × MediaStore
  finalize_found grant size sha (err e) s = (err e, s)
  finalize_found grant size sha (ok g) s = elim (finalized_id g) [
    | some id ↦ (read_meta id s, s)
    | none ↦ finalize_meta grant g size sha (read_meta g.resource_id s) s
  ]

  unfoldable pub finalize_upload :
      ℕ → String → ℕ → String → MediaStore → Result StorageError StoredMetadata × MediaStore
  unfolding consume read_meta insert lookup
  finalize_upload now grant size sha s =
      finalize_found grant size sha (consume now grant "upload" s.grants) s

  -- The new artifact's id is given.
  unfoldable pub put_artifact :
      String → String → Bytes → String → MediaStore → Result StorageError String × MediaStore
  unfolding insert
  put_artifact id owner data_bytes content s =
      if not (size_allowed max_bytes (length data_bytes)) then (err size_exceeded, s) else (
        ok id,
        record s {
          objects = insert id data_bytes s.objects;
          meta =
              insert id (meta_of id owner content (length data_bytes) (sha_of data_bytes) 1 "ready")
                s.meta;
        },
      )
