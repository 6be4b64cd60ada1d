-- ===== src/Storage/Leftover.antt =====
-- An upload that comes after the deletion of its resource
-- (backend/src/vision_app/storage/local.py).
use vision_app_creator.Prelude.{
  ℕ, ◌≤◌, String, ◌≡◌, true, false, Option, some, arith, string_eq, str_eq_iff, lookup,
  lookup-insert, length,
}
use vision_app_creator.Prelude.Results.{ok, err}
use vision_app_creator.Storage.{GrantRecord, consume, StoredMetadata, already_deleted}
use vision_app_creator.Storage.Local.{Bytes, MediaStore, size_allowed, read_meta, receive_upload}
use vision_app_creator.Storage.Reading.{delete_artifact}

-- An upload grant that can still be used.
abbrev pub IsOpen : ℕ → GrantRecord → Type 0
IsOpen now g = (g.scope ≡ "upload") × (g.used ≡ false) × (now ≤ g.expires_at)

-- A grant that is open when its resource is deleted still takes an upload: the bytes are stored,
-- and no later deletion of the resource removes them.
pub upload_outlives_deletion :
    (max_bytes : ℕ) (sha_of : Bytes → String) (now : ℕ) (grant : String) (g : GrantRecord)
    (b : Bytes) (m : StoredMetadata) (generation : Option ℕ) (s : MediaStore)
    → lookup grant s.grants ≡ some g
    → IsOpen now g
    → size_allowed max_bytes (length b) ≡ true
    → read_meta g.resource_id s ≡ ok m
    → m.state ≡ "deleted"
    → (lookup g.resource_id (receive_upload max_bytes sha_of now grant b s).1.objects ≡ some b)
      × (delete_artifact g.resource_id generation (receive_upload max_bytes sha_of now grant b s).1
          ≡ (err already_deleted, (receive_upload max_bytes sha_of now grant b s).1))
unfolding receive_upload consume delete_artifact read_meta
upload_outlives_deletion max_bytes sha_of now grant g b m generation s found able sized stored
      gone =
    ground (
      arith,
      lookup-insert g.resource_id g.resource_id b s.objects,
      str_eq_iff g.resource_id g.resource_id,
      str_eq_iff g.scope "upload",
      str_eq_iff m.state "deleted",
    )
