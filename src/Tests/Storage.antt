-- ===== src/Tests/Storage.antt =====
-- The local media store on small inputs (backend/src/vision_app/storage/local.py).
use vision_app_creator.Prelude.{
  String, ◌≡◌, refl, true, false, none, some, List, [], ◌∷◌, arith, string_eq, str_eq_iff, lookup,
  insert, erase,
}
use vision_app_creator.Prelude.Results.{ok, err}
use vision_app_creator.Storage.{
  GrantRecord, StoredMetadata, is_hex_text, is_valid_metadata, consume, issue, already_deleted,
}
use vision_app_creator.Storage.Local.{
  Bytes, MediaStore, no_media, no_sha, meta_of, read_meta, begin_upload, receive_upload,
  finalize_upload, put_artifact,
}
use vision_app_creator.Storage.Reading.{issue_read_grant, read, delete_artifact}
use vision_app_creator.Storage.Uploading.{upload_reads_back}
use vision_app_creator.Storage.Leftover.{upload_outlives_deletion}
use vision_app_creator.Storage.Intact.{
  Call, begins, receives, finalizes, deletes, puts, perform, perform_all, IsWhole,
}
use vision_app_creator.Storage.Whole.{AllDrawNew, ready-IsWhole}

abbrev some_sha : String
some_sha = "ffffffffffffffffffffffffffffffffffffffffffffffffffffffffffffffff"

-- Stands for the SHA-256: one value for no bytes, one for any others.
abbrev sha : Bytes → String
sha [] = no_sha
sha (b ∷ bs) = some_sha

some_sha-IsHex : is_hex_text 64 some_sha ≡ true
unfolding is_hex_text
some_sha-IsHex = refl

abbrev two_bytes : Bytes
two_bytes = 7 ∷ 8 ∷ []

upload_reads_back_example :
    read 5 "rd"
      (issue_read_grant 10 4 "u" "media" "rd"
        (finalize_upload 100 sha 3 "up" 2 some_sha
          (receive_upload 100 sha 2 "up" two_bytes
            (begin_upload 100 sha 10 1 "media" "up" "u" "video/mp4" 2 none none no_media).1).1).1).1
    ≡ ok two_bytes
upload_reads_back_example =
    upload_reads_back 100 sha "media" "u" "video/mp4" "up" two_bytes no_media
      (ground (arith, str_eq_iff "u" "")) (ground (arith, str_eq_iff "video/mp4" "")) some_sha-IsHex
      refl 10 1 2 3 4 10 5 "rd" (omega arith) (omega arith) (omega arith)

-- A grant is open, and its resource is deleted.
abbrev open_grant : GrantRecord
open_grant = record {
  grant_id = "up";
  scope = "upload";
  resource_id = "media";
  owner_id = "u";
  expires_at = 11;
  used = false;
  result_resource_id = none;
}

abbrev gone_meta : StoredMetadata
gone_meta = meta_of "media" "u" "video/mp4" 2 no_sha 1 "deleted"

abbrev deleted_media : MediaStore
deleted_media = record {
  objects = [];
  meta = ("media", gone_meta) ∷ [];
  grants = ("up", open_grant) ∷ [];
}

-- It is what a deletion after `begin_upload` leaves.
begun_and_deleted :
    perform_all 100 sha
      (begins 10 1 "media" "up" "u" "video/mp4" 2 none none ∷ deletes "media" none ∷ [])
      no_media
    ≡ deleted_media
unfolding perform_all perform begin_upload delete_artifact read_meta is_valid_metadata is_hex_text
    issue insert erase lookup
begun_and_deleted = refl

gone_meta_is_read : read_meta "media" deleted_media ≡ ok gone_meta
unfolding read_meta is_valid_metadata is_hex_text lookup
gone_meta_is_read = refl

up_is_found : lookup {K = String} "up" deleted_media.grants ≡ some open_grant
unfolding lookup
up_is_found = refl

upload_outlives_deletion_example :
    (lookup "media" (receive_upload 100 sha 2 "up" two_bytes deleted_media).1.objects
      ≡ some two_bytes)
    × (delete_artifact "media" none (receive_upload 100 sha 2 "up" two_bytes deleted_media).1
        ≡ (err already_deleted, (receive_upload 100 sha 2 "up" two_bytes deleted_media).1))
upload_outlives_deletion_example =
    upload_outlives_deletion 100 sha 2 "up" open_grant two_bytes gone_meta none deleted_media
      up_is_found (refl, refl, omega arith) refl gone_meta_is_read refl

abbrev upload_and_put : List Call
upload_and_put =
    begins 10 1 "media" "up" "u" "video/mp4" 2 none none
    ∷ receives 2 "up" two_bytes
    ∷ finalizes 3 "up" 2 some_sha
    ∷ puts "clip" "u" (9 ∷ []) "video/mp4"
    ∷ []

upload_and_put-AllDrawNew : AllDrawNew 100 sha upload_and_put no_media
unfolding AllDrawNew perform begin_upload receive_upload finalize_upload put_artifact read_meta
    is_valid_metadata is_hex_text consume issue insert lookup
upload_and_put-AllDrawNew =
    ((refl, tt), (tt, (tt, ((ground (arith, str_eq_iff "media" "clip"), tt), tt))))

ready-IsWhole_example :
    IsWhole 100 sha
      (lookup "media" (perform_all 100 sha upload_and_put no_media).meta)
      (lookup "media" (perform_all 100 sha upload_and_put no_media).objects)
ready-IsWhole_example = ready-IsWhole 100 sha upload_and_put "media" upload_and_put-AllDrawNew
