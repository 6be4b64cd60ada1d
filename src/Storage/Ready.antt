-- ===== src/Storage/Ready.antt =====
-- `begin_upload` and `receive_upload` of backend/src/vision_app/storage/local.py leave what is ready
-- whole.
use vision_app_creator.Prelude.{
  ℕ, ◌+◌, String, ◌≡◌, ◌≢◌, ◌⊎◌, inl, inr, refl, sym, true, false, Option, none, some, arith,
  string_eq, str_eq_iff, lookup, insert,
}
use vision_app_creator.Prelude.Results.{ok}
use vision_app_creator.Storage.{GrantRecord, Grants, new_grant, issue, consume}
use vision_app_creator.Storage.Local.{
  Bytes, MediaStore, sha_or_none, meta_of, begin_upload, receive_upload,
}
use vision_app_creator.Storage.Intact.{
  Call, begins, receives, finalizes, puts, grants_read, deletes, AreWhole, AreAwaited, AreApart,
  IsUngranted, unready-IsWhole, received-IsWhole, ungranted, granted-IsAwaited, received-IsAwaited,
  apart_granted,
}

module _ (max_bytes : ℕ) (sha_of : Bytes → String) where
  abbrev pub IsSound : MediaStore → Type 0
  IsSound s =
      AreWhole max_bytes sha_of s × AreAwaited max_bytes sha_of s × AreApart max_bytes sha_of s

  -- A call that draws the id of a resource draws a new one.
  abbrev pub DrawsNew : Call → MediaStore → Type 0
  DrawsNew (begins ttl now id grant owner content declared sha key) s =
      (lookup id s.objects ≡ none) × IsUngranted max_bytes sha_of id s.grants
  DrawsNew (puts id owner b content) s = IsUngranted max_bytes sha_of id s.grants
  DrawsNew (receives now grant b) s = Unit
  DrawsNew (finalizes now grant size sha) s = Unit
  DrawsNew (grants_read ttl now owner id grant) s = Unit
  DrawsNew (deletes id generation) s = Unit

  pub begin_cases :
      (ttl now : ℕ) (id grant owner content : String) (declared : ℕ) (sha key : Option String)
      (s : MediaStore)
      → ((begin_upload max_bytes sha_of ttl now id grant owner content declared sha key s).1 ≡ s)
        ⊎ ((begin_upload max_bytes sha_of ttl now id grant owner content declared sha key s).1
            ≡ record s {
              meta =
                  insert id
                    (meta_of id owner content declared (sha_or_none sha) 1 "uploading")
                    s.meta;
              grants = insert grant (new_grant grant "upload" id owner (now + ttl)) s.grants;
            })
  unfolding begin_upload issue
  begin_cases ttl now id grant owner content declared sha key s = ground arith

  pub unready : (state : String) → (state ≡ "uploading") ⊎ (state ≡ "deleted") → state ≢ "ready"
  unready state (inl e) = ground (arith, e, str_eq_iff "uploading" "ready")
  unready state (inr e) = ground (arith, e, str_eq_iff "deleted" "ready")

  pub begun-IsSound :
      (id grant owner content sha : String) (declared expires : ℕ) (s : MediaStore)
      → lookup id s.objects ≡ none
      → IsUngranted max_bytes sha_of id s.grants
      → IsSound s
      → IsSound (record s {
        meta = insert id (meta_of id owner content declared sha 1 "uploading") s.meta;
        grants = insert grant (new_grant grant "upload" id owner expires) s.grants;
      })
  begun-IsSound id grant owner content sha declared expires s absent new sound =
      let m = meta_of id owner content declared sha 1 "uploading" in
      let g = new_grant grant "upload" id owner expires in
      (
        λ id'. unready-IsWhole max_bytes sha_of id id' m s (unready "uploading" (inl refl)) sound.0,
        granted-IsAwaited max_bytes sha_of grant g s (inr (inr absent)) sound.1,
        apart_granted max_bytes sha_of grant g s
            (λ j h e u v same.
              elim (ungranted max_bytes sha_of id j h s.grants new e (sym same)) [ ])
            sound.2,
      )

  consume_ok :
      (now : ℕ) (k scope : String) (gs : Grants) (g : GrantRecord)
      → consume now k scope gs ≡ ok g
      → (lookup k gs ≡ some g) × (g.scope ≡ scope)
  unfolding consume
  consume_ok now k scope gs g h = ground (arith, h, str_eq_iff g.scope scope)

  -- What an upload leaves, when its grant is the one that is found.
  pub receive_cases :
      (now : ℕ) (grant : String) (g : GrantRecord) (b : Bytes) (s : MediaStore)
      → lookup grant s.grants ≡ some g
      → ((receive_upload max_bytes sha_of now grant b s).1 ≡ s)
        ⊎ ((g.scope ≡ "upload")
            × (g.used ≡ false)
            × ((receive_upload max_bytes sha_of now grant b s).1 ≡ record s {
              objects = insert g.resource_id b s.objects;
              grants = insert grant (record g { used = true }) s.grants;
            }))
  unfolding receive_upload consume
  receive_cases now grant g b s h = ground (arith, h, str_eq_iff g.scope "upload")

  pub received-IsSound :
      (grant : String) (g : GrantRecord) (b : Bytes) (s : MediaStore)
      → lookup grant s.grants ≡ some g
      → g.scope ≡ "upload"
      → g.used ≡ false
      → IsSound s
      → IsSound (record s {
        objects = insert g.resource_id b s.objects;
        grants = insert grant (record g { used = true }) s.grants;
      })
  received-IsSound grant g b s found up fresh sound =
      let absent : lookup g.resource_id s.objects ≡ none = ground (arith, sound.1 grant g found) in
      (
        λ id'. received-IsWhole max_bytes sha_of g.resource_id id' b s absent sound.0,
        received-IsAwaited max_bytes sha_of grant g b s found up sound.1 sound.2,
        apart_granted max_bytes sha_of grant (record g { used = true }) s
            (λ j h e u v same. sound.2 grant j g h found e u v same) sound.2,
      )
