-- ===== src/Storage/Whole.antt =====
-- Along any calls of the media store (backend/src/vision_app/storage/local.py), what is ready is whole.
use vision_app_creator.Prelude.{
  ℕ, ◌+◌, String, ◌≡◌, ◌≢◌, ◌⊎◌, inl, inr, refl, sym, subst, Option, none, List, [], ◌∷◌, arith,
  string_eq, str_eq_iff, lookup, insert, length, Option-cases,
}
use vision_app_creator.Prelude.Results.{ok, err}
use vision_app_creator.Storage.{StorageError, new_grant, issue, consume, StoredMetadata}
use vision_app_creator.Storage.Local.{
  Bytes, MediaStore, no_media, sha_or_none, meta_of, read_meta, receive_upload, put_artifact,
}
use vision_app_creator.Storage.Reading.{issue_read_grant, deleted_store, delete_artifact}
use vision_app_creator.Storage.Intact.{
  Call, begins, receives, finalizes, puts, grants_read, deletes, perform, perform_all, IsWhole,
  IsUngranted, put-IsWhole, deleted-IsWhole, ungranted, granted-IsAwaited, deleted-IsAwaited,
  put-IsAwaited, apart_granted,
}
use vision_app_creator.Storage.Ready.{
  IsSound, DrawsNew, begin_cases, begun-IsSound, receive_cases, received-IsSound, unready,
}
use vision_app_creator.Storage.Finalizing.{Result-cases, finalize-IsSound}

module _ (max_bytes : ℕ) (sha_of : Bytes → String) where
  abbrev Sound : MediaStore → Type 0
  Sound s = IsSound max_bytes sha_of s

  put_cases :
      (id owner : String) (b : Bytes) (content : String) (s : MediaStore)
      → ((put_artifact max_bytes sha_of id owner b content s).1 ≡ s)
        ⊎ ((put_artifact max_bytes sha_of id owner b content s).1 ≡ record s {
          objects = insert id b s.objects;
          meta = insert id (meta_of id owner content (length b) (sha_of b) 1 "ready") s.meta;
        })
  unfolding put_artifact
  put_cases id owner b content s = ground arith

  put-IsSound :
      (id owner content : String) (b : Bytes) (s : MediaStore)
      → IsUngranted max_bytes sha_of id s.grants
      → Sound s
      → Sound (record s {
        objects = insert id b s.objects;
        meta = insert id (meta_of id owner content (length b) (sha_of b) 1 "ready") s.meta;
      })
  put-IsSound id owner content b s new sound =
      let m = meta_of id owner content (length b) (sha_of b) 1 "ready" in
      (
        λ id'. put-IsWhole max_bytes sha_of id id' m b s refl refl sound.0,
        λ k g e.
            put-IsAwaited max_bytes sha_of id b s g
              (ungranted max_bytes sha_of id k g s.grants new e) (sound.1 k g e),
        sound.2,
      )

  grant_cases :
      (ttl now : ℕ) (owner id grant : String) (s : MediaStore)
      → ((issue_read_grant ttl now owner id grant s).1 ≡ s)
        ⊎ ((issue_read_grant ttl now owner id grant s).1 ≡ record s {
          grants = insert grant (new_grant grant "read" id owner (now + ttl)) s.grants;
        })
  unfolding issue_read_grant issue
  grant_cases ttl now owner id grant s = ground arith

  read_is_no_upload : ◌≢◌ {A = String} "read" "upload"
  read_is_no_upload = ground (arith, str_eq_iff "read" "upload")

  granted-IsSound :
      (grant id owner : String) (expires : ℕ) (s : MediaStore)
      → Sound s
      → Sound
          (record s { grants = insert grant (new_grant grant "read" id owner expires) s.grants })
  granted-IsSound grant id owner expires s sound =
      let g = new_grant grant "read" id owner expires in
      (
        sound.0,
        granted-IsAwaited max_bytes sha_of grant g s (inl read_is_no_upload) sound.1,
        apart_granted max_bytes sha_of grant g s (λ j h e u v same. elim (read_is_no_upload u) [ ])
            sound.2,
      )

  delete_cases :
      (id : String) (generation : Option ℕ) (m : StoredMetadata) (s : MediaStore)
      → read_meta id s ≡ ok m
      → ((delete_artifact id generation s).1 ≡ s)
        ⊎ ((delete_artifact id generation s).1 ≡ deleted_store id m s)
  unfolding delete_artifact
  delete_cases id generation m s h = ground (arith, h)

  delete_unread :
      (id : String) (generation : Option ℕ) (x : StorageError) (s : MediaStore)
      → read_meta id s ≡ err x
      → (delete_artifact id generation s).1 ≡ s
  unfolding delete_artifact
  delete_unread id generation x s h = ground (arith, h)

  deleted-IsSound :
      (id : String) (m : StoredMetadata) (s : MediaStore) → Sound s → Sound (deleted_store id m s)
  deleted-IsSound id m s sound =
      let n = meta_of id m.meta_owner m.content_type m.size m.sha256 m.generation "deleted" in
      (
        λ id'.
            deleted-IsWhole max_bytes sha_of id id' n s
              (unready max_bytes sha_of "deleted" (inr refl)) sound.0,
        λ k g e. deleted-IsAwaited max_bytes sha_of id s g (sound.1 k g e),
        sound.2,
      )

  delete-IsSound :
      (id : String) (generation : Option ℕ) (s : MediaStore)
      → Sound s
      → Sound (delete_artifact id generation s).1
  delete-IsSound id generation s sound = elim (Result-cases (read_meta id s)) [
    | inl (x, r) ↦ subst Sound (sym (delete_unread id generation x s r)) sound
    | inr (m, r) ↦ elim (delete_cases id generation m s r) [
      | inl same ↦ subst Sound (sym same) sound
      | inr done ↦ subst Sound (sym done) (deleted-IsSound id m s sound)
    ]
  ]

  receive_ungranted :
      (now : ℕ) (grant : String) (b : Bytes) (s : MediaStore)
      → lookup grant s.grants ≡ none
      → (receive_upload max_bytes sha_of now grant b s).1 ≡ s
  unfolding receive_upload consume
  receive_ungranted now grant b s e = ground (arith, e)

  receive-IsSound :
      (now : ℕ) (grant : String) (b : Bytes) (s : MediaStore)
      → Sound s
      → Sound (receive_upload max_bytes sha_of now grant b s).1
  receive-IsSound now grant b s sound = elim (Option-cases (lookup grant s.grants)) [
    | inl e ↦ subst Sound (sym (receive_ungranted now grant b s e)) sound
    | inr (g, e) ↦ elim (receive_cases max_bytes sha_of now grant g b s e) [
      | inl same ↦ subst Sound (sym same) sound
      | inr (up, fresh, done) ↦
          subst Sound (sym done) (received-IsSound max_bytes sha_of grant g b s e up fresh sound)
    ]
  ]

  perform-IsSound :
      (c : Call) (s : MediaStore)
      → DrawsNew max_bytes sha_of c s
      → Sound s
      → Sound (perform max_bytes sha_of c s)
  unfolding perform
  perform-IsSound (begins ttl now id grant owner content declared sha key) s new sound =
      elim (begin_cases max_bytes sha_of ttl now id grant owner content declared sha key s) [
        | inl same ↦ subst Sound (sym same) sound
        | inr done ↦ subst Sound (sym done) (
            begun-IsSound max_bytes sha_of id grant owner content (sha_or_none sha) declared
              (now + ttl) s new.0 new.1 sound)
      ]
  perform-IsSound (receives now grant b) s new sound = receive-IsSound now grant b s sound
  perform-IsSound (finalizes now grant size sha) s new sound =
      finalize-IsSound max_bytes sha_of now grant size sha s sound
  perform-IsSound (puts id owner b content) s new sound = elim (put_cases id owner b content s) [
    | inl same ↦ subst Sound (sym same) sound
    | inr done ↦ subst Sound (sym done) (put-IsSound id owner content b s new sound)
  ]
  perform-IsSound (grants_read ttl now owner id grant) s new sound =
      elim (grant_cases ttl now owner id grant s) [
        | inl same ↦ subst Sound (sym same) sound
        | inr done ↦ subst Sound (sym done) (granted-IsSound grant id owner (now + ttl) s sound)
      ]
  perform-IsSound (deletes id generation) s new sound = delete-IsSound id generation s sound

  -- Every call draws new ids, in the store that it meets.
  unfoldable pub AllDrawNew : List Call → MediaStore → Type 0
  unfolding perform
  AllDrawNew [] s = Unit
  AllDrawNew (c ∷ cs) s =
      DrawsNew max_bytes sha_of c s × AllDrawNew cs (perform max_bytes sha_of c s)

  all-IsSound :
      (cs : List Call) (s : MediaStore)
      → AllDrawNew cs s
      → Sound s
      → Sound (perform_all max_bytes sha_of cs s)
  unfolding perform_all AllDrawNew
  all-IsSound [] s new sound = sound
  all-IsSound (c ∷ cs) s new sound =
      all-IsSound cs (perform max_bytes sha_of c s) new.1 (perform-IsSound c s new.0 sound)

  none-IsSound : Sound no_media
  unfolding lookup
  none-IsSound = (
    λ id. tt,
    λ k g e. let absurd : ⊥ = ground (arith, e) in elim absurd [ ],
    λ k j g h e f u v same. let absurd : ⊥ = ground (arith, e) in elim absurd [ ],
  )

  -- What is ready is whole: in a store that begins empty, after any calls, failing ones included,
  -- that draw new ids for new resources, every resource that is ready has its bytes, and they have
  -- the size and the hash that its metadata say.
  pub ready-IsWhole :
      (cs : List Call) (id : String)
      → AllDrawNew cs no_media
      → IsWhole max_bytes sha_of
          (lookup id (perform_all max_bytes sha_of cs no_media).meta)
          (lookup id (perform_all max_bytes sha_of cs no_media).objects)
  ready-IsWhole cs id new = (all-IsSound cs no_media new none-IsSound).0 id
