-- ===== src/Storage/Uploading.antt =====
-- From an upload to a download (backend/src/vision_app/storage/local.py).
use vision_app_creator.Prelude.{
  ℕ, ◌+◌, ◌≤◌, String, ◌≡◌, ◌≢◌, ◌⊎◌, inl, inr, refl, ap, ◌∙◌, true, none, some, arith, string_eq,
  str_eq_iff, insert, lookup-insert_self, length,
}
use vision_app_creator.Prelude.Results.{ok}
use vision_app_creator.Storage.{
  GrantRecord, Grants, new_grant, issue, consume, StoredMetadata, is_hex_text, is_valid_metadata,
}
use vision_app_creator.Storage.Local.{
  Bytes, MediaStore, size_allowed, no_sha, meta_of, read_meta, begin_upload, receive_upload,
  check_upload, ready_store, finalize_checked, finalize_meta, finalize_found, finalize_upload,
}
use vision_app_creator.Storage.Reading.{
  grant_read, issue_read_grant, bytes_of, read_ready, read_granted, read,
}

consume-insert :
    (now : ℕ) (k scope : String) (g : GrantRecord) (gs : Grants)
    → now ≤ g.expires_at
    → g.scope ≡ scope
    → consume now k scope (insert k g gs) ≡ ok g
unfolding consume
consume-insert now k scope g gs h e =
    ground (arith, lookup-insert_self k g gs, str_eq_iff g.scope scope)

read_meta-insert :
    (id : String) (m : StoredMetadata) (s : MediaStore)
    → is_valid_metadata m ≡ true
    → read_meta id (record s { meta = insert id m s.meta }) ≡ ok m
unfolding read_meta
read_meta-insert id m s h = ground (arith, lookup-insert_self id m s.meta)

-- The metadata that an upload of an owner goes through.
meta-IsValid :
    (id owner content sha state : String) (size : ℕ)
    → owner ≢ ""
    → content ≢ ""
    → is_hex_text 64 sha ≡ true
    → (state ≡ "uploading") ⊎ (state ≡ "ready")
    → is_valid_metadata (meta_of id owner content size sha 1 state) ≡ true
unfolding is_valid_metadata
meta-IsValid id owner content sha state size h k hex (inl e) =
    ground (arith, e, str_eq_iff owner "", str_eq_iff content "", str_eq_iff state "uploading")
meta-IsValid id owner content sha state size h k hex (inr e) =
    ground (arith, e, str_eq_iff owner "", str_eq_iff content "", str_eq_iff state "ready")

no_sha-IsHex : is_hex_text 64 no_sha ≡ true
unfolding is_hex_text
no_sha-IsHex = refl

module _ (max_bytes : ℕ) (sha_of : Bytes → String) (id owner content up : String) (b : Bytes)
    (s : MediaStore) (named : owner ≢ "") (typed : content ≢ "")
    (hex : is_hex_text 64 (sha_of b) ≡ true)
    (sized : size_allowed max_bytes (length b) ≡ true) where
  abbrev reserved_meta : StoredMetadata
  reserved_meta = meta_of id owner content (length b) no_sha 1 "uploading"

  abbrev ready_meta : StoredMetadata
  ready_meta = meta_of id owner content (length b) (sha_of b) 1 "ready"

  -- The store after `begin_upload`, `receive_upload` and `finalize_upload`.
  abbrev begun : ℕ → MediaStore
  begun expires = record s {
    meta = insert id reserved_meta s.meta;
    grants = insert up (new_grant up "upload" id owner expires) s.grants;
  }

  abbrev filled : ℕ → MediaStore
  filled expires = record (begun expires) {
    objects = insert id b s.objects;
    grants =
        insert up (record (new_grant up "upload" id owner expires) { used = true })
          (begun expires).grants;
  }

  begin_state :
      (ttl now : ℕ)
      → (begin_upload max_bytes sha_of ttl now id up owner content (length b) none none s).1
        ≡ begun (now + ttl)
  unfolding begin_upload issue
  begin_state ttl now = ground (arith, sized)

  receive_state :
      (expires now : ℕ)
      → now ≤ expires
      → (receive_upload max_bytes sha_of now up b (begun expires)).1 ≡ filled expires
  unfolding receive_upload
  receive_state expires now h = ground (
    arith,
    sized,
    consume-insert now up "upload" (new_grant up "upload" id owner expires) s.grants,
  )

  abbrev used_grant : ℕ → GrantRecord
  used_grant expires = record (new_grant up "upload" id owner expires) { used = true }

  check_passes : check_upload max_bytes sha_of reserved_meta (length b) (sha_of b) (some b) ≡ ok tt
  check_passes = ground (arith, sized, str_eq_iff (sha_of b) (sha_of b), str_eq_iff no_sha no_sha)

  finalize_state :
      (expires now : ℕ)
      → now ≤ expires
      → (finalize_upload max_bytes sha_of now up (length b) (sha_of b) (filled expires)).1
        ≡ ready_store max_bytes sha_of up
            (record (new_grant up "upload" id owner expires) { used = true })
            reserved_meta
            (length b)
            (sha_of b)
            (filled expires)
  unfolding finalize_upload
  finalize_state expires now h =
      let g = used_grant expires in
      let f = filled expires in
      let m = reserved_meta in
      let valid =
        meta-IsValid id owner content no_sha "uploading" (length b) named typed no_sha-IsHex
          (inl refl) in
      ap (λ c. (finalize_found max_bytes sha_of up (length b) (sha_of b) c f).1)
        (consume-insert now up "upload" g (begun expires).grants h refl)
      ∙ ap (λ r. (finalize_meta max_bytes sha_of up g (length b) (sha_of b) r f).1)
          (read_meta-insert id m (record f { meta = s.meta }) valid)
      ∙ ap
          (λ o.
            (finalize_checked max_bytes sha_of up g m (length b) (sha_of b)
              (check_upload max_bytes sha_of m (length b) (sha_of b) o) f).1)
          (lookup-insert_self id b s.objects)
      ∙ ap (λ c. (finalize_checked max_bytes sha_of up g m (length b) (sha_of b) c f).1)
          check_passes

  abbrev finished : ℕ → MediaStore
  finished expires =
      ready_store max_bytes sha_of up (used_grant expires) reserved_meta (length b) (sha_of b)
        (filled expires)

  abbrev granted : ℕ → String → ℕ → MediaStore
  granted expires rd until = record (finished expires) {
    grants = insert rd (new_grant rd "read" id owner until) (finished expires).grants;
  }

  ready-IsValid : is_valid_metadata ready_meta ≡ true
  ready-IsValid =
      meta-IsValid id owner content (sha_of b) "ready" (length b) named typed hex (inr refl)

  grant_state :
      (expires : ℕ) (rd : String) (ttl now : ℕ)
      → (issue_read_grant ttl now owner id rd (finished expires)).1 ≡ granted expires rd (now + ttl)
  unfolding issue_read_grant issue
  grant_state expires rd ttl now =
      ap (λ r. (grant_read ttl now owner id rd r (finished expires)).1)
        (read_meta-insert id ready_meta (record (finished expires) { meta = (filled expires).meta })
          ready-IsValid)
      ∙ ground (arith, str_eq_iff owner owner)

  read_state :
      (expires : ℕ) (rd : String) (until now : ℕ)
      → now ≤ until
      → read now rd (granted expires rd until) ≡ ok b
  unfolding read
  read_state expires rd until now h =
      let r = granted expires rd until in
      ap (λ c. read_granted c r)
        (consume-insert now rd "read" (new_grant rd "read" id owner until) (finished expires).grants
          h refl)
      ∙ ap (λ m. read_ready id m r)
          (read_meta-insert id ready_meta (record r { meta = (filled expires).meta }) ready-IsValid)
      ∙ ap (λ o. bytes_of o) (lookup-insert_self id b s.objects)

  -- What is uploaded is what is read: an upload that is begun with the size of its bytes, received
  -- and finalized with their size and hash while its grant lasts, can be read by its owner with a
  -- read grant while that lasts, and gives back the bytes. The owner and the content type are not
  -- empty, the size is allowed, and the hash has 64 hexadecimal digits.
  pub upload_reads_back :
      (ttl t0 t1 t2 t3 ttl_read t4 : ℕ) (rd : String)
      → t1 ≤ t0 + ttl
      → t2 ≤ t0 + ttl
      → t4 ≤ t3 + ttl_read
      → read t4 rd
          (issue_read_grant ttl_read t3 owner id rd
            (finalize_upload max_bytes sha_of t2 up
              (length b)
              (sha_of b)
              (receive_upload max_bytes sha_of t1 up b
                (begin_upload max_bytes sha_of ttl t0 id up owner content
                  (length b)
                  none
                  none
                  s).1).1).1).1
        ≡ ok b
  upload_reads_back ttl t0 t1 t2 t3 ttl_read t4 rd a c e =
      let finalized : MediaStore → MediaStore =
        λ st. (finalize_upload max_bytes sha_of t2 up (length b) (sha_of b) st).1 in
      let shared : MediaStore → MediaStore =
        λ st. (issue_read_grant ttl_read t3 owner id rd st).1 in
      ap (λ st. read t4 rd (shared (finalized (receive_upload max_bytes sha_of t1 up b st).1)))
        (begin_state ttl t0)
      ∙ ap (λ st. read t4 rd (shared (finalized st))) (receive_state (t0 + ttl) t1 a)
      ∙ ap (λ st. read t4 rd (shared st)) (finalize_state (t0 + ttl) t2 c)
      ∙ ap (λ st. read t4 rd st) (grant_state (t0 + ttl) rd ttl_read t3)
      ∙ read_state (t0 + ttl) rd (t3 + ttl_read) t4 e
