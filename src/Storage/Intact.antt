-- ===== src/Storage/Intact.antt =====
-- Along any calls of the media store (backend/src/vision_app/storage/local.py), what is ready is what
-- its metadata say.
use vision_app_creator.Prelude.{
  ℕ, String, ◌≡◌, ◌≢◌, ◌⊎◌, true, Option, none, some, List, [], ◌∷◌, arith, string_eq, str_eq_iff,
  lookup, insert, erase, lookup-insert, lookup-erase, All, length,
}
use vision_app_creator.Storage.{GrantRecord, Grants, StoredMetadata}
use vision_app_creator.Storage.Local.{
  Bytes, MediaStore, begin_upload, receive_upload, finalize_upload, put_artifact,
}
use vision_app_creator.Storage.Reading.{issue_read_grant, delete_artifact}

-- A call that may change the store, with the ids that it draws.
pub data Call : Type 0 where
  begins : ℕ → ℕ → String → String → String → String → ℕ → Option String → Option String → Call
  receives : ℕ → String → Bytes → Call
  finalizes : ℕ → String → ℕ → String → Call
  puts : String → String → Bytes → String → Call
  grants_read : ℕ → ℕ → String → String → String → Call
  deletes : String → Option ℕ → Call

module _ (max_bytes : ℕ) (sha_of : Bytes → String) where
  unfoldable pub perform : Call → MediaStore → MediaStore
  unfolding begin_upload receive_upload finalize_upload put_artifact issue_read_grant
      delete_artifact
  perform (begins ttl now id grant owner content declared sha key) s =
      (begin_upload max_bytes sha_of ttl now id grant owner content declared sha key s).1
  perform (receives now grant b) s = (receive_upload max_bytes sha_of now grant b s).1
  perform (finalizes now grant size sha) s =
      (finalize_upload max_bytes sha_of now grant size sha s).1
  perform (puts id owner b content) s = (put_artifact max_bytes sha_of id owner b content s).1
  perform (grants_read ttl now owner id grant) s = (issue_read_grant ttl now owner id grant s).1
  perform (deletes id generation) s = (delete_artifact id generation s).1

  unfoldable pub perform_all : List Call → MediaStore → MediaStore
  unfolding perform
  perform_all [] s = s
  perform_all (c ∷ cs) s = perform_all cs (perform c s)

  -- What is ready is there, with the size and the hash of its metadata.
  abbrev pub IsWhole : Option StoredMetadata → Option Bytes → Type 0
  IsWhole none o = Unit
  IsWhole (some m) none = m.state ≢ "ready"
  IsWhole (some m) (some b) = (m.state ≢ "ready") ⊎ ((length b ≡ m.size) × (sha_of b ≡ m.sha256))

  -- Each unused upload grant has a resource of its own that has no bytes yet.
  abbrev pub IsAwaited : MediaStore → GrantRecord → Type 0
  IsAwaited s g = (g.scope ≢ "upload") ⊎ ((g.used ≡ true) ⊎ (lookup g.resource_id s.objects ≡ none))

  abbrev pub AreWhole : MediaStore → Type 0
  AreWhole s = (id : String) → IsWhole (lookup id s.meta) (lookup id s.objects)

  abbrev pub AreAwaited : MediaStore → Type 0
  AreAwaited s = (k : String) (g : GrantRecord) → lookup k s.grants ≡ some g → IsAwaited s g

  abbrev pub AreApart : MediaStore → Type 0
  AreApart s =
      (k j : String) (g h : GrantRecord)
      → lookup k s.grants ≡ some g
      → lookup j s.grants ≡ some h
      → g.scope ≡ "upload"
      → h.scope ≡ "upload"
      → g.resource_id ≡ h.resource_id
      → k ≡ j

  -- The resource's metadata are written anew, for a state that is not ready.
  pub unready-IsWhole :
      (id id' : String) (m : StoredMetadata) (s : MediaStore)
      → m.state ≢ "ready"
      → AreWhole s
      → IsWhole (lookup id' (insert id m s.meta)) (lookup id' s.objects)
  unready-IsWhole id id' m s h w =
      ground (arith, lookup-insert id id' m s.meta, str_eq_iff id id', w id')

  pub received-IsWhole :
      (id id' : String) (b : Bytes) (s : MediaStore)
      → lookup id s.objects ≡ none
      → AreWhole s
      → IsWhole (lookup id' s.meta) (lookup id' (insert id b s.objects))
  received-IsWhole id id' b s h w =
      ground (arith, lookup-insert id id' b s.objects, str_eq_iff id id', w id')

  pub filled-IsWhole :
      (id id' : String) (m : StoredMetadata) (b : Bytes) (s : MediaStore)
      → lookup id s.objects ≡ some b
      → length b ≡ m.size
      → sha_of b ≡ m.sha256
      → AreWhole s
      → IsWhole (lookup id' (insert id m s.meta)) (lookup id' s.objects)
  filled-IsWhole id id' m b s h l e w =
      ground (arith, lookup-insert id id' m s.meta, str_eq_iff id id', w id')

  pub put-IsWhole :
      (id id' : String) (m : StoredMetadata) (b : Bytes) (s : MediaStore)
      → length b ≡ m.size
      → sha_of b ≡ m.sha256
      → AreWhole s
      → IsWhole (lookup id' (insert id m s.meta)) (lookup id' (insert id b s.objects))
  put-IsWhole id id' m b s l e w = ground (
    arith,
    lookup-insert id id' m s.meta,
    lookup-insert id id' b s.objects,
    str_eq_iff id id',
    w id',
  )

  pub deleted-IsWhole :
      (id id' : String) (m : StoredMetadata) (s : MediaStore)
      → m.state ≢ "ready"
      → AreWhole s
      → IsWhole (lookup id' (insert id m s.meta)) (lookup id' (erase id s.objects))
  deleted-IsWhole id id' m s h w = ground (
    arith,
    lookup-insert id id' m s.meta,
    lookup-erase id id' s.objects,
    str_eq_iff id id',
    w id',
  )

  -- No grant is for the resource.
  abbrev pub IsUngranted : String → Grants → Type 0
  IsUngranted id grants = All (λ p. p.1.resource_id ≢ id) grants

  pub ungranted :
      (id k : String) (g : GrantRecord) (grants : Grants)
      → IsUngranted id grants
      → lookup k grants ≡ some g
      → g.resource_id ≢ id
  unfolding lookup
  ungranted id k g [] h e = ground (arith, e)
  ungranted id k g ((j, x) ∷ grants) h e = ground (arith, ungranted id k g grants h.1)

  pub granted-IsAwaited :
      (k : String) (g : GrantRecord) (s : MediaStore)
      → IsAwaited s g
      → AreAwaited s
      → (k' : String) (g' : GrantRecord) → lookup k' (insert k g s.grants) ≡ some g'
      → IsAwaited s g'
  granted-IsAwaited k g s h a k' g' e =
      ground (arith, lookup-insert k k' g s.grants, str_eq_iff k k', a k' g')

  pub received-IsAwaited :
      (k : String) (g : GrantRecord) (b : Bytes) (s : MediaStore)
      → lookup k s.grants ≡ some g
      → g.scope ≡ "upload"
      → AreAwaited s
      → AreApart s
      → (k' : String) (g' : GrantRecord)
      → lookup k' (insert k (record g { used = true }) s.grants) ≡ some g'
      → (g'.scope ≢ "upload")
        ⊎ ((g'.used ≡ true) ⊎ (lookup g'.resource_id (insert g.resource_id b s.objects) ≡ none))
  received-IsAwaited k g b s h up a apart k' g' e = ground (
    arith,
    lookup-insert k k' (record g { used = true }) s.grants,
    lookup-insert g.resource_id g'.resource_id b s.objects,
    str_eq_iff k k',
    str_eq_iff g.resource_id g'.resource_id,
    a k' g',
    apart k k' g g',
  )

  pub deleted-IsAwaited :
      (id : String) (s : MediaStore) (g : GrantRecord)
      → IsAwaited s g
      → (g.scope ≢ "upload")
        ⊎ ((g.used ≡ true) ⊎ (lookup g.resource_id (erase id s.objects) ≡ none))
  deleted-IsAwaited id s g h = ground (arith, lookup-erase id g.resource_id s.objects)

  pub put-IsAwaited :
      (id : String) (b : Bytes) (s : MediaStore) (g : GrantRecord)
      → g.resource_id ≢ id
      → IsAwaited s g
      → (g.scope ≢ "upload")
        ⊎ ((g.used ≡ true) ⊎ (lookup g.resource_id (insert id b s.objects) ≡ none))
  put-IsAwaited id b s g other h =
      ground (arith, lookup-insert id g.resource_id b s.objects, str_eq_iff id g.resource_id)

  -- A grant whose resource belongs to no other upload grant is written.
  pub apart_granted :
      (k : String) (g : GrantRecord) (s : MediaStore)
      → ((j : String) (h : GrantRecord)
          → lookup j s.grants ≡ some h
          → g.scope ≡ "upload"
          → h.scope ≡ "upload"
          → g.resource_id ≡ h.resource_id
          → k ≡ j)
      → AreApart s
      → (k' j' : String) (g' h' : GrantRecord) → lookup k' (insert k g s.grants) ≡ some g'
      → lookup j' (insert k g s.grants) ≡ some h'
      → g'.scope ≡ "upload"
      → h'.scope ≡ "upload"
      → g'.resource_id ≡ h'.resource_id
      → k' ≡ j'
  apart_granted k g s own apart k' j' g' h' e e' u u' same = ground (
    arith,
    lookup-insert k k' g s.grants,
    lookup-insert k j' g s.grants,
    str_eq_iff k k',
    str_eq_iff k j',
    apart k' j' g' h',
    own k' g',
    own j' h',
  )
