-- ===== src/Storage/Finalizing.antt =====
-- `finalize_upload` of backend/src/vision_app/storage/local.py leaves what is ready whole.
use vision_app_creator.Prelude.{
  ℕ, String, ◌≡◌, ◌⊎◌, inl, inr, refl, ap, sym, subst, ◌∙◌, none, some, arith, string_eq,
  str_eq_iff, lookup, length, Option-cases,
}
use vision_app_creator.Prelude.Results.{Result, ok, err}
use vision_app_creator.Storage.{StorageError, GrantRecord, consume, StoredMetadata}
use vision_app_creator.Storage.Local.{
  Bytes, MediaStore, meta_of, read_meta, ready_store, finalize_upload,
}
use vision_app_creator.Storage.Intact.{filled-IsWhole, granted-IsAwaited, apart_granted}
use vision_app_creator.Storage.Ready.{IsSound}

pub Result-cases :
    {A : Type 0} (r : Result StorageError A)
    → ((e : StorageError) × (r ≡ err e)) ⊎ ((a : A) × (r ≡ ok a))
Result-cases (err e) = inl (e, refl)
Result-cases (ok a) = inr (a, refl)

module _ (max_bytes : ℕ) (sha_of : Bytes → String) where
  finalize_cases :
      (now : ℕ) (grant : String) (g : GrantRecord) (m : StoredMetadata) (b : Bytes) (size : ℕ)
      (sha : String) (s : MediaStore)
      → lookup grant s.grants ≡ some g
      → read_meta g.resource_id s ≡ ok m
      → lookup g.resource_id s.objects ≡ some b
      → ((finalize_upload max_bytes sha_of now grant size sha s).1 ≡ s)
        ⊎ ((g.scope ≡ "upload")
            × (length b ≡ size)
            × (sha_of b ≡ sha)
            × ((finalize_upload max_bytes sha_of now grant size sha s).1
                ≡ ready_store max_bytes sha_of grant g m size sha s))
  unfolding finalize_upload consume
  finalize_cases now grant g m b size sha s found read here =
      ground (arith, found, read, here, str_eq_iff g.scope "upload", str_eq_iff (sha_of b) sha)

  finalized-IsSound :
      (grant : String) (g : GrantRecord) (m : StoredMetadata) (b : Bytes) (s : MediaStore)
      → lookup grant s.grants ≡ some g
      → lookup g.resource_id s.objects ≡ some b
      → IsSound max_bytes sha_of s
      → IsSound max_bytes sha_of (ready_store max_bytes sha_of grant g m (length b) (sha_of b) s)
  finalized-IsSound grant g m b s found here sound =
      let next =
        meta_of g.resource_id m.meta_owner m.content_type (length b) (sha_of b) m.generation
          "ready" in
      let done = record g { result_resource_id = some g.resource_id } in
      (
        λ id'. filled-IsWhole max_bytes sha_of g.resource_id id' next b s here refl refl sound.0,
        granted-IsAwaited max_bytes sha_of grant done s (sound.1 grant g found) sound.1,
        apart_granted max_bytes sha_of grant done s
            (λ j h e u v same. sound.2 grant j g h found e u v same) sound.2,
      )

  finalize_ungranted :
      (now : ℕ) (grant : String) (size : ℕ) (sha : String) (s : MediaStore)
      → lookup grant s.grants ≡ none
      → (finalize_upload max_bytes sha_of now grant size sha s).1 ≡ s
  unfolding finalize_upload consume
  finalize_ungranted now grant size sha s e = ground (arith, e)

  finalize_empty :
      (now : ℕ) (grant : String) (g : GrantRecord) (size : ℕ) (sha : String) (s : MediaStore)
      → lookup grant s.grants ≡ some g
      → lookup g.resource_id s.objects ≡ none
      → (finalize_upload max_bytes sha_of now grant size sha s).1 ≡ s
  unfolding finalize_upload consume
  finalize_empty now grant g size sha s e f = ground (arith, e, f)

  finalize_unread :
      (now : ℕ) (grant : String) (g : GrantRecord) (size : ℕ) (sha : String) (x : StorageError)
      (s : MediaStore)
      → lookup grant s.grants ≡ some g
      → read_meta g.resource_id s ≡ err x
      → (finalize_upload max_bytes sha_of now grant size sha s).1 ≡ s
  unfolding finalize_upload consume
  finalize_unread now grant g size sha x s e r = ground (arith, e, r)

  ready_at :
      (grant : String) (g : GrantRecord) (m : StoredMetadata) (b : Bytes) (size : ℕ) (sha : String)
      (s : MediaStore)
      → length b ≡ size
      → sha_of b ≡ sha
      → ready_store max_bytes sha_of grant g m size sha s
        ≡ ready_store max_bytes sha_of grant g m (length b) (sha_of b) s
  ready_at grant g m b size sha s l h =
      ap (λ n. ready_store max_bytes sha_of grant g m n sha s) (sym l)
      ∙ ap (λ x. ready_store max_bytes sha_of grant g m (length b) x s) (sym h)

  pub finalize-IsSound :
      (now : ℕ) (grant : String) (size : ℕ) (sha : String) (s : MediaStore)
      → IsSound max_bytes sha_of s
      → IsSound max_bytes sha_of (finalize_upload max_bytes sha_of now grant size sha s).1
  finalize-IsSound now grant size sha s sound =
      let after = (finalize_upload max_bytes sha_of now grant size sha s).1 in
      let keep : after ≡ s → IsSound max_bytes sha_of after =
        λ e. subst (λ st. IsSound max_bytes sha_of st) (sym e) sound in
      elim (Option-cases (lookup grant s.grants)) [
        | inl e ↦ keep (finalize_ungranted now grant size sha s e)
        | inr (g, e) ↦ elim (Option-cases (lookup g.resource_id s.objects)) [
          | inl f ↦ keep (finalize_empty now grant g size sha s e f)
          | inr (b, f) ↦ elim (Result-cases (read_meta g.resource_id s)) [
            | inl (x, r) ↦ keep (finalize_unread now grant g size sha x s e r)
            | inr (m, r) ↦ elim (finalize_cases now grant g m b size sha s e r f) [
              | inl same ↦ keep same
              | inr (up, l, h, done) ↦
                  subst (λ st. IsSound max_bytes sha_of st)
                    (sym (done ∙ ready_at grant g m b size sha s l h))
                    (finalized-IsSound grant g m b s e f sound)
            ]
          ]
        ]
      ]
