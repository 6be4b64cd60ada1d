-- ===== src/Privacy/HalfCleaned.antt =====
-- What a cleanup of backend/src/vision_app/privacy/service.py that breaks off between two resources
-- leaves behind.
use vision_app_creator.Prelude.{
  ◌+◌, ◌≡◌, ◌≢◌, ◌⊎◌, inl, inr, true, none, some, List, [], ◌∷◌, arith, string_eq, Bool-cases,
}
use vision_app_creator.Privacy.{ResourceRecord, complete, DeletionJob, Repository}
use vision_app_creator.Privacy.Deletion.{Deletions}
use vision_app_creator.Privacy.HardDelete.{cleaned, hard_deleted_of, hard_delete_all, hard_delete}
use vision_app_creator.Privacy.Attempts.{Attempt, cleaned-resources}
use vision_app_creator.Privacy.Cleanup.{alone, try_once, try_all}

module _ {S : Type 0} (repo : Repository S) where
  refused :
      (r : ResourceRecord) (rs : List ResourceRecord) (s : S)
      → repo.revision_of r.kind r.id s ≢ some r.revision
      → ((hard_delete_all repo alone (r ∷ rs) s).0 ≢ none)
        × ((hard_delete_all repo alone (r ∷ rs) s).1 ≡ s)
  unfolding hard_delete_all
  refused r rs s h =
      elim (Bool-cases (repo.compare_and_swap r.kind r.id r.revision (hard_deleted_of r) s).0) [
        | inl e ↦ ground (arith, (repo.swap_iff r.kind r.id r.revision (hard_deleted_of r) s).0 e)
        | inr e ↦
            ground (arith, e, repo.swap-refused r.kind r.id r.revision (hard_deleted_of r) s e)
      ]

  -- The job is not complete, and its first resource is stored with another revision.
  abbrev pub IsStuck : ResourceRecord → List ResourceRecord → DeletionJob → S → Type 0
  IsStuck r rs job s =
      (job.state ≢ complete)
      × (job.resources ≡ r ∷ rs)
      × (repo.revision_of r.kind r.id s ≢ some r.revision)

  once-IsStuck :
      (r : ResourceRecord) (rs : List ResourceRecord) (t : Attempt) (job : DeletionJob)
      (d : Deletions S)
      → IsStuck r rs job d.store
      → IsStuck r rs (try_once repo t job d).0 (try_once repo t job d).1.store
  unfolding hard_delete
  once-IsStuck r rs t job d h = ground (arith, refused r rs d.store h.2, cleaned-resources t job)

  first_swapped :
      (r : ResourceRecord) (rs : List ResourceRecord) (s : S)
      → (repo.compare_and_swap r.kind r.id r.revision (hard_deleted_of r) s).0 ≡ true
      → hard_delete_all repo alone (r ∷ rs) s
        ≡ hard_delete_all repo alone rs
            (repo.compare_and_swap r.kind r.id r.revision (hard_deleted_of r) s).1
  unfolding hard_delete_all
  first_swapped r rs s e = ground (arith, e)

  breaks_off :
      (r q : ResourceRecord) (rs : List ResourceRecord) (s : S)
      → (r.kind ≢ q.kind) ⊎ (r.id ≢ q.id)
      → repo.revision_of r.kind r.id s ≡ some r.revision
      → repo.revision_of q.kind q.id s ≢ some q.revision
      → ((hard_delete_all repo alone (r ∷ q ∷ rs) s).0 ≢ none)
        × (repo.revision_of r.kind r.id (hard_delete_all repo alone (r ∷ q ∷ rs) s).1
            ≡ some (r.revision + 1))
  breaks_off r q rs s apart here moved =
      let v = hard_deleted_of r in
      let next = (repo.compare_and_swap r.kind r.id r.revision v s).1 in
      let e = (repo.swap_iff r.kind r.id r.revision v s).1 here in
      ground (
        arith,
        first_swapped r (q ∷ rs) s e,
        repo.swap-own r.kind r.id r.revision v s e,
        repo.swap-other r.kind r.id r.revision v s q.kind q.id,
        refused q rs next,
      )

  once-breaks_off :
      (r q : ResourceRecord) (rs : List ResourceRecord) (t : Attempt) (job : DeletionJob)
      (d : Deletions S)
      → job.state ≢ complete
      → job.resources ≡ r ∷ q ∷ rs
      → (cleaned t.media t.cleaner t.time job).state ≡ complete
      → (r.kind ≢ q.kind) ⊎ (r.id ≢ q.id)
      → repo.revision_of r.kind r.id d.store ≡ some r.revision
      → repo.revision_of q.kind q.id d.store ≢ some q.revision
      → ((try_once repo t job d).0.state ≢ complete)
        × ((try_once repo t job d).0.resources ≡ r ∷ q ∷ rs)
        × (repo.revision_of r.kind r.id (try_once repo t job d).1.store ≡ some (r.revision + 1))
  unfolding hard_delete
  once-breaks_off r q rs t job d undone e done apart here moved =
      ground (arith, breaks_off r q rs d.store apart here moved, cleaned-resources t job)

  stays_stuck :
      (r : ResourceRecord) (rs : List ResourceRecord) (ts : List Attempt) (job : DeletionJob)
      (d : Deletions S)
      → IsStuck r rs job d.store
      → (try_all repo ts job d).0.state ≢ complete
  unfolding try_all hard_delete
  stays_stuck r rs [] job d h = h.0
  stays_stuck r rs (t ∷ ts) job d h =
      stays_stuck r rs ts (try_once repo t job d).0 (try_once repo t job d).1
        (once-IsStuck r rs t job d h)

  -- A cleanup that breaks off after its first resource can never be completed. At some try the
  -- artifacts are all deleted, the job's first resource is stored as the job has it and the second
  -- one is not. That try fails and moves the first resource on. Whatever is then done to the
  -- repository, if the second resource is put back too, as long as the first one stays, no number
  -- of further tries completes the job.
  pub half_cleaned_is_stuck :
      (r q : ResourceRecord) (rs : List ResourceRecord) (t : Attempt) (ts : List Attempt)
      (job : DeletionJob) (d : Deletions S) (s : S)
      → job.state ≢ complete
      → job.resources ≡ r ∷ q ∷ rs
      → (cleaned t.media t.cleaner t.time job).state ≡ complete
      → (r.kind ≢ q.kind) ⊎ (r.id ≢ q.id)
      → repo.revision_of r.kind r.id d.store ≡ some r.revision
      → repo.revision_of q.kind q.id d.store ≢ some q.revision
      → repo.revision_of r.kind r.id s
        ≡ repo.revision_of r.kind r.id (try_once repo t job d).1.store
      → (try_all repo ts
          (try_once repo t job d).0
          (record (try_once repo t job d).1 { store = s })).0.state
        ≢ complete
  half_cleaned_is_stuck r q rs t ts job d s undone e done apart here moved same =
      let (failed_now, kept_resources, bumped) =
        once-breaks_off r q rs t job d undone e done apart here moved in
      stays_stuck r (q ∷ rs) ts (try_once repo t job d).0
        (record (try_once repo t job d).1 { store = s })
        (failed_now, kept_resources, ground (arith, same, bumped))
