-- ===== src/Privacy/Recorded.antt =====
-- `tombstone` of backend/src/vision_app/privacy/service.py keeps a job only of resources that the
-- service remembers as deleted.
use vision_app_creator.Prelude.{
  ℕ, String, ◌≡◌, refl, subst, Option, none, some, List, arith, string_eq, pair_eq, Dict, lookup,
  insert, lookup-insert, All, ◌==◌, inl, inr, Bool-cases,
}
use vision_app_creator.Prelude.Results.{Result, ok, err}
use vision_app_creator.Privacy.{
  PrivacyError, ResourceRecord, Name, CleanupGraph, DeletionJob, Repository,
}
use vision_app_creator.Privacy.Deletion.{
  Deletions, tombstone_all, new_job, keep_job, reuse_or, tombstone, job_id,
}
use vision_app_creator.Privacy.Fencing.{
  IsGone, Remembers, Extends, tombstoned-Extends, tombstoned-IsGone, All-Extends,
}

module _ {S : Type 0} (repo : Repository S) (digest : String → String) where
  -- The resources of every job that is kept are remembered as deleted.
  abbrev pub AreRecorded : Deletions S → Type 0
  AreRecorded d =
      (id : String) (job : DeletionJob)
      → lookup id d.jobs ≡ some job
      → All (IsGone d.deleted_generations) job.resources

  recorded_before : (a b : Deletions S) → Extends repo a b → AreRecorded a → AreRecorded b
  recorded_before a b h before id job found =
      All-Extends repo a b job.resources h (before id job (ground (arith, h.1, found)))

  pub inserted_recorded :
      (gone : Dict Name ℕ) (jobs : Dict String DeletionJob) (id : String) (kept_job : DeletionJob)
      → All (IsGone gone) kept_job.resources
      → ((i : String) (j : DeletionJob) → lookup i jobs ≡ some j → All (IsGone gone) j.resources)
      → (i : String) (j : DeletionJob) → lookup i (insert id kept_job jobs) ≡ some j
      → All (IsGone gone) j.resources
  inserted_recorded gone jobs id kept_job h before i j found = elim (Bool-cases (id == i)) [
    | inl e ↦
        let same : kept_job ≡ j = ground (arith, lookup-insert id i kept_job jobs, e, found) in
        subst (λ k. All (IsGone gone) k.resources) same h
    | inr e ↦ before i j (ground (arith, lookup-insert id i kept_job jobs, e, found))
  ]

  module _ (between : Name → S → S) (w by : String) (now : ℕ) (graph : CleanupGraph) where
    keep_job-AreRecorded :
        (id : String) (d : Deletions S)
        (p : Result PrivacyError (List ResourceRecord) × Deletions S)
        → AreRecorded d
        → Extends repo d p.1
        → ((ts : List ResourceRecord) → p.0 ≡ ok ts → All (IsGone p.1.deleted_generations) ts)
        → AreRecorded (keep_job repo between w by now id graph p).1
    keep_job-AreRecorded id d (err e, next) before h gone = recorded_before d next h before
    keep_job-AreRecorded id d (ok ts, next) before h gone =
        inserted_recorded next.deleted_generations next.jobs id
          (new_job repo between w by now id graph ts) (gone ts refl)
          (recorded_before d next h before)

    keep_job-IsGone :
        (id : String) (p : Result PrivacyError (List ResourceRecord) × Deletions S)
        (job : DeletionJob)
        → ((ts : List ResourceRecord) → p.0 ≡ ok ts → All (IsGone p.1.deleted_generations) ts)
        → (keep_job repo between w by now id graph p).0 ≡ ok job
        → All
            (IsGone (keep_job repo between w by now id graph p).1.deleted_generations)
            job.resources
    keep_job-IsGone id (err e, next) job gone h =
        let absurd : ⊥ = ground (arith, h) in elim absurd [ ]
    keep_job-IsGone id (ok ts, next) job gone h =
        let same : new_job repo between w by now id graph ts ≡ job = ground (arith, h) in
        subst (λ k. All (IsGone next.deleted_generations) k.resources) same (gone ts refl)

    keep_job-Remembers :
        (id : String) (p : Result PrivacyError (List ResourceRecord) × Deletions S) (name : Name)
        → Remembers p.1.deleted_generations name
        → Remembers (keep_job repo between w by now id graph p).1.deleted_generations name
    keep_job-Remembers id (err e, next) name h = h
    keep_job-Remembers id (ok ts, next) name h = h

    reuse_or-AreRecorded :
        (o : Option DeletionJob) (d : Deletions S)
        (fresh : Result PrivacyError DeletionJob × Deletions S)
        → AreRecorded d
        → AreRecorded fresh.1
        → AreRecorded (reuse_or repo between w by now o d fresh).1
    reuse_or-AreRecorded (some job) d fresh h k = h
    reuse_or-AreRecorded none d fresh h k = k

    reuse_or-Remembers :
        (o : Option DeletionJob) (d : Deletions S)
        (fresh : Result PrivacyError DeletionJob × Deletions S) (name : Name)
        → Remembers d.deleted_generations name
        → Remembers fresh.1.deleted_generations name
        → Remembers (reuse_or repo between w by now o d fresh).1.deleted_generations name
    reuse_or-Remembers (some job) d fresh name h k = h
    reuse_or-Remembers none d fresh name h k = k

    reuse_or-IsGone :
        (o : Option DeletionJob) (d : Deletions S)
        (fresh : Result PrivacyError DeletionJob × Deletions S) (job : DeletionJob)
        → ((j : DeletionJob) → o ≡ some j → All (IsGone d.deleted_generations) j.resources)
        → (fresh.0 ≡ ok job → All (IsGone fresh.1.deleted_generations) job.resources)
        → (reuse_or repo between w by now o d fresh).0 ≡ ok job
        → All
            (IsGone (reuse_or repo between w by now o d fresh).1.deleted_generations)
            job.resources
    reuse_or-IsGone (some j) d fresh job h k e =
        let same : j ≡ job = ground (arith, e) in
        subst (λ k. All (IsGone d.deleted_generations) k.resources) same (h j refl)
    reuse_or-IsGone none d fresh job h k e = k e

    pub tombstone-AreRecorded :
        (d : Deletions S)
        → AreRecorded d
        → AreRecorded (tombstone repo between w by now digest graph d).1
    unfolding tombstone
    tombstone-AreRecorded d h =
        let id = job_id digest w graph.resources in
        let p = tombstone_all repo between w by now graph.resources d in
        reuse_or-AreRecorded (lookup id d.jobs) d (keep_job repo between w by now id graph p) h (
          keep_job-AreRecorded id d p h (tombstoned-Extends repo between w by now graph.resources d)
            (tombstoned-IsGone repo between w by now graph.resources d))

    pub tombstone-Remembers :
        (d : Deletions S) (name : Name)
        → Remembers d.deleted_generations name
        → Remembers (tombstone repo between w by now digest graph d).1.deleted_generations name
    unfolding tombstone
    tombstone-Remembers d name h =
        let id = job_id digest w graph.resources in
        let p = tombstone_all repo between w by now graph.resources d in
        reuse_or-Remembers (lookup id d.jobs) d (keep_job repo between w by now id graph p) name h (
          keep_job-Remembers id p name
            ((tombstoned-Extends repo between w by now graph.resources d).0 name h))

    pub tombstone-IsGone :
        (d : Deletions S) (job : DeletionJob)
        → AreRecorded d
        → (tombstone repo between w by now digest graph d).0 ≡ ok job
        → All
            (IsGone (tombstone repo between w by now digest graph d).1.deleted_generations)
            job.resources
    unfolding tombstone
    tombstone-IsGone d job h e =
        let id = job_id digest w graph.resources in
        let p = tombstone_all repo between w by now graph.resources d in
        reuse_or-IsGone (lookup id d.jobs) d (keep_job repo between w by now id graph p) job
          (λ j found. h id j found)
          (keep_job-IsGone id p job (tombstoned-IsGone repo between w by now graph.resources d)) e
