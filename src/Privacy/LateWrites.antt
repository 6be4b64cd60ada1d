-- ===== src/Privacy/LateWrites.antt =====
-- Histories of `DeletionService` (backend/src/vision_app/privacy/service.py) among other writers of
-- its repository, and what a late writer meets in them.
use vision_app_creator.Prelude.{
  ℕ, String, ◌≡◌, refl, sym, subst, ◌∙◌, Option, none, some, List, [], ◌∷◌, arith, string_eq,
  pair_eq, Dict, lookup, contains, IsIn, All, All-IsIn, inl, inr, Option-cases,
}
use vision_app_creator.Prelude.Results.{ok, err}
use vision_app_creator.Privacy.{
  generation_mismatch, ResourceRecord, Name, CleanupGraph, DeletionJob, Repository, pending, failed,
  complete, CleanupState,
}
use vision_app_creator.Privacy.Deletion.{Deletions, name_of, tombstone, write_if_current}
use vision_app_creator.Privacy.HardDelete.{
  cleaned, settle, keep_result, hard_delete, unless_complete,
}
use vision_app_creator.Privacy.Fencing.{IsGone, Remembers}
use vision_app_creator.Privacy.Attempts.{cleaned-resources}
use vision_app_creator.Privacy.Recorded.{
  AreRecorded, inserted_recorded, tombstone-AreRecorded, tombstone-Remembers, tombstone-IsGone,
}

-- A call, with what other writers do during it; `hard_delete` is given a job that the service keeps.
pub data Call (S : Type 0) : Type 0 where
  tombstones : (Name → S → S) → String → String → ℕ → CleanupGraph → Call S
  writes : (Name → S → S) → String → Name → ℕ → Dict String String → Call S
  hard_deletes :
      (Name → S → S) → (String × ℕ → Option String) → (String → Option String) → ℕ → String → Call S
  others : (S → S) → Call S

-- A service when it is made.
abbrev pub no_deletions : {S : Type 0} → S → Deletions S
no_deletions start = record { jobs = []; deleted_generations = []; store = start }

module _ {S : Type 0} (repo : Repository S) (digest : String → String) where
  abbrev delete_kept :
      (Name → S → S)
      → (String × ℕ → Option String)
      → (String → Option String)
      → ℕ
      → Option DeletionJob
      → Deletions S
      → Deletions S
  delete_kept between media cleaner now none d = d
  delete_kept between media cleaner now (some job) d =
      (hard_delete repo media cleaner now between job d).1

  unfoldable pub perform : Call S → Deletions S → Deletions S
  unfolding tombstone write_if_current hard_delete lookup
  perform (tombstones between w by now graph) d = (tombstone repo between w by now digest graph d).1
  perform (writes between w name g content) d = (write_if_current repo between w name g content d).1
  perform (hard_deletes between media cleaner now id) d =
      delete_kept between media cleaner now (lookup id d.jobs) d
  perform (others f) d = record d { store = f d.store }

  unfoldable pub perform_all : List (Call S) → Deletions S → Deletions S
  unfolding perform
  perform_all [] d = d
  perform_all (c ∷ cs) d = perform_all cs (perform c d)

  written-same :
      (between : Name → S → S) (w : String) (name : Name) (g : ℕ) (content : Dict String String)
      (d : Deletions S)
      → ((write_if_current repo between w name g content d).1.deleted_generations
          ≡ d.deleted_generations)
        × ((write_if_current repo between w name g content d).1.jobs ≡ d.jobs)
  unfolding write_if_current
  written-same between w (kind, id) g content d = ground arith

  settle-resources :
      (between : Name → S → S) (result : DeletionJob) (s : S)
      → (settle repo between result s).0.resources ≡ result.resources
  settle-resources between result s = ground arith

  hard-same :
      (between : Name → S → S) (media : String × ℕ → Option String)
      (cleaner : String → Option String) (now : ℕ) (job : DeletionJob) (d : Deletions S)
      → (hard_delete repo media cleaner now between job d).1.deleted_generations
        ≡ d.deleted_generations
  unfolding hard_delete
  hard-same between media cleaner now job d = ground arith

  keep_result-AreRecorded :
      (result : DeletionJob) (s : S) (d : Deletions S)
      → All (IsGone d.deleted_generations) result.resources
      → AreRecorded repo digest d
      → AreRecorded repo digest (keep_result repo (result, s) d).1
  keep_result-AreRecorded result s d gone h =
      inserted_recorded repo digest d.deleted_generations d.jobs result.id result gone h

  unless_complete-AreRecorded :
      (st : CleanupState) (here after : DeletionJob × Deletions S)
      → AreRecorded repo digest here.1
      → AreRecorded repo digest after.1
      → AreRecorded repo digest (unless_complete st here after).1
  unless_complete-AreRecorded complete here after h k = h
  unless_complete-AreRecorded pending here after h k = k
  unless_complete-AreRecorded failed here after h k = k

  hard-AreRecorded :
      (between : Name → S → S) (media : String × ℕ → Option String)
      (cleaner : String → Option String) (now : ℕ) (job : DeletionJob) (d : Deletions S)
      → All (IsGone d.deleted_generations) job.resources
      → AreRecorded repo digest d
      → AreRecorded repo digest (hard_delete repo media cleaner now between job d).1
  unfolding hard_delete
  hard-AreRecorded between media cleaner now job d gone h =
      let next = cleaned media cleaner now job in
      let kept_resources = settle-resources between next d.store in
      let same : (settle repo between next d.store).0.resources ≡ job.resources =
        kept_resources
        ∙ cleaned-resources (record { time = now; media = media; cleaner = cleaner }) job in
      unless_complete-AreRecorded job.state (job, d)
        (keep_result repo (settle repo between next d.store) d) h
        (keep_result-AreRecorded (settle repo between next d.store).0
          (settle repo between next d.store).1 d
          (subst (λ rs. All (IsGone d.deleted_generations) rs) (sym same) gone) h)

  delete_kept-AreRecorded :
      (between : Name → S → S) (media : String × ℕ → Option String)
      (cleaner : String → Option String) (now : ℕ) (o : Option DeletionJob) (d : Deletions S)
      → ((job : DeletionJob) → o ≡ some job → All (IsGone d.deleted_generations) job.resources)
      → AreRecorded repo digest d
      → AreRecorded repo digest (delete_kept between media cleaner now o d)
  delete_kept-AreRecorded between media cleaner now none d gone h = h
  delete_kept-AreRecorded between media cleaner now (some job) d gone h =
      hard-AreRecorded between media cleaner now job d (gone job refl) h

  delete_kept-same :
      (between : Name → S → S) (media : String × ℕ → Option String)
      (cleaner : String → Option String) (now : ℕ) (o : Option DeletionJob) (d : Deletions S)
      → (delete_kept between media cleaner now o d).deleted_generations ≡ d.deleted_generations
  delete_kept-same between media cleaner now none d = refl
  delete_kept-same between media cleaner now (some job) d =
      hard-same between media cleaner now job d

  -- One call keeps the record of deletions, and forgets none.
  perform-AreRecorded :
      (c : Call S) (d : Deletions S)
      → AreRecorded repo digest d
      → AreRecorded repo digest (perform c d)
  unfolding perform
  perform-AreRecorded (tombstones between w by now graph) d h =
      tombstone-AreRecorded repo digest between w by now graph d h
  perform-AreRecorded (writes between w name g content) d h =
      let (gone, jobs) = written-same between w name g content d in
      λ id job found.
        subst (λ m. All (IsGone m) job.resources) (sym gone)
          (h id job (ground (arith, jobs, found)))
  perform-AreRecorded (hard_deletes between media cleaner now id) d h =
      delete_kept-AreRecorded between media cleaner now (lookup id d.jobs) d (λ job e. h id job e) h
  perform-AreRecorded (others f) d h = h

  perform-Remembers :
      (c : Call S) (d : Deletions S) (name : Name)
      → Remembers d.deleted_generations name
      → Remembers (perform c d).deleted_generations name
  unfolding perform
  perform-Remembers (tombstones between w by now graph) d name h =
      tombstone-Remembers repo digest between w by now graph d name h
  perform-Remembers (writes between w other g content) d name h =
      subst (λ m. Remembers m name) (sym (written-same between w other g content d).0) h
  perform-Remembers (hard_deletes between media cleaner now id) d name h =
      subst (λ m. Remembers m name)
        (sym (delete_kept-same between media cleaner now (lookup id d.jobs) d)) h
  perform-Remembers (others f) d name h = h

  all-AreRecorded :
      (cs : List (Call S)) (d : Deletions S)
      → AreRecorded repo digest d
      → AreRecorded repo digest (perform_all cs d)
  unfolding perform_all
  all-AreRecorded [] d h = h
  all-AreRecorded (c ∷ cs) d h = all-AreRecorded cs (perform c d) (perform-AreRecorded c d h)

  all-Remembers :
      (cs : List (Call S)) (d : Deletions S) (name : Name)
      → Remembers d.deleted_generations name
      → Remembers (perform_all cs d).deleted_generations name
  unfolding perform_all
  all-Remembers [] d name h = h
  all-Remembers (c ∷ cs) d name h =
      all-Remembers cs (perform c d) name (perform-Remembers c d name h)

  write-Remembers :
      (between : Name → S → S) (w : String) (name : Name) (expected : ℕ)
      (content : Dict String String) (d : Deletions S)
      → Remembers d.deleted_generations name
      → (g : ℕ) × (write_if_current repo between w name expected content d
          ≡ (err (generation_mismatch expected g), d))
  unfolding write_if_current contains
  write-Remembers between w (kind, id) expected content d h =
      elim (Option-cases (lookup {K = Name} (kind, id) d.deleted_generations)) [
        | inl e ↦ let absurd : ⊥ = ground (arith, h, e) in elim absurd [ ]
        | inr (g, e) ↦ (g, ground (arith, e))
      ]

  none_recorded : (start : S) → AreRecorded repo digest (no_deletions start)
  unfolding lookup
  none_recorded start id job h = let absurd : ⊥ = ground (arith, h) in elim absurd [ ]

  -- What is deleted stays deleted for late writers. In a service that has begun with no deletion,
  -- once `tombstone` has answered with a job, whatever calls and foreign writes come before and
  -- after, a write to a resource of the job is refused with a generation mismatch, whichever
  -- generation the writer expects, and changes nothing.
  pub late_write_is_refused :
      (before after : List (Call S)) (start : S) (between : Name → S → S) (w by : String) (now : ℕ)
      (graph : CleanupGraph) (job : DeletionJob) (r : ResourceRecord) (writer : String)
      (expected : ℕ) (content : Dict String String)
      → (tombstone repo between w by now digest graph (perform_all before (no_deletions start))).0
        ≡ ok job
      → IsIn r job.resources
      → (g : ℕ) × (write_if_current repo between writer (name_of r) expected content (
            perform_all after
              (tombstone repo between w by now digest graph
                (perform_all before (no_deletions start))).1)
          ≡ (
            err (generation_mismatch expected g),
            perform_all after
                (tombstone repo between w by now digest graph
                  (perform_all before (no_deletions start))).1,
          ))
  late_write_is_refused before after start between w by now graph job r writer expected content h
        m =
      let d = perform_all before (no_deletions start) in
      let recorded = all-AreRecorded before (no_deletions start) (none_recorded start) in
      let gone = tombstone-IsGone repo digest between w by now graph d job recorded h in
      let deleted = (tombstone repo between w by now digest graph d).1 in
      write-Remembers between writer (name_of r) expected content (perform_all after deleted) (
        all-Remembers after deleted (name_of r)
          (All-IsIn (IsGone deleted.deleted_generations) r job.resources gone m))
