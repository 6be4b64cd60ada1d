-- ===== src/Privacy/Cleanup.antt =====
-- Whether `hard_delete` of backend/src/vision_app/privacy/service.py comes to an end when it is
-- tried again and again.
use vision_app_creator.Prelude.{
  ◌≡◌, ◌≢◌, refl, sym, subst, ◌⊎◌, inl, inr, none, some, List, [], ◌∷◌, arith, string_eq,
}
use vision_app_creator.Privacy.{ResourceRecord, Name, complete, DeletionJob, Repository}
use vision_app_creator.Privacy.Deletion.{Deletions}
use vision_app_creator.Privacy.HardDelete.{hard_deleted_of, hard_delete_all, cleaned, hard_delete}
use vision_app_creator.Privacy.Attempts.{
  Attempt, IsClean, IsDoable, state_cases, cleaned-IsDoable, cleaned-IsClean, cleaned_at_last,
  cleaned-resources,
}

abbrev pub alone : {S : Type 0} → Name → S → S
alone name s = s

module _ {S : Type 0} (repo : Repository S) where
  -- One try after another, among no other writers.
  unfoldable pub try_all : List Attempt → DeletionJob → Deletions S → DeletionJob × Deletions S
  unfolding hard_delete
  try_all [] job d = (job, d)
  try_all (t ∷ ts) job d =
      let (next, d') = hard_delete repo t.media t.cleaner t.time alone job d in try_all ts next d'

  -- The tombstones are stored as the job has them, each under its own name.
  unfoldable pub AreStored : List ResourceRecord → S → Type 0
  AreStored [] s = Unit
  AreStored (r ∷ rs) s = (repo.revision_of r.kind r.id s ≡ some r.revision) × AreStored rs s

  unfoldable pub Apart : ResourceRecord → List ResourceRecord → Type 0
  Apart r [] = Unit
  Apart r (q ∷ rs) = ((r.kind ≢ q.kind) ⊎ (r.id ≢ q.id)) × Apart r rs

  unfoldable pub AllApart : List ResourceRecord → Type 0
  unfolding Apart
  AllApart [] = Unit
  AllApart (r ∷ rs) = Apart r rs × AllApart rs

  swap-AreStored :
      (r : ResourceRecord) (v : ResourceRecord) (rs : List ResourceRecord) (s : S)
      → Apart r rs
      → AreStored rs s
      → AreStored rs (repo.compare_and_swap r.kind r.id r.revision v s).1
  unfolding AreStored Apart
  swap-AreStored r v [] s a h = tt
  swap-AreStored r v (q ∷ rs) s a h = ground (
    arith,
    repo.swap-other r.kind r.id r.revision v s q.kind q.id,
    swap-AreStored r v rs s a.1 h.1,
  )

  hard_delete_all-AreStored :
      (rs : List ResourceRecord) (s : S)
      → AllApart rs
      → AreStored rs s
      → (hard_delete_all repo alone rs s).0 ≡ none
  unfolding AreStored AllApart hard_delete_all
  hard_delete_all-AreStored [] s a h = refl
  hard_delete_all-AreStored (r ∷ rs) s a h =
      let v = hard_deleted_of r in
      let e = (repo.swap_iff r.kind r.id r.revision v s).1 h.0 in
      let rest =
        hard_delete_all-AreStored rs (repo.compare_and_swap r.kind r.id r.revision v s).1 a.1
          (swap-AreStored r v rs s a.0 h.1) in
      ground (arith, e, rest)

  abbrev pub try_once : Attempt → DeletionJob → Deletions S → DeletionJob × Deletions S
  try_once t job d = hard_delete repo t.media t.cleaner t.time alone job d

  pub try_next :
      (t : Attempt) (ts : List Attempt) (job : DeletionJob) (d : Deletions S)
      → try_all (t ∷ ts) job d ≡ try_all ts (try_once t job d).0 (try_once t job d).1
  unfolding try_all
  try_next t ts job d = refl

  once_complete :
      (t : Attempt) (job : DeletionJob) (d : Deletions S)
      → job.state ≡ complete
      → (try_once t job d).0 ≡ job
  unfolding hard_delete
  once_complete t job d h = ground arith

  once_open :
      (t : Attempt) (job : DeletionJob) (d : Deletions S)
      → job.state ≢ complete
      → AllApart job.resources
      → AreStored job.resources d.store
      → (try_once t job d).0 ≡ cleaned t.media t.cleaner t.time job
  unfolding hard_delete
  once_open t job d undone a h =
      ground (arith, hard_delete_all-AreStored job.resources d.store a h, cleaned-resources t job)

  once-store :
      (t : Attempt) (job : DeletionJob) (d : Deletions S)
      → job.state ≢ complete
      → (cleaned t.media t.cleaner t.time job).state ≢ complete
      → (try_once t job d).1.store ≡ d.store
  unfolding hard_delete
  once-store t job d undone left = ground arith

  complete_stays :
      (ts : List Attempt) (job : DeletionJob) (d : Deletions S)
      → job.state ≡ complete
      → (try_all ts job d).0 ≡ job
  complete_stays [] job d h = unfold try_all in refl
  complete_stays (t ∷ ts) job d h = ground (
    arith,
    try_next t ts job d,
    once_complete t job d h,
    complete_stays ts (try_once t job d).0 (try_once t job d).1,
  )

  complete_from :
      (t : Attempt) (ts : List Attempt) (job : DeletionJob) (d : Deletions S)
      → (try_once t job d).0 ≡ cleaned t.media t.cleaner t.time job
      → (cleaned t.media t.cleaner t.time job).state ≡ complete
      → (try_all (t ∷ ts) job d).0 ≡ cleaned t.media t.cleaner t.time job
  complete_from t ts job d once done =
      ground
        (arith, try_next t ts job d, complete_stays ts (try_once t job d).0 (try_once t job d).1)

  -- Tried again and again, a deletion comes to an end: when every artifact and every provider
  -- reference that is left is deleted at one of the tries, the tombstones are stored as the job
  -- has them, and no one else writes, the job is complete at the last try and nothing is left.
  pub cleanup_completes :
      (t : Attempt) (ts : List Attempt) (job : DeletionJob) (d : Deletions S)
      → job.state ≢ complete
      → AllApart job.resources
      → AreStored job.resources d.store
      → IsDoable (t ∷ ts) job
      → IsClean (try_all (t ∷ ts) job d).0
  unfolding try_all hard_delete
  cleanup_completes t [] job d undone a h doable =
      let done = cleaned_at_last t job doable in
      subst (λ j. IsClean j) (sym (complete_from t [] job d (once_open t job d undone a h) done))
        (cleaned-IsClean t job done)
  cleanup_completes t (u ∷ us) job d undone a h doable =
      let once = once_open t job d undone a h in
      let next = cleaned t.media t.cleaner t.time job in
      let same = sym (cleaned-resources t job) in
      elim (state_cases next.state) [
        | inl done ↦
            subst (λ j. IsClean j) (sym (complete_from t (u ∷ us) job d once done))
              (cleaned-IsClean t job done)
        | inr left ↦
            subst (λ j. IsClean (try_all (u ∷ us) j (try_once t job d).1).0) (sym once)
              (cleanup_completes u us next (try_once t job d).1 left
                (subst (λ rs. AllApart rs) same a)
                (subst (λ s. AreStored next.resources s) (sym (once-store t job d undone left))
                  (subst (λ rs. AreStored rs d.store) same h))
                (cleaned-IsDoable t (u ∷ us) job doable))
      ]
