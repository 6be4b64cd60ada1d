-- ===== src/Privacy/HardDelete.antt =====
-- `hard_delete` of `DeletionService` in backend/src/vision_app/privacy/service.py. The media store and
-- the provider's cleaner are arguments: each answers, for an item, nothing or the text of the
-- exception that it raises. `between` is what other writers do to the repository before a swap.
use vision_app_creator.Prelude.{
  ℕ, ◌+◌, String, true, false, Option, none, some, List, [], ◌∷◌, ◌++◌, string_eq, insert, ◌+++◌,
}
use vision_app_creator.Privacy.{
  ResourceRecord, Name, CleanupState, pending, failed, complete, DeletionJob, Repository,
}
use vision_app_creator.Privacy.Deletion.{Deletions, name_of}

-- The items whose deletion raises, and what it raises.
unfoldable pub kept : {A : Type 0} → (A → Option String) → List A → List A
kept delete [] = []
kept delete (x ∷ xs) = elim (delete x) [ none ↦ kept delete xs | some text ↦ x ∷ kept delete xs ]

unfoldable pub raised : {A : Type 0} → (A → String) → (A → Option String) → List A → List String
raised label delete [] = []
raised label delete (x ∷ xs) = elim (delete x) [
  | none ↦ raised label delete xs
  | some text ↦ (label x +++ ": " +++ text) ∷ raised label delete xs
]

abbrev pub hard_deleted_of : ResourceRecord → ResourceRecord
hard_deleted_of r = record r { revision = r.revision + 1; hard_deleted = true; content = [] }

abbrev pub local_label : String × ℕ → String
local_label (id, generation) = "local:" +++ id

abbrev pub provider_label : String → String
provider_label ref = "provider:" +++ ref

abbrev pub state_after : List String → CleanupState
state_after [] = complete
state_after (e ∷ es) = failed

abbrev pub completed_after : ℕ → List String → Option ℕ
completed_after now [] = some now
completed_after now (e ∷ es) = none

module _ (media : String × ℕ → Option String) (cleaner : String → Option String) where
  unfoldable pub cleanup_errors : DeletionJob → List String
  unfolding raised
  cleanup_errors job =
      raised local_label media job.pending_local_artifacts
      ++ raised provider_label cleaner job.pending_provider_refs

  -- `result`, before the repository is looked at
  unfoldable pub cleaned : ℕ → DeletionJob → DeletionJob
  unfolding kept cleanup_errors
  cleaned now job = record job {
    state = state_after (cleanup_errors job);
    pending_local_artifacts = kept media job.pending_local_artifacts;
    pending_provider_refs = kept cleaner job.pending_provider_refs;
    errors = cleanup_errors job;
    completed_at = completed_after now (cleanup_errors job);
    irreversible = false;
  }

abbrev pub broken_off : DeletionJob → Option String → DeletionJob
broken_off result none = result
broken_off result (some e) = record result { state = failed; errors = e ∷ []; completed_at = none }

-- `if job.state == CleanupState.COMPLETE: return job`
abbrev pub unless_complete : {A : Type 0} → CleanupState → A → A → A
unless_complete complete here after = here
unless_complete pending here after = after
unless_complete failed here after = after

module _ {S : Type 0} (repo : Repository S) where
  -- The loop over the job's resources: the error of the one where it breaks off.
  unfoldable pub hard_delete_all : (Name → S → S) → List ResourceRecord → S → Option String × S
  hard_delete_all between [] s = (none, s)
  hard_delete_all between (r ∷ rs) s =
      let (swapped?, next) =
        repo.compare_and_swap r.kind r.id r.revision (hard_deleted_of r) (between (name_of r) s) in
      elim swapped? [
        | true ↦ hard_delete_all between rs next
        | false ↦
            (some ("repository:" +++ r.kind +++ ":" +++ r.id +++ ": cleanup state changed"), next)
      ]

  abbrev pub settle : (Name → S → S) → DeletionJob → S → DeletionJob × S
  settle between result s = elim result.state [
    | complete ↦
        let (e, next) = hard_delete_all between result.resources s in (broken_off result e, next)
    | pending ↦ (result, s)
    | failed ↦ (result, s)
  ]

  -- `self._jobs[job.id] = result`
  abbrev pub keep_result : DeletionJob × S → Deletions S → DeletionJob × Deletions S
  keep_result (result, s) d =
      (result, record d { store = s; jobs = insert result.id result d.jobs })

  module _ (media : String × ℕ → Option String) (cleaner : String → Option String) (now : ℕ) where
    unfoldable pub hard_delete :
        (Name → S → S) → DeletionJob → Deletions S → DeletionJob × Deletions S
    unfolding cleaned hard_delete_all insert
    hard_delete between job d =
        unless_complete job.state (job, d)
          (keep_result (settle between (cleaned media cleaner now job) d.store) d)
