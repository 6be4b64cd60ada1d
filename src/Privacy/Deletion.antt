-- ===== src/Privacy/Deletion.antt =====
-- `tombstone` and `write_if_current` of `DeletionService` in
-- backend/src/vision_app/privacy/service.py. Calls do not overlap;
-- `between` is what other writers do to the repository between the read of a resource and its swap. The digest of
-- job ids is an argument.
use vision_app_creator.Prelude.{
  ℕ, ◌+◌, String, Bool, true, false, not, Option, none, some, List, [], ◌∷◌, ◌==◌, ◌||◌, nat_eqb,
  if◌then◌else◌, string_eq, pair_eq, Dict, lookup, insert, ◌+++◌,
}
use vision_app_creator.Prelude.Results.{Result, ok, err}
use vision_app_creator.Privacy.{
  PrivacyError, generation_mismatch, concurrent_deletion, ResourceRecord, Name, CleanupGraph,
  pending, DeletionJob, Repository,
}

-- The service's two dicts, and the repository's state.
pub record Deletions (S : Type 0) : Type 0 where
  pub jobs : Dict String DeletionJob
  pub deleted_generations : Dict Name ℕ
  pub store : S

abbrev pub name_of : ResourceRecord → Name
name_of r = (r.kind, r.id)

unfoldable pub scope_of : List Name → String
scope_of [] = ""
scope_of ((kind, id) ∷ []) = kind +++ ":" +++ id
scope_of ((kind, id) ∷ n ∷ ns) = kind +++ ":" +++ id +++ "|" +++ scope_of (n ∷ ns)

-- `_job_id`, `digest` being the first 20 digits of the SHA-256
unfoldable pub job_id : (String → String) → String → List Name → String
unfolding scope_of
job_id digest w names = "deletion-" +++ digest (w +++ "|" +++ scope_of names)

abbrev pub tombstone_of : ℕ → String → String → ResourceRecord → ResourceRecord
tombstone_of now by kind current = record current {
  generation = current.generation + 1;
  revision = current.revision + 1;
  deleted_at = some now;
  deleted_by = some by;
  cancel_requested = current.cancel_requested || kind == "run";
}

module _ {S : Type 0} (repo : Repository S) where
  abbrev pub swapped :
      ResourceRecord
      → Name
      → Deletions S
      → Bool × S
      → Result PrivacyError ResourceRecord × Deletions S
  swapped t name d (false, s) = (err concurrent_deletion, record d { store = s })
  swapped t name d (true, s) = (
    ok t,
    record d {
      store = s;
      deleted_generations = insert {K = Name} name t.generation d.deleted_generations;
    },
  )

  module _ (between : Name → S → S) (w by : String) (now : ℕ) where
    abbrev pub tombstone_found :
        Name
        → Result PrivacyError ResourceRecord
        → Deletions S
        → Result PrivacyError ResourceRecord × Deletions S
    tombstone_found name (err e) d = (err e, d)
    tombstone_found (kind, id) (ok current) d =
        let t = tombstone_of now by kind current in
        swapped t (kind, id) d
          (repo.compare_and_swap kind id current.revision t (between (kind, id) d.store))

    -- one turn of the loop
    unfoldable pub tombstone_one :
        Name → Deletions S → Result PrivacyError ResourceRecord × Deletions S
    unfolding insert
    tombstone_one (kind, id) d = tombstone_found (kind, id) (repo.get_owned kind id w d.store) d

    abbrev pub with_first :
        ResourceRecord
        → Result PrivacyError (List ResourceRecord) × Deletions S
        → Result PrivacyError (List ResourceRecord) × Deletions S
    with_first t (ok ts, d) = (ok (t ∷ ts), d)
    with_first t (err e, d) = (err e, d)

    -- the loop after one of its turns, which may have raised
    abbrev pub go_on :
        Result PrivacyError ResourceRecord
        → Deletions S
        → Result PrivacyError (List ResourceRecord) × Deletions S
        → Result PrivacyError (List ResourceRecord) × Deletions S
    go_on (err e) next rest = (err e, next)
    go_on (ok t) next rest = with_first t rest

    unfoldable pub tombstone_all :
        List Name → Deletions S → Result PrivacyError (List ResourceRecord) × Deletions S
    unfolding tombstone_one
    tombstone_all [] d = (ok [], d)
    tombstone_all (name ∷ names) d =
        let (answer, next) = tombstone_one name d in go_on answer next (tombstone_all names next)

    abbrev pub new_job : String → CleanupGraph → List ResourceRecord → DeletionJob
    new_job id graph ts = record {
      id = id;
      workspace_id = w;
      requested_by = by;
      requested_at = now;
      state = pending;
      resources = ts;
      pending_local_artifacts = graph.local_artifacts;
      pending_provider_refs = graph.provider_refs;
      errors = [];
      completed_at = none;
      irreversible = false;
    }

    abbrev pub keep_job :
        String
        → CleanupGraph
        → Result PrivacyError (List ResourceRecord) × Deletions S
        → Result PrivacyError DeletionJob × Deletions S
    keep_job id graph (err e, d) = (err e, d)
    keep_job id graph (ok ts, d) =
        (ok (new_job id graph ts), record d { jobs = insert id (new_job id graph ts) d.jobs })

    abbrev pub reuse_or :
        Option DeletionJob
        → Deletions S
        → Result PrivacyError DeletionJob × Deletions S
        → Result PrivacyError DeletionJob × Deletions S
    reuse_or (some job) d fresh = (ok job, d)
    reuse_or none d fresh = fresh

    unfoldable pub tombstone :
        (String → String)
        → CleanupGraph
        → Deletions S
        → Result PrivacyError DeletionJob × Deletions S
    unfolding tombstone_all lookup insert job_id
    tombstone digest graph d =
        let id = job_id digest w graph.resources in
        reuse_or (lookup id d.jobs) d (keep_job id graph (tombstone_all graph.resources d))

  abbrev written :
      ResourceRecord → Deletions S → Bool × S → Result PrivacyError ResourceRecord × Deletions S
  written r d (false, s) = (err concurrent_deletion, record d { store = s })
  written r d (true, s) = (ok r, record d { store = s })

  abbrev pub write_found :
      (Name → S → S)
      → Name
      → ℕ
      → Dict String String
      → Result PrivacyError ResourceRecord
      → Deletions S
      → Result PrivacyError ResourceRecord × Deletions S
  write_found between name expected content (err e) d = (err e, d)
  write_found between (kind, id) expected content (ok current) d =
      let updated = record current { revision = current.revision + 1; content = content } in
      if not (nat_eqb current.generation expected)
      then (err (generation_mismatch expected current.generation), d)
      else written updated d
          (repo.compare_and_swap kind id current.revision updated (between (kind, id) d.store))

  unfoldable pub write_if_current :
      (Name → S → S)
      → String
      → Name
      → ℕ
      → Dict String String
      → Deletions S
      → Result PrivacyError ResourceRecord × Deletions S
  unfolding lookup
  write_if_current between w (kind, id) expected content d =
      elim (lookup {K = Name} (kind, id) d.deleted_generations) [
        | some g ↦ (err (generation_mismatch expected g), d)
        | none ↦
            write_found between (kind, id) expected content (repo.get_owned kind id w d.store) d
      ]
