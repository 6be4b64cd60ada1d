-- ===== src/Tests/Privacy.antt =====
-- The deletion service on small inputs, over the asset store of the local profile
-- (backend/src/vision_app/privacy/service.py and bootstrap.py).
use vision_app_creator.Prelude.{
  ℕ, String, ◌≡◌, ◌≢◌, refl, inl, inr, false, none, some, List, [], ◌∷◌, arith, string_eq, pair_eq,
  lookup, insert, lookup_or, elem, str_eq_iff,
}
use vision_app_creator.Prelude.Results.{ok, err}
use vision_app_creator.Privacy.{
  generation_mismatch, ResourceRecord, CleanupGraph, cleanup_graph, has_unknown, has_duplicate,
  pending, complete, DeletionJob,
}
use vision_app_creator.Privacy.Deletion.{
  tombstone, tombstone_all, tombstone_one, job_id, scope_of, write_if_current,
}
use vision_app_creator.Privacy.HardDelete.{cleaned, cleanup_errors, raised}
use vision_app_creator.Privacy.Attempts.{Attempt, IsClean}
use vision_app_creator.Privacy.Cleanup.{
  try_once, try_all, AreStored, AllApart, Apart, alone, cleanup_completes,
}
use vision_app_creator.Privacy.HalfCleaned.{half_cleaned_is_stuck}
use vision_app_creator.Privacy.LateWrites.{no_deletions, perform_all, late_write_is_refused}
use vision_app_creator.Privacy.Assets.{
  SourceAsset, AssetStore, asset_repository, get_owned, get_asset, compare_and_swap, swap_found,
  revision_of,
}

abbrev video : String → SourceAsset
video id = record {
  id = id;
  workspace_id = "w";
  state = "ready";
  generation = 1;
  deleted_at = none;
}

abbrev two_videos : AssetStore
two_videos = record {
  assets = ("a", video "a") ∷ ("b", video "b") ∷ [];
  revisions = ("a", 1) ∷ ("b", 5) ∷ [];
}

abbrev plain : String → String
plain s = s

abbrev graph_a : CleanupGraph
graph_a = record {
  resources = ("asset", "a") ∷ [];
  local_artifacts = ("m", 1) ∷ [];
  provider_refs = [];
}

graph_is_checked : cleanup_graph (("asset", "a") ∷ []) (("m", 1) ∷ []) [] ≡ some graph_a
unfolding cleanup_graph has_unknown has_duplicate elem
graph_is_checked = refl

duplicates_fail : cleanup_graph (("run", "a") ∷ ("run", "a") ∷ []) [] [] ≡ none
unfolding cleanup_graph has_unknown has_duplicate elem
duplicates_fail = refl

abbrev tombstone_a : ResourceRecord
tombstone_a = record {
  kind = "asset";
  id = "a";
  workspace_id = "w";
  generation = 2;
  revision = 2;
  deleted_at = some 7;
  deleted_by = some "u";
  cancel_requested = false;
  hard_deleted = false;
  content = [];
}

abbrev job_of : List ResourceRecord → List (String × ℕ) → DeletionJob
job_of rs artifacts = record {
  id = "deletion-w|asset:a";
  workspace_id = "w";
  requested_by = "u";
  requested_at = 7;
  state = pending;
  resources = rs;
  pending_local_artifacts = artifacts;
  pending_provider_refs = [];
  errors = [];
  completed_at = none;
  irreversible = false;
}

tombstone_a_answer :
    (tombstone asset_repository alone "w" "u" 7 plain graph_a (no_deletions two_videos)).0
    ≡ ok (job_of (tombstone_a ∷ []) (("m", 1) ∷ []))
unfolding tombstone tombstone_all tombstone_one job_id scope_of lookup insert lookup_or get_owned
    get_asset compare_and_swap swap_found
tombstone_a_answer = refl

late_write_is_refused_example :
    (g : ℕ) × (write_if_current asset_repository alone "w"
        ("asset", "a")
        1
        []
        (tombstone asset_repository alone "w" "u" 7 plain graph_a (no_deletions two_videos)).1
      ≡ (
        err (generation_mismatch 1 g),
        (tombstone asset_repository alone "w" "u" 7 plain graph_a (no_deletions two_videos)).1,
      ))
unfolding perform_all
late_write_is_refused_example =
    late_write_is_refused asset_repository plain [] [] two_videos alone "w" "u" 7 graph_a
      (job_of (tombstone_a ∷ []) (("m", 1) ∷ [])) tombstone_a "w" 1 [] tombstone_a_answer (inl refl)

-- The media store fails once.
abbrev failing : Attempt
failing = record { time = 8; media = λ m. some "OSError"; cleaner = λ ref. none }

abbrev working : Attempt
working = record { time = 9; media = λ m. none; cleaner = λ ref. none }

-- A resource as the asset store has it.
abbrev stored_a : ResourceRecord
stored_a = record tombstone_a { revision = 1 }

stored_a-AreStored : AreStored asset_repository (stored_a ∷ []) two_videos
unfolding AreStored revision_of lookup lookup_or
stored_a-AreStored = (refl, tt)

alone-AllApart : AllApart asset_repository (stored_a ∷ [])
unfolding AllApart Apart
alone-AllApart = (tt, tt)

cleanup_completes_example :
    IsClean
      (try_all asset_repository
        (failing ∷ working ∷ [])
        (job_of (stored_a ∷ []) (("m", 1) ∷ []))
        (no_deletions two_videos)).0
cleanup_completes_example =
    cleanup_completes asset_repository failing (working ∷ [])
      (job_of (stored_a ∷ []) (("m", 1) ∷ [])) (no_deletions two_videos) (ground arith)
      alone-AllApart stored_a-AreStored ((inr (inl refl), tt), tt)

abbrev moved_b : ResourceRecord
moved_b = record stored_a { id = "b" }

abbrev both : DeletionJob
both = job_of (stored_a ∷ moved_b ∷ []) []

both-cleaned : (cleaned working.media working.cleaner working.time both).state ≡ complete
unfolding cleaned cleanup_errors raised
both-cleaned = refl

a_is_stored : revision_of "asset" "a" two_videos ≡ some 1
unfolding revision_of lookup lookup_or
a_is_stored = refl

b_has_moved : revision_of "asset" "b" two_videos ≢ some 1
unfolding revision_of lookup lookup_or
b_has_moved = ground arith

half_cleaned_is_stuck_example :
    (try_all asset_repository
      (working ∷ [])
      (try_once asset_repository working both (no_deletions two_videos)).0
      (try_once asset_repository working both (no_deletions two_videos)).1).0.state
    ≢ complete
half_cleaned_is_stuck_example =
    half_cleaned_is_stuck asset_repository stored_a moved_b [] working (working ∷ []) both
      (no_deletions two_videos)
      (try_once asset_repository working both (no_deletions two_videos)).1.store (ground arith) refl
      both-cleaned (inr (ground (arith, str_eq_iff "a" "b"))) a_is_stored b_has_moved refl
