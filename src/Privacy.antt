-- ===== src/Privacy.antt =====
-- The records of backend/src/vision_app/privacy/service.py, its retention rules, and what its
-- deletion service expects of a repository (`Repository` of contracts/ports.py).
pub mod Deletion
pub mod HardDelete
pub mod Attempts
pub mod HalfCleaned
pub mod Fencing
pub mod Recorded
pub mod LateWrites
pub mod Cleanup
pub mod Assets
use vision_app_creator.Prelude.{
  ℕ, ◌+◌, String, ◌≡◌, ◌≢◌, ◌↔◌, ◌⊎◌, Bool, true, false, not, Option, none, some, List, [], ◌∷◌,
  ◌==◌, ◌&&◌, ◌||◌, leb, ltb, if◌then◌else◌, string_eq, pair_eq, elem, Dict,
}
use vision_app_creator.Prelude.Results.{Result, ok, err}

abbrev pub resource_kinds : List String
resource_kinds = "app" ∷ "version" ∷ "asset" ∷ "run" ∷ "event" ∷ "delivery" ∷ []

pub data PrivacyError : Type 0 where
  generation_mismatch : ℕ → ℕ → PrivacyError
  concurrent_deletion : PrivacyError
  type_error not_found : PrivacyError

pub record ResourceRecord : Type 0 where
  pub kind : String
  pub id : String
  pub workspace_id : String
  pub generation : ℕ
  pub revision : ℕ
  pub deleted_at : Option ℕ
  pub deleted_by : Option String
  pub cancel_requested : Bool
  pub hard_deleted : Bool
  pub content : Dict String String

-- A resource's name: its kind and its id.
abbrev pub Name : Type 0
Name = String × String

-- `__post_init__` of a resource: `false` is the ValueError
abbrev pub is_resource : ResourceRecord → Bool
is_resource r = elem r.kind resource_kinds && leb 1 r.generation

pub record CleanupGraph : Type 0 where
  pub resources : List Name
  pub local_artifacts : List (String × ℕ)
  pub provider_refs : List String

unfoldable pub has_unknown : List Name → Bool
unfolding elem
has_unknown [] = false
has_unknown ((kind, id) ∷ names) = not (elem kind resource_kinds) || has_unknown names

-- `len(set(names)) != len(names)`
unfoldable pub has_duplicate : List Name → Bool
unfolding elem
has_duplicate [] = false
has_duplicate (name ∷ names) = elem {A = Name} name names || has_duplicate names

abbrev is_none_left : List Name → Bool
is_none_left [] = true
is_none_left (name ∷ names) = false

-- `CleanupGraph(…)` with the checks of its `__post_init__`: `none` is the ValueError
unfoldable pub cleanup_graph : List Name → List (String × ℕ) → List String → Option CleanupGraph
unfolding has_unknown has_duplicate
cleanup_graph names artifacts refs =
    if is_none_left names || has_unknown names || has_duplicate names
    then none
    else some (record { resources = names; local_artifacts = artifacts; provider_refs = refs })

pub data CleanupState : Type 0 where
  pending failed complete : CleanupState

pub record DeletionJob : Type 0 where
  pub id : String
  pub workspace_id : String
  pub requested_by : String
  pub requested_at : ℕ
  pub state : CleanupState
  pub resources : List ResourceRecord
  pub pending_local_artifacts : List (String × ℕ)
  pub pending_provider_refs : List String
  pub errors : List String
  pub completed_at : Option ℕ
  pub irreversible : Bool

pub record RetentionPolicy : Type 0 where
  pub raw_media : ℕ
  pub evidence : ℕ

-- `RetentionPolicy(…)`: the periods are positive
abbrev pub retention_policy : ℕ → ℕ → Option RetentionPolicy
retention_policy raw ev =
    if not (ltb 0 raw) || not (ltb 0 ev)
    then none
    else some (record { raw_media = raw; evidence = ev })

-- `none` is the ValueError of an unknown category
abbrev pub retention_deadline : ℕ → String → RetentionPolicy → Option ℕ
retention_deadline created category policy =
    if category == "raw_media"
    then some (created + policy.raw_media)
    else if category == "evidence"
    then some (created + policy.evidence)
    else none

abbrev pub retention_eligible : ℕ → Option ℕ → Bool
retention_eligible now none = false
retention_eligible now (some until) = leb until now

-- A repository of resources with state `S`. `revision_of` is what is stored, for the laws: a swap
-- goes through exactly at the stored revision, moves it on by one, and leaves other names alone.
pub record Repository (S : Type 0) : Type 0 where
  pub get_owned : String → String → String → S → Result PrivacyError ResourceRecord
  pub compare_and_swap : String → String → ℕ → ResourceRecord → S → Bool × S
  pub revision_of : String → String → S → Option ℕ
  pub get-revision :
      (kind id w : String) (s : S) (r : ResourceRecord)
      → get_owned kind id w s ≡ ok r
      → revision_of kind id s ≡ some r.revision
  pub get-name :
      (kind id w : String) (s : S) (r : ResourceRecord)
      → get_owned kind id w s ≡ ok r
      → (r.kind ≡ kind) × (r.id ≡ id)
  pub swap_iff :
      (kind id : String) (n : ℕ) (r : ResourceRecord) (s : S)
      → ((compare_and_swap kind id n r s).0 ≡ true) ↔ (revision_of kind id s ≡ some n)
  pub swap-own :
      (kind id : String) (n : ℕ) (r : ResourceRecord) (s : S)
      → (compare_and_swap kind id n r s).0 ≡ true
      → revision_of kind id (compare_and_swap kind id n r s).1 ≡ some (n + 1)
  pub swap-refused :
      (kind id : String) (n : ℕ) (r : ResourceRecord) (s : S)
      → (compare_and_swap kind id n r s).0 ≡ false
      → (compare_and_swap kind id n r s).1 ≡ s
  pub swap-other :
      (kind id : String) (n : ℕ) (r : ResourceRecord) (s : S) (kind' id' : String)
      → ((kind ≡ kind') × (id ≡ id'))
        ⊎ (revision_of kind' id' (compare_and_swap kind id n r s).1 ≡ revision_of kind' id' s)
