-- ===== src/Privacy/Attempts.antt =====
-- What one try of `hard_delete` in backend/src/vision_app/privacy/service.py leaves to do, before it
-- looks at the repository.
use vision_app_creator.Prelude.{
  ℕ, String, ◌≡◌, ◌≢◌, refl, ◌⊎◌, ◌↔◌, inl, inr, Option, none, List, [], ◌∷◌, ◌++◌, arith,
  string_eq, All,
}
use vision_app_creator.Privacy.{CleanupState, pending, failed, complete, DeletionJob}
use vision_app_creator.Privacy.HardDelete.{
  kept, raised, local_label, provider_label, cleanup_errors, cleaned,
}

-- One try: when, and what the media store and the provider's cleaner raise at it.
pub record Attempt : Type 0 where
  pub time : ℕ
  pub media : String × ℕ → Option String
  pub cleaner : String → Option String

-- An item is deleted at one of the attempts.
abbrev pub Succeeds : {A : Type 0} → List (A → Option String) → A → Type 0
Succeeds [] x = ⊥
Succeeds (f ∷ fs) x = (f x ≡ none) ⊎ Succeeds fs x

module _ {A : Type 0} where
  kept-Succeeds :
      (f : A → Option String) (fs : List (A → Option String)) (xs : List A)
      → All (Succeeds (f ∷ fs)) xs
      → All (Succeeds fs) (kept f xs)
  unfolding kept
  kept-Succeeds f fs [] h = tt
  kept-Succeeds f fs (x ∷ xs) h = ground (arith, kept-Succeeds f fs xs h.1)

  none-Succeeds : (xs : List A) → All (Succeeds []) xs → xs ≡ []
  none-Succeeds [] h = refl
  none-Succeeds (x ∷ xs) h = elim h.0 [ ]

  kept-raised :
      (label : A → String) (f : A → Option String) (xs : List A)
      → raised label f xs ≡ []
      → kept f xs ≡ []
  unfolding kept raised
  kept-raised label f [] h = refl
  kept-raised label f (x ∷ xs) h = ground (arith, kept-raised label f xs)

  raised-kept :
      (label : A → String) (f : A → Option String) (xs : List A)
      → kept f xs ≡ []
      → raised label f xs ≡ []
  unfolding kept raised
  raised-kept label f [] h = refl
  raised-kept label f (x ∷ xs) h = ground (arith, raised-kept label f xs)

pub cleaned-resources :
    (t : Attempt) (job : DeletionJob)
    → (cleaned t.media t.cleaner t.time job).resources ≡ job.resources
unfolding cleaned
cleaned-resources t job = refl

pub state_cases : (s : CleanupState) → (s ≡ complete) ⊎ (s ≢ complete)
state_cases pending = inr (ground arith)
state_cases failed = inr (ground arith)
state_cases complete = inl refl

-- Nothing is left to delete.
abbrev pub IsClean : DeletionJob → Type 0
IsClean job =
    (job.state ≡ complete) × (job.pending_local_artifacts ≡ []) × (job.pending_provider_refs ≡ [])

-- Everything that is left is deleted at one of the tries.
abbrev pub stores : List Attempt → List (String × ℕ → Option String)
stores [] = []
stores (t ∷ ts) = t.media ∷ stores ts

abbrev pub cleaners : List Attempt → List (String → Option String)
cleaners [] = []
cleaners (t ∷ ts) = t.cleaner ∷ cleaners ts

abbrev pub IsDoable : List Attempt → DeletionJob → Type 0
IsDoable tries job =
    All (Succeeds (stores tries)) job.pending_local_artifacts
    × All (Succeeds (cleaners tries)) job.pending_provider_refs

pub cleaned-IsDoable :
    (t : Attempt) (ts : List Attempt) (job : DeletionJob)
    → IsDoable (t ∷ ts) job
    → IsDoable ts (cleaned t.media t.cleaner t.time job)
unfolding cleaned
cleaned-IsDoable t ts job h = (
  kept-Succeeds t.media (stores ts) job.pending_local_artifacts h.0,
  kept-Succeeds t.cleaner (cleaners ts) job.pending_provider_refs h.1,
)

append-nil : (xs ys : List String) → (xs ++ ys ≡ []) ↔ ((xs ≡ []) × (ys ≡ []))
append-nil [] ys = ground arith
append-nil (x ∷ xs) ys = ground arith

pub cleaned-IsClean :
    (t : Attempt) (job : DeletionJob)
    → (cleaned t.media t.cleaner t.time job).state ≡ complete
    → IsClean (cleaned t.media t.cleaner t.time job)
unfolding cleaned cleanup_errors
cleaned-IsClean t job h =
    let locals = raised local_label t.media job.pending_local_artifacts in
    let refs = raised provider_label t.cleaner job.pending_provider_refs in
    ground (
      arith,
      append-nil locals refs,
      kept-raised local_label t.media job.pending_local_artifacts,
      kept-raised provider_label t.cleaner job.pending_provider_refs,
    )

nothing_kept :
    (t : Attempt) (job : DeletionJob)
    → (cleaned t.media t.cleaner t.time job).pending_local_artifacts ≡ []
    → (cleaned t.media t.cleaner t.time job).pending_provider_refs ≡ []
    → (cleaned t.media t.cleaner t.time job).state ≡ complete
unfolding cleaned cleanup_errors
nothing_kept t job l r =
    let locals = raised local_label t.media job.pending_local_artifacts in
    let refs = raised provider_label t.cleaner job.pending_provider_refs in
    ground (
      arith,
      append-nil locals refs,
      raised-kept local_label t.media job.pending_local_artifacts l,
      raised-kept provider_label t.cleaner job.pending_provider_refs r,
    )

-- The last try of all deletes what is left.
pub cleaned_at_last :
    (t : Attempt) (job : DeletionJob)
    → IsDoable (t ∷ []) job
    → (cleaned t.media t.cleaner t.time job).state ≡ complete
cleaned_at_last t job h =
    let (l, r) = cleaned-IsDoable t [] job h in
    nothing_kept t job (none-Succeeds _ l) (none-Succeeds _ r)
