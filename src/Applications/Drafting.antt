-- ===== src/Applications/Drafting.antt =====
-- What `create` of versions and `revise` of apps leave of the published version of an app
-- (backend/src/vision_app/applications/services.py).
use vision_app_creator.Prelude.{
  ℕ, ◌+◌, String, ◌≡◌, refl, sym, subst, ◌∙◌, ◌⊎◌, Bool, true, false, not, Option, none, some, [],
  inl, inr, Option-cases, Bool-cases, ◌||◌, nat_eqb, string_eq, arith,
}
use vision_app_creator.Prelude.Results.{Result, ok, err}
use vision_app_creator.Validation.{AppSpec, CapabilityRegistry}
use vision_app_creator.Validation.Manifests.{validate_app_spec}
use vision_app_creator.Applications.Calibrations.{ApplicationError}
use vision_app_creator.Applications.Versions.{
  VisionApp, AppVersion, ApplicationRepository, new_version, add_answer,
}
use vision_app_creator.Applications.Versions as Versions
use vision_app_creator.Applications.Apps.{same_draft, swap_answer, read, revise, revise_created}

add-state :
    {S : Type 0} (version : AppVersion) (answer : Bool × S)
    → (add_answer version answer).1 ≡ answer.1
add-state version (true, s) = refl
add-state version (false, s) = refl

pub answer-state : {S B : Type 0} (b : B) (answer : Bool × S) → (swap_answer b answer).1 ≡ answer.1
answer-state b (true, s) = refl
answer-state b (false, s) = refl

module _ {S : Type 0} (repo : ApplicationRepository S) (registry : CapabilityRegistry) (id : String)
    (v : String) where
  -- The app is stored, with `v` as its published version.
  unfoldable pub HasOut : S → Type 0
  HasOut s = (a : VisionApp) × (repo.stored id s ≡ some a) × (a.published_version_id ≡ some v)

  -- A swap leaves the version out that was, or that its app has.
  pub swap-HasOut :
      (id' : String) (n : ℕ) (a : VisionApp) (s : S)
      → HasOut (repo.compare_and_swap id' n a s).1
      → HasOut s ⊎ ((id' ≡ id) × (a.published_version_id ≡ some v))
  unfolding HasOut
  swap-HasOut id' n a s (now, e, out) = elim (repo.swap-other id' n a s id) [
    | inr same ↦ inl (now, sym same ∙ e, out)
    | inl (through, here) ↦ inr (here, grind (arith, repo.swap-own id' n a s through))
  ]

  add-HasOut :
      (id' : String) (version : AppVersion) (s : S)
      → HasOut (repo.add_immutable id' version s).1
      → HasOut s
  unfolding HasOut
  add-HasOut id' version s (now, e, out) = (now, sym (repo.add-stored id' version s id) ∙ e, out)

  -- `VersionService.create` adds a version at most.
  draft-state :
      (new_id : String) (now : ℕ) (w app_id : String) (parent : Option String) (spec : AppSpec)
      (s : S)
      → ((Versions.create repo registry new_id now w app_id parent spec s).1 ≡ s)
        ⊎ ((version : AppVersion) × ((Versions.create repo registry new_id now w app_id parent spec
                s).1
              ≡ (repo.add_immutable new_id version s).1))
  unfolding Versions.create
  draft-state new_id now w app_id parent spec s =
      let outcome = validate_app_spec spec none [] false registry in
      elim (Bool-cases (Versions.is_invalid outcome.state)) [
        | inl e ↦ ground (arith, e)
        | inr e ↦ elim (Option-cases (repo.get_app app_id w s)) [
          | inl f ↦ ground (arith, e, f)
          | inr (a, f) ↦
              let version = new_version repo registry new_id now w app_id parent spec a in
              inr (
                version,
                ground (arith, e, f, add-state version (repo.add_immutable new_id version s)),
              )
        ]
      ]

  pub draft-HasOut :
      (new_id : String) (now : ℕ) (w app_id : String) (parent : Option String) (spec : AppSpec)
      (s : S)
      → HasOut (Versions.create repo registry new_id now w app_id parent spec s).1
      → HasOut s
  draft-HasOut new_id now w app_id parent spec s k =
      elim (draft-state new_id now w app_id parent spec s) [
        | inl same ↦ subst HasOut same k
        | inr (version, same) ↦ add-HasOut new_id version s (subst HasOut same k)
      ]

  created-HasOut :
      (id' : String) (n : ℕ) (a : VisionApp) (created : Result ApplicationError AppVersion × S)
      → HasOut (revise_created repo registry id' n a created).1
      → HasOut created.1 ⊎ ((id' ≡ id) × (a.published_version_id ≡ some v))
  created-HasOut id' n a (err e, s) k = inl k
  created-HasOut id' n a (ok version, s) k =
      let updated = record a { draft_version_id = some version.id; revision = a.revision + 1 } in
      let swapped = repo.compare_and_swap id' n updated s in
      swap-HasOut id' n updated s (subst HasOut (answer-state version swapped) k)

  read-HasOut :
      (id' w : String) (a : VisionApp) (s : S)
      → repo.get_app id' w s ≡ some a
      → id' ≡ id
      → a.published_version_id ≡ some v
      → HasOut s
  unfolding HasOut
  read-HasOut id' w a s e here out =
      (a, subst (λ i. repo.stored i s ≡ some a) here (repo.get-stored id' w s a e), out)

  pub revise-HasOut :
      (new_id : String) (now : ℕ) (w id' : String) (n : ℕ) (base : Option String) (spec : AppSpec)
      (s : S)
      → HasOut (revise repo registry new_id now w id' n base spec s).1
      → HasOut s
  unfolding revise read
  revise-HasOut new_id now w id' n base spec s k =
      let created = Versions.create repo registry new_id now w id' base spec s in
      elim (Option-cases (repo.get_app id' w s)) [
        | inl e ↦
            let same : (revise repo registry new_id now w id' n base spec s).1 ≡ s =
              ground (arith, e) in
            subst HasOut same k
        | inr (a, e) ↦
            elim (Bool-cases
              (not (nat_eqb a.revision n) || not (same_draft a.draft_version_id base))) [
                | inl stale ↦
                    let same : (revise repo registry new_id now w id' n base spec s).1 ≡ s =
                      ground (arith, e, stale) in
                    subst HasOut same k
                | inr current ↦
                    let same : (revise repo registry new_id now w id' n base spec s).1
                        ≡ (revise_created repo registry id' n a created).1 =
                      ground (arith, e, current) in
                    elim (created-HasOut id' n a created (subst HasOut same k)) [
                      | inl before ↦ draft-HasOut new_id now w id' base spec s before
                      | inr (here, out) ↦ read-HasOut id' w a s e here out
                    ]
              ]
      ]
