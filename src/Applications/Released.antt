-- ===== src/Applications/Released.antt =====
-- What a published version stands for (backend/src/vision_app/applications/services.py).
use mathlib.Core.Option.{some-injective}
use vision_app_creator.Prelude.{
  ℕ, String, ◌≡◌, subst, ap, ◌⊎◌, true, false, not, Option, none, some, List, [], ◌∷◌, inl, inr,
  Option-cases, Bool-cases, ◌||◌, nat_eqb, string_eq, str_eq_iff, arith,
}
use vision_app_creator.Validation.{CapabilityRegistry, Calibration}
use vision_app_creator.Validation.Checks.{publication_ready, OutcomeState}
use vision_app_creator.Validation.Manifests.{validate_app_spec}
use vision_app_creator.Applications.Versions.{
  VisionApp, AppVersion, ApplicationRepository, new_version, add_answer,
}
use vision_app_creator.Applications.Versions as Versions
use vision_app_creator.Applications.Apps.{
  new_app, is_ready, same_draft, published, create, read, publish, publish_version,
}
use vision_app_creator.Applications.Releases.{
  Call, creates, drafts, revises, publishes, perform, perform_all, Publishes, IsReleased,
}
use vision_app_creator.Applications.Drafting.{
  HasOut, answer-state, swap-HasOut, draft-HasOut, revise-HasOut,
}

is_ready_iff : (o : OutcomeState) → is_ready o ≡ true → o ≡ publication_ready
is_ready_iff o h = ground arith

same_draft-some : (d : Option String) (v : String) → same_draft d (some v) ≡ true → d ≡ some v
same_draft-some none v h = ground arith
same_draft-some (some d) v h = ap some ((str_eq_iff d v).0 h)

draft_of_current :
    (a : VisionApp) (n : ℕ) (version : String)
    → (not (nat_eqb a.revision n) || not (same_draft a.draft_version_id (some version))) ≡ false
    → a.draft_version_id ≡ some version
draft_of_current a n version h = same_draft-some a.draft_version_id version (ground arith)

module _ {S : Type 0} (repo : ApplicationRepository S) (registry : CapabilityRegistry) (id : String)
    (v : String) where
  -- After its checks of the app, `publish` takes a version that it finds ready.
  version-HasOut :
      (w id' : String) (n : ℕ) (version : String) (c : Option Calibration) (approved : List String)
      (a : VisionApp) (s : S)
      → HasOut repo registry id v
          (publish_version repo registry id' n c approved a
            (Versions.read repo registry w version s)
            s).1
      → HasOut repo registry id v s
        ⊎ ((id' ≡ id)
            × ((found : AppVersion) × (repo.get_version version w s ≡ some found)
                × (found.id ≡ v)
                × ((validate_app_spec found.spec c approved true registry).state
                    ≡ publication_ready)))
  unfolding Versions.read
  version-HasOut w id' n version c approved a s k =
      let result =
        publish_version repo registry id' n c approved a (Versions.read repo registry w version s)
          s in
      elim (Option-cases (repo.get_version version w s)) [
        | inl e ↦
            let same : result.1 ≡ s = ground (arith, e) in
            inl (subst (HasOut repo registry id v) same k)
        | inr (found, e) ↦
            let outcome = validate_app_spec found.spec c approved true registry in
            elim (Bool-cases (is_ready outcome.state)) [
              | inr blocked ↦
                  let same : result.1 ≡ s = ground (arith, e, blocked) in
                  inl (subst (HasOut repo registry id v) same k)
              | inl ready ↦
                  let swapped = repo.compare_and_swap id' n (published a found) s in
                  let same : result.1 ≡ swapped.1 =
                    ground (arith, e, ready, answer-state (published a found) swapped) in
                  elim (swap-HasOut repo registry id v id' n (published a found) s
                    (subst (HasOut repo registry id v) same k)) [
                      | inl before ↦ inl before
                      | inr (here, out) ↦ inr (
                        here,
                        (found, e, some-injective found.id v out, is_ready_iff outcome.state ready),
                      )
                    ]
            ]
      ]

  publish-HasOut :
      (w id' : String) (n : ℕ) (version : String) (c : Option Calibration) (approved : List String)
      (s : S)
      → HasOut repo registry id v (publish repo registry w id' n version c approved s).1
      → HasOut repo registry id v s
        ⊎ Publishes repo registry id v s (publishes w id' n version c approved)
  unfolding publish read Versions.read Publishes
  publish-HasOut w id' n version c approved s k = elim (Option-cases (repo.get_app id' w s)) [
    | inl e ↦
        let same : (publish repo registry w id' n version c approved s).1 ≡ s = ground (arith, e) in
        inl (subst (HasOut repo registry id v) same k)
    | inr (a, e) ↦
        elim (Bool-cases
          (not (nat_eqb a.revision n) || not (same_draft a.draft_version_id (some version)))) [
            | inl stale ↦
                let same : (publish repo registry w id' n version c approved s).1 ≡ s =
                  ground (arith, e, stale) in
                inl (subst (HasOut repo registry id v) same k)
            | inr current ↦
                let same : (publish repo registry w id' n version c approved s).1
                    ≡ (publish_version repo registry id' n c approved a
                        (Versions.read repo registry w version s) s).1 =
                  ground (arith, e, current) in
                elim (version-HasOut w id' n version c approved a s
                  (subst (HasOut repo registry id v) same k)) [
                    | inl before ↦ inl before
                    | inr (here, found) ↦ inr (
                      here,
                      (
                        a,
                        subst (λ i. repo.stored i s ≡ some a) here (repo.get-stored id' w s a e),
                        draft_of_current a n version current,
                      ),
                      found,
                    )
                  ]
          ]
  ]

  perform-HasOut :
      (call : Call) (s : S)
      → HasOut repo registry id v (perform repo registry call s)
      → HasOut repo registry id v s ⊎ Publishes repo registry id v s call
  unfolding perform create
  perform-HasOut (creates id' w title) s k =
      let a = new_app id' w title in
      let answer = repo.compare_and_swap id' 0 a s in
      elim (swap-HasOut repo registry id v id' 0 a s
        (subst (HasOut repo registry id v) (answer-state a answer) k)) [
          | inl before ↦ inl before
          | inr (here, out) ↦ ground arith
        ]
  perform-HasOut (drafts new_id now w app_id parent spec) s k =
      inl (draft-HasOut repo registry id v new_id now w app_id parent spec s k)
  perform-HasOut (revises new_id now w id' n base spec) s k =
      inl (revise-HasOut repo registry id v new_id now w id' n base spec s k)
  perform-HasOut (publishes w id' n version c approved) s k =
      publish-HasOut w id' n version c approved s k

  -- The version that is out after some calls was out before them, or one of them published it.
  calls-HasOut :
      (calls : List Call) (s : S)
      → HasOut repo registry id v (perform_all repo registry calls s)
      → HasOut repo registry id v s ⊎ IsReleased repo registry id v s calls
  unfolding perform_all IsReleased
  calls-HasOut [] s k = inl k
  calls-HasOut (call ∷ calls) s k = elim (calls-HasOut calls (perform repo registry call s) k) [
    | inr later ↦ inr (inr later)
    | inl now ↦ elim (perform-HasOut call s now) [
      | inl before ↦ inl before
      | inr this ↦ inr (inl this)
    ]
  ]

  -- When an app that is not stored before some calls has a published version after them, one of
  -- them published that version, when it was the app's draft and the validator found its spec ready.
  pub published_was_ready :
      (calls : List Call) (s : S) (a : VisionApp)
      → repo.stored id s ≡ none
      → repo.stored id (perform_all repo registry calls s) ≡ some a
      → a.published_version_id ≡ some v
      → IsReleased repo registry id v s calls
  unfolding HasOut
  published_was_ready calls s a fresh there out = elim (calls-HasOut calls s (a, there, out)) [
    | inl (old, e, _) ↦ grind arith
    | inr released ↦ released
  ]
