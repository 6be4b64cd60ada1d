-- ===== src/Applications/Confirmed.antt =====
-- What the confirmation of a calibration stands for
-- (backend/src/vision_app/applications/services.py).
use vision_app_creator.Prelude.{
  ℕ, String, ◌≡◌, refl, sym, subst, ap, ◌∙◌, ◌⊎◌, Bool, true, false, none, some, List, [], ◌∷◌, inl,
  inr, Option-cases, Bool-cases, ◌==◌, nat_eqb, string_eq, str_eq_iff, arith,
}
use mathlib.Core.Option.{some-injective}
use vision_app_creator.Applications.{FrameRef, Calibration, CalibrationRepository}
use vision_app_creator.Applications.Calibrations.{
  new_calibration, confirmation, binding, regeometry, next_revision, swap_answer, create, read,
  update, confirm, bind_source, revise_geometry,
}
use vision_app_creator.Applications.Calls.{
  Call, creates, confirms, binds, revises, IsKept, perform, perform_all, Confirms, IsConfirmed,
}

module _ {S : Type 0} (repo : CalibrationRepository S) where
  answer-state : (c : Calibration) (answer : Bool × S) → (swap_answer c answer).1 ≡ answer.1
  answer-state c (true, s) = refl
  answer-state c (false, s) = refl

  -- What `_update` does to what is stored under an id.
  update-stored :
      (w id : String) (n : ℕ) (f : Calibration → Calibration) (s : S) (id' : String)
      → (repo.stored id' (update repo w id n f s).1 ≡ repo.stored id' s)
        ⊎ ((id ≡ id')
            × ((old : Calibration) × (repo.get_owned id w s ≡ some old)
                × (repo.stored id' (update repo w id n f s).1 ≡ some (next_revision n (f old)))))
  unfolding update read
  update-stored w id n f s id' = elim (Option-cases (repo.get_owned id w s)) [
    | inl e ↦ ground (arith, e)
    | inr (old, e) ↦
        let updated = next_revision n (f old) in
        elim (Bool-cases (nat_eqb old.revision n)) [
          | inr wrong ↦ ground (arith, e, wrong)
          | inl right ↦
              let swapped = repo.compare_and_swap id n updated s in
              let same : (update repo w id n f s).1 ≡ swapped.1 =
                ground (arith, e, right, answer-state updated swapped) in
              elim (repo.swap-other id n updated s id') [
                | inr kept ↦ inl (ap (repo.stored id') same ∙ kept)
                | inl (went, here) ↦
                    inr (here, (old, e, cc (repo.swap-own id n updated s went, same, here)))
              ]
        ]
  ]

  -- A call that leaves a confirmed calibration has confirmed its scene, or found it so.
  module _ (id : String) (c : Calibration) (by : String) (h : c.confirmed_by ≡ some by) where
    unfoldable WasKept : S → Type 0
    unfolding IsKept
    WasKept s = (old : Calibration) × (repo.stored id s ≡ some old) × IsKept old c

    update-WasKept :
        (w id' : String) (n : ℕ) (f : Calibration → Calibration) (s : S)
        → WasKept (update repo w id' n f s).1
        → WasKept s
          ⊎ ((id' ≡ id)
              × ((old : Calibration) × (repo.get_owned id' w s ≡ some old)
                  × IsKept (next_revision n (f old)) c))
    unfolding WasKept
    update-WasKept w id' n f s (now, e, kept) = elim (update-stored w id' n f s id) [
      | inl same ↦ inl (now, sym same ∙ e, kept)
      | inr (here, (old, found, e')) ↦
          let equal : now ≡ next_revision n (f old) =
            some-injective now (next_revision n (f old)) (sym e ∙ e') in
          inr (here, (old, found, subst (λ x. IsKept x c) equal kept))
    ]

    binding-IsKept :
        (n : ℕ) (source : String) (frame : FrameRef) (fingerprint : String) (current : Calibration)
        → IsKept (next_revision n (binding source frame fingerprint current current)) c
        → IsKept current c
    unfolding IsKept
    binding-IsKept n source frame fingerprint current kept =
        elim (Bool-cases (current.survey.scene_fingerprint == fingerprint)) [
          | inl e ↦ ground (arith, e, str_eq_iff current.survey.scene_fingerprint fingerprint)
          | inr e ↦ ground (arith, e)
        ]

    created-WasKept :
        (id' : String) (fresh : Calibration) (s : S)
        → fresh.confirmed_by ≡ none
        → WasKept (repo.compare_and_swap id' 0 fresh s).1
        → WasKept s
    unfolding WasKept IsKept
    created-WasKept id' fresh s none_yet (now, e, kept) = elim (repo.swap-other id' 0 fresh s id) [
      | inr same ↦ (now, sym same ∙ e, kept)
      | inl (went, here) ↦ grind (arith, repo.swap-own id' 0 fresh s went)
    ]

    bind-WasKept :
        (w id' : String) (n : ℕ) (source : String) (frame : FrameRef) (fingerprint : String) (s : S)
        → WasKept (bind_source repo w id' n source frame fingerprint s).1
        → WasKept s
    unfolding bind_source read WasKept IsKept
    bind-WasKept w id' n source frame fingerprint s k =
        elim (Option-cases (repo.get_owned id' w s)) [
          | inl e ↦
              let same : (bind_source repo w id' n source frame fingerprint s).1 ≡ s =
                ground (arith, e) in
              subst WasKept same k
          | inr (current, e) ↦
              let changes = binding source frame fingerprint current in
              let same : (bind_source repo w id' n source frame fingerprint s).1
                  ≡ (update repo w id' n changes s).1 =
                ground (arith, e) in
              elim (update-WasKept w id' n changes s (subst WasKept same k)) [
                | inl before ↦ before
                | inr (here, (old, found, kept)) ↦
                    let equal : old ≡ current = some-injective old current (sym found ∙ e) in
                    (
                      current,
                      subst (λ i. repo.stored i s ≡ some current) here
                          (repo.get-stored id' w s current e),
                      binding-IsKept n source frame fingerprint current
                          (subst (λ x. IsKept (next_revision n (changes x)) c) equal kept),
                    )
              ]
        ]

    perform-WasKept :
        (call : Call) (s : S)
        → WasKept (perform repo call s)
        → WasKept s ⊎ Confirms repo id c s call
    unfolding perform WasKept IsKept Confirms create confirm revise_geometry
    perform-WasKept (creates id' w source camera frame found) s k =
        let fresh = new_calibration id' w source camera frame found in
        let answer = repo.compare_and_swap id' 0 fresh s in
        let same : (create repo id' w source camera frame found s).1 ≡ answer.1 =
          answer-state fresh answer in
        inl (created-WasKept id' fresh s refl (subst WasKept same k))
    perform-WasKept (confirms w id' n person now) s k =
        elim (update-WasKept w id' n (confirmation person now) s k) [
          | inl before ↦ inl before
          | inr (here, (old, found, (survey, person_same, time_same))) ↦ inr (
            here,
            sym person_same,
            sym time_same,
            (
              old,
              subst (λ i. repo.stored i s ≡ some old) here (repo.get-stored id' w s old found),
              survey,
            ),
          )
        ]
    perform-WasKept (binds w id' n source frame fingerprint) s k =
        inl (bind-WasKept w id' n source frame fingerprint s k)
    perform-WasKept (revises w id' n lanes lines rois signals) s k =
        elim (update-WasKept w id' n (regeometry lanes lines rois signals) s k) [
          | inl before ↦ inl before
          | inr (here, (old, found, (survey, person_same, time_same))) ↦ grind arith
        ]

    -- The confirmation that is left after some calls is from before them, or from one of them.
    calls-WasKept :
        (calls : List Call) (s : S)
        → WasKept (perform_all repo calls s)
        → WasKept s ⊎ IsConfirmed repo id c s calls
    unfolding perform_all IsConfirmed
    calls-WasKept [] s k = inl k
    calls-WasKept (call ∷ calls) s k = elim (calls-WasKept calls (perform repo call s) k) [
      | inr later ↦ inr (inr later)
      | inl now ↦ elim (perform-WasKept call s now) [
        | inl before ↦ inl before
        | inr this ↦ inr (inl this)
      ]
    ]

  -- A calibration that is not stored before some calls, and is stored and confirmed after them, was
  -- confirmed by one of them, by the person and at the time that it names, when its lanes, lines,
  -- regions, signals and scene fingerprint were the ones that it has.
  pub confirmation_was_given :
      (id : String) (calls : List Call) (s : S) (c : Calibration) (by : String)
      → repo.stored id s ≡ none
      → repo.stored id (perform_all repo calls s) ≡ some c
      → c.confirmed_by ≡ some by
      → IsConfirmed repo id c s calls
  unfolding WasKept IsKept
  confirmation_was_given id calls s c by h there confirmed =
      elim (calls-WasKept id c by confirmed calls s (c, there, (refl, refl, refl))) [
        | inl (old, e, kept) ↦ grind arith
        | inr called ↦ called
      ]
