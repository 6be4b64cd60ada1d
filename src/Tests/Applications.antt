-- ===== src/Tests/Applications.antt =====
-- The calibration service on small inputs, over a dictionary of calibrations
-- (backend/src/vision_app/applications/services.py).
use vision_app_creator.Prelude.{
  ℕ, String, ◌≡◌, refl, ◌⊎◌, Bool, true, false, Option, none, some, List, [], ◌∷◌, ◌==◌, nat_eqb,
  string_eq, str_eq_iff, if◌then◌else◌, Dict, lookup, insert, lookup-insert, arith,
}
use vision_app_creator.Prelude.Results.{err}
use vision_app_creator.Applications.{FrameRef, Survey, Calibration, CalibrationRepository}
use vision_app_creator.Applications.Calibrations.{
  app_conflict, new_calibration, create, read, update, confirm, bind_source,
}
use vision_app_creator.Applications.Calls.{
  Call, creates, confirms, binds, perform, perform_all, IsConfirmed,
}
use vision_app_creator.Applications.Confirmed.{confirmation_was_given}

abbrev Kept : Type 0
Kept = Dict String Calibration

abbrev of_workspace : String → Option Calibration → Option Calibration
of_workspace w none = none
of_workspace w (some c) = if c.workspace_id == w then some c else none

unfoldable get_owned : String → String → Kept → Option Calibration
unfolding lookup
get_owned id w s = of_workspace w (lookup id s)

abbrev is_current : ℕ → Option Calibration → Bool
is_current n none = nat_eqb n 0
is_current n (some c) = nat_eqb c.revision n

unfoldable swap : String → ℕ → Calibration → Kept → Bool × Kept
unfolding lookup insert
swap id n c s = if is_current n (lookup id s) then (true, insert id c s) else (false, s)

get_owned-lookup :
    (id w : String) (s : Kept) (c : Calibration) → get_owned id w s ≡ some c → lookup id s ≡ some c
unfolding get_owned
get_owned-lookup id w s c h = ground arith

lookup-swap :
    (id : String) (n : ℕ) (c : Calibration) (s : Kept)
    → (swap id n c s).0 ≡ true
    → lookup id (swap id n c s).1 ≡ some c
unfolding swap
lookup-swap id n c s h = ground (arith, lookup-insert id id c s, str_eq_iff id id)

swap-other_lookup :
    (id : String) (n : ℕ) (c : Calibration) (s : Kept) (id' : String)
    → (((swap id n c s).0 ≡ true) × (id ≡ id')) ⊎ (lookup id' (swap id n c s).1 ≡ lookup id' s)
unfolding swap
swap-other_lookup id n c s id' = ground (arith, lookup-insert id id' c s, str_eq_iff id id')

abbrev kept : CalibrationRepository Kept
kept = record {
  get_owned = get_owned;
  compare_and_swap = swap;
  stored = λ id s. lookup id s;
  get-stored = get_owned-lookup;
  swap-own = lookup-swap;
  swap-other = swap-other_lookup;
}

abbrev frame : FrameRef
frame = record { source_id = "s"; source_hash = "h"; body = 0 }

abbrev scene : Survey
scene = record {
  lanes = [];
  lines = ("stop", (1, 2) ∷ (3, 4) ∷ []) ∷ [];
  rois = [];
  governing_signals = [];
  scene_fingerprint = "f";
}

-- A calibration that is made, confirmed, and bound to another source of the same scene.
abbrev history : List Call
history =
    creates "c" "w" "s" "camera" frame scene
    ∷ confirms "w" "c" 1 "person" 50
    ∷ binds "w" "c" 2 "other source" frame "f"
    ∷ []

abbrev at_the_end : Calibration
at_the_end = record (new_calibration "c" "w" "other source" "camera" frame scene) {
  revision = 3;
  confirmed_by = some "person";
  confirmed_at = some 50;
}

run_of_history : lookup "c" (perform_all kept history []) ≡ some at_the_end
unfolding perform_all perform create read update confirm bind_source swap get_owned lookup insert
run_of_history = refl

-- Another scene's fingerprint takes the confirmation away, and a stale revision is refused.
rebound_is_unconfirmed :
    lookup "c" (perform_all kept (binds "w" "c" 3 "third" frame "g" ∷ []) (("c", at_the_end) ∷ []))
    ≡ some (record at_the_end {
      source_id = "third";
      revision = 4;
      survey = record scene { scene_fingerprint = "g" };
      confirmed_by = none;
      confirmed_at = none;
    })
unfolding perform_all perform read update bind_source swap get_owned lookup insert
rebound_is_unconfirmed = refl

stale_is_refused :
    confirm kept "w" "c" 2 "person" 60 (("c", at_the_end) ∷ [])
    ≡ (err app_conflict, ("c", at_the_end) ∷ [])
unfolding confirm read update swap get_owned lookup
stale_is_refused = refl

confirmation_was_given_example : IsConfirmed kept "c" at_the_end [] history
unfolding lookup
confirmation_was_given_example =
    confirmation_was_given kept "c" history [] at_the_end "person" refl run_of_history refl
