-- ===== src/Tests/Operations.antt =====
-- Runs of the ledger and of the limits on small inputs (backend/src/vision_app/operations).
use vision_app_creator.Prelude.{
  ◌+◌, List, String, ◌≡◌, refl, Option, none, some, [], ◌∷◌, arith, ◌==◌, string_eq, if◌then◌else◌,
}
use vision_app_creator.Prelude.Int.{pos}
use vision_app_creator.Operations.Ledger.{Accounts, initial_state, Interference}
use vision_app_creator.Operations.Usage.{IsWithin, granted, permitted, given_back, limits_hold}
use vision_app_creator.Operations.Limits.{
  LimitGuard, Counts, frames, consumes, acquires, releases, perform, perform_all, held, Counter,
  count_of, Call, consume, acquire, is_held, set_released,
}

-- Nobody else writes.
abbrev quiet : Interference
quiet n accounts = accounts

abbrev booked : Accounts
booked =
    (
      "w",
      record (initial_state 100 "w") {
        revision = 1;
        estimated_total_microusd = 30;
        reservations = ("w.1", 30) ∷ [];
      },
    )
    ∷ []

abbrev closed : Accounts
closed =
    (
      "w",
      record (initial_state 100 "w") {
        revision = 2;
        estimated_total_microusd = 30;
        measured_microusd = 20;
        released_microusd = 10;
      },
    )
    ∷ []

abbrev owner_of : String → Option String
owner_of i = if i == "w.1" then some "w" else none

abbrev zeros : Counts
zeros = record {
  jobs_count = 0;
  builds_count = 0;
  frames_count = 0;
  calls_count = 0;
  output_count = 0;
}

abbrev guard : LimitGuard
guard = record {
  bounds = record {
    limits = record zeros { frames_count = 10; calls_count = 2 };
    concurrency = 1;
    deadline = some 100;
  };
  used = zeros;
  active = 0;
  permits = [];
}

abbrev few_calls : List Call
few_calls =
    consumes frames (pos 4) 5
    ∷ consumes frames (pos 7) 5
    ∷ acquires 6
    ∷ acquires 7
    ∷ releases 0
    ∷ releases 0
    ∷ []

four_frames : granted frames few_calls guard ≡ 4
unfolding granted consume perform acquire is_held set_released
four_frames = refl

limits_hold_example :
    let g' = perform_all few_calls guard in
    IsWithin g'
    × (g'.bounds ≡ guard.bounds)
    × ((name : Counter)
        → count_of name g'.used ≡ count_of name guard.used + granted name few_calls guard)
    × (g'.active + given_back few_calls guard ≡ guard.active + permitted few_calls guard)
unfolding held
limits_hold_example =
    limits_hold few_calls guard
      (omega arith, omega arith, omega arith, omega arith, omega arith, omega arith, refl)
