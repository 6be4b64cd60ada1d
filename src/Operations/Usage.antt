-- ===== src/Operations/Usage.antt =====
-- What `LimitGuard` counts (backend/src/vision_app/operations/limits.py).
use vision_app_creator.Prelude.{
  ℕ, zero, suc, ◌+◌, ◌≤◌, ◌≡◌, refl, ◌∙◌, Bool, true, false, List, [], ◌∷◌, ◌++◌, arith,
  if◌then◌else◌,
}
use vision_app_creator.Prelude.Int.{ℤ, pos, negsuc}
use vision_app_creator.Prelude.Results.{Result, ok, err}
use vision_app_creator.Operations.Limits.{
  Counter, jobs, builds, frames, calls, output_bytes, Counts, count_of, set_count, LimitGuard,
  LimitError, consume, acquire, is_held, set_released, release, Call, consumes, acquires, releases,
  perform, perform_all, held,
}

held-acquired : (ps : List Bool) → held (ps ++ (false ∷ [])) ≡ held ps + 1
unfolding held
held-acquired [] = omega arith
held-acquired (true ∷ ps) = held-acquired ps
held-acquired (false ∷ ps) = omega (arith, held-acquired ps)

held-released :
    (n : ℕ) (ps : List Bool) → is_held n ps ≡ true → suc (held (set_released n ps)) ≡ held ps
unfolding held set_released is_held
held-released n [] h = ground arith
held-released zero (true ∷ ps) h = ground arith
held-released zero (false ∷ ps) h = ground arith
held-released (suc n) (true ∷ ps) h = omega (arith, held-released n ps h)
held-released (suc n) (false ∷ ps) h = omega (arith, held-released n ps h)

-- The counts are within the limits, and the active operations are those that hold a permit.
abbrev pub IsWithin : LimitGuard → Type 0
IsWithin g =
    (g.used.jobs_count ≤ g.bounds.limits.jobs_count)
    × (g.used.builds_count ≤ g.bounds.limits.builds_count)
    × (g.used.frames_count ≤ g.bounds.limits.frames_count)
    × (g.used.calls_count ≤ g.bounds.limits.calls_count)
    × (g.used.output_count ≤ g.bounds.limits.output_count)
    × (g.active ≤ g.bounds.concurrency)
    × (g.active ≡ held g.permits)

consume-IsWithin :
    (name : Counter) (n : ℤ) (now : ℕ) (g : LimitGuard)
    → IsWithin g
    → IsWithin (consume name n now g).1
unfolding consume
consume-IsWithin jobs n now g h = ground arith
consume-IsWithin builds n now g h = ground arith
consume-IsWithin frames n now g h = ground arith
consume-IsWithin calls n now g h = ground arith
consume-IsWithin output_bytes n now g h = ground arith

perform-IsWithin :
    (c : Call) (g : LimitGuard)
    → IsWithin g
    → IsWithin (perform c g) × ((perform c g).bounds ≡ g.bounds)
unfolding perform acquire release
perform-IsWithin (consumes name n now) g h =
    (consume-IsWithin name n now g h, (unfold consume in ground arith))
perform-IsWithin (acquires now) g h = ground (arith, held-acquired g.permits)
perform-IsWithin (releases n) g h = ground (arith, held-released n g.permits)

-- What was granted, by the answers of the calls.
abbrev is_granted : Result LimitError (Unit {0}) → Bool
is_granted (ok u) = true
is_granted (err e) = false

abbrev is_same : Counter → Counter → Bool
is_same jobs jobs = true
is_same builds builds = true
is_same frames frames = true
is_same calls calls = true
is_same output_bytes output_bytes = true
is_same _ _ = false

-- The amounts of one name that `consume` has granted.
abbrev amount : Counter → Call → LimitGuard → ℕ
amount name (consumes name' (pos n) now) g =
    if is_same name name' then (if is_granted (consume name' (pos n) now g).0 then n else 0) else 0
amount name _ g = 0

unfoldable pub granted : Counter → List Call → LimitGuard → ℕ
unfolding consume perform
granted name [] g = 0
granted name (c ∷ cs) g = amount name c g + granted name cs (perform c g)

-- The permits that `acquire` has granted.
abbrev permit : Call → LimitGuard → ℕ
permit (acquires now) g = if is_granted (acquire now g).0 then 1 else 0
permit _ g = 0

unfoldable pub permitted : List Call → LimitGuard → ℕ
unfolding acquire perform
permitted [] g = 0
permitted (c ∷ cs) g = permit c g + permitted cs (perform c g)

-- The permits that were released while they were held.
abbrev returned : Call → LimitGuard → ℕ
returned (releases n) g = if is_held n g.permits then 1 else 0
returned _ g = 0

unfoldable pub given_back : List Call → LimitGuard → ℕ
unfolding is_held perform
given_back [] g = 0
given_back (c ∷ cs) g = returned c g + given_back cs (perform c g)

count_of-set_count :
    (name name' : Counter) (n : ℕ) (c : Counts)
    → count_of name (set_count name' (count_of name' c + n) c)
      ≡ count_of name c + (if is_same name name' then n else 0)
count_of-set_count jobs name' n c = grind arith
count_of-set_count builds name' n c = grind arith
count_of-set_count frames name' n c = grind arith
count_of-set_count calls name' n c = grind arith
count_of-set_count output_bytes name' n c = grind arith

consume-count :
    (name name' : Counter) (n : ℤ) (now : ℕ) (g : LimitGuard)
    → count_of name (consume name' n now g).1.used
      ≡ count_of name g.used + amount name (consumes name' n now) g
unfolding consume
consume-count name name' (negsuc n) now g = omega arith
consume-count name name' (pos n) now g = ground (arith, count_of-set_count name name' n g.used)

perform-count :
    (name : Counter) (c : Call) (g : LimitGuard)
    → count_of name (perform c g).used ≡ count_of name g.used + amount name c g
unfolding perform acquire release
perform-count name (consumes name' n now) g = consume-count name name' n now g
perform-count name (acquires now) g = ground arith
perform-count name (releases n) g = ground arith

held-suc : (n : ℕ) (ps : List Bool) → is_held n ps ≡ true → 1 ≤ held ps
held-suc n ps h = omega (arith, held-released n ps h)

perform-active :
    (c : Call) (g : LimitGuard)
    → IsWithin g
    → (perform c g).active + returned c g ≡ g.active + permit c g
unfolding perform acquire release
perform-active (consumes name n now) g h = unfold consume in ground arith
perform-active (acquires now) g h = ground arith
perform-active (releases n) g h = ground (arith, held-suc n g.permits)

counts_are_exact :
    (name : Counter) (cs : List Call) (g : LimitGuard)
    → count_of name (perform_all cs g).used ≡ count_of name g.used + granted name cs g
unfolding perform_all granted
counts_are_exact name [] g = omega arith
counts_are_exact name (c ∷ cs) g =
    omega (arith, perform-count name c g, counts_are_exact name cs (perform c g))

active_is_exact :
    (cs : List Call) (g : LimitGuard)
    → IsWithin g
    → (perform_all cs g).active + given_back cs g ≡ g.active + permitted cs g
unfolding perform_all given_back permitted
active_is_exact [] g h = omega arith
active_is_exact (c ∷ cs) g h =
    omega (arith, perform-active c g h, active_is_exact cs (perform c g) (perform-IsWithin c g h).0)

all-IsWithin :
    (cs : List Call) (g : LimitGuard)
    → IsWithin g
    → IsWithin (perform_all cs g) × ((perform_all cs g).bounds ≡ g.bounds)
unfolding perform_all
all-IsWithin [] g h = (h, refl)
all-IsWithin (c ∷ cs) g h =
    let (within, same) = perform-IsWithin c g h in
    let (end, kept) = all-IsWithin cs (perform c g) within in (end, kept ∙ same)

-- No use goes past its limit: along any calls, in any order and at any times, failing ones
-- included, each count is what it was plus all amounts that `consume` has granted under its name,
-- and stays within its limit. The active operations are what they were plus the permits that
-- `acquire` has granted, less those that were released while held (releasing one twice changes
-- nothing), and stay within the concurrency. The limits do not change.
pub limits_hold :
    (cs : List Call) (g : LimitGuard)
    → IsWithin g
    → let g' = perform_all cs g in
      IsWithin g'
      × (g'.bounds ≡ g.bounds)
      × ((name : Counter) → count_of name g'.used ≡ count_of name g.used + granted name cs g)
      × (g'.active + given_back cs g ≡ g.active + permitted cs g)
limits_hold cs g h =
    let (within, same) = all-IsWithin cs g h in
    (within, same, (λ name. counts_are_exact name cs g), active_is_exact cs g h)
