-- ===== src/Operations/Limits.antt =====
-- `LimitGuard` and its permits (backend/src/vision_app/operations/limits.py). Times are numbers, and
-- each call is given what the clock says. `_active` is an integer in the source, and a number
-- here: it starts at 0, and only the release of a permit that is held decreases it.
use vision_app_creator.Prelude.{
  ℕ, zero, suc, ◌+◌, ◌-◌, Bool, true, false, Option, none, some, List, [], ◌∷◌, ◌++◌, ltb, leb,
  if◌then◌else◌,
}
use vision_app_creator.Prelude.Int.{ℤ, pos, negsuc}
use vision_app_creator.Prelude.Results.{Result, ok, err}

pub data LimitError : Type 0 where
  value_error limit_exceeded deadline_exceeded : LimitError

-- The counts by name: the limits' fields, and the keys of `_used`.
pub data Counter : Type 0 where
  jobs builds frames calls output_bytes : Counter

pub record Counts : Type 0 where
  pub jobs_count : ℕ
  pub builds_count : ℕ
  pub frames_count : ℕ
  pub calls_count : ℕ
  pub output_count : ℕ

abbrev pub count_of : Counter → Counts → ℕ
count_of jobs c = c.jobs_count
count_of builds c = c.builds_count
count_of frames c = c.frames_count
count_of calls c = c.calls_count
count_of output_bytes c = c.output_count

abbrev pub set_count : Counter → ℕ → Counts → Counts
set_count jobs n c = record c { jobs_count = n }
set_count builds n c = record c { builds_count = n }
set_count frames n c = record c { frames_count = n }
set_count calls n c = record c { calls_count = n }
set_count output_bytes n c = record c { output_count = n }

pub record ExecutionLimits : Type 0 where
  pub limits : Counts
  pub concurrency : ℕ
  pub deadline : Option ℕ

-- The guard with the permits it has handed out: whether each has been released.
pub record LimitGuard : Type 0 where
  pub bounds : ExecutionLimits
  pub used : Counts
  pub active : ℕ
  pub permits : List Bool

abbrev pub is_past : Option ℕ → ℕ → Bool
is_past none now = false
is_past (some d) now = leb d now

-- `_consume`
unfoldable pub consume : Counter → ℤ → ℕ → LimitGuard → Result LimitError (Unit {0}) × LimitGuard
consume name (negsuc n) now g = (err value_error, g)
consume name (pos n) now g =
    let updated = count_of name g.used + n in
    if is_past g.bounds.deadline now
    then (err deadline_exceeded, g)
    else if ltb (count_of name g.bounds.limits) updated
    then (err limit_exceeded, g)
    else (ok tt, record g { used = set_count name updated g.used })

unfoldable pub acquire : ℕ → LimitGuard → Result LimitError (Unit {0}) × LimitGuard
acquire now g =
    if is_past g.bounds.deadline now
    then (err deadline_exceeded, g)
    else if leb g.bounds.concurrency g.active
    then (err limit_exceeded, g)
    else (ok tt, record g { active = g.active + 1; permits = g.permits ++ (false ∷ []) })

-- Whether the permit at this place is held, and the permits once it is released.
unfoldable pub is_held : ℕ → List Bool → Bool
is_held n [] = false
is_held zero (true ∷ ps) = false
is_held zero (false ∷ ps) = true
is_held (suc n) (p ∷ ps) = is_held n ps

unfoldable pub set_released : ℕ → List Bool → List Bool
set_released n [] = []
set_released zero (p ∷ ps) = true ∷ ps
set_released (suc n) (p ∷ ps) = p ∷ set_released n ps

-- `_Permit.release`, also at the end of a `with` block
unfoldable pub release : ℕ → LimitGuard → LimitGuard
release n g =
    if is_held n g.permits
    then record g { active = g.active - 1; permits = set_released n g.permits }
    else g

pub data Call : Type 0 where
  consumes : Counter → ℤ → ℕ → Call
  acquires : ℕ → Call
  releases : ℕ → Call

unfoldable pub perform : Call → LimitGuard → LimitGuard
perform (consumes name n now) g = (consume name n now g).1
perform (acquires now) g = (acquire now g).1
perform (releases n) g = release n g

unfoldable pub perform_all : List Call → LimitGuard → LimitGuard
perform_all [] g = g
perform_all (c ∷ cs) g = perform_all cs (perform c g)

unfoldable pub held : List Bool → ℕ
held [] = 0
held (true ∷ ps) = held ps
held (false ∷ ps) = suc (held ps)
