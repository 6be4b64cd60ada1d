-- ===== src/Jobs/Service.antt =====
-- The methods of `JobDispatchService` (backend/src/vision_app/jobs/service.py), over the store, the
-- executor and the sink. Each method takes what other services write during its retry loops.
use vision_app_creator.Prelude.{
  ℕ, String, Bool, true, false, not, Option, none, some, ◌==◌, string_eq, leb, if◌then◌else◌, ◌||◌,
}
use vision_app_creator.Prelude.Int.{ℤ}
use vision_app_creator.Prelude.Results.{Result, ok, err}
use vision_app_creator.Contracts.{RunProgress}
use vision_app_creator.Jobs.State.{
  JobState, Job, JobError, AttemptLease, queued, cancelled, job_not_found, job_conflict,
  value_error, is_terminal, initial, lease_from, dispatching_state, record_invocation, claim_state,
  renew, cancelled_state, commit, finish_state,
}
use vision_app_creator.Jobs.Store.{Jobs, compare_and_swap, get_owned, Others, Mutation, mutate}
use vision_app_creator.Jobs.Executor.{Executor, submit, cancel_invocation}
use vision_app_creator.Jobs.Sink.{Sink, progress}

pub record World : Type 0 where
  pub jobs : Jobs
  pub executor : Executor
  pub sink : Sink

pub record JobSnapshot : Type 0 where
  pub run_id : String
  pub state : JobState
  pub invocation_id : Option String
  pub cancel_requested : Bool
  pub attempt_id : Option String
  pub fence : ℕ
  pub lease_expires_at : Option ℕ
  pub progress_sequence : ℤ

abbrev pub snapshot : Job → JobSnapshot
snapshot v = record {
  run_id = v.run_id;
  state = v.state;
  invocation_id = v.invocation_id;
  cancel_requested = v.cancel_requested;
  attempt_id = v.attempt_id;
  fence = v.fence;
  lease_expires_at = v.lease_expires_at;
  progress_sequence = v.progress_sequence;
}

-- `_read`
abbrev pub read_job : String → Jobs → Result JobError Job
read_job run jobs = elim (get_owned "job_run" run jobs) [ none ↦ err job_not_found | some v ↦ ok v ]

unfoldable pub get : String → Jobs → Result JobError JobSnapshot
get run jobs = elim (read_job run jobs) [ err e ↦ err e | ok v ↦ ok (snapshot v) ]

unfoldable pub create : String → World → Result JobError JobSnapshot × World
create run w =
    let jobs = (compare_and_swap "job_run" run 0 (initial run) w.jobs).1 in
    if run == "" then (err value_error, w) else (get run jobs, record w { jobs = jobs })

-- A closure without nonlocal variables.
abbrev pub plain : (Job → Job) → Mutation (Unit {0})
plain f n u v = ok (tt, f v)

-- What the rest of `dispatch` answers after the executor has.
abbrev recorded :
    Others → String → Result JobError String × Executor → World → Result JobError String × World
recorded others run (err e, x) w = (err e, record w { executor = x })
recorded others run (ok i, x) w =
    let (answer, jobs) = mutate others run (plain (record_invocation i)) tt w.jobs in
    elim answer [
      | err e ↦ (err e, record w { jobs = jobs; executor = x })
      | ok u ↦ elim (read_job run jobs) [
        | err e ↦ (err e, record w { jobs = jobs; executor = x })
        | ok v ↦ (
          ok (elim v.invocation_id [ none ↦ "None" | some j ↦ j ]),
          record w { jobs = jobs; executor = x },
        )
      ]
    ]

abbrev submitting : Others → String → World → Result JobError String × World
submitting others run w = recorded others run (submit run w.executor) w

abbrev is_queued : JobState → Bool
is_queued queued = true
is_queued _ = false

abbrev dispatch_found : Others → Others → String → Job → World → Result JobError String × World
dispatch_found first second run v w =
    if is_terminal v.state then (err job_conflict, w) else elim v.invocation_id [
      | some i ↦ (ok i, w)
      | none ↦
          if is_queued v.state
          then (let (answer, jobs) = mutate first run (plain dispatching_state) tt w.jobs in
              elim answer [
                | err e ↦ (err e, record w { jobs = jobs })
                | ok u ↦ submitting second run (record w { jobs = jobs })
              ])
          else submitting second run w
    ]

unfoldable pub dispatch : Others → Others → String → World → Result JobError String × World
dispatch first second run w = elim (read_job run w.jobs) [
  | err e ↦ (err e, w)
  | ok v ↦ dispatch_found first second run v w
]

-- `result` starts as `None`, and each run of the closure that does not raise sets it. In place of
-- the failed `assert result is not None`, `answered` has an error.
abbrev pub leased :
    (Job → Result JobError (AttemptLease × Job))
    → Option AttemptLease
    → Job
    → Result JobError (Option AttemptLease × Job)
leased f old v = elim (f v) [ err e ↦ err e | ok (l, v') ↦ ok (some l, v') ]

abbrev pub answered :
    World → Result JobError (Option AttemptLease) × Jobs → Result JobError AttemptLease × World
answered w (err e, jobs) = (err e, record w { jobs = jobs })
answered w (ok none, jobs) = (err value_error, record w { jobs = jobs })
answered w (ok (some l), jobs) = (ok l, record w { jobs = jobs })

-- The clock is read once, the id factory at each try.
unfoldable pub claim :
    ℕ → (ℕ → String) → Others → ℕ → String → World → Result JobError AttemptLease × World
claim lease ids others now run w =
    answered w (mutate others run (λ n. leased (claim_state lease now (ids n))) none w.jobs)

unfoldable pub heartbeat :
    ℕ → Others → ℕ → String → String → ℕ → World → Result JobError AttemptLease × World
heartbeat lease others now run a fence w =
    answered w (mutate others run (λ n. leased (renew lease now a fence)) none w.jobs)

-- `attempt_id is None or (expiry is not None and expiry <= now)`
abbrev needs_claim : Job → ℕ → Bool
needs_claim v now = elim v.attempt_id [
  | none ↦ true
  | some a ↦ elim v.lease_expires_at [ none ↦ false | some e ↦ leb e now ]
]

abbrev claimed_or :
    ℕ
    → (ℕ → String)
    → Others
    → ℕ
    → ℕ
    → String
    → Job
    → World
    → Result JobError (Option AttemptLease) × World
claimed_or lease ids others now later run v w =
    if needs_claim v now
    then (let (answer, w') = claim lease ids others later run w in
        (elim answer [ err e ↦ err e | ok l ↦ ok (some l) ], w'))
    else (ok (some (lease_from v)), w)

abbrev reconcile_found :
    ℕ
    → (ℕ → String)
    → Others
    → Others
    → Others
    → ℕ
    → ℕ
    → String
    → Job
    → World
    → Result JobError (Option AttemptLease) × World
reconcile_found lease ids first second third now later run v w =
    if is_terminal v.state || v.cancel_requested then (ok none, w) else elim v.invocation_id [
      | some i ↦ claimed_or lease ids third now later run v w
      | none ↦
          let (answer, w') = dispatch first second run w in
          elim answer [ err e ↦ (err e, w') | ok i ↦ claimed_or lease ids third now later run v w' ]
    ]

-- The clock is read before the claim, and again by it.
unfoldable pub reconcile :
    ℕ
    → (ℕ → String)
    → Others
    → Others
    → Others
    → ℕ
    → ℕ
    → String
    → World
    → Result JobError (Option AttemptLease) × World
reconcile lease ids first second third now later run w = elim (read_job run w.jobs) [
  | err e ↦ (err e, w)
  | ok v ↦ reconcile_found lease ids first second third now later run v w
]

abbrev pub cancel_left :
    String → World → Result JobError (Unit {0}) × Jobs → Result JobError (Unit {0}) × World
cancel_left run w (err e, jobs) = (err e, record w { jobs = jobs })
cancel_left run w (ok u, jobs) = elim (read_job run jobs) [
  | err e ↦ (err e, record w { jobs = jobs })
  | ok v ↦ elim v.invocation_id [
    | none ↦ (ok tt, record w { jobs = jobs })
    | some i ↦ (ok tt, record w { jobs = jobs; executor = cancel_invocation i w.executor })
  ]
]

-- The clock is read at each try.
unfoldable pub cancel : Others → (ℕ → ℕ) → String → World → Result JobError (Unit {0}) × World
cancel others clock run w =
    cancel_left run w (mutate others run (λ n. plain (cancelled_state (clock n)) n) tt w.jobs)

abbrev pub emitted :
    RunProgress → ℕ → World → Result JobError Bool × Jobs → Result JobError (Unit {0}) × World
emitted p fence w (err e, jobs) = (err e, record w { jobs = jobs })
emitted p fence w (ok true, jobs) =
    (ok tt, record w { jobs = jobs; sink = progress p fence w.sink })
emitted p fence w (ok false, jobs) = (ok tt, record w { jobs = jobs })

unfoldable pub commit_progress :
    Others → RunProgress → ℕ → World → Result JobError (Unit {0}) × World
commit_progress others p fence w =
    emitted p fence w (mutate others p.run_id (λ n. commit p fence) false w.jobs)

-- `state not in _TERMINAL or state is JobState.CANCELLED`
abbrev pub is_refused : JobState → Bool
is_refused cancelled = true
is_refused s = not (is_terminal s)

abbrev pub finishing : String → ℕ → JobState → Job → Result JobError (Unit {0} × Job)
finishing a fence s v = elim (finish_state a fence s v) [ err e ↦ err e | ok v' ↦ ok (tt, v') ]

abbrev pub finished : World → Result JobError (Unit {0}) × Jobs → Result JobError (Unit {0}) × World
finished w (answer, jobs) = (answer, record w { jobs = jobs })

unfoldable pub finish :
    Others → String → String → ℕ → JobState → World → Result JobError (Unit {0}) × World
finish others run a fence s w =
    if is_refused s
    then (err value_error, w)
    else finished w (mutate others run (λ n u. finishing a fence s) tt w.jobs)
