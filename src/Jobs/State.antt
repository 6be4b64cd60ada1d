-- ===== src/Jobs/State.antt =====
-- The stored state of a job and the changes that the service makes to it, the closures that
-- `JobDispatchService` of backend/src/vision_app/jobs/service.py hands to `_mutate`. Times are
-- seconds since an epoch.
use vision_app_creator.Prelude.{
  ℕ, ◌+◌, String, Bool, true, false, not, Option, none, some, ◌==◌, nat_eq, string_eq, ltb, leb,
  if◌then◌else◌, ◌&&◌, ◌||◌,
}
use vision_app_creator.Prelude.Int.{ℤ, pos, negsuc, ltb_ℤ, leb_ℤ}
use vision_app_creator.Prelude.Results.{Result, ok, err}
use vision_app_creator.Contracts.{RunProgress}

pub data JobState : Type 0 where
  queued dispatching dispatched running completed partial failed cancelled : JobState

-- `type_error` is what Python raises for `None <= now`, `connection_error` what the executor may.
pub data JobError : Type 0 where
  job_not_found job_conflict stale_attempt lease_expired value_error type_error : JobError
  connection_error : JobError

-- `state in _TERMINAL`
abbrev pub is_terminal : JobState → Bool
is_terminal completed = true
is_terminal partial = true
is_terminal failed = true
is_terminal cancelled = true
is_terminal _ = false

pub record Job : Type 0 where
  pub revision : ℕ
  pub run_id : String
  pub state : JobState
  pub invocation_id : Option String
  pub cancel_requested : Bool
  pub attempt_id : Option String
  pub fence : ℕ
  pub lease_expires_at : Option ℕ
  pub heartbeat_at : Option ℕ
  pub progress_sequence : ℤ

abbrev pub initial : String → Job
initial run = record {
  revision = 0;
  run_id = run;
  state = queued;
  invocation_id = none;
  cancel_requested = false;
  attempt_id = none;
  fence = 0;
  lease_expires_at = none;
  heartbeat_at = none;
  progress_sequence = negsuc 0;
}

pub record AttemptLease : Type 0 where
  pub run_id : String
  pub attempt_id : String
  pub fence : ℕ
  pub expires_at : Option ℕ

-- `str(value)` of an attempt id
abbrev str : Option String → String
str none = "None"
str (some s) = s

abbrev pub lease_from : Job → AttemptLease
lease_from v = record {
  run_id = v.run_id;
  attempt_id = str v.attempt_id;
  fence = v.fence;
  expires_at = v.lease_expires_at;
}

-- `value["attempt_id"] != attempt_id or int(value["fence"]) != fence`, negated
abbrev pub is_attempt : Job → String → ℕ → Bool
is_attempt v a fence = elim v.attempt_id [ none ↦ false | some b ↦ b == a && v.fence == fence ]

-- `attempt_id is not None and expiry is not None and now < expiry`
abbrev pub is_live : Job → ℕ → Bool
is_live v now = elim v.attempt_id [
  | none ↦ false
  | some a ↦ elim v.lease_expires_at [ none ↦ false | some e ↦ ltb now e ]
]

unfoldable pub dispatching_state : Job → Job
dispatching_state v = record v { state = dispatching }

-- `record` of `dispatch`
unfoldable pub record_invocation : String → Job → Job
record_invocation i v = record v {
  invocation_id = elim v.invocation_id [ none ↦ some i | some j ↦ some j ];
  state = if is_terminal v.state then v.state else dispatched;
}

-- `claim_state`: the lease time, the clock and the new id are given
unfoldable pub claim_state : ℕ → ℕ → String → Job → Result JobError (AttemptLease × Job)
claim_state lease now new v =
    let v' = record v {
      fence = v.fence + 1;
      attempt_id = some new;
      lease_expires_at = some (now + lease);
      heartbeat_at = some now;
      progress_sequence = negsuc 0;
      state = running;
    } in
    if is_terminal v.state || v.cancel_requested
    then err job_conflict
    else if is_live v now
    then ok (lease_from v, v)
    else ok (lease_from v', v')

-- `renew` of `heartbeat`; `_validate_attempt` comes first
abbrev renewed : ℕ → ℕ → Job → Option ℕ → Result JobError (AttemptLease × Job)
renewed lease now v none = err type_error
renewed lease now v (some e) =
    let v' = record v { heartbeat_at = some now; lease_expires_at = some (now + lease) } in
    if leb e now then err lease_expired else ok (lease_from v', v')

unfoldable pub renew : ℕ → ℕ → String → ℕ → Job → Result JobError (AttemptLease × Job)
renew lease now a fence v =
    if is_attempt v a fence then renewed lease now v v.lease_expires_at else err stale_attempt

-- `cancelled` of `cancel`
unfoldable pub cancelled_state : ℕ → Job → Job
cancelled_state now v = record v {
  cancel_requested = true;
  state = cancelled;
  lease_expires_at = some now;
}

-- `commit` of `commit_progress`; the first place is the new value of `should_emit`
unfoldable pub commit : RunProgress → ℕ → Bool → Job → Result JobError (Bool × Job)
commit p fence emit v =
    if not (is_attempt v p.attempt_id fence)
    then err stale_attempt
    else if v.cancel_requested
    then err stale_attempt
    else if leb_ℤ (pos p.sequence) v.progress_sequence && leb_ℤ v.progress_sequence (pos p.sequence)
    then ok (emit, v)
    else if ltb_ℤ (pos p.sequence) v.progress_sequence
    then err value_error
    else ok (true, record v { progress_sequence = pos p.sequence })

-- `finish_state` of `finish`
unfoldable pub finish_state : String → ℕ → JobState → Job → Result JobError Job
finish_state a fence s v =
    if is_attempt v a fence
    then ok (record v { state = s; lease_expires_at = none })
    else err stale_attempt

-- The mutations, as data.
pub data Update : Type 0 where
  to_dispatching : Update
  invoked : String → Update
  claim_at : ℕ → ℕ → String → Update
  renew_at : ℕ → ℕ → String → ℕ → Update
  cancel_at : ℕ → Update
  progress_to : RunProgress → ℕ → Update
  finish_as : String → ℕ → JobState → Update

-- The job that a mutation leaves, without what its closure writes down beside it.
abbrev pub left {ℓ} : {A : Type ℓ} → Result JobError (A × Job) → Result JobError Job
left (ok (a, v)) = ok v
left (err e) = err e

unfoldable pub update : Update → Job → Result JobError Job
update to_dispatching v = ok (dispatching_state v)
update (invoked i) v = ok (record_invocation i v)
update (claim_at lease now new) v = left (claim_state lease now new v)
update (renew_at lease now a fence) v = left (renew lease now a fence v)
update (cancel_at now) v = ok (cancelled_state now v)
update (progress_to p fence) v = left (commit p fence false v)
update (finish_as a fence s) v = finish_state a fence s v
