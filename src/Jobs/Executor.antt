-- ===== src/Jobs/Executor.antt =====
-- `InMemoryJobExecutor` of backend/src/vision_app/jobs/executors.py, whose `submit` is keyed by the
-- run. The asyncio tasks are not modelled: an invocation is its cancellation flag.
use vision_app_creator.Prelude.{
  ℕ, ◌+◌, String, Bool, true, false, Option, none, some, List, [], ◌∷◌, ◌++◌, string_eq,
  if◌then◌else◌, Dict, lookup, insert, decimal, length, ◌+++◌,
}
use vision_app_creator.Prelude.Results.{Result, ok, err}
use vision_app_creator.Jobs.State.{JobError, connection_error}

pub record Executor : Type 0 where
  pub raise_after_submit_once : Bool
  pub submission_count : ℕ
  pub cancelled_invocations : List String
  pub by_run : Dict String String
  pub cancel : Dict String Bool

-- `f"invocation-{len(self._by_run) + 1}"`
abbrev pub next_invocation : Executor → String
next_invocation x = "invocation-" +++ decimal (length x.by_run + 1)

-- The bookkeeping of a submission, up to the lost response.
abbrev submitted : String → String → Executor → Executor
submitted run i x = record x {
  by_run = insert run i x.by_run;
  submission_count = x.submission_count + 1;
  cancel = insert i false x.cancel;
  raise_after_submit_once = false;
}

unfoldable pub submit : String → Executor → Result JobError String × Executor
submit run x = elim (lookup run x.by_run) [
  | some i ↦ (ok i, x)
  | none ↦
      if x.raise_after_submit_once
      then (err connection_error, submitted run (next_invocation x) x)
      else (ok (next_invocation x), submitted run (next_invocation x) x)
]

abbrev cancel_flag : Option Bool → String → Executor → Executor
cancel_flag none i x = x
cancel_flag (some true) i x = x
cancel_flag (some false) i x = record x {
  cancel = insert i true x.cancel;
  cancelled_invocations = x.cancelled_invocations ++ (i ∷ []);
}

unfoldable pub cancel_invocation : String → Executor → Executor
cancel_invocation i x = cancel_flag (lookup i x.cancel) i x
