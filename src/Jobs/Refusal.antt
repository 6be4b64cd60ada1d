-- ===== src/Jobs/Refusal.antt =====
-- When the retry loop `_mutate` of backend/src/vision_app/jobs/service.py raises at its first try,
-- and when it goes through at once.
use vision_app_creator.Prelude.{
  ℕ, suc, ◌+◌, ◌<◌, String, ◌≡◌, inl, inr, true, some, List, [], Option-cases, arith, nat_eq,
  string_eq, lookup, insert,
}
use vision_app_creator.Prelude.Results.{ok, err}
use vision_app_creator.Jobs.State.{Job, JobError}
use vision_app_creator.Jobs.Store.{
  Jobs, compare_and_swap, Step, perform_all, Others, Mutation, mutate_tries, mutate,
}
use vision_app_creator.Jobs.Service.{World}
use vision_app_creator.Jobs.Atomic.{IsSound}
use vision_app_creator.Jobs.Growth.{perform_all-Grows}

module _ {A : Type 0} (others : Others) (run : String) (f : Mutation A) where
  tries_raise :
      (n : ℕ) (a : A) (e : JobError) (v : Job) (jobs : Jobs)
      → lookup run (perform_all (others.before_read n) jobs) ≡ some v
      → f n a v ≡ err e
      → mutate_tries (suc n) others run f a jobs ≡ (err e, perform_all (others.before_read n) jobs)
  unfolding mutate_tries
  tries_raise n a e v jobs here raised = ground arith

  -- The first try already raises.
  pub mutate_raises :
      (a : A) (e : JobError) (v : Job) (jobs : Jobs)
      → lookup run (perform_all (others.before_read 99) jobs) ≡ some v
      → f 99 a v ≡ err e
      → mutate others run f a jobs ≡ (err e, perform_all (others.before_read 99) jobs)
  mutate_raises a e v jobs here raised = tries_raise 99 a e v jobs here raised

  module _ (a : A) (jobs : Jobs) (e : JobError) (P : Job → Type 0) where
    -- … on every job that meets P.
    pub mutate_raises_when :
        ((v : Job) → P v → f 99 a v ≡ err e)
        → (v : Job) × (lookup run (perform_all (others.before_read 99) jobs) ≡ some v) × P v
        → mutate others run f a jobs ≡ (err e, perform_all (others.before_read 99) jobs)
    mutate_raises_when raises (v, here, p) = mutate_raises a e v jobs here (raises v p)

abbrev pub met : Others → World → Jobs
met others w = perform_all (others.before_read 99) w.jobs

abbrev pub FencedOff : ℕ → Job → Type 0
FencedOff old v = old < v.fence

pub fenced_at :
    (ss : List Step) (run : String) (old : ℕ) (v : Job) (jobs : Jobs)
    → IsSound jobs
    → lookup run jobs ≡ some v
    → old < v.fence
    → (v' : Job) × (lookup run (perform_all ss jobs) ≡ some v') × (old < v'.fence)
fenced_at ss run old v jobs h here lt = elim (Option-cases (lookup run (perform_all ss jobs))) [
  | inl e ↦ ground (arith, perform_all-Grows ss run jobs h)
  | inr (v', e) ↦ (v', e, ground (arith, perform_all-Grows ss run jobs h))
]

pub cancelling_at :
    (ss : List Step) (run : String) (v : Job) (jobs : Jobs)
    → IsSound jobs
    → lookup run jobs ≡ some v
    → v.cancel_requested ≡ true
    → (v' : Job) × (lookup run (perform_all ss jobs) ≡ some v') × (v'.cancel_requested ≡ true)
cancelling_at ss run v jobs h here c = elim (Option-cases (lookup run (perform_all ss jobs))) [
  | inl e ↦ ground (arith, perform_all-Grows ss run jobs h)
  | inr (v', e) ↦ (v', e, ground (arith, perform_all-Grows ss run jobs h))
]

-- No other service writes.
abbrev pub alone : Others
alone = record { before_read = λ n. []; before_swap = λ n. [] }

module _ {A : Type 0} (run : String) (f : Mutation A) where
  tries_alone :
      (n : ℕ) (a a' : A) (v v' : Job) (jobs : Jobs)
      → lookup run jobs ≡ some v
      → f n a v ≡ ok (a', v')
      → mutate_tries (suc n) alone run f a jobs
        ≡ (ok a', insert run (record v' { revision = v.revision + 1 }) jobs)
  unfolding mutate_tries perform_all compare_and_swap
  tries_alone n a a' v v' jobs here ran = ground arith

  pub mutate-alone :
      (a a' : A) (v v' : Job) (jobs : Jobs)
      → lookup run jobs ≡ some v
      → f 99 a v ≡ ok (a', v')
      → mutate alone run f a jobs
        ≡ (ok a', insert run (record v' { revision = v.revision + 1 }) jobs)
  mutate-alone a a' v v' jobs here ran = tries_alone 99 a a' v v' jobs here ran
