-- ===== src/Jobs.antt =====
-- netreplay/core/jobs.py: the jobs. Each block that a lock guards, and each test of the worker, is one step of the job and
-- its worker thread; `cancel` may come between any two. A job's function is not modelled: it returns or
-- raises, and its result, error and parameters are texts. Times come as arguments.
pub mod Consistency
pub mod Runs
pub mod Registry
mod Tests
use net_replay.Common.{ℕ, Bool, true, false, ◌||◌, Option, none, some, List, [], ◌∷◌, if◌then◌else◌}

abbrev pub Text : Type 0
Text = List ℕ

pub data JobStatus : Type 0 where
  pending running succeeded failed cancelled : JobStatus

-- `status in _TERMINAL`
unfoldable pub is_terminal : JobStatus → Bool
is_terminal succeeded = true
is_terminal failed = true
is_terminal cancelled = true
is_terminal _ = false

unfoldable pub is_pending : JobStatus → Bool
is_pending pending = true
is_pending _ = false

pub record Job : Type 0 where
  pub kind : Text
  pub parameters : Text
  pub job_id : Text
  pub status : JobStatus
  pub created_at : ℕ
  pub started_at : Option ℕ
  pub finished_at : Option ℕ
  pub result : Option Text
  pub error : Option Text
  pub cancel : Bool

-- The job that `submit` makes.
abbrev pub new_job : Text → Text → Text → ℕ → Job
new_job kind parameters job_id now = record {
  kind = kind;
  parameters = parameters;
  job_id = job_id;
  status = pending;
  created_at = now;
  started_at = none;
  finished_at = none;
  result = none;
  error = none;
  cancel = false;
}

-- `Job.done`
unfoldable pub done : Job → Bool
done job = is_terminal job.status

-- `Job.request_cancel`
unfoldable pub request_cancel : ℕ → Job → Job
request_cancel now job =
    if is_terminal job.status
    then record job { cancel = true }
    else if is_pending job.status
    then record job { cancel = true; status = cancelled; finished_at = some now }
    else record job { cancel = true }

-- What the job's function did.
pub data Outcome : Type 0 where
  returned : Option Text → Outcome
  raised : Text → Outcome

-- Where the worker stands in `_run`: before the test of `cancel_requested`, before the locked block of the loop,
-- in the call of the function, before the block that records the outcome, before `finally`, and at the end.
pub data Worker : Type 0 where
  testing locking calling : Worker
  recording : Outcome → Worker
  finishing stopped : Worker

pub record System : Type 0 where
  pub job : Job
  pub worker : Worker

-- `if job.cancel_requested: job.request_cancel(); return`
unfoldable pub test_cancel : ℕ → Job → System
test_cancel now job =
    if job.cancel
    then record { job = request_cancel now job; worker = stopped }
    else record { job = job; worker = locking }

-- The locked block of the loop: `break`, or another round.
unfoldable pub take_job : ℕ → Job → System
take_job now job =
    if is_pending job.status
    then record { job = record job { status = running; started_at = some now }; worker = testing }
    else record { job = job; worker = calling }

-- `result or {}`
abbrev pub or_empty : Option Text → Text
or_empty none = []
or_empty (some r) = r

-- The `except` and `else` blocks.
unfoldable pub record_outcome : Outcome → Job → System
record_outcome (returned r) job = record {
  job = record job { result = some (or_empty r); status = succeeded };
  worker = finishing;
}
record_outcome (raised e) job = record {
  job = record job { error = some e; status = failed };
  worker = finishing;
}

-- The `finally` block.
unfoldable pub finish : ℕ → Job → System
finish now job = record { job = record job { finished_at = some now }; worker = stopped }

-- One step of the worker, or a `JobManager.cancel` of another thread.
pub data Step : System → System → Type 0 where
  test : (job : Job) (now : ℕ) → Step (record { job = job; worker = testing }) (test_cancel now job)
  take : (job : Job) (now : ℕ) → Step (record { job = job; worker = locking }) (take_job now job)
  call :
      (job : Job) (o : Outcome)
      → Step (record { job = job; worker = calling }) (record { job = job; worker = recording o })
  store :
      (job : Job) (o : Outcome)
      → Step (record { job = job; worker = recording o }) (record_outcome o job)
  finally : (job : Job) (now : ℕ) → Step (record { job = job; worker = finishing }) (finish now job)
  cancel_job :
      (s : System) (now : ℕ) → Step s (record { job = request_cancel now s.job; worker = s.worker })

pub data Reach (s : System) : System → Type 0 where
  here : Reach s s
  next : {t u : System} → Reach s t → Step t u → Reach s u

-- The state of `submit`: a new job, and its worker about to start.
abbrev pub submitted : Text → Text → Text → ℕ → System
submitted kind parameters job_id now = record {
  job = new_job kind parameters job_id now;
  worker = testing;
}
