-- ===== src/Jobs/Consistency.antt =====
-- netreplay/core/jobs.py: what the status of a job says of its other fields and of its worker, and that each step keeps it.
use net_replay.Common.{ℕ, Bool, true, false, ◌≡◌, ◌≢◌, refl, Option, none, some, if◌then◌else◌}
use net_replay.Jobs.{
  JobStatus, pending, running, succeeded, failed, cancelled, is_terminal, is_pending, Job,
  request_cancel, Outcome, returned, raised, Worker, testing, locking, calling, recording,
  finishing, stopped, System, test_cancel, take_job, record_outcome, finish, Step, test, take, call,
  store, finally, cancel_job,
}

-- What a status says of the job's other fields.
abbrev pub Fields : JobStatus → Job → Type 0
Fields pending job = (job.started_at ≡ none) × (job.finished_at ≡ none) × (job.cancel ≡ false)
Fields running job = job.started_at ≢ none
Fields succeeded job = job.result ≢ none
Fields failed job = job.error ≢ none
Fields cancelled job = (job.finished_at ≢ none) × (job.cancel ≡ true)

-- The status is one that only the function's outcome sets.
unfoldable pub is_decided : JobStatus → Bool
is_decided succeeded = true
is_decided failed = true
is_decided _ = false

-- What the place of the worker says of the status and of `finished_at`.
abbrev pub Placed : Worker → JobStatus → Option ℕ → Type 0
Placed testing st end = is_decided st ≡ false
Placed locking st end = is_decided st ≡ false
Placed calling st end = is_pending st ≡ false
Placed (recording o) st end = is_pending st ≡ false
Placed finishing st end = is_decided st ≡ true
Placed stopped st end = (is_terminal st ≡ true → end ≢ none) × (is_pending st ≡ false)

-- The status agrees with the job's other fields and with the place of its worker.
pub record IsConsistent (s : System) : Type 0 where
  pub fields : Fields s.job.status s.job
  pub placed : Placed s.worker s.job.status s.job.finished_at

Fields-cancel :
    (job : Job) (st : JobStatus) (now : ℕ)
    → job.status ≡ st
    → Fields st job
    → Fields (request_cancel now job).status (request_cancel now job)
unfolding request_cancel is_terminal is_pending
Fields-cancel job pending now e h = rw e (λ q. cc, refl)
Fields-cancel job running now e h = rw e h
Fields-cancel job succeeded now e h = rw e h
Fields-cancel job failed now e h = rw e h
Fields-cancel job cancelled now e h = rw e (h.0, refl)

Placed-cancelled :
    (w : Worker) (now : ℕ) (end : Option ℕ) → Placed w pending end → Placed w cancelled (some now)
unfolding is_decided is_terminal is_pending
Placed-cancelled testing now end h = refl
Placed-cancelled locking now end h = refl
Placed-cancelled calling now end h = refl
Placed-cancelled (recording o) now end h = refl
Placed-cancelled finishing now end h = cc
Placed-cancelled stopped now end h = (λ _ q. cc, refl)

Placed-cancel :
    (w : Worker) (job : Job) (st : JobStatus) (now : ℕ)
    → job.status ≡ st
    → Placed w st job.finished_at
    → Placed w (request_cancel now job).status (request_cancel now job).finished_at
unfolding request_cancel is_terminal is_pending
Placed-cancel w job pending now e h = rw e (Placed-cancelled w now job.finished_at h)
Placed-cancel w job running now e h = rw e h
Placed-cancel w job succeeded now e h = rw e h
Placed-cancel w job failed now e h = rw e h
Placed-cancel w job cancelled now e h = rw e h

cancel_keeps :
    (job : Job) (w : Worker) (now : ℕ)
    → IsConsistent (record { job = job; worker = w })
    → IsConsistent (record { job = request_cancel now job; worker = w })
cancel_keeps job w now c = record {
  fields = Fields-cancel job job.status now refl c.fields;
  placed = Placed-cancel w job job.status now refl c.placed;
}

-- A worker that sees a request stops: the job is cancelled, or still running.
stopped_by_test :
    (job : Job) (st : JobStatus) (now : ℕ)
    → job.status ≡ st
    → Fields st job
    → is_decided st ≡ false
    → Placed stopped (request_cancel now job).status (request_cancel now job).finished_at
unfolding request_cancel is_terminal is_pending is_decided
stopped_by_test job pending now e f d = rw e (λ _ q. cc, refl)
stopped_by_test job running now e f d = rw e (λ q. cc, refl)
stopped_by_test job succeeded now e f d = cc
stopped_by_test job failed now e f d = cc
stopped_by_test job cancelled now e f d = rw e (λ _. f.0, refl)

by_cases :
    {A : Type 0} (P : A → Type 0) (b : Bool) (x y : A)
    → (b ≡ true → P x)
    → (b ≡ false → P y)
    → P (if b then x else y)
by_cases P true x y f g = f refl
by_cases P false x y f g = g refl

test_keeps :
    (job : Job) (now : ℕ)
    → IsConsistent (record { job = job; worker = testing })
    → IsConsistent (test_cancel now job)
unfolding test_cancel
test_keeps job now c =
    by_cases IsConsistent job.cancel (record { job = request_cancel now job; worker = stopped })
      (record { job = job; worker = locking })
      (λ e. record {
        fields = Fields-cancel job job.status now refl c.fields;
        placed = stopped_by_test job job.status now refl c.fields c.placed;
      })
      (λ e. record { fields = c.fields; placed = c.placed })

take_keeps :
    (job : Job) (now : ℕ)
    → IsConsistent (record { job = job; worker = locking })
    → IsConsistent (take_job now job)
unfolding take_job is_decided
take_keeps job now c =
    by_cases IsConsistent (is_pending job.status)
      (record { job = record job { status = running; started_at = some now }; worker = testing })
      (record { job = job; worker = calling }) (λ e. record { fields = λ q. cc; placed = refl })
      (λ e. record { fields = c.fields; placed = e })

store_keeps : (job : Job) (o : Outcome) → IsConsistent (record_outcome o job)
unfolding record_outcome is_decided
store_keeps job (returned r) = record { fields = λ q. cc; placed = refl }
store_keeps job (raised e) = record { fields = λ q. cc; placed = refl }

-- The last block leaves a job that succeeded or failed, and sets its end.
Fields-finish :
    (job : Job) (st : JobStatus) (now : ℕ)
    → is_decided st ≡ true
    → Fields st job
    → Fields st (record job { finished_at = some now })
unfolding is_decided
Fields-finish job pending now d f = cc
Fields-finish job running now d f = cc
Fields-finish job succeeded now d f = f
Fields-finish job failed now d f = f
Fields-finish job cancelled now d f = cc

decided_not_pending : (st : JobStatus) → is_decided st ≡ true → is_pending st ≡ false
unfolding is_decided is_pending
decided_not_pending pending d = cc
decided_not_pending running d = refl
decided_not_pending succeeded d = refl
decided_not_pending failed d = refl
decided_not_pending cancelled d = refl

pub Step-IsConsistent : {s t : System} → Step s t → IsConsistent s → IsConsistent t
unfolding finish
Step-IsConsistent (test job now) c = test_keeps job now c
Step-IsConsistent (take job now) c = take_keeps job now c
Step-IsConsistent (call job o) c = record { fields = c.fields; placed = c.placed }
Step-IsConsistent (store job o) c = store_keeps job o
Step-IsConsistent (finally job now) c = record {
  fields = Fields-finish job job.status now c.placed c.fields;
  placed = (λ _ q. cc, decided_not_pending job.status c.placed);
}
Step-IsConsistent (cancel_job s now) c =
    cancel_keeps s.job s.worker now (record { fields = c.fields; placed = c.placed })
