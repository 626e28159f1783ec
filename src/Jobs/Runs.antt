-- ===== src/Jobs/Runs.antt =====
-- netreplay/core/jobs.py: the interleavings of a worker and the cancellations of its job.
use net_replay.Common.{ℕ, true, ◌≡◌, refl, none, some}
use net_replay.Jobs.{
  Text, running, succeeded, failed, is_terminal, is_pending, Job, new_job, or_empty, request_cancel,
  Outcome, returned, raised, testing, calling, stopped, System, test_cancel, take_job,
  record_outcome, finish, Step, test, take, call, store, finally, cancel_job, Reach, here, next,
  submitted,
}
use net_replay.Jobs.Consistency.{IsConsistent, Step-IsConsistent, is_decided}

-- However cancellations interleave with the worker of a new job, in every state that is reached the status agrees with
-- the job's times, result and error, and with the worker's place: a pending job has no times and no request, a running
-- one has started, a succeeded one has a result, a failed one an error, a cancelled one an end and a request; and once the
-- worker has stopped the job is not pending, and has an end if its status is terminal.
pub Reach-IsConsistent :
    (kind parameters job_id : Text) (now : ℕ) {t : System}
    → Reach (submitted kind parameters job_id now) t
    → IsConsistent t
unfolding is_decided
Reach-IsConsistent kind parameters job_id now here = record {
  fields = (refl, refl, refl);
  placed = refl;
}
Reach-IsConsistent kind parameters job_id now (next r step) =
    Step-IsConsistent step (Reach-IsConsistent kind parameters job_id now r)

-- The status is `running`, but the worker has stopped and no end is set.
abbrev pub IsStuck : System → Type 0
IsStuck s = (s.job.status ≡ running) × (s.worker ≡ stopped) × (s.job.finished_at ≡ none)

Step-IsStuck : {s t : System} → Step s t → IsStuck s → IsStuck t
unfolding request_cancel is_terminal is_pending
Step-IsStuck (test job now) st = cc
Step-IsStuck (take job now) st = cc
Step-IsStuck (call job o) st = cc
Step-IsStuck (store job o) st = cc
Step-IsStuck (finally job now) st = cc
Step-IsStuck (cancel_job s now) st = rw st.0 (refl, st.1, st.2)

Reach-IsStuck : {s t : System} → Reach s t → IsStuck s → IsStuck t
Reach-IsStuck here st = st
Reach-IsStuck (next r step) st = Step-IsStuck step (Reach-IsStuck r st)

-- The job that `cancel` finds between the locked block and the second test of `_run`.
abbrev pub taken : Text → Text → Text → ℕ → ℕ → Job
taken kind parameters job_id now at = record (new_job kind parameters job_id now) {
  status = running;
  started_at = some at;
}

pub Reach-taken :
    (kind parameters job_id : Text) (now at : ℕ)
    → Reach
        (submitted kind parameters job_id now)
        (record { job = taken kind parameters job_id now at; worker = testing })
unfolding test_cancel take_job is_pending
Reach-taken kind parameters job_id now at =
    next (next here (test (new_job kind parameters job_id now) now))
      (take (new_job kind parameters job_id now) at)

-- For every new job there is a run after which, whatever steps follow, the status is `running`, the worker has stopped
-- and no end is set. It is the run with a `cancel` between the locked block of the loop and the test after it.
pub cancel-IsStuck :
    (kind parameters job_id : Text) (now at : ℕ)
    → (s : System) × Reach (submitted kind parameters job_id now) s
      × ((t : System) → Reach s t → IsStuck t)
unfolding test_cancel request_cancel is_terminal is_pending
cancel-IsStuck kind parameters job_id now at =
    let requested = record (taken kind parameters job_id now at) { cancel = true } in
    (
      record { job = requested; worker = stopped },
      next
          (next (Reach-taken kind parameters job_id now at) (
            cancel_job (record { job = taken kind parameters job_id now at; worker = testing }) at))
          (test requested at),
      λ t r. Reach-IsStuck r (refl, refl, refl),
    )

-- The run of `cancel-IsLost`, up to the request.
Reach-calling :
    (kind parameters job_id : Text) (now at : ℕ)
    → Reach (submitted kind parameters job_id now) (record {
      job = record (taken kind parameters job_id now at) { cancel = true };
      worker = calling;
    })
unfolding test_cancel take_job request_cancel is_terminal is_pending
Reach-calling kind parameters job_id now at =
    let job = taken kind parameters job_id now at in
    let locked =
      next (next (Reach-taken kind parameters job_id now at) (test job at)) (take job at) in
    next locked (cancel_job (record { job = job; worker = calling }) at)

-- The job has the outcome of its function.
abbrev pub IsRecorded : Outcome → Job → Type 0
IsRecorded (returned r) job = (job.status ≡ succeeded) × (job.result ≡ some (or_empty r))
IsRecorded (raised e) job = (job.status ≡ failed) × (job.error ≡ some e)

-- A state with a request while the function runs, and a later state with the outcome.
pub record IsLost (start : System) (o : Outcome) : Type 0 where
  pub asked : System
  pub ended : System
  pub reached : Reach start asked
  pub requested : asked.job.cancel ≡ true
  pub runs : asked.worker ≡ calling
  pub undecided : asked.job.status ≡ running
  pub goes_on : Reach asked ended
  pub stops : ended.worker ≡ stopped
  pub still_requested : ended.job.cancel ≡ true
  pub recorded : IsRecorded o ended.job

-- The steps after the request: the function ends, the outcome is stored, the last block.
Reach-finished :
    (job : Job) (o : Outcome) (at : ℕ)
    → Reach (record { job = job; worker = calling }) (finish at (record_outcome o job).job)
unfolding record_outcome
Reach-finished job (returned r) at =
    let o = returned r in
    next (next (next here (call job o)) (store job o)) (finally (record_outcome o job).job at)
Reach-finished job (raised e) at =
    let o = raised e in
    next (next (next here (call job o)) (store job o)) (finally (record_outcome o job).job at)

finish-IsRecorded :
    (job : Job) (o : Outcome) (at : ℕ) → IsRecorded o (finish at (record_outcome o job).job).job
unfolding record_outcome finish
finish-IsRecorded job (returned r) at = (refl, refl)
finish-IsRecorded job (raised e) at = (refl, refl)

cancel-finish :
    (job : Job) (o : Outcome) (at : ℕ)
    → (finish at (record_outcome o job).job).job.cancel ≡ job.cancel
unfolding record_outcome finish
cancel-finish job (returned r) at = refl
cancel-finish job (raised e) at = refl

stopped-finish : (job : Job) (at : ℕ) → (finish at job).worker ≡ stopped
unfolding finish
stopped-finish job at = refl

-- For every new job and every outcome of its function there is a run in which a cancellation is requested while the
-- function runs, and which goes on to a state in which the worker has stopped and the job, its request still set,
-- succeeded with the value that was returned or failed with the error that was raised.
pub cancel-IsLost :
    (kind parameters job_id : Text) (now at : ℕ) (o : Outcome)
    → IsLost (submitted kind parameters job_id now) o
cancel-IsLost kind parameters job_id now at o =
    let job = record (taken kind parameters job_id now at) { cancel = true } in
    record {
      asked = record { job = job; worker = calling };
      ended = finish at (record_outcome o job).job;
      reached = Reach-calling kind parameters job_id now at;
      requested = refl;
      runs = refl;
      undecided = refl;
      goes_on = Reach-finished job o at;
      stops = stopped-finish (record_outcome o job).job at;
      still_requested = cancel-finish job o at;
      recorded = finish-IsRecorded job o at;
    }
