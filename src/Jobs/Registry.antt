-- ===== src/Jobs/Registry.antt =====
-- `JobManager` of netreplay/core/jobs.py: the jobs by id. An entry's thread is the worker of the system in the parent;
-- the id and the time of `submit` come as arguments.
use net_replay.Common.{
  List, ◌∷◌, ℕ, Bool-cases, inl, inr, sym, ap, ◌≡◌, refl, Option, none, some, [], if◌then◌else◌,
}
use net_replay.Common.Dict.{Dict, lookup, insert, lookup-insert}
use net_replay.Common.Sort.{pair_leb, sort_with}
use net_replay.Replay.Bytes.{bytes_eq}
use net_replay.Common.Text.{codes, text_eq, text_eq-eq}
use net_replay.Jobs.{
  JobStatus, pending, running, succeeded, failed, cancelled, Text, Job, new_job, request_cancel,
}

pub record JobManager : Type 0 where
  pub entries : Dict Text Job

abbrev pub new_manager : JobManager
new_manager = record { entries = [] }

unfoldable pub submit : Text → Text → Text → ℕ → JobManager → JobManager
submit kind parameters job_id now m = record m {
  entries = insert job_id (new_job kind parameters job_id now) m.entries;
}

unfoldable pub get : JobManager → Text → Option Job
get m job_id = lookup job_id m.entries

-- `status.value`
abbrev pub status_text : JobStatus → Text
status_text pending = codes "pending"
status_text running = codes "running"
status_text succeeded = codes "succeeded"
status_text failed = codes "failed"
status_text cancelled = codes "cancelled"

abbrev pub jobs_of : Dict Text Job → List Job
jobs_of [] = []
jobs_of ((job_id, job) ∷ rest) = job ∷ jobs_of rest

-- `[j for j in jobs if … == wanted]`, under `if wanted`.
abbrev pub filtered : (Job → Text) → Option Text → List Job → List Job
filtered f none jobs = jobs
filtered f (some []) jobs = jobs
filtered f (some (c ∷ cs)) [] = []
filtered f (some (c ∷ cs)) (job ∷ jobs) =
    let rest = filtered f (some (c ∷ cs)) jobs in
    if text_eq (f job) (c ∷ cs) then job ∷ rest else rest

unfoldable pub list : JobManager → Option Text → Option Text → List Job
list m kind status =
    sort_with (λ a b. pair_leb (a.created_at, a.job_id) (b.created_at, b.job_id))
      (filtered (λ j. status_text j.status) status
        (filtered (λ j. j.kind) kind (jobs_of m.entries)))

abbrev pub cancel_found : JobManager → Text → ℕ → Option Job → Option Job × JobManager
cancel_found m job_id now none = (none, m)
cancel_found m job_id now (some job) = (
  some (request_cancel now job),
  record m { entries = insert job_id (request_cancel now job) m.entries },
)

-- The job as a cancellation leaves it.
abbrev pub requested : ℕ → Option Job → Option Job
requested now none = none
requested now (some job) = some (request_cancel now job)

unfoldable pub cancel : JobManager → Text → ℕ → Option Job × JobManager
cancel m job_id now = cancel_found m job_id now (get m job_id)

cancel_cases :
    (m : JobManager) (job_id other : Text) (now : ℕ) (o : Option Job)
    → lookup job_id m.entries ≡ o
    → lookup other (cancel_found m job_id now o).1.entries ≡ (
        if text_eq job_id other
        then requested now (lookup other m.entries)
        else lookup other m.entries)
cancel_cases m job_id other now none e = elim (Bool-cases (text_eq job_id other)) [
  | inl q ↦ rw (q, sym (ap (λ k. lookup k m.entries) (text_eq-eq job_id other q)), e) refl
  | inr q ↦ rw q refl
]
cancel_cases m job_id other now (some job) e = elim (Bool-cases (text_eq job_id other)) [
  | inl q ↦
      rw
        (
          lookup-insert job_id other (request_cancel now job) m.entries,
          q,
          sym (ap (λ k. lookup k m.entries) (text_eq-eq job_id other q)),
          e,
        )
        refl
  | inr q ↦ rw (lookup-insert job_id other (request_cancel now job) m.entries, q) refl
]

-- A cancellation touches only the job it names: what `get` finds under any id afterwards is what it found before, with
-- `request_cancel` applied exactly when the id is the cancelled one.
pub get-cancel :
    (m : JobManager) (job_id other : Text) (now : ℕ)
    → get (cancel m job_id now).1 other
      ≡ (if text_eq job_id other then requested now (get m other) else get m other)
unfolding get cancel
get-cancel m job_id other now = cancel_cases m job_id other now (lookup job_id m.entries) refl
