-- ===== src/Queue/Lease.antt =====
-- `mark_running` and `heartbeat`: what a worker may do under a live lease.
use verifier_ci.Prelude.{
  ℕ, ◌+◌, Bool, true, false, ◌&&◌, ◌||◌, not, Option, none, some, if◌then◌else◌, ◌==◌, leb, opt_eq,
  is_some,
}
use verifier_ci.Errors.{ErrorClass}
use verifier_ci.Models.Job.{Key, Job, JobState, is_active}
use verifier_ci.Queue.Database.{
  Database, Result, ok, err, ◌>>=◌, ◌>>◌, raise_if, find_job, update_jobs, has_id,
}

-- `claimed is not None and stored != claimed`
abbrev pub differs_if_known : Option Key → Option Key → Bool
differs_if_known claimed stored = is_some claimed && not (opt_eq ◌==◌ stored claimed)

-- `lease_expires_ms is None or lease_expires_ms <= now_ms`
abbrev pub lease_has_expired : Job → ℕ → Bool
lease_has_expired row now_ms = elim row.lease_expires_ms [ none ↦ true | some t ↦ leb t now_ms ]

abbrev pub is_claimed : JobState → Bool
is_claimed JobState.claimed = true
is_claimed _ = false

abbrev find_row : Job → Database → Result Job
find_row job db = elim (find_job job.job_id db.jobs) [
  | none ↦ err ErrorClass.lease_lost
  | some row ↦ ok row
]

-- The checks that both functions make on the stored row, in their order.
unfoldable pub require_lease : Job → ℕ → Job → Result (Unit {0})
require_lease job now_ms row = do
  raise_if
      (not (row.fence == job.fence)
        || not (opt_eq ◌==◌ row.lease_token job.lease_token)
        || differs_if_known job.worker_id row.worker_id
        || differs_if_known job.attempt_id row.attempt_id)
      ErrorClass.lease_lost
  raise_if (lease_has_expired row now_ms) ErrorClass.lease_lost
  raise_if (not (is_active row.state)) ErrorClass.lease_lost

unfoldable pub mark_running : Job → ℕ → Database → Result (Job × Database)
unfolding require_lease
mark_running job now_ms db = do
  row ← find_row job db
  require_lease job now_ms row
  ok (
    record job {
      state = JobState.running;
      lease_expires_ms = row.lease_expires_ms;
      attempts_started = row.attempts_started;
      selected_attempt_id = row.selected_attempt_id;
      terminal_reason = row.terminal_reason;
    },
    if is_claimed row.state
        then update_jobs (has_id job.job_id) (λ j. record j { state = JobState.running }) db
        else db,
  )

unfoldable pub heartbeat : Job → ℕ → ℕ → Database → Result (Job × Database)
unfolding require_lease
heartbeat job now_ms extension_ms db = do
  row ← find_row job db
  require_lease job now_ms row
  ok (
    record job {
      state = row.state;
      worker_id = row.worker_id;
      lease_expires_ms = some (now_ms + extension_ms);
      attempts_started = row.attempts_started;
      selected_attempt_id = row.selected_attempt_id;
      terminal_reason = row.terminal_reason;
    },
    update_jobs (has_id job.job_id)
        (λ j. record j { lease_expires_ms = some (now_ms + extension_ms) }) db,
  )
