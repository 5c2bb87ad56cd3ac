-- ===== src/Queue/Reap.antt =====
-- `reap_expired`: jobs whose lease ran out go back to the queue, or fail.
use verifier_ci.Prelude.{
  ℕ, Bool, false, ◌&&◌, Option, none, some, List, [], ◌∷◌, if◌then◌else◌, ◌==◌, leb, ltb,
  or_default, keep_if, contains, map,
}
use verifier_ci.Models.Job.{Key, Job, JobState, is_active}
use verifier_ci.Models.Attempt.{Validity, Disposition}
use verifier_ci.Models.Attempt
use verifier_ci.Queue.Database.{
  Database, AttemptRow, Result, ok, ◌>>=◌, find_run, find_manifest, update_jobs, has_id,
  update_attempts,
}
use verifier_ci.Queue.RunState.{update_run_state}
use verifier_ci.Queue.Claim.{run_is_cancelled}

-- `MAX_ATTEMPTS`
abbrev pub max_attempts : ℕ
max_attempts = 3

-- `lease_expires_ms IS NOT NULL AND lease_expires_ms <= now`
abbrev pub has_run_out : ℕ → Option ℕ → Bool
has_run_out now_ms none = false
has_run_out now_ms (some t) = leb t now_ms

abbrev pub is_expired : ℕ → Job → Bool
is_expired now_ms j = is_active j.state && has_run_out now_ms j.lease_expires_ms

abbrev pub insert_by_id : Job → List Job → List Job
insert_by_id j [] = j ∷ []
insert_by_id j (k ∷ ks) = if leb j.job_id k.job_id then j ∷ k ∷ ks else k ∷ insert_by_id j ks

-- `ORDER BY job_id ASC`
abbrev pub order_by_id : List Job → List Job
order_by_id [] = []
order_by_id (j ∷ js) = insert_by_id j (order_by_id js)

abbrev pub expired_rows : ℕ → List Job → List Job
expired_rows now_ms jobs = order_by_id (keep_if (is_expired now_ms) jobs)

-- The attempts that a job may start: the caller's limit, else the manifest's, else the default.
-- The program keeps the manifest's answer for each run while it loops.
unfoldable pub effective_max_attempts : Option ℕ → Key → Database → ℕ
effective_max_attempts (some m) run db = m
effective_max_attempts none run db = elim (find_run run db.runs) [
  | none ↦ max_attempts
  | some r ↦ elim (find_manifest r.manifest_hash db.manifests) [
    | none ↦ max_attempts
    | some m ↦ or_default m.max_attempts_per_job max_attempts
  ]
]

abbrev pub abandoned_row : ℕ → AttemptRow → AttemptRow
abandoned_row now_ms a = record a {
  disposition = Disposition.abandoned;
  evaluation_validity = Validity.invalid;
  outcome = none;
  finished_at = some now_ms;
}

abbrev pub has_active_id : Key → AttemptRow → Bool
has_active_id k a = (a.attempt_id == k) && Attempt.is_active a.disposition

-- The active attempt of the job is abandoned.
unfoldable pub abandon_attempt : Option Key → ℕ → Database → Result Database
abandon_attempt none now_ms db = ok db
abandon_attempt (some k) now_ms db = update_attempts (has_active_id k) (abandoned_row now_ms) db

abbrev pub released_job : Job → Job
released_job j = record j {
  attempt_id = none;
  lease_token = none;
  worker_id = none;
  lease_expires_ms = none;
}

-- What becomes of a job with `started` attempts behind it.
abbrev pub reaped_job : Bool → ℕ → ℕ → Job → Job
reaped_job cancelled started limit j =
    if cancelled
    then record (released_job j) { state = JobState.failed; terminal_reason = some "CANCELLED" }
    else if ltb started limit
    then record (released_job j) { state = JobState.pending; terminal_reason = none }
    else record (released_job j) { state = JobState.failed; terminal_reason = some "LEASE_EXPIRED" }

-- One pass of the loop over the expired rows.
unfoldable pub reap_row : Option ℕ → ℕ → Job → Database → Result Database
unfolding abandon_attempt run_is_cancelled effective_max_attempts
reap_row limit now_ms row db = do
  db' ← abandon_attempt row.attempt_id now_ms db
  ok (
      update_jobs (has_id row.job_id)
        (reaped_job (run_is_cancelled row.run_id db') row.attempts_started
          (effective_max_attempts limit row.run_id db'))
        db')

unfoldable pub reap_rows : Option ℕ → ℕ → List Job → Database → Result Database
unfolding reap_row
reap_rows limit now_ms [] db = ok db
reap_rows limit now_ms (row ∷ rows) db =
    reap_row limit now_ms row db >>= reap_rows limit now_ms rows

-- `affected_runs`, each run once.
unfoldable pub affected_runs : List Job → List Key
affected_runs [] = []
affected_runs (j ∷ js) =
    let rest = affected_runs js in if contains j.run_id rest then rest else j.run_id ∷ rest

unfoldable pub update_run_states : List Key → ℕ → Database → Database
update_run_states [] now_ms db = db
update_run_states (run ∷ runs) now_ms db =
    update_run_states runs now_ms (update_run_state run now_ms db)

abbrev pub job_ids : List Job → List Key
job_ids = map (λ j. j.job_id)

unfoldable pub reap_expired : Option ℕ → ℕ → Database → Result (List Key × Database)
unfolding reap_rows affected_runs update_run_states
reap_expired limit now_ms db = do
  let rows = expired_rows now_ms db.jobs
  db' ← reap_rows limit now_ms rows db
  ok (job_ids rows, update_run_states (affected_runs rows) now_ms db')
