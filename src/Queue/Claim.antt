-- ===== src/Queue/Claim.antt =====
-- `claim`: the pending job with the least identifier goes to the worker that asks.
use verifier_ci.Prelude.{
  ℕ, zero, suc, ◌+◌, Bool, true, false, ◌&&◌, Option, none, some, List, [], ◌∷◌, ◌++◌,
  if◌then◌else◌, ◌==◌, leb, count_if, is_some,
}
use verifier_ci.Errors.{ErrorClass}
use verifier_ci.Models.Job.{Key, Job, JobState, is_pending}
use verifier_ci.Models.Attempt.{Validity, Disposition}
use verifier_ci.Queue.Database.{
  Database, AttemptRow, Result, ok, err, out_of_fuel, find_run, find_attempt, update_jobs, has_id,
}
use verifier_ci.Queue.RunState.{update_run_state}

-- The arguments of `claim`, and the two random values that it draws: the identity of the new
-- attempt and the secret lease token.
pub record ClaimRequest : Type 0 where
  pub worker_id : Key
  pub now_ms : ℕ
  pub run_id : Option Key
  pub lease_duration_ms : ℕ
  pub new_attempt_id : Key
  pub new_lease_token : Key

-- `DEFAULT_LEASE_MS`
abbrev pub default_lease_ms : ℕ
default_lease_ms = 30_000

abbrev pub in_run : Option Key → Job → Bool
in_run none j = true
in_run (some run) j = j.run_id == run

abbrev pub is_claimable : Option Key → Job → Bool
is_claimable run j = is_pending j.state && in_run run j

abbrev pub earlier : Job → Option Job → Job
earlier j none = j
earlier j (some k) = if leb j.job_id k.job_id then j else k

-- `SELECT … WHERE p ORDER BY job_id ASC LIMIT 1`
unfoldable pub least_job : (Job → Bool) → List Job → Option Job
least_job p [] = none
least_job p (j ∷ js) = if p j then some (earlier j (least_job p js)) else least_job p js

unfoldable pub run_is_cancelled : Key → Database → Bool
run_is_cancelled run db = elim (find_run run db.runs) [ none ↦ false | some r ↦ r.cancel_requested ]

abbrev pub is_pending_in : Key → Job → Bool
is_pending_in run j = (j.run_id == run) && is_pending j.state

abbrev pub cancelled_job : Job → Job
cancelled_job j = record j { state = JobState.failed; terminal_reason = some "CANCELLED" }

-- The pending jobs of a cancelled run fail.
abbrev pub fail_pending : Key → Database → Database
fail_pending run db = update_jobs (is_pending_in run) cancelled_job db

abbrev pub claimed_job : ClaimRequest → Job → Job → Job
claimed_job r row j = record j {
  state = JobState.claimed;
  fence = row.fence + 1;
  attempt_id = some r.new_attempt_id;
  lease_token = some r.new_lease_token;
  worker_id = some r.worker_id;
  lease_expires_ms = some (r.now_ms + r.lease_duration_ms);
  attempts_started = row.attempts_started + 1;
}

-- The row that `claim` inserts.
abbrev pub new_attempt : ClaimRequest → Job → AttemptRow
new_attempt r row = record {
  attempt_id = r.new_attempt_id;
  job_id = row.job_id;
  fence = row.fence + 1;
  outcome = none;
  evaluation_validity = Validity.pending;
  error_code = none;
  disposition = Disposition.active;
  started_at = r.now_ms;
  finished_at = none;
  exit_code = none;
  stdout_hash = none;
  stderr_hash = none;
  report_digest = none;
  test_collection = [];
  tests_passed = none;
  tests_failed = none;
  resources = none;
  artifact_digests = [];
  capture_truncated = false;
}

-- The job that `claim` returns.
abbrev pub claimed_handle : ClaimRequest → Job → Job
claimed_handle r row = record (claimed_job r row row) {
  selected_attempt_id = none;
  terminal_reason = none;
}

-- The statements behind the UPDATE of the selected row: the INSERT, refused if the attempt
-- identity is taken, and the update of the run.
unfoldable pub grant : ClaimRequest → Job → Database → Result (Option Job × Database)
grant r row db =
    if is_some (find_attempt r.new_attempt_id db.attempts)
    then err ErrorClass.foreign
    else ok (
      some (claimed_handle r row),
      update_run_state row.run_id r.now_ms
          (record (update_jobs (λ j. has_id row.job_id j && is_pending j.state) (claimed_job r row)
            db) { attempts = db.attempts ++ new_attempt r row ∷ [] }),
    )

-- The `while True` loop, with one round of fuel for each pass. A pass goes round again when it met
-- a cancelled run, or when the UPDATE matched no row.
unfoldable pub claim_loop : ℕ → ClaimRequest → Database → Result (Option Job × Database)
unfolding least_job run_is_cancelled grant
claim_loop zero r db = out_of_fuel
claim_loop (suc fuel) r db = elim (least_job (is_claimable r.run_id) db.jobs) [
  | none ↦ ok (none, db)
  | some row ↦ elim (run_is_cancelled row.run_id db) [
    | true ↦ claim_loop fuel r (update_run_state row.run_id r.now_ms (fail_pending row.run_id db))
    | false ↦ elim (count_if (λ j. has_id row.job_id j && is_pending j.state) db.jobs) [
      | zero ↦ claim_loop fuel r db
      | suc _ ↦ grant r row db
    ]
  ]
]

-- A round that goes on has failed a pending job at least, so one round for each, and one more, do.
unfoldable pub claim : ClaimRequest → Database → Result (Option Job × Database)
unfolding claim_loop
claim r db = claim_loop (suc (count_if (λ j. is_pending j.state) db.jobs)) r db
