-- ===== src/Queue/Complete.antt =====
-- `complete` and `_mark_attempt_stale`: how a result becomes authoritative.
use verifier_ci.Prelude.{
  ℕ, Bool, true, false, ◌&&◌, ◌||◌, not, Option, none, some, List, String, if◌then◌else◌, ◌==◌,
  opt_eq, list_eq, str_eq, or_default, contains, is_empty, keep_if,
}
use verifier_ci.Prelude.Int.{int_eq}
use verifier_ci.Prelude.Text.{is_text}
use verifier_ci.Errors.{ErrorClass}
use verifier_ci.Models.Job.{Key, Job, JobState, is_terminal}
use verifier_ci.Models.Attempt.{
  EvaluationAttempt, ResourceUsage, Outcome, Validity, Disposition, outcome_eq, validity_eq,
  resources_eq, is_open, is_non_decision,
}
use verifier_ci.Queue.Database.{
  Database, AttemptRow, Result, ok, err, ◌>>=◌, find_job, find_attempt, update_jobs, has_id,
  update_attempts,
}
use verifier_ci.Queue.RunState.{update_run_state}
use verifier_ci.Queue.Lease.{lease_has_expired, differs_if_known}

pub data Verdict : Type 0 where
  committed duplicate stale : Verdict

-- `dict(model_usage) if model_usage else None`
abbrev pub written_usage : Option (List (Key × ℕ)) → Option (List (Key × ℕ))
written_usage none = none
written_usage (some u) = if is_empty u then none else some u

-- The dictionary that is written as `resources`.
abbrev pub written_resources : ResourceUsage → ResourceUsage
written_resources r = record r { model_usage = written_usage r.model_usage }

-- `_valid_artifact_digest`
abbrev pub valid_artifact_digest : Database → Option Key → Option Key
valid_artifact_digest db none = none
valid_artifact_digest db (some d) = if contains d db.artifacts then some d else none

-- `attempt.outcome if attempt.outcome in ("invalid_evaluation", "error") else None`
abbrev pub stale_outcome : Option Outcome → Option Outcome
stale_outcome o = if is_non_decision o then o else none

abbrev pub stale_row : Database → EvaluationAttempt → ℕ → AttemptRow → AttemptRow
stale_row db attempt now_ms a = record a {
  disposition = Disposition.stale;
  evaluation_validity = Validity.invalid;
  outcome = stale_outcome attempt.outcome;
  error_code = attempt.error_code;
  finished_at = some (or_default attempt.finished_at now_ms);
  exit_code = attempt.exit_code;
  stdout_hash = valid_artifact_digest db attempt.stdout_hash;
  stderr_hash = valid_artifact_digest db attempt.stderr_hash;
  report_digest = valid_artifact_digest db attempt.report_digest;
  test_collection = attempt.test_collection;
  tests_passed = attempt.tests_passed;
  tests_failed = attempt.tests_failed;
  resources = some (written_resources attempt.resources);
  artifact_digests = keep_if (λ d. contains d db.artifacts) attempt.artifact_digests;
  capture_truncated = attempt.capture_truncated;
}

abbrev pub is_open_attempt : EvaluationAttempt → AttemptRow → Bool
is_open_attempt attempt a =
    (a.attempt_id == attempt.attempt_id) && (a.job_id == attempt.job_id) && is_open a.disposition

-- `_mark_attempt_stale` on an attempt: what it captured is kept as quarantined evidence.
unfoldable pub mark_attempt_stale : EvaluationAttempt → ℕ → Database → Result Database
mark_attempt_stale attempt now_ms db =
    update_attempts (is_open_attempt attempt) (stale_row db attempt now_ms) db

-- `_mark_attempt_stale` on the identity of an attempt alone, or on None.
unfoldable pub mark_attempt_id_stale : Option Key → ℕ → Database → Result Database
mark_attempt_id_stale none now_ms db = ok db
mark_attempt_id_stale (some k) now_ms db =
    update_attempts (λ a. (a.attempt_id == k) && is_open a.disposition)
      (λ a. record a {
        disposition = Disposition.stale;
        evaluation_validity = Validity.invalid;
        outcome = none;
        finished_at = some now_ms;
      })
      db

abbrev stored_resources_eq : Option ResourceUsage → ResourceUsage → Bool
stored_resources_eq none r = false
stored_resources_eq (some s) r = resources_eq s (written_resources r)

abbrev bool_eq : Bool → Bool → Bool
bool_eq true b = b
bool_eq false b = not b

-- `matches`: the stored attempt says what the submitted one says.
unfoldable pub attempt_matches : AttemptRow → EvaluationAttempt → Bool
attempt_matches a b =
    opt_eq outcome_eq a.outcome b.outcome
    && validity_eq a.evaluation_validity b.evaluation_validity
    && opt_eq str_eq a.error_code b.error_code
    && opt_eq int_eq a.exit_code b.exit_code
    && opt_eq ◌==◌ a.stdout_hash b.stdout_hash
    && opt_eq ◌==◌ a.stderr_hash b.stderr_hash
    && opt_eq ◌==◌ a.report_digest b.report_digest
    && list_eq str_eq a.test_collection b.test_collection
    && opt_eq ◌==◌ a.tests_passed b.tests_passed
    && opt_eq ◌==◌ a.tests_failed b.tests_failed
    && stored_resources_eq a.resources b.resources
    && list_eq ◌==◌ a.artifact_digests b.artifact_digests
    && bool_eq a.capture_truncated b.capture_truncated

abbrev pub stale_verdict : Result Database → Result (Verdict × Database)
stale_verdict m = m >>= λ db. ok (Verdict.stale, db)

-- Case 1: the job is terminal.
unfoldable pub complete_terminal :
    Job → EvaluationAttempt → ℕ → Database → Result (Verdict × Database)
unfolding attempt_matches mark_attempt_stale
complete_terminal row attempt now_ms db =
    if opt_eq ◌==◌ row.selected_attempt_id (some attempt.attempt_id)
    then elim (find_attempt attempt.attempt_id db.attempts) [
      | none ↦ ok (Verdict.duplicate, db)
      | some a ↦
          if attempt_matches a attempt
          then ok (Verdict.duplicate, db)
          else err ErrorClass.identity_conflict
    ]
    else stale_verdict (mark_attempt_stale attempt now_ms db)

abbrev pub authoritative_row : EvaluationAttempt → ℕ → AttemptRow → AttemptRow
authoritative_row attempt now_ms a = record a {
  outcome = attempt.outcome;
  evaluation_validity = attempt.evaluation_validity;
  error_code = attempt.error_code;
  disposition = Disposition.authoritative;
  finished_at = some (or_default attempt.finished_at now_ms);
  exit_code = attempt.exit_code;
  stdout_hash = attempt.stdout_hash;
  stderr_hash = attempt.stderr_hash;
  report_digest = attempt.report_digest;
  test_collection = attempt.test_collection;
  tests_passed = attempt.tests_passed;
  tests_failed = attempt.tests_failed;
  resources = some (written_resources attempt.resources);
  artifact_digests = attempt.artifact_digests;
  capture_truncated = attempt.capture_truncated;
}

-- `attempt.error_code or "EVALUATION_ERROR"`
abbrev pub failure_reason : Option String → String
failure_reason none = "EVALUATION_ERROR"
failure_reason (some s) = if is_text s then s else "EVALUATION_ERROR"

abbrev pub terminal_job : EvaluationAttempt → Job → Job
terminal_job attempt j = record j {
  state =
      if opt_eq outcome_eq attempt.outcome (some Outcome.error)
      then JobState.failed
      else JobState.done;
  selected_attempt_id = some attempt.attempt_id;
  lease_token = none;
  worker_id = none;
  lease_expires_ms = none;
  terminal_reason =
      if opt_eq outcome_eq attempt.outcome (some Outcome.error)
      then some (failure_reason attempt.error_code)
      else none;
}

-- The identity check of case 3.
unfoldable pub identity_agrees : Job → EvaluationAttempt → Database → Bool
identity_agrees job attempt db = elim (find_attempt attempt.attempt_id db.attempts) [
  | none ↦ false
  | some a ↦
      (a.job_id == job.job_id)
      && (a.fence == job.fence)
      && (attempt.job_id == job.job_id)
      && (attempt.fence == job.fence)
]

-- Case 3: the attempt becomes authoritative and the job terminal.
unfoldable pub commit_attempt : Job → EvaluationAttempt → ℕ → Database → Result (Verdict × Database)
commit_attempt job attempt now_ms db = do
  db' ←
      update_attempts (λ a. a.attempt_id == attempt.attempt_id) (authoritative_row attempt now_ms)
        db
  ok (
    Verdict.committed,
    update_run_state job.run_id now_ms (update_jobs (has_id job.job_id) (terminal_job attempt) db'),
  )

-- Case 2: an expired lease, another fence or token, an attempt that is not the current one.
unfoldable pub lease_is_dead : Job → EvaluationAttempt → ℕ → Job → Bool
lease_is_dead job attempt now_ms row =
    lease_has_expired row now_ms
    || not (row.fence == job.fence)
    || not (opt_eq ◌==◌ row.lease_token job.lease_token)
    || not (opt_eq ◌==◌ row.attempt_id (some attempt.attempt_id))

unfoldable pub complete_row :
    Job → Job → EvaluationAttempt → ℕ → Database → Result (Verdict × Database)
complete_row row job attempt now_ms db =
    if is_terminal row.state
    then complete_terminal row attempt now_ms db
    else if lease_is_dead job attempt now_ms row
    then stale_verdict (mark_attempt_stale attempt now_ms db)
    else if differs_if_known job.worker_id row.worker_id
    then ok (Verdict.stale, db)
    else if identity_agrees job attempt db
    then commit_attempt job attempt now_ms db
    else err ErrorClass.identity_conflict

unfoldable pub complete : Job → EvaluationAttempt → ℕ → Database → Result (Verdict × Database)
complete job attempt now_ms db = elim (find_job job.job_id db.jobs) [
  | none ↦ err ErrorClass.infrastructure_error
  | some row ↦ complete_row row job attempt now_ms db
]
