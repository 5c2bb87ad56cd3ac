-- ===== src/Queue/Resubmission.antt =====
-- A result that is submitted twice: the second submission meets the terminal job.
use verifier_ci.Prelude.{
  ℕ, ◌≡◌, refl, sym, ap, subst, ◌∙◌, true, some, List, [], ◌∷◌, arith, ◌==◌, ==_refl, opt_eq_refl,
  any, all, list_eq_refl, eq_refl, str_eq, if◌then◌else◌,
}
use verifier_ci.Prelude.Int.{int_eq, int_eq_refl}
use verifier_ci.Errors.{ErrorClass}
use verifier_ci.Models.Job.{Key, Job, is_terminal}
use verifier_ci.Models.Attempt.{
  EvaluationAttempt, Outcome, Validity, ResourceUsage, resources_eq, usage_eq, entry_eq, outcome_eq,
  validity_eq,
}
use verifier_ci.Queue.Database.{Database, AttemptRow, ok, err, find_job, find_attempt}
use verifier_ci.Queue.Complete.{
  Verdict, complete, complete_row, complete_terminal, terminal_job, authoritative_row,
  attempt_matches, written_resources,
}
use verifier_ci.Queue.Fencing.{Committed, complete-committed}

outcome_eq_refl : (o : Outcome) → outcome_eq o o ≡ true
outcome_eq_refl Outcome.accept = refl
outcome_eq_refl Outcome.reject = refl
outcome_eq_refl Outcome.invalid_evaluation = refl
outcome_eq_refl Outcome.error = refl
outcome_eq_refl Outcome.flaky = refl

validity_eq_refl : (v : Validity) → validity_eq v v ≡ true
validity_eq_refl Validity.pending = refl
validity_eq_refl Validity.valid = refl
validity_eq_refl Validity.invalid = refl

entries_found :
    (xs ys : List (Key × ℕ))
    → all (λ e. any (entry_eq e) ys) xs ≡ true
    → (y : Key × ℕ) → all (λ e. any (entry_eq e) (y ∷ ys)) xs ≡ true
entries_found [] ys h y = refl
entries_found (x ∷ xs) ys h y = ground (arith, entries_found xs ys (ground arith) y)

all_found : (xs : List (Key × ℕ)) → all (λ e. any (entry_eq e) xs) xs ≡ true
all_found [] = refl
all_found (x ∷ xs) = ground (arith, ==_refl x.0, ==_refl x.1, entries_found xs xs (all_found xs) x)

usage_eq_refl : (xs : List (Key × ℕ)) → usage_eq xs xs ≡ true
usage_eq_refl xs = ground (arith, all_found xs)

resources_eq_refl : (r : ResourceUsage) → resources_eq r r ≡ true
resources_eq_refl r = ground (
  arith,
  opt_eq_refl ◌==◌ ==_refl r.duration,
  opt_eq_refl ◌==◌ ==_refl r.allocated_cpu,
  opt_eq_refl ◌==◌ ==_refl r.cpu_seconds,
  opt_eq_refl ◌==◌ ==_refl r.peak_memory,
  opt_eq_refl usage_eq usage_eq_refl r.model_usage,
  opt_eq_refl str_eq eq_refl r.estimated_cost,
  opt_eq_refl str_eq eq_refl r.pricing_version,
  opt_eq_refl ◌==◌ ==_refl r.bytes_written,
)

-- The evidence that a commit wrote is the evidence that was submitted.
authoritative_row-matches :
    (attempt : EvaluationAttempt) (now : ℕ) (a : AttemptRow)
    → attempt_matches (authoritative_row attempt now a) attempt ≡ true
unfolding attempt_matches
authoritative_row-matches b now a = ground (
  arith,
  opt_eq_refl outcome_eq outcome_eq_refl b.outcome,
  validity_eq_refl b.evaluation_validity,
  opt_eq_refl str_eq eq_refl b.error_code,
  opt_eq_refl int_eq int_eq_refl b.exit_code,
  opt_eq_refl ◌==◌ ==_refl b.stdout_hash,
  opt_eq_refl ◌==◌ ==_refl b.stderr_hash,
  opt_eq_refl ◌==◌ ==_refl b.report_digest,
  list_eq_refl str_eq eq_refl b.test_collection,
  opt_eq_refl ◌==◌ ==_refl b.tests_passed,
  opt_eq_refl ◌==◌ ==_refl b.tests_failed,
  resources_eq_refl (written_resources b.resources),
  list_eq_refl ◌==◌ ==_refl b.artifact_digests,
)

selected_terminal :
    (row : Job) (attempt : EvaluationAttempt) (now : ℕ) (db : Database) (b : AttemptRow)
    → row.selected_attempt_id ≡ some attempt.attempt_id
    → find_attempt attempt.attempt_id db.attempts ≡ some b
    → complete_terminal row attempt now db ≡ (
        if attempt_matches b attempt
        then ok (Verdict.duplicate, db)
        else err ErrorClass.identity_conflict)
unfolding complete_terminal
selected_terminal row attempt now db b selected stored = ground (arith, ==_refl attempt.attempt_id)

terminal_complete :
    (job row : Job) (attempt : EvaluationAttempt) (now : ℕ) (db : Database)
    → find_job job.job_id db.jobs ≡ some row
    → is_terminal row.state ≡ true
    → complete job attempt now db ≡ complete_terminal row attempt now db
unfolding complete complete_row
terminal_complete job row attempt now db found closed = ground arith

terminal_job-closed :
    (attempt : EvaluationAttempt) (row : Job) → is_terminal (terminal_job attempt row).state ≡ true
terminal_job-closed attempt row = ground arith

-- After a commit, the selected attempt may be submitted again by any holder of the job at any time:
-- `complete` compares its content with what is stored and changes nothing.
pub complete_selected :
    (job job' : Job) (attempt attempt' : EvaluationAttempt) (now later : ℕ) (db db' : Database)
    (row : Job) (a : AttemptRow)
    → Committed job attempt now db db' row a
    → job'.job_id ≡ job.job_id
    → attempt'.attempt_id ≡ attempt.attempt_id
    → complete job' attempt' later db' ≡ (
        if attempt_matches (authoritative_row attempt now a) attempt'
        then ok (Verdict.duplicate, db')
        else err ErrorClass.identity_conflict)
complete_selected job job' attempt attempt' now later db db' row a c same_job same_attempt =
    let found =
      subst (λ k. find_job k db'.jobs ≡ some (terminal_job attempt row)) (sym same_job)
        c.job_closed in
    let stored =
      subst (λ k. find_attempt k db'.attempts ≡ some (authoritative_row attempt now a))
        (sym same_attempt) c.attempt_stored in
    terminal_complete job' (terminal_job attempt row) attempt' later db' found
      (terminal_job-closed attempt row)
    ∙ selected_terminal (terminal_job attempt row) attempt' later db'
        (authoritative_row attempt now a) (ap some (sym same_attempt)) stored

-- If `complete` answered `committed`, then the same submission, made again by any holder of the job
-- at any time, answers `duplicate` and changes nothing.
pub complete_again :
    (job job' : Job) (attempt : EvaluationAttempt) (now later : ℕ) (db db' : Database)
    → complete job attempt now db ≡ ok (Verdict.committed, db')
    → job'.job_id ≡ job.job_id
    → complete job' attempt later db' ≡ ok (Verdict.duplicate, db')
complete_again job job' attempt now later db db' h same_job =
    let (row, a, c) = complete-committed job attempt now db db' h in
    complete_selected job job' attempt attempt now later db db' row a c same_job refl
    ∙ rw (authoritative_row-matches attempt now a)
