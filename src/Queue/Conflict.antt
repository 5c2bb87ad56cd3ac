-- ===== src/Queue/Conflict.antt =====
-- A result that is submitted again with other evidence.
use verifier_ci.Prelude.{◌≡◌, ◌≢◌, true, Bool, some}
use verifier_ci.Models.Job.{Job}
use verifier_ci.Models.Attempt.{EvaluationAttempt, ResourceUsage}
use verifier_ci.Queue.Database.{Database, AttemptRow}

-- A column in which the stored attempt differs from the submitted one. The times of the attempt, its
-- disposition and its use of models are none of these.
pub data Differs (a : AttemptRow) (b : EvaluationAttempt) : Type 0 where
  in_outcome : a.outcome ≢ b.outcome → Differs a b
  in_validity : a.evaluation_validity ≢ b.evaluation_validity → Differs a b
  in_error_code : a.error_code ≢ b.error_code → Differs a b
  in_exit_code : a.exit_code ≢ b.exit_code → Differs a b
  in_stdout : a.stdout_hash ≢ b.stdout_hash → Differs a b
  in_stderr : a.stderr_hash ≢ b.stderr_hash → Differs a b
  in_report : a.report_digest ≢ b.report_digest → Differs a b
  in_collection : a.test_collection ≢ b.test_collection → Differs a b
  in_passed : a.tests_passed ≢ b.tests_passed → Differs a b
  in_failed : a.tests_failed ≢ b.tests_failed → Differs a b
  in_artifacts : a.artifact_digests ≢ b.artifact_digests → Differs a b
  in_truncation : a.capture_truncated ≢ b.capture_truncated → Differs a b
  in_duration :
      (r : ResourceUsage) → a.resources ≡ some r → r.duration ≢ b.resources.duration → Differs a b
  in_cpu_seconds :
      (r : ResourceUsage)
      → a.resources ≡ some r
      → r.cpu_seconds ≢ b.resources.cpu_seconds
      → Differs a b
  in_peak_memory :
      (r : ResourceUsage)
      → a.resources ≡ some r
      → r.peak_memory ≢ b.resources.peak_memory
      → Differs a b
  in_bytes_written :
      (r : ResourceUsage)
      → a.resources ≡ some r
      → r.bytes_written ≢ b.resources.bytes_written
      → Differs a b

-- A test of equality that says yes to equals only.
abbrev IsSound : {A : Type 0} → (A → A → Bool) → Type 0
IsSound {A} f = (x y : A) → f x y ≡ true → x ≡ y
