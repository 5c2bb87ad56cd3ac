-- ===== src/Worker/Evaluate.antt =====
-- Steps 5 and 6 of `run_one`: the outputs are stored, the outcome is parsed, the attempt is made.
use verifier_ci.Prelude.{
  ℕ, Bool, Option, none, some, List, [], ◌∷◌, ◌++◌, String, if◌then◌else◌, count_if,
}
use verifier_ci.Prelude.Text.{is_text}
use verifier_ci.Errors.{ErrorCode, value, unknown, Fallible, returned, failed}
use verifier_ci.Models.Job.{Key, Job}
use verifier_ci.Models.Attempt.{EvaluationAttempt, Outcome, Validity, Disposition}
use verifier_ci.Models.Capture.{
  ExecutionCapture, TestReport, TestResult, ParsedOutcome, VerifierManifest, is_passed, is_failed,
}
use verifier_ci.Report.Parser.{ReportBytes}
use verifier_ci.Outcomes.Classify.{parse_capture, is_patch_error}
use verifier_ci.Artifacts.Disk.{Bytes}
use verifier_ci.Sandbox.Execute.{take}
use verifier_ci.Worker.State.{Host, Shared, then_with, store_output, output_limit}
use verifier_ci.Worker.Running.{Preparation, Ran, manifest_of, run_commands}

-- A log is stored if it has a byte.
unfoldable pub store_log : Host → String → Option Bytes → Shared → Fallible (Option Key) × Shared
unfolding store_output
store_log h kind none s = (returned none, s)
store_log h kind (some []) s = (returned none, s)
store_log h kind (some (b ∷ bs)) s =
    then_with (store_output h kind "application/octet-stream" (b ∷ bs) s)
      (λ d s'. (returned (some d), s'))

-- The report is stored also when it is empty.
unfoldable pub store_report : Host → Option Bytes → Shared → Fallible (Option Key) × Shared
unfolding store_output
store_report h none s = (returned none, s)
store_report h (some content) s =
    then_with (store_output h "report" "application/json" content s)
      (λ d s'. (returned (some d), s'))

pub record Collected : Type 0 where
  pub stdout_hash : Option Key
  pub stderr_hash : Option Key
  pub report_digest : Option Key
  pub report_bytes : Option Bytes

-- `f.read(max_report_bytes)`
abbrev pub report_read : Option Bytes → Option Bytes
report_read none = none
report_read (some content) = some (take output_limit content)

-- Step 5.
unfoldable pub collect : Host → Ran → Shared → Fallible Collected × Shared
unfolding store_log store_report
collect h r s = then_with (store_log h "stdout" r.stdout_log s) λ out s1.
    then_with (store_log h "stderr" r.stderr_log s1) λ err s2.
      then_with (store_report h (report_read r.report) s2) λ report s3. (
        returned (record {
          stdout_hash = out;
          stderr_hash = err;
          report_digest = report;
          report_bytes = report_read r.report;
        }),
        s3,
      )

abbrev pub listed : Option Key → List Key
listed none = []
listed (some k) = k ∷ []

abbrev pub evidence_of : Collected → List Key
evidence_of c = listed c.stdout_hash ++ (listed c.stderr_hash ++ listed c.report_digest)

abbrev runtime_error_or : Option String → String
runtime_error_or none = value ErrorCode.infrastructure_error
runtime_error_or (some e) = if is_text e then e else value ErrorCode.infrastructure_error

-- The outcome of a job whose manifest could not be resolved.
unfoldable pub unresolved_outcome : ExecutionCapture → List Key → ParsedOutcome
unfolding is_patch_error
unresolved_outcome c evidence =
    let e = runtime_error_or c.runtime_error in
    record {
      outcome = if is_patch_error e then Outcome.invalid_evaluation else Outcome.error;
      evaluation_validity = Validity.invalid;
      error_code = some (if is_patch_error e then value ErrorCode.patch_error else e);
      report = none;
      evidence_digests = evidence;
    }

abbrev pub with_hashes : ExecutionCapture → Collected → ExecutionCapture
with_hashes c k = record c {
  stdout_hash = k.stdout_hash;
  stderr_hash = k.stderr_hash;
  report_digest = k.report_digest;
}

abbrev pub decoded : Host → Option Bytes → Option ReportBytes
decoded h none = none
decoded h (some b) = some (h.decode_report b)

pub record Classified : Type 0 where
  pub capture : ExecutionCapture
  pub outcome : ParsedOutcome

abbrev pub require_parsed : Host → ExecutionCapture → Option ParsedOutcome → Fallible Classified
require_parsed h c none = failed (unknown h.message)
require_parsed h c (some p) = returned (record { capture = c; outcome = p })

-- Step 6. `parse_capture` raises where the float of a duration overflows.
unfoldable pub classify :
    Host → Option VerifierManifest → ExecutionCapture → Collected → Fallible Classified
unfolding parse_capture unresolved_outcome
classify h none c k =
    returned (record { capture = c; outcome = unresolved_outcome c (evidence_of k) })
classify h (some m) c k =
    require_parsed h (with_hashes c k)
      (parse_capture h.reads_float (with_hashes c k) m (decoded h k.report_bytes))

abbrev pub collection_of : Option TestReport → List String
collection_of none = []
collection_of (some r) = r.collected_ids

abbrev pub count_of : (TestResult → Bool) → Option TestReport → Option ℕ
count_of p none = none
count_of p (some r) = some (count_if p r.results)

abbrev pub attempt_of : Host → Key → Job → Bool → Collected → Classified → EvaluationAttempt
attempt_of h attempt_id job lost k x = record {
  attempt_id = attempt_id;
  job_id = job.job_id;
  fence = job.fence;
  outcome = some x.outcome.outcome;
  evaluation_validity = x.outcome.evaluation_validity;
  error_code = x.outcome.error_code;
  disposition = if lost then Disposition.stale else Disposition.authoritative;
  started_at = h.now;
  finished_at = some h.now;
  exit_code = x.capture.exit_code;
  stdout_hash = x.capture.stdout_hash;
  stderr_hash = x.capture.stderr_hash;
  report_digest = x.capture.report_digest;
  test_collection = collection_of x.outcome.report;
  tests_passed = count_of (λ r. is_passed r.status) x.outcome.report;
  tests_failed = count_of (λ r. is_failed r.status) x.outcome.report;
  resources = x.capture.resources;
  artifact_digests = evidence_of k;
  capture_truncated = x.capture.truncated;
}

abbrev pub classified_attempt :
    Host → Key → Job → Bool → Collected → Fallible Classified → Fallible EvaluationAttempt
classified_attempt h attempt_id job lost k (failed e) = failed e
classified_attempt h attempt_id job lost k (returned x) =
    returned (attempt_of h attempt_id job lost k x)

-- Steps 5 and 6 and the attempt. `lost` says that a heartbeat met LeaseLost.
unfoldable pub after_run :
    Host
    → Key
    → Job
    → Bool
    → Option VerifierManifest
    → Shared
    → Fallible Ran
    → Fallible EvaluationAttempt × Shared
unfolding collect classify
after_run h attempt_id job lost m s (failed e) = (failed e, s)
after_run h attempt_id job lost m s (returned r) =
    then_with (collect h r s)
      λ k s'. (classified_attempt h attempt_id job lost k (classify h m r.capture k), s')

-- Steps 4 to 6 and the attempt.
unfoldable pub evaluate :
    Host → Key → Job → Bool → Preparation → Shared → Fallible EvaluationAttempt × Shared
unfolding run_commands after_run
evaluate h attempt_id job lost p s =
    after_run h attempt_id job lost (manifest_of p) s (run_commands h job attempt_id p)
