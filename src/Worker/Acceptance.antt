-- ===== src/Worker/Acceptance.antt =====
-- What stands behind an attempt that a worker commits as accepted.
use verifier_ci.Prelude.{◌≡◌, true, some, List, is_some}
use verifier_ci.Errors.{Fallible, returned, failed}
use verifier_ci.Models.Job.{Job, JobState}
use verifier_ci.Models.Attempt.{EvaluationAttempt}
use verifier_ci.Models.Capture.{VerifierManifest, ExecutionCapture, TestResult, ParsedOutcome}
use verifier_ci.Report.Judge.{ids}
use verifier_ci.Report.Reading.{ReadsReport}
use verifier_ci.Report.Acceptance.{Earned}
use verifier_ci.Outcomes.Precedence.{RanToEnd}
use verifier_ci.Queue.Database.{Database, AttemptRow}
use verifier_ci.Queue.Complete.{terminal_job}
use verifier_ci.Queue.Fencing.{Committed}
use verifier_ci.Sandbox.Prepare.{Workspace}
use verifier_ci.Worker.Resolve.{resolve_manifest}
use verifier_ci.Worker.State.{Host, Shared}
use verifier_ci.Worker.Running.{prepared, Ran, run_commands}
use verifier_ci.Worker.Evaluate.{Collected, Classified, decoded, with_hashes, report_read}
use verifier_ci.Worker.Turn.{Schedule, Beating}
use verifier_ci.Worker.Preparing.{IsPrepared}

abbrev outcome_in : ParsedOutcome → Fallible Classified → ParsedOutcome
outcome_in o (failed e) = o
outcome_in o (returned x) = x.outcome

abbrev capture_in : ExecutionCapture → Fallible Classified → ExecutionCapture
capture_in c (failed e) = c
capture_in c (returned x) = x.capture

-- An accepted attempt that is committed.
pub record Accepted (h : Host) (t : Schedule) (s : Shared) (job : Job) (attempt : EvaluationAttempt)
    (s' : Shared) : Type 0 where
  pub manifest : VerifierManifest
  pub resolves :
      resolve_manifest h.manifest_resolver h.registry job.verifier_key ≡ returned manifest
  pub workspace : Workspace
  pub was_prepared : IsPrepared h s job manifest workspace
  pub ran : Ran
  pub was_run : run_commands h job attempt.attempt_id (prepared manifest workspace) ≡ returned ran
  pub collected : Collected
  pub ran_to_end : RanToEnd (with_hashes ran.capture collected) manifest
  pub has_report : is_some ran.report ≡ true
  pub results : List TestResult
  pub reads : ReadsReport (decoded h (report_read ran.report)) results
  pub earned : Earned results manifest (with_hashes ran.capture collected)
  pub says_tests : attempt.test_collection ≡ ids results
  pub says_none_failed : attempt.tests_failed ≡ some 0
  pub row : Job
  pub stored : AttemptRow
  pub before : Database
  pub commits : Committed job attempt t.complete_at before s'.db row stored
  pub is_done : (terminal_job attempt row).state ≡ JobState.done
