-- ===== src/Models/Capture.antt =====
-- `ExecutionCapture`, `TestResult`, `TestReport` and `ParsedOutcome` of
-- src/verifierci/models/protocol.py, and `VerifierManifest`
-- (src/verifierci/models/verifier.py).
use verifier_ci.Prelude.{ℕ, Bool, true, false, Option, List, String}
use verifier_ci.Prelude.Int.{ℤ}
use verifier_ci.Models.Job.{Key}
use verifier_ci.Models.Attempt.{Outcome, Validity, ResourceUsage}

pub record ExecutionCapture : Type 0 where
  pub attempt_id : Key
  pub exit_code : Option ℤ
  pub timed_out : Bool
  pub oom_killed : Option Bool
  pub cancelled : Bool
  pub build_exit_code : Option ℤ
  pub stdout_hash : Option Key
  pub stderr_hash : Option Key
  pub report_digest : Option Key
  pub truncated : Bool
  pub resources : ResourceUsage
  pub runtime_error : Option String

pub data TestStatus : Type 0 where
  passed failed skipped error : TestStatus

-- A value that `json.loads` returns. An integer is apart from a float, whose value is not read.
mutual
  pub data Value : Type 0 where
    null : Value
    boolean : Bool → Value
    integer : ℤ → Value
    float : ℕ → Value
    text : String → Value
    array : Items → Value
    object : Fields → Value

  pub data Items : Type 0 where
    nil : Items
    cons : Value → Items → Items

  -- The members of an object as they stand in the document.
  pub data Fields : Type 0 where
    end : Fields
    field : String → Value → Fields → Fields

-- `duration` is the value that was converted by `float`.
pub record TestResult : Type 0 where
  pub test_id : String
  pub status : TestStatus
  pub duration : Option Value
  pub failure_digest : Option Key

pub record TestReport : Type 0 where
  pub schema_version : String
  pub collected_ids : List String
  pub results : List TestResult
  pub completed : Bool
  pub runner_error : Option String

pub record ParsedOutcome : Type 0 where
  pub outcome : Outcome
  pub evaluation_validity : Validity
  pub error_code : Option String
  pub report : Option TestReport
  pub evidence_digests : List Key

pub data Mode : Type 0 where
  compatibility blackbox : Mode

pub record VerifierManifest : Type 0 where
  pub manifest_hash : Key
  pub mode : Mode
  pub command : List String
  pub build_command : List String
  pub expected_collection : List String
  pub parser_id : String
  pub report_path : String
  pub payload_digest : Key
  pub allowed_edit_paths : List String
  pub required_pass_ids : List String
  pub permitted_skips : List String
  pub timeout_seconds : ℕ

abbrev pub is_passed : TestStatus → Bool
is_passed TestStatus.passed = true
is_passed _ = false

abbrev pub is_failed : TestStatus → Bool
is_failed TestStatus.failed = true
is_failed _ = false

abbrev pub is_skipped : TestStatus → Bool
is_skipped TestStatus.skipped = true
is_skipped _ = false
