-- ===== src/Outcomes/Examples.antt =====
-- A report of one passing and one skipped test, from its bytes to the outcome.
use verifier_ci.Prelude.{◌≡◌, refl, Bool, true, false, none, some, List, [], ◌∷◌, String}
use verifier_ci.Prelude.Int.{pos}
use verifier_ci.Prelude.Text.{in_lower, lower_is, is_blank}
use verifier_ci.Models.Attempt.{Outcome, Validity, Disposition}
use verifier_ci.Models.Attempt.Validation.{check_row}
use verifier_ci.Models.Capture.{
  Value, Items, Fields, Mode, TestResult, TestStatus, ExecutionCapture, ParsedOutcome,
  VerifierManifest,
}
use verifier_ci.Report.Scan.{get_field, status_of, float_limit}
use verifier_ci.Report.Judge.{judge, report_of}
use verifier_ci.Report.Parser.{ReportBytes, parse}
use verifier_ci.Report.Reading.{ReadsReport}
use verifier_ci.Report.Acceptance.{Earned, judge-accept}
use verifier_ci.Outcomes.Classify.{parse_capture, is_patch_error}
use verifier_ci.Outcomes.Precedence.{RanToEnd}
use verifier_ci.Outcomes.Decisions.{parse_capture-accept, parse_capture-check_row}

-- No text of the examples is read as a float.
abbrev reads_none : String → Bool
reads_none _ = false

abbrev test_entry : String → String → Value → Value
test_entry nodeid outcome duration = Value.object (
    Fields.field "nodeid" (Value.text nodeid)
      (Fields.field "outcome" (Value.text outcome) (Fields.field "duration" duration Fields.end)))

abbrev report : Value → ReportBytes
report duration = ReportBytes.document (
    Value.object (
      Fields.field "tests"
        (Value.array (
          Items.cons (test_entry "t::one" "PASSED" duration)
            (Items.cons (test_entry "t::two" "skipped" Value.null) Items.nil)))
        Fields.end))

abbrev manifest : VerifierManifest
manifest = record {
  manifest_hash = 1;
  mode = Mode.compatibility;
  command = "pytest" ∷ [];
  build_command = [];
  expected_collection = "t::two" ∷ "t::one" ∷ [];
  parser_id = "pytest-report-v1";
  report_path = "report.json";
  payload_digest = 2;
  allowed_edit_paths = "src/" ∷ [];
  required_pass_ids = "t::one" ∷ [];
  permitted_skips = "t::two" ∷ [];
  timeout_seconds = 60;
}

abbrev capture : ExecutionCapture
capture = record {
  attempt_id = 1;
  exit_code = some (pos 0);
  timed_out = false;
  oom_killed = none;
  cancelled = false;
  build_exit_code = none;
  stdout_hash = some 11;
  stderr_hash = none;
  report_digest = some 12;
  truncated = false;
  resources = record {
    duration = none;
    allocated_cpu = none;
    cpu_seconds = none;
    peak_memory = none;
    model_usage = none;
    estimated_cost = none;
    pricing_version = none;
    bytes_written = none;
  };
  runtime_error = none;
}

abbrev results : List TestResult
results =
    record {
      test_id = "t::one";
      status = TestStatus.passed;
      duration = some (Value.integer (pos 2));
      failure_digest = none;
    }
    ∷ record {
      test_id = "t::two";
      status = TestStatus.skipped;
      duration = none;
      failure_digest = none;
    }
    ∷ []

abbrev answer : ParsedOutcome
answer = record {
  outcome = Outcome.accept;
  evaluation_validity = Validity.valid;
  error_code = none;
  report = some (report_of results);
  evidence_digests = 11 ∷ 12 ∷ [];
}

judge-accept_example :
    (false ≡ false)
    × ((judge results false manifest capture).report ≡ some (report_of results))
    × Earned results manifest capture
unfolding judge
judge-accept_example = judge-accept results false manifest capture refl

parse_capture-accept_example :
    RanToEnd capture manifest
    × (rs : List TestResult) × ReadsReport (some (report (Value.integer (pos 2)))) rs
    × (answer.report ≡ some (report_of rs))
    × Earned rs manifest capture
unfolding parse_capture parse get_field status_of lower_is is_blank
parse_capture-accept_example =
    parse_capture-accept reads_none capture manifest (some (report (Value.integer (pos 2)))) answer
      refl refl

parse_capture-check_row_example :
    check_row (some Outcome.accept) Validity.valid Disposition.authoritative ≡ true
unfolding parse_capture parse get_field status_of lower_is is_blank
parse_capture-check_row_example =
    parse_capture-check_row reads_none capture manifest (some (report (Value.integer (pos 2))))
      answer refl

-- An integer duration that is too large for a float leaves the parser as an exception.
huge_duration :
    parse reads_none (some (report (Value.integer (pos float_limit)))) manifest capture ≡ none
unfolding parse get_field status_of lower_is is_blank
huge_duration = refl

patch_in_an_error : is_patch_error "Could not apply PATCH" ≡ true
unfolding is_patch_error in_lower
patch_in_an_error = refl
