-- ===== src/Report/Parser.antt =====
-- `PytestReportParser.parse`.
use verifier_ci.Prelude.{Bool, Option, none, some, String, List}
use verifier_ci.Errors.{ErrorCode, value}
use verifier_ci.Models.Capture.{
  Value, Items, TestResult, ParsedOutcome, VerifierManifest, ExecutionCapture,
}
use verifier_ci.Report.Scan.{get_field, scan_tests, Scanned, malformed, raises, scanned}
use verifier_ci.Report.Judge.{invalid_report, judge}

-- The bytes of a report, by what `bytes.strip`, `bytes.decode` and `json.loads` make of them:
-- nothing but white space, no JSON document, or a document.
pub data ReportBytes : Type 0 where
  blank : ReportBytes
  undecodable : ReportBytes
  document : Value → ReportBytes

-- `PARSER_ID`
abbrev pub parser_id : String
parser_id = "pytest-report-v1"

abbrev parser_failure : ParsedOutcome
parser_failure = invalid_report (some (value ErrorCode.parser_error)) none

-- `data.get("tests", [])`
abbrev pub tests_of : Option Value → Option Items
tests_of none = some Items.nil
tests_of (some (Value.array ts)) = some ts
tests_of (some _) = none

abbrev pub finish :
    VerifierManifest → ExecutionCapture → Scanned (List TestResult) → Option ParsedOutcome
finish m capture malformed = some parser_failure
finish m capture raises = none
finish m capture (scanned rs parser_error) = some (judge rs parser_error m capture)

abbrev pub parse_items :
    (String → Bool) → VerifierManifest → ExecutionCapture → Option Items → Option ParsedOutcome
parse_items reads_float m capture none = some parser_failure
parse_items reads_float m capture (some ts) = finish m capture (scan_tests reads_float ts)

abbrev pub parse_document :
    (String → Bool) → VerifierManifest → ExecutionCapture → Value → Option ParsedOutcome
parse_document reads_float m capture (Value.object fs) =
    parse_items reads_float m capture (tests_of (get_field "tests" fs))
parse_document reads_float m capture _ = some parser_failure

-- `none` where an OverflowError leaves the function.
unfoldable pub parse :
    (String → Bool)
    → Option ReportBytes
    → VerifierManifest
    → ExecutionCapture
    → Option ParsedOutcome
unfolding scan_tests judge
parse reads_float none m capture =
    some (invalid_report (some (value ErrorCode.empty_collection)) none)
parse reads_float (some ReportBytes.blank) m capture =
    some (invalid_report (some (value ErrorCode.empty_collection)) none)
parse reads_float (some ReportBytes.undecodable) m capture = some parser_failure
parse reads_float (some (ReportBytes.document v)) m capture = parse_document reads_float m capture v
