-- ===== src/Outcomes/Classify.antt =====
-- `parse_capture`: from what a worker captured to an outcome.
use verifier_ci.Prelude.{
  Bool, false, ◌&&◌, ◌||◌, not, Option, none, some, List, [], ◌∷◌, String, if◌then◌else◌, str_eq,
  is_empty,
}
use verifier_ci.Prelude.Text.{in_lower, is_text}
use verifier_ci.Errors.{ErrorCode, value}
use verifier_ci.Models.Job.{Key}
use verifier_ci.Models.Attempt.{Outcome, Validity}
use verifier_ci.Models.Capture.{ExecutionCapture, ParsedOutcome, VerifierManifest}
use verifier_ci.Report.Judge.{exit_is_nonzero}
use verifier_ci.Report.Parser.{ReportBytes, parse, parser_id}

-- The digests that are there.
abbrev present : Option Key → List Key → List Key
present none ks = ks
present (some k) ks = k ∷ ks

abbrev pub evidence_digests : ExecutionCapture → List Key
evidence_digests c = present c.stdout_hash (present c.stderr_hash (present c.report_digest []))

-- A runtime error that counts as a patch error.
unfoldable pub is_patch_error : String → Bool
is_patch_error e =
    str_eq e (value ErrorCode.patch_error)
    || str_eq e (value ErrorCode.protection_error)
    || str_eq e (value ErrorCode.validation_error)
    || in_lower "patch" e

abbrev pub unreported : Outcome → String → ExecutionCapture → ParsedOutcome
unreported o code c = record {
  outcome = o;
  evaluation_validity = Validity.invalid;
  error_code = some code;
  report = none;
  evidence_digests = evidence_digests c;
}

abbrev pub invalid_because : ErrorCode → ExecutionCapture → ParsedOutcome
invalid_because code c = unreported Outcome.invalid_evaluation (value code) c

-- A value that may be None, as a condition.
abbrev pub is_true : Option Bool → Bool
is_true none = false
is_true (some b) = b

unfoldable pub with_evidence : ExecutionCapture → ParsedOutcome → ParsedOutcome
with_evidence c r =
    if is_empty r.evidence_digests && not (is_empty (evidence_digests c))
    then record r { evidence_digests = evidence_digests c }
    else r

abbrev pub dispatched : ExecutionCapture → Option ParsedOutcome → Option ParsedOutcome
dispatched c none = none
dispatched c (some r) = some (with_evidence c r)

-- Steps 2 to 4, when the capture has no runtime error.
unfoldable pub classify_completed :
    (String → Bool)
    → ExecutionCapture
    → VerifierManifest
    → Option ReportBytes
    → Option ParsedOutcome
classify_completed reads_float c m report =
    if exit_is_nonzero c.build_exit_code
    then some (invalid_because ErrorCode.build_error c)
    else if c.cancelled
    then some (invalid_because ErrorCode.cancelled c)
    else if c.timed_out
    then some (invalid_because ErrorCode.timeout c)
    else if is_true c.oom_killed
    then some (invalid_because ErrorCode.resource_exhausted c)
    else if c.truncated
    then some (invalid_because ErrorCode.artifact_limit c)
    else if str_eq m.parser_id parser_id
    then dispatched c (parse reads_float report m c)
    else some (invalid_because ErrorCode.parser_error c)

abbrev pub classify_error : String → ExecutionCapture → ParsedOutcome
classify_error e c =
    if is_patch_error e
    then invalid_because ErrorCode.patch_error c
    else unreported Outcome.error e c

-- `none` where the report parser raises.
unfoldable pub parse_capture :
    (String → Bool)
    → ExecutionCapture
    → VerifierManifest
    → Option ReportBytes
    → Option ParsedOutcome
unfolding classify_completed with_evidence
parse_capture reads_float c m report = elim c.runtime_error [
  | none ↦ classify_completed reads_float c m report
  | some e ↦
      if is_text e then some (classify_error e c) else classify_completed reads_float c m report
]
