-- ===== src/Report/Judge.antt =====
-- The checks of `PytestReportParser.parse` on the results that it has read.
use verifier_ci.Prelude.{
  Bool, true, false, ◌&&◌, ◌||◌, not, Option, none, some, List, [], ◌∷◌, String, map, any, all,
  if◌then◌else◌, str_eq, ltb, count_if, is_empty, list_eq,
}
use verifier_ci.Prelude.Int.{ℤ, pos, int_eq}
use verifier_ci.Prelude.Text.{codes, codes_le}
use verifier_ci.Errors.{ErrorCode, value}
use verifier_ci.Models.Attempt.{Outcome, Validity}
use verifier_ci.Models.Capture.{
  TestResult, TestReport, TestStatus, ParsedOutcome, VerifierManifest, ExecutionCapture, is_passed,
  is_failed, is_skipped,
}

abbrev pub has_text : String → List String → Bool
has_text s xs = any (str_eq s) xs

abbrev pub ids : List TestResult → List String
ids = map (λ r. r.test_id)

abbrev pub subset : List String → List String → Bool
subset xs ys = all (λ x. has_text x ys) xs

abbrev pub insert_text : String → List String → List String
insert_text s [] = s ∷ []
insert_text s (t ∷ ts) = if codes_le (codes s) (codes t) then s ∷ t ∷ ts else t ∷ insert_text s ts

-- `sorted`
unfoldable pub sort_texts : List String → List String
sort_texts [] = []
sort_texts (s ∷ ts) = insert_text s (sort_texts ts)

-- Both comparisons with `manifest.expected_collection`, as sets and as sorted lists; an empty
-- expectation is no expectation.
unfoldable pub collection_differs : List String → List String → Bool
unfolding sort_texts
collection_differs expected observed =
    not (is_empty expected)
    && (not (subset expected observed && subset observed expected)
        || not (list_eq str_eq (sort_texts expected) (sort_texts observed)))

unfoldable pub has_disallowed_skip : VerifierManifest → List TestResult → Bool
has_disallowed_skip m rs =
    any (λ r. is_skipped r.status && not (has_text r.test_id m.permitted_skips)) rs

-- `results_map.get(id)`: of equal identifiers the last result counts.
unfoldable pub last_status : String → List TestResult → Option TestStatus
last_status s [] = none
last_status s (r ∷ rs) = elim (last_status s rs) [
  | some t ↦ some t
  | none ↦ if str_eq r.test_id s then some r.status else none
]

abbrev pub passed_last : List TestResult → String → Bool
passed_last rs s = elim (last_status s rs) [ none ↦ false | some t ↦ is_passed t ]

unfoldable pub has_failures : VerifierManifest → List TestResult → Bool
unfolding last_status
has_failures m rs =
    ltb 0 (count_if (λ r. is_failed r.status) rs) || not (all (passed_last rs) m.required_pass_ids)

-- `exit_code is not None and exit_code != 0`
abbrev pub exit_is_nonzero : Option ℤ → Bool
exit_is_nonzero none = false
exit_is_nonzero (some n) = not (int_eq n (pos 0))

-- `exit_code == 0`
abbrev pub exit_is_zero : Option ℤ → Bool
exit_is_zero none = false
exit_is_zero (some n) = int_eq n (pos 0)

abbrev pub report_of : List TestResult → TestReport
report_of rs = record {
  schema_version = "1.0.0";
  collected_ids = ids rs;
  results = rs;
  completed = true;
  runner_error = none;
}

abbrev pub invalid_report : Option String → Option TestReport → ParsedOutcome
invalid_report code report = record {
  outcome = Outcome.invalid_evaluation;
  evaluation_validity = Validity.invalid;
  error_code = code;
  report = report;
  evidence_digests = [];
}

abbrev pub decision : Outcome → Option String → TestReport → ParsedOutcome
decision o code report = record {
  outcome = o;
  evaluation_validity = Validity.valid;
  error_code = code;
  report = some report;
  evidence_digests = [];
}

abbrev pub exit_report_mismatch : String
exit_report_mismatch = "EXIT_REPORT_MISMATCH"

-- From the collected results on, with the flag `parser_error`.
unfoldable pub judge : List TestResult → Bool → VerifierManifest → ExecutionCapture → ParsedOutcome
unfolding collection_differs has_disallowed_skip has_failures
judge rs parser_error m capture =
    if parser_error
    then invalid_report (some (value ErrorCode.parser_error)) (some (report_of rs))
    else if is_empty rs
    then invalid_report (some (value ErrorCode.empty_collection)) (some (report_of rs))
    else if collection_differs m.expected_collection (ids rs)
    then invalid_report (some (value ErrorCode.collection_mismatch)) (some (report_of rs))
    else if has_disallowed_skip m rs
    then invalid_report (some (value ErrorCode.collection_mismatch)) (some (report_of rs))
    else if not (has_failures m rs) && exit_is_nonzero capture.exit_code
    then invalid_report (some exit_report_mismatch) (some (report_of rs))
    else if has_failures m rs
    then decision Outcome.reject
        (if exit_is_zero capture.exit_code then some exit_report_mismatch else none) (report_of rs)
    else decision Outcome.accept none (report_of rs)
